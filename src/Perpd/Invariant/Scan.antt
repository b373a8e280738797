-- ===== src/Perpd/Invariant/Scan.antt =====
-- perp/perpd.c: the services after `perpd_scan`.
use perp.Common.{
  suc, ◌≡◌, inl, inr, refl, ap, Bool, true, false, none, some, List, [], ◌∷◌, map, length, arith,
  Bool-cases, Option-cases, All, All-append, All-set, All-get_elem?, length-set, length-append, ltb,
  ltb→lt, get_elem?, Bytes, ◌||◌, if◌then◌else◌,
}
use perp.Perpd.Types.{Svdef, Globals, Env, Stat, ForkIsPositive}
use perp.Perpd.Run.Outcome.{IsSupervised}
use perp.Perpd.Svdef.{perpd_svdef_activate}
use perp.Perpd.Cull.{perpd_cull, perpd_lookup}
use perp.Perpd.Scan.{
  perpd_scan, scan_entry, scan_entries, perpd_svdir_stat, scan_service, activate_new, keep, unflag,
  retire, retire_all, scan_later, Listing, perp_max,
}
use perp.Perpd.Supervision.{wantcull-IsSupervised}
use perp.Perpd.Supervision.Activation.{activate-IsSupervised}
use perp.Perpd.Invariant.{FitsVector, FitsVector-if, cull-FitsVector}

pub retire-IsSupervised : (s : Svdef) (g : Globals) → IsSupervised s → IsSupervised (retire s g).0
unfolding retire
retire-IsSupervised s g h = ground (arith, wantcull-IsSupervised s g h)

retire_all-All :
    (l : List Svdef) (g : Globals) → All IsSupervised l → All IsSupervised (retire_all l g).0
unfolding retire_all
retire_all-All [] g h = h
retire_all-All (s ∷ l) g (v, h) = (retire-IsSupervised s g v, retire_all-All l (retire s g).1 h)

unflag-All : (l : List Svdef) → All IsSupervised l → All IsSupervised (map unflag l)
unfolding unflag
unflag-All [] h = tt
unflag-All (s ∷ l) (v, h) = (
  record { main_tended = v.main_tended; log_tended = v.log_tended; no_log_idle = v.no_log_idle },
  unflag-All l h,
)

length-retire_all : (l : List Svdef) (g : Globals) → length (retire_all l g).0 ≡ length l
unfolding retire_all
length-retire_all [] g = refl
length-retire_all (s ∷ l) g = ap suc (length-retire_all l (retire s g).1)

length-unflag : (l : List Svdef) → length (map unflag l) ≡ length l
length-unflag [] = refl
length-unflag (s ∷ l) = ap suc (length-unflag l)

retire_all-FitsVector :
    (l : List Svdef) (g : Globals) → FitsVector l → FitsVector (retire_all l g).0
retire_all-FitsVector l g h = record {
  all_supervised = retire_all-All l g h.all_supervised;
  within = omega (arith, length-retire_all l g, h.within);
}

unflag-FitsVector : (l : List Svdef) → FitsVector l → FitsVector (map unflag l)
unflag-FitsVector l h = record {
  all_supervised = unflag-All l h.all_supervised;
  within = omega (arith, length-unflag l, h.within);
}

module _ {e : Env} (fp : ForkIsPositive e) where
  activate_new-FitsVector :
      (svdir : Bytes) (st : Stat) (l : List Svdef) (g : Globals)
      → FitsVector l
      → FitsVector (activate_new e svdir st l g).0
  unfolding activate_new
  activate_new-FitsVector svdir st l g h = elim (Bool-cases (ltb (length l) perp_max)) [
    | inr full ↦ rw (full, activate_new) h
    | inl free ↦ elim (Option-cases (perpd_svdef_activate e svdir st g).0) [
      | inl lost ↦ rw (free, lost, activate_new) h
      | inr (s, made) ↦
          rw (free, made, activate_new)
            (let v = activate-IsSupervised fp svdir st g made in
              let s' = record s { active = true } in
              let v' : IsSupervised s' = record {
                main_tended = v.main_tended;
                log_tended = v.log_tended;
                no_log_idle = v.no_log_idle;
              } in
              record {
                all_supervised = All-append IsSupervised l (s' ∷ []) h.all_supervised (v', tt);
                within = omega (arith, ltb→lt (length l) perp_max free, length-append l (s' ∷ []));
              })
    ]
  ]

  keep-IsSupervised : (s : Svdef) (svdir : Bytes) → IsSupervised s → IsSupervised (keep s svdir)
  unfolding keep
  keep-IsSupervised s svdir v = record {
    main_tended = v.main_tended;
    log_tended = v.log_tended;
    no_log_idle = v.no_log_idle;
  }

  scan_service-FitsVector :
      (svdir : Bytes) (st : Stat) (l : List Svdef) (g : Globals)
      → FitsVector l
      → FitsVector (scan_service e svdir st l g).0
  unfolding scan_service
  scan_service-FitsVector svdir st l g h =
      elim (Option-cases (perpd_lookup l st.st_dev st.st_ino)) [
        | inl new ↦ rw (new, scan_service) (activate_new-FitsVector svdir st l g h)
        | inr (i, known) ↦ elim (Option-cases (get_elem? l i)) [
          | inl out ↦ rw (known, scan_service, out) (activate_new-FitsVector svdir st l g h)
          | inr (s, at_i) ↦
              rw (known, scan_service, at_i)
                (record {
                  all_supervised = All-set IsSupervised l i (keep s svdir) h.all_supervised (
                      keep-IsSupervised s svdir
                        (All-get_elem? IsSupervised l i h.all_supervised at_i));
                  within = omega (arith, length-set l i (keep s svdir), h.within);
                })
        ]
      ]

  scan_entry-FitsVector :
      (svdir : Bytes) (l : List Svdef) (g : Globals)
      → FitsVector l
      → FitsVector (scan_entry e svdir l g).0
  unfolding scan_entry
  scan_entry-FitsVector svdir l g h = elim (Option-cases (perpd_svdir_stat e svdir g).0) [
    | inl other ↦ rw (other, scan_entry) h
    | inr (st, dir) ↦
        rw (dir, scan_entry) (scan_service-FitsVector svdir st l (perpd_svdir_stat e svdir g).1 h)
  ]

  scan_entries-FitsVector :
      (names : List Bytes) (l : List Svdef) (g : Globals) (fail : Bool)
      → FitsVector l
      → FitsVector (scan_entries e names l g fail).0
  unfolding scan_entries
  scan_entries-FitsVector [] l g fail h = h
  scan_entries-FitsVector (svdir ∷ names) l g fail h =
      let (l', g', f) = scan_entry e svdir l g in
      scan_entries-FitsVector names l' g' (fail || f) (scan_entry-FitsVector svdir l g h)

  -- Where `fork` returns a positive pid to the parent, a scan, whatever the directory holds and
  -- whatever fails on the way, keeps every service supervised and the vector within its 200
  -- places.
  pub scan-FitsVector :
      (dir : Listing) (l : List Svdef) (g : Globals)
      → FitsVector l
      → FitsVector (perpd_scan e dir l g).0
  unfolding perpd_scan
  scan-FitsVector none l g h = h
  scan-FitsVector (some (names, failed)) l g h =
      let h1 = scan_entries-FitsVector names (map unflag l) g false (unflag-FitsVector l h) in
      let (l1, g1, fail) = scan_entries e names (map unflag l) g false in
      let h2 = retire_all-FitsVector l1 g1 h1 in
      let (l2, g2, ready) = retire_all l1 g1 in
      let h3 = FitsVector-if ready (perpd_cull l2 g2) (l2, g2) (cull-FitsVector l2 g2 h2) h2 in
      let (l3, g3) = if ready then perpd_cull l2 g2 else (l2, g2) in
      FitsVector-if failed (l1, scan_later g1) (l3, if fail then scan_later g3 else g3) h1 h3
