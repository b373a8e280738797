-- ===== src/Perpd/Scan.antt =====
-- perp/perpd.c: `perpd_svdir_stat` and `perpd_scan`.
use perp.Common.{
  ℕ, Bool, true, false, not, ◌||◌, ◌&&◌, Option, none, some, List, [], ◌∷◌, ◌++◌, map, Bytes, ltb,
  ◌==◌, if◌then◌else◌, length, get_elem?, set,
}
use perp.Tain.{Tain}
use perp.Perpd.Types.{Svdef, Globals, Env, Stat, sleep, emit, asked}
use perp.Perpd.Run.{trigger_scan}
use perp.Perpd.Svdef.{
  perpd_svdef_activate, perpd_svdef_keep, perpd_svdef_wantcull, perpd_svdef_cullok,
}
use perp.Perpd.Cull.{perpd_cull, perpd_lookup}

abbrev pub perp_max : ℕ
perp_max = 200

-- the brief pause on an exceptional error
abbrev pub epause : Tain
epause = record { sec = 0; nsec = 555444321 }

abbrev pub is_hidden : Bytes → Bool
is_hidden [] = false
is_hidden (c ∷ name) = c == b'.'

abbrev pub service_dir : Option Stat → Option Stat
service_dir none = none
service_dir (some st) = if st.is_dir && st.is_sticky then some st else none

-- what an entry that is a known service becomes
unfoldable pub keep : Svdef → Bytes → Svdef
unfolding perpd_svdef_keep
keep s svdir = record (perpd_svdef_keep s svdir) { cycle = s.cycle || s.cull }

module _ (e : Env) where
  unfoldable pub perpd_svdir_stat : Bytes → Globals → Option Stat × Globals
  perpd_svdir_stat name g =
      if is_hidden name then (none, g) else (service_dir (e.stat g.calls name), asked g)

  -- one new service; the Boolean is `got_fail`
  unfoldable pub activate_new : Bytes → Stat → List Svdef → Globals → List Svdef × Globals × Bool
  activate_new svdir st l g =
      let (o, g') = perpd_svdef_activate e svdir st g in
      if not (ltb (length l) perp_max) then (l, g, true) else elim o [
        | none ↦ (l, g', true)
        | some s ↦ (l ++ (record s { active = true } ∷ []), g', false)
      ]

  -- an entry that is a service directory
  unfoldable pub scan_service : Bytes → Stat → List Svdef → Globals → List Svdef × Globals × Bool
  unfolding activate_new keep
  scan_service svdir st l g = elim (perpd_lookup l st.st_dev st.st_ino) [
    | none ↦ activate_new svdir st l g
    | some i ↦ elim (get_elem? l i) [
      | none ↦ activate_new svdir st l g
      | some s ↦ (set l i (keep s svdir), g, false)
    ]
  ]

  unfoldable pub scan_entry : Bytes → List Svdef → Globals → List Svdef × Globals × Bool
  unfolding perpd_svdir_stat scan_service
  scan_entry svdir l g =
      let (o, g') = perpd_svdir_stat svdir g in
      elim o [ none ↦ (l, g', false) | some st ↦ scan_service svdir st l g' ]

  -- the loop over the directory
  unfoldable pub scan_entries :
      List Bytes → List Svdef → Globals → Bool → List Svdef × Globals × Bool
  unfolding scan_entry
  scan_entries [] l g fail = (l, g, fail)
  scan_entries (svdir ∷ names) l g fail =
      let (l', g', f) = scan_entry svdir l g in scan_entries names l' g' (fail || f)

unfoldable pub unflag : Svdef → Svdef
unflag s = record s { active = false }

-- A service that the scan did not find; the Boolean says that it is ready for the harvest.
unfoldable pub retire : Svdef → Globals → Svdef × Globals × Bool
retire s g =
    let (w, gw, ready) = perpd_svdef_wantcull s g in
    let stopped = record s { cycle = false } in
    if s.active
    then (s, g, false)
    else if s.cull
    then (stopped, g, perpd_svdef_cullok stopped)
    else (w, gw, ready)

unfoldable pub retire_all : List Svdef → Globals → List Svdef × Globals × Bool
unfolding retire
retire_all [] g = ([], g, false)
retire_all (s ∷ l) g =
    let (s', g1, ready) = retire s g in
    let (l', g2, more) = retire_all l g1 in (s' ∷ l', g2, ready || more)

-- a pause and another scan
unfoldable pub scan_later : Globals → Globals
unfolding trigger_scan
scan_later g = trigger_scan (emit (sleep epause) g)

-- What the base directory holds: its names, and whether `readdir` failed behind them; `none` if
-- it cannot be opened.
abbrev pub Listing : Type 0
Listing = Option (List Bytes × Bool)

module _ (e : Env) where
  unfoldable pub perpd_scan : Listing → List Svdef → Globals → List Svdef × Globals
  unfolding scan_entries retire_all scan_later unflag
  perpd_scan none l g = (l, g)
  perpd_scan (some (names, readdir_failed)) l g =
      let (l1, g1, fail) = scan_entries e names (map unflag l) g false in
      let (l2, g2, ready) = retire_all l1 g1 in
      let culled = perpd_cull l2 g2 in
      let (l3, g3) = if ready then culled else (l2, g2) in
      if readdir_failed then (l1, scan_later g1) else (l3, if fail then scan_later g3 else g3)
