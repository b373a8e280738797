-- ===== src/Perpd/Invariant/Reap.antt =====
-- perp/perpd.c: the services after `perpd_waitup`.
use perp.Common.{
  ℕ, ◌≡◌, ◌<◌, inl, inr, refl, ◌∙◌, Bool, false, some, List, [], ◌∷◌, length, arith, Option-cases,
  All, All-set, All-get_elem?, length-set, get_elem?, ◌||◌,
}
use perp.Perpd.Types.{Which, main, log, Svdef, subsv, Globals, Env, ForkIsPositive}
use perp.Perpd.Run.Outcome.{IsSupervised, Exists}
use perp.Perpd.Cull.{perpd_cull}
use perp.Perpd.Reap.{find_child, reap, reap_child, reap_all, perpd_waitup}
use perp.Perpd.Supervision.{reap-IsSupervised}
use perp.Perpd.Invariant.{FitsVector, FitsVector-if, cull-FitsVector}

-- `waitpid` returns a positive pid where it returns a child
abbrev pub ArePids : List (ℕ × ℕ) → Type 0
ArePids = All (λ d. 0 < d.0)

-- the child found is the one meant, and its subservice exists
find_child_lem :
    (pid : ℕ) (l : List Svdef) {i : ℕ} {w : Which} {s : Svdef}
    → 0 < pid
    → All IsSupervised l
    → find_child pid l ≡ some (i, w)
    → get_elem? l i ≡ some s
    → Exists s w × ((subsv s w).pid ≡ pid)
unfolding find_child
find_child_lem pid [] h a f g = cc
find_child_lem pid (x ∷ l) {w = main} {s = s} h (v, a) f g =
    elim (Option-cases (find_child pid l)) [
      | inl lost ↦ ground arith
      | inr (r, found) ↦ ground (arith, find_child_lem pid l {i = r.0} {w = main} {s = s} h a)
    ]
find_child_lem pid (x ∷ l) {w = log} {s = s} h (v, a) f g = elim (Option-cases (find_child pid l)) [
  | inl lost ↦ ground arith
  | inr (r, found) ↦ ground (arith, find_child_lem pid l {i = r.0} {w = log} {s = s} h a)
]

module _ {e : Env} (fp : ForkIsPositive e) where
  reap_child-All :
      (pid wstat : ℕ) (l : List Svdef) (g : Globals)
      → 0 < pid
      → All IsSupervised l
      → All IsSupervised (reap_child e pid wstat l g).0
  unfolding reap_child
  reap_child-All pid wstat l g p h = elim (Option-cases (find_child pid l)) [
    | inl lost ↦ rw (lost, reap_child) h
    | inr ((i, w), found) ↦ elim (Option-cases (get_elem? l i)) [
      | inl out ↦ rw (found, reap_child, out) h
      | inr (s, at_i) ↦
          rw (found, reap_child, at_i)
            (All-set IsSupervised l i (reap e s w wstat g).0 h (
              reap-IsSupervised fp s w wstat g (find_child_lem pid l p h found at_i).0
                (All-get_elem? IsSupervised l i h at_i)))
    ]
  ]

  reap_all-All :
      (deaths : List (ℕ × ℕ)) (l : List Svdef) (g : Globals) (cull cycle : Bool)
      → ArePids deaths
      → All IsSupervised l
      → All IsSupervised (reap_all e deaths l g cull cycle).0
  unfolding reap_all
  reap_all-All [] l g cull cycle d h = h
  reap_all-All ((pid, wstat) ∷ deaths) l g cull cycle (p, d) h =
      let (l', g', c, y) = reap_child e pid wstat l g in
      reap_all-All deaths l' g' (cull || c) (cycle || y) d (reap_child-All pid wstat l g p h)

  length-reap_child :
      (pid wstat : ℕ) (l : List Svdef) (g : Globals)
      → length (reap_child e pid wstat l g).0 ≡ length l
  unfolding reap_child
  length-reap_child pid wstat l g = elim (Option-cases (find_child pid l)) [
    | inl lost ↦ rw (lost, reap_child)
    | inr ((i, w), found) ↦ elim (Option-cases (get_elem? l i)) [
      | inl out ↦ rw (found, reap_child, out)
      | inr (s, at_i) ↦ rw (found, reap_child, at_i) (length-set l i (reap e s w wstat g).0)
    ]
  ]

  length-reap_all :
      (deaths : List (ℕ × ℕ)) (l : List Svdef) (g : Globals) (cull cycle : Bool)
      → length (reap_all e deaths l g cull cycle).0 ≡ length l
  unfolding reap_all
  length-reap_all [] l g cull cycle = refl
  length-reap_all ((pid, wstat) ∷ deaths) l g cull cycle =
      let (l', g', c, y) = reap_child e pid wstat l g in
      length-reap_all deaths l' g' (cull || c) (cycle || y) ∙ length-reap_child pid wstat l g

  pub waitup-FitsVector :
      (deaths : List (ℕ × ℕ)) (l : List Svdef) (g : Globals)
      → ArePids deaths
      → FitsVector l
      → FitsVector (perpd_waitup e deaths l g).0
  unfolding perpd_waitup
  waitup-FitsVector deaths l g d h =
      let (l1, g1, cull, cycle) = reap_all e deaths l g false false in
      let h1 : FitsVector l1 = record {
        all_supervised = reap_all-All deaths l g false false d h.all_supervised;
        within = omega (arith, length-reap_all deaths l g false false, h.within);
      } in
      FitsVector-if cull (perpd_cull l1 g1) (l1, g1) (cull-FitsVector l1 g1 h1) h1
