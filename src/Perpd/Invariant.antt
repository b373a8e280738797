-- ===== src/Perpd/Invariant.antt =====
-- perp/perpd.c: the services in their vector.
pub mod Reap
pub mod Scan
use perp.Common.{
  ℕ, zero, suc, ◌≤◌, inl, inr, Bool, true, false, List, [], ◌∷◌, length, arith, Bool-cases, All,
  if◌then◌else◌,
}
use perp.Perpd.Types.{Svdef, Globals}
use perp.Perpd.Run.Outcome.{IsSupervised}
use perp.Perpd.Svdef.{perpd_svdef_close, perpd_svdef_cullok}
use perp.Perpd.Cull.{last_first, fill_gap, cull_from, perpd_cull}
use perp.Perpd.Cull.Harvest.{cull_from_ready, cull_from_kept, length-fill_gap}
use perp.Perpd.Scan.{perp_max}

module _ {ℓ κ} {A : Type ℓ} (P : A → Type κ) where
  All-last_first : (x : A) (l : List A) → P x → All P l → All P (last_first x l)
  unfolding last_first
  All-last_first x [] p h = (p, tt)
  All-last_first x (y ∷ ys) p (q, h) = go (last_first y ys) (All-last_first y ys q h)
    where
      go : (t : List A) → All P t → All P (elim t [ [] ↦ x ∷ [] | z ∷ zs ↦ z ∷ x ∷ zs ])
      go [] h' = (p, tt)
      go (z ∷ zs) (r, h') = (r, (p, h'))

  pub All-fill_gap : (l : List A) → All P l → All P (fill_gap l)
  unfolding fill_gap
  All-fill_gap [] h = tt
  All-fill_gap (x ∷ xs) (p, h) = All-last_first x xs p h

module _ {κ} (P : Svdef → Type κ) where
  cull_from-All : (f : ℕ) (l : List Svdef) (g : Globals) → All P l → All P (cull_from f l g).0
  cull_from-All zero l g h = unfold cull_from in h
  cull_from-All (suc f) [] g h = unfold cull_from in tt
  cull_from-All (suc f) (x ∷ xs) g (p, h) = elim (Bool-cases (perpd_svdef_cullok x)) [
    | inl ready ↦
        rw (cull_from_ready f x xs g ready)
          (cull_from-All f (fill_gap xs) (perpd_svdef_close x g) (All-fill_gap P xs h))
    | inr kept ↦ rw (cull_from_kept f x xs g kept) (p, cull_from-All f xs g h)
  ]

  pub cull-All : (l : List Svdef) (g : Globals) → All P l → All P (perpd_cull l g).0
  unfolding perpd_cull
  cull-All l g h = cull_from-All (length l) l g h

length-cull_from : (f : ℕ) (l : List Svdef) (g : Globals) → length (cull_from f l g).0 ≤ length l
length-cull_from zero l g = unfold cull_from in omega arith
length-cull_from (suc f) [] g = unfold cull_from in omega arith
length-cull_from (suc f) (x ∷ xs) g = elim (Bool-cases (perpd_svdef_cullok x)) [
  | inl ready ↦
      rw (cull_from_ready f x xs g ready) (
        omega (arith, length-cull_from f (fill_gap xs) (perpd_svdef_close x g), length-fill_gap xs))
  | inr kept ↦ rw (cull_from_kept f x xs g kept) (omega (arith, length-cull_from f xs g))
]

pub length-cull : (l : List Svdef) (g : Globals) → length (perpd_cull l g).0 ≤ length l
unfolding perpd_cull
length-cull l g = length-cull_from (length l) l g

-- what a scan keeps: the services are supervised, and fit the vector
pub record FitsVector (l : List Svdef) : Type 0 where
  pub all_supervised : All IsSupervised l
  pub within : length l ≤ perp_max

pub FitsVector-if {ℓ} :
    {B : Type ℓ} (b : Bool) (r r' : List Svdef × B)
    → FitsVector r.0
    → FitsVector r'.0
    → FitsVector (if b then r else r').0
FitsVector-if true r r' h h' = h
FitsVector-if false r r' h h' = h'

pub cull-FitsVector : (l : List Svdef) (g : Globals) → FitsVector l → FitsVector (perpd_cull l g).0
cull-FitsVector l g h = record {
  all_supervised = cull-All IsSupervised l g h.all_supervised;
  within = omega (arith, length-cull l g, h.within);
}
