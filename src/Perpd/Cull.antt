-- ===== src/Perpd/Cull.antt =====
-- perp/perpd.c: `perpd_cull` and `perpd_lookup` over the vector `svdefs`. The model's list holds
-- its first `nservices` elements, in order.
pub mod Harvest
use perp.Common.{
  ℕ, zero, suc, ◌&&◌, true, false, Option, none, some, List, [], ◌∷◌, ◌==◌, if◌then◌else◌, length,
}
use perp.Perpd.Types.{Svdef, Globals}
use perp.Perpd.Svdef.{perpd_svdef_close, perpd_svdef_cullok}

-- `v[i] = v[--n]`: the last of the elements behind `i` takes its place.
module _ {ℓ} {A : Type ℓ} where
  unfoldable pub last_first : A → List A → List A
  last_first x [] = x ∷ []
  last_first x (y ∷ ys) = elim (last_first y ys) [ [] ↦ x ∷ [] | z ∷ zs ↦ z ∷ x ∷ zs ]

  unfoldable pub fill_gap : List A → List A
  unfolding last_first
  fill_gap [] = []
  fill_gap (x ∷ xs) = last_first x xs

-- The loop at index `i`, over the elements from `i` on; those before it are final. Each round
-- takes one off that list, so its length is fuel enough.
unfoldable pub cull_from : ℕ → List Svdef → Globals → List Svdef × Globals
unfolding fill_gap
cull_from zero l g = (l, g)
cull_from (suc f) [] g = ([], g)
cull_from (suc f) (x ∷ xs) g = elim (perpd_svdef_cullok x) [
  | true ↦ cull_from f (fill_gap xs) (perpd_svdef_close x g)
  | false ↦ let (l, g') = cull_from f xs g in (x ∷ l, g')
]

unfoldable pub perpd_cull : List Svdef → Globals → List Svdef × Globals
unfolding cull_from
perpd_cull l g = cull_from (length l) l g

-- the index of the first definition with this device and inode
unfoldable pub perpd_lookup : List Svdef → ℕ → ℕ → Option ℕ
perpd_lookup [] dev ino = none
perpd_lookup (s ∷ l) dev ino =
    let rest = perpd_lookup l dev ino in
    if s.ino == ino && s.dev == dev
    then some 0
    else elim rest [ none ↦ none | some i ↦ some (suc i) ]
