-- ===== src/Cstr/Order.antt =====
-- lasagna/cstr/cstr_cmp.c: the comparison is a linear order.
use perp.Common.{◌≡◌, refl, true, false, [], ◌∷◌, Bytes, arith}
use perp.Cstr.{same, cstr_cmp, is_below}

pub cstr_cmp_refl : (s : Bytes) → cstr_cmp s s ≡ same
unfolding cstr_cmp
cstr_cmp_refl [] = refl
cstr_cmp_refl (c ∷ s) = ground (arith, cstr_cmp_refl s)

-- 0 is returned for equal strings only
pub cstr_cmp-eq : (s t : Bytes) → cstr_cmp s t ≡ same → s ≡ t
unfolding cstr_cmp
cstr_cmp-eq [] [] h = refl
cstr_cmp-eq [] (d ∷ t) h = cc
cstr_cmp-eq (c ∷ s) [] h = cc
cstr_cmp-eq (c ∷ s) (d ∷ t) h = ground (arith, cstr_cmp-eq s t)

pub below_asym : (s t : Bytes) → is_below (cstr_cmp s t) ≡ true → is_below (cstr_cmp t s) ≡ false
unfolding cstr_cmp
below_asym [] [] h = cc
below_asym [] (d ∷ t) h = refl
below_asym (c ∷ s) [] h = cc
below_asym (c ∷ s) (d ∷ t) h = ground (arith, below_asym s t)

-- Not being below goes along a chain.
pub below_chain :
    (s t u : Bytes)
    → is_below (cstr_cmp s t) ≡ false
    → is_below (cstr_cmp t u) ≡ false
    → is_below (cstr_cmp s u) ≡ false
unfolding cstr_cmp
below_chain [] [] [] h k = refl
below_chain [] [] (e ∷ u) h k = cc
below_chain [] (d ∷ t) u h k = cc
below_chain (c ∷ s) t [] h k = refl
below_chain (c ∷ s) [] (e ∷ u) h k = cc
below_chain (c ∷ s) (d ∷ t) (e ∷ u) h k = ground (arith, below_chain s t u)
