-- ===== src/Cstr.antt =====
-- lasagna/cstr.h and lasagna/cstr: C strings, as the bytes before the nul.
pub mod Order
pub mod Trim
use perp.Common.{ℕ, zero, suc, Bool, true, false, [], ◌∷◌, Bytes, ltb, ◌==◌, if◌then◌else◌}

-- `cstr_cmp` is negative, zero or positive
pub data Comparison : Type 0 where
  below same above : Comparison

-- The characters compare as unsigned; the nul is below the others.
unfoldable pub cstr_cmp : Bytes → Bytes → Comparison
cstr_cmp [] [] = same
cstr_cmp [] (d ∷ t) = below
cstr_cmp (c ∷ s) [] = above
cstr_cmp (c ∷ s) (d ∷ t) =
    let rest = cstr_cmp s t in if c == d then rest else if ltb c d then below else above

abbrev pub is_below : Comparison → Bool
is_below below = true
is_below same = false
is_below above = false

abbrev pub is_same : Comparison → Bool
is_same below = false
is_same same = true
is_same above = false

-- up to so many characters
unfoldable pub cstr_ncmp : Bytes → Bytes → ℕ → Comparison
cstr_ncmp s t zero = same
cstr_ncmp [] [] (suc n) = same
cstr_ncmp [] (d ∷ t) (suc n) = below
cstr_ncmp (c ∷ s) [] (suc n) = above
cstr_ncmp (c ∷ s) (d ∷ t) (suc n) =
    let rest = cstr_ncmp s t n in if c == d then rest else if ltb c d then below else above
