-- ===== src/Cstr/Trim.antt =====
-- lasagna/cstr/cstr_trim.c, cstr_ltrim.c and cstr_rtrim.c: white space at the ends of a string.
use perp.Common.{
  ℕ, ◌≡◌, refl, ap, Bool, ◌&&◌, false, [], ◌∷◌, Bytes, ◌==◌, if◌then◌else◌, length, All, arith,
}

abbrev pub is_empty : Bytes → Bool
is_empty s = length s == 0

module _ (isspace : ℕ → Bool) where
  abbrev pub cstr_ltrim : Bytes → Bytes
  cstr_ltrim [] = []
  cstr_ltrim (c ∷ s) = if isspace c then cstr_ltrim s else c ∷ s

  -- the first character is never cut
  abbrev pub cut_spaces : Bytes → Bytes
  cut_spaces [] = []
  cut_spaces (c ∷ s) =
      let rest = cut_spaces s in if is_empty rest && isspace c then [] else c ∷ rest

  abbrev pub cstr_rtrim : Bytes → Bytes
  cstr_rtrim [] = []
  cstr_rtrim (c ∷ s) = c ∷ cut_spaces s

  abbrev pub cstr_trim : Bytes → Bytes
  cstr_trim s = cstr_ltrim (cstr_rtrim s)

  -- a string with no white space in it
  abbrev pub IsSolid : Bytes → Type 0
  IsSolid s = All (λ c. isspace c ≡ false) s

  pub ltrim_solid : (s : Bytes) → IsSolid s → cstr_ltrim s ≡ s
  ltrim_solid [] h = refl
  ltrim_solid (c ∷ s) (first, h) = rw first refl

  cut_solid : (s : Bytes) → IsSolid s → cut_spaces s ≡ s
  cut_solid [] h = refl
  cut_solid (c ∷ s) (first, h) = ground (arith, first, cut_solid s h)

  pub rtrim_solid : (s : Bytes) → IsSolid s → cstr_rtrim s ≡ s
  rtrim_solid [] h = refl
  rtrim_solid (c ∷ s) (first, h) = ap (λ t. c ∷ t) (cut_solid s h)

  pub trim_solid : (s : Bytes) → IsSolid s → cstr_trim s ≡ s
  trim_solid s h = rw (rtrim_solid s h) (ltrim_solid s h)
