-- ===== src/Newenv/Names.antt =====
-- lasagna/newenv/newenv.c: the strings of an environment, and the names that they stand for.
use perp.Common.{
  ℕ, zero, suc, ◌-◌, ◌≡◌, ◌≢◌, ◌<◌, inl, inr, refl, sym, ◌∙◌, ap, true, Option, none, some, List,
  [], ◌∷◌, ◌++◌, Bytes, ◌==◌, if◌then◌else◌, length, take, take-append, All, arith, Option-cases,
}
use perp.Upak.{at}
use perp.Cstr.{cstr_ncmp, is_same}
use perp.Nextopt.{cstr_pos}

-- a name is not empty and has no `=`
abbrev pub IsName : Bytes → Type 0
IsName name = (0 < length name) × All (λ c. c ≢ b'=') name

-- the value that a string gives to a name, and the first in an environment that does
abbrev pub value_in : Bytes → Bytes → Option Bytes
value_in [] [] = none
value_in [] (c ∷ e) = if c == b'=' then some e else none
value_in (n ∷ name) [] = none
value_in (n ∷ name) (c ∷ e) = if n == c then value_in name e else none

abbrev pub env_get : Bytes → List Bytes → Option Bytes
env_get name [] = none
env_get name (e ∷ ee) = elim (value_in name e) [ some v ↦ some v | none ↦ env_get name ee ]

pub ncmp_lem : (s t : Bytes) (n : ℕ) → is_same (cstr_ncmp s t n) ≡ true → take n s ≡ take n t
unfolding cstr_ncmp
ncmp_lem s t zero h = refl
ncmp_lem [] [] (suc n) h = refl
ncmp_lem [] (d ∷ t) (suc n) h = cc
ncmp_lem (c ∷ s) [] (suc n) h = cc
ncmp_lem (c ∷ s) (d ∷ t) (suc n) h = ground (arith, h, ncmp_lem s t n)

pub ncmp_same : (s t : Bytes) (n : ℕ) → take n s ≡ take n t → is_same (cstr_ncmp s t n) ≡ true
unfolding cstr_ncmp
ncmp_same s t zero h = refl
ncmp_same [] [] (suc n) h = refl
ncmp_same [] (d ∷ t) (suc n) h = cc
ncmp_same (c ∷ s) [] (suc n) h = cc
ncmp_same (c ∷ s) (d ∷ t) (suc n) h = ground (arith, h, ncmp_same s t n)

pub pos_lem :
    (name value : Bytes)
    → All (λ c. c ≢ b'=') name
    → cstr_pos (name ++ (b'=' ∷ value)) b'=' ≡ length name
pos_lem [] value h = ground arith
pos_lem (n ∷ name) value (other, h) = ground (arith, other, pos_lem name value h)

pub value_in-var : (name value : Bytes) → value_in name (name ++ (b'=' ∷ value)) ≡ some value
value_in-var [] value = ground arith
value_in-var (n ∷ name) value = ground (arith, value_in-var name value)

pub value_in_lem : (name e w : Bytes) → value_in name e ≡ some w → e ≡ name ++ (b'=' ∷ w)
value_in_lem [] [] w h = cc
value_in_lem [] (c ∷ e) w h = ground (arith, h)
value_in_lem (n ∷ name) [] w h = cc
value_in_lem (n ∷ name) (c ∷ e) w h = ground (arith, h, value_in_lem name e w)

pub got :
    (name e : Bytes) (ee : List Bytes) {w : Bytes}
    → value_in name e ≡ some w
    → env_get name (e ∷ ee) ≡ some w
got name e ee h =
    ap (λ o. elim o as (λ x. Option Bytes) [ some v ↦ some v | none ↦ env_get name ee ]) h

pub missed :
    (name e : Bytes) (ee : List Bytes)
    → value_in name e ≡ none
    → env_get name (e ∷ ee) ≡ env_get name ee
missed name e ee h =
    ap (λ o. elim o as (λ x. Option Bytes) [ some v ↦ some v | none ↦ env_get name ee ]) h

pub at_split : (name value : Bytes) → at (name ++ (b'=' ∷ value)) (length name) ≡ b'='
at_split [] value = refl
at_split (n ∷ name) value = at_split name value

-- A string that stands for this name: up to its first `=`, if any, it is the name.
abbrev pub Names : Bytes → Bytes → Type 0
Names name e = (cstr_pos e b'=' ≡ length name) × (take (length name) e ≡ name)

-- A string that stands for one name gives no value to another.
pub Names-other :
    (name m e : Bytes) → All (λ c. c ≢ b'=') m → m ≢ name → Names name e → value_in m e ≡ none
Names-other name m e plain other (pos, front) = elim (Option-cases (value_in m e)) [
  | inl nothing ↦ nothing
  | inr (w, gives) ↦
      let shape = value_in_lem m e w gives in
      let count : length m ≡ length name =
        sym (pos_lem m w plain) ∙ (ap (λ b. cstr_pos b b'=') (sym shape) ∙ pos) in
      let same : m ≡ name =
        sym (take-append m (b'=' ∷ w))
        ∙ (ap (λ n. take n (m ++ (b'=' ∷ w))) count
            ∙ (ap (take (length name)) (sym shape) ∙ front)) in
      absurd (other same)
]

-- A string whose name is as long as this one, and the same but for its last character, if that.
abbrev pub Near : Bytes → Bytes → Type 0
Near name e =
    (cstr_pos e b'=' ≡ length name) × (take (length name - 1) e ≡ take (length name - 1) name)
