-- ===== src/Newenv/Set.antt =====
-- lasagna/newenv/newenv.c: a variable that is set, and those that are there.
use perp.Common.{
  ℕ, ◌+◌, ◌-◌, ◌%◌, ◌≡◌, ◌≢◌, ◌<◌, ◌⊎◌, inl, inr, refl, sym, ◌∙◌, ap, true, false, Option, none,
  some, List, [], ◌∷◌, ◌++◌, append_assoc, Bytes, ◌==◌, length, length-append, take, take-append,
  take-append_less, drop, All, All-append, arith, Bool-cases, Option-cases,
}
use perp.Upak.{at, u64_mod}
use perp.Cstr.{cstr_ncmp, is_same}
use perp.Nextopt.{cstr_pos}
use perp.Perpd.Cull.{last_first}
use perp.Newenv.{merge_at, merge_one, newenv_merge}
use perp.Newenv.Names.{
  IsName, value_in, env_get, ncmp_lem, ncmp_same, pos_lem, value_in-var, value_in_lem, got, missed,
  at_split, Names, Names-other, Near,
}

module _ (name value : Bytes) (is_name : IsName name) where
  -- the string that sets the variable
  abbrev pub var : Bytes
  var = name ++ (b'=' ∷ value)

  -- what is looked up afterwards
  pub record IsMerged (ee ee' : List Bytes) : Type 0 where
    pub gives : env_get name ee' ≡ some value
    pub others : (m : Bytes) → All (λ c. c ≢ b'=') m → m ≢ name → env_get m ee' ≡ env_get m ee

  Names-var : Names name var
  Names-var = (pos_lem name value is_name.1, take-append name (b'=' ∷ value))

  replaced : (e : Bytes) (rest : List Bytes) → Names name e → IsMerged (e ∷ rest) (var ∷ rest)
  replaced e rest names = record {
    gives = got name var rest (value_in-var name value);
    others = λ m plain other.
        missed m var rest (Names-other name m var plain other Names-var)
        ∙ sym (missed m e rest (Names-other name m e plain other names));
  }

  added : IsMerged [] (var ∷ [])
  added = record {
    gives = got name var [] (value_in-var name value);
    others = λ m plain other. missed m var [] (Names-other name m var plain other Names-var);
  }

  passed :
      (e : Bytes) (rest later : List Bytes)
      → value_in name e ≡ none
      → IsMerged rest later
      → IsMerged (e ∷ rest) (e ∷ later)
  passed e rest later nothing h = record {
    gives = missed name e later nothing ∙ h.gives;
    others = λ m plain other. go m (value_in m e) (h.others m plain other);
  }
    where
      go :
          (m : Bytes) (o : Option Bytes)
          → env_get m later ≡ env_get m rest
          → elim o as (λ x. Option Bytes) [ some v ↦ some v | none ↦ env_get m later ]
            ≡ elim o as (λ x. Option Bytes) [ some v ↦ some v | none ↦ env_get m rest ]
      go m none same = same
      go m (some v) same = refl

  not_given :
      (e : Bytes)
      → (cstr_pos e b'=' ≢ length name) ⊎ (is_same (cstr_ncmp var e (length name)) ≡ false)
      → value_in name e ≡ none
  not_given e why = elim (Option-cases (value_in name e)) [
    | inl nothing ↦ nothing
    | inr (w, given) ↦
        let shape = value_in_lem name e w given in
        elim why [
          | inl apart ↦ absurd (apart (ap (λ b. cstr_pos b b'=') shape ∙ pos_lem name w is_name.1))
          | inr differs ↦
              let same : take (length name) e ≡ name =
                ap (take (length name)) shape ∙ take-append name (b'=' ∷ w) in
              let full = ncmp_same var e (length name) (Names-var.1 ∙ sym same) in
              let never : true ≡ false = sym full ∙ differs in cc
        ]
  ]

  not_near_lem :
      (e : Bytes)
      → cstr_pos e b'=' ≡ length name
      → (Near name e → Names name e)
      → is_same (cstr_ncmp var e (length name)) ≡ false
      → is_same (cstr_ncmp var e (length name - 1)) ≡ false
  not_near_lem e pos here differs =
      elim (Bool-cases (is_same (cstr_ncmp var e (length name - 1)))) [
        | inr f ↦ f
        | inl near ↦
            let front : take (length name - 1) e ≡ take (length name - 1) name =
              sym (ncmp_lem var e (length name - 1) near)
              ∙ take-append_less (length name - 1) name (b'=' ∷ value) (omega arith) in
            let (pos1, names) = here (pos, front) in
            let full = ncmp_same var e (length name) (Names-var.1 ∙ sym names) in
            let never : true ≡ false = sym full ∙ differs in cc
      ]

  -- where no string has a name that is as long, and differs in the last character
  merge_at-IsMerged :
      (ee : List Bytes)
      → length name < u64_mod
      → All (λ e. Near name e → Names name e) ee
      → IsMerged ee (merge_at (length name) true var ee)
  unfolding merge_at
  merge_at-IsMerged [] small apart = added
  merge_at-IsMerged (e ∷ rest) small (here, apart) =
      let n = length name in
      let later = merge_at n true var rest in
      let back : (n + u64_mod - 1) % u64_mod ≡ n - 1 = omega (arith, is_name.0, small) in
      let front : take n var ≡ name = Names-var.1 in
      elim (Bool-cases (cstr_pos e b'=' == n)) [
        | inr apart_pos ↦
            let nothing = not_given e (inl (ground (arith, apart_pos))) in
            rw apart_pos (passed e rest later nothing (merge_at-IsMerged rest small apart))
        | inl same_pos ↦ elim (Bool-cases (is_same (cstr_ncmp var e n))) [
          | inl full ↦
              rw (same_pos, full)
                (replaced e rest (ground (arith, same_pos), sym (ncmp_lem var e n full) ∙ front))
          | inr differs ↦
              let nothing = not_given e (inr differs) in
              let not_near : is_same (cstr_ncmp var e ((n + u64_mod - 1) % u64_mod)) ≡ false =
                rw back (not_near_lem e (ground (arith, same_pos)) here differs) in
              rw (same_pos, differs, not_near)
                (passed e rest later nothing (merge_at-IsMerged rest small apart))
        ]
      ]

  -- Where a variable with a name of less than 2 ^ 64 characters is set for a program, and no string of
  -- the environment has a name that is as long and differs in its last character only, the program
  -- finds the value under this name, and under any other name what was there before.
  pub merge-IsMerged :
      (ee : List Bytes)
      → length name < u64_mod
      → All (λ e. Near name e → Names name e) ee
      → IsMerged ee (newenv_merge (var ∷ []) ee)
  unfolding newenv_merge merge_one
  merge-IsMerged ee small apart =
      let pos : cstr_pos var b'=' ≡ length name = Names-var.0 in
      let sets : (at var (length name) == b'=') ≡ true = ground (arith, at_split name value) in
      rw (newenv_merge, merge_one, pos, sets) (merge_at-IsMerged ee small apart)

plain_end :
    (p : Bytes) (c : ℕ) → All (λ b. b ≢ b'=') p → c ≢ b'=' → All (λ b. b ≢ b'=') (p ++ (c ∷ []))
plain_end p c plain other = All-append (λ b. b ≢ b'=') p (c ∷ []) plain (other, tt)

last-injective : (p : Bytes) (c d : ℕ) → p ++ (c ∷ []) ≡ p ++ (d ∷ []) → c ≡ d
last-injective [] c d h = ap (λ b. at b 0) h
last-injective (x ∷ p) c d h = last-injective p c d (ap (λ b. drop 1 b) h)

-- Where the first string of an environment of two or more has a name that is as long as the name of a
-- variable that is set, and differs in its last character only, the program is given the other
-- strings alone: this variable is lost, and the one that is set is not added.
pub merge_loses :
    (p : Bytes) (c d : ℕ) (v w y : Bytes) (ys : List Bytes)
    → All (λ b. b ≢ b'=') p
    → c ≢ b'='
    → d ≢ b'='
    → c ≢ d
    → length p + 1 < u64_mod
    → newenv_merge (((p ++ (c ∷ [])) ++ (b'=' ∷ v)) ∷ []) (((p ++ (d ∷ [])) ++ (b'=' ∷ w)) ∷ y ∷ ys)
      ≡ last_first y ys
unfolding newenv_merge merge_one merge_at
merge_loses p c d v w y ys plain is_c is_d apart small =
    let name = p ++ (c ∷ []) in
    let twin = p ++ (d ∷ []) in
    let n = length name in
    let long : n ≡ length p + 1 = length-append p (c ∷ []) in
    let var_is = name ++ (b'=' ∷ v) in
    let e = twin ++ (b'=' ∷ w) in
    let pos : cstr_pos var_is b'=' ≡ n = pos_lem name v (plain_end p c plain is_c) in
    let pos_e : cstr_pos e b'=' ≡ length twin = pos_lem twin w (plain_end p d plain is_d) in
    let same_pos : (cstr_pos e b'=' == n) ≡ true =
      ground (arith, pos_e, long, length-append p (d ∷ [])) in
    let sets : (at var_is n == b'=') ≡ true = ground (arith, at_split name v) in
    let back : (n + u64_mod - 1) % u64_mod ≡ length p = omega (arith, long, small) in
    let front : take n e ≡ twin =
      ap (λ m. take m e) {x = n} {y = length twin} (omega (arith, long, length-append p (d ∷ [])))
      ∙ take-append twin (b'=' ∷ w) in
    let differs : is_same (cstr_ncmp var_is e n) ≡ false =
      elim (Bool-cases (is_same (cstr_ncmp var_is e n))) [
        | inr f ↦ f
        | inl full ↦ absurd (
            apart (
              last-injective p c d
                (sym (take-append name (b'=' ∷ v)) ∙ (ncmp_lem var_is e n full ∙ front))))
      ] in
    let heads : take (length p) var_is ≡ take (length p) e =
      ap (take (length p)) (append_assoc p (c ∷ []) (b'=' ∷ v))
      ∙ (take-append p ((c ∷ []) ++ (b'=' ∷ v))
          ∙ sym (
              ap (take (length p)) (append_assoc p (d ∷ []) (b'=' ∷ w))
              ∙ take-append p ((d ∷ []) ++ (b'=' ∷ w)))) in
    let near = ncmp_same var_is e (length p) heads in
    rw (newenv_merge, merge_one, pos, sets, merge_at, same_pos, differs, back, near) refl
