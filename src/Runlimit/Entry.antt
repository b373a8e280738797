-- ===== src/Runlimit/Entry.antt =====
-- runtools/runlimit.c: what becomes of an entry of the table when one is set.
use mathlib.Core.Option.{some-injective}
use mathlib.Core.Path.{subst}
use perp.Common.{
  ℕ, zero, suc, ◌+◌, ◌≡◌, ◌≢◌, ◌<◌, inl, inr, refl, sym, ◌∙◌, ap, Bool, true, false, Option, none,
  some, List, [], ◌∷◌, Bytes, ltb, ◌==◌, if◌then◌else◌, length, get_or, set, length-set, arith,
  Bool-cases, Option-cases,
}
use perp.Cstr.Trim.{is_empty}
use perp.Runlimit.{
  Limit, limit_names, unset, runlimit_ndx, soft_limit, setup, runlimit_setup_ndx, skip, bad, assign,
  parse_line,
}

get_or-set {ℓ} :
    {A : Type ℓ} (xs : List A) (i j : ℕ) (v d : A)
    → j < length xs
    → get_or (set xs i v) j d ≡ (if i == j then v else get_or xs j d)
get_or-set [] i j v d h = absurd (omega (arith, h))
get_or-set (x ∷ xs) zero zero v d h = ground arith
get_or-set (x ∷ xs) zero (suc j) v d h = ground arith
get_or-set (x ∷ xs) (suc i) zero v d h = ground arith
get_or-set (x ∷ xs) (suc i) (suc j) v d h = ground (arith, get_or-set xs i j v d (omega (arith, h)))

-- one source before another
abbrev pub or_else : Option Bytes → Option Bytes → Option Bytes
or_else (some a) o = some a
or_else none o = o

-- the argument of the last option for an entry
abbrev pub last_option : List (Bytes × Bytes) → ℕ → Option Bytes
last_option [] ndx = none
last_option ((name, arg) ∷ opts) ndx =
    or_else (last_option opts ndx)
      (elim (runlimit_ndx name) [ none ↦ none | some i ↦ if i == ndx then some arg else none ])

pub or_else_assoc : (a b c : Option Bytes) → or_else (or_else a b) c ≡ or_else a (or_else b c)
or_else_assoc none b c = refl
or_else_assoc (some x) b c = refl

pub or_else-none : (a : Option Bytes) → or_else a none ≡ a
or_else-none none = refl
or_else-none (some x) = refl

module _ (rlimit_lookup : Bytes → Option ℕ) (getrlimit : ℕ → Option ℕ) (isspace : ℕ → Bool) where
  -- the value of the first line for an entry
  abbrev pub first_line : List Bytes → ℕ → Option Bytes
  first_line [] ndx = none
  first_line (s ∷ lines) ndx = elim (parse_line rlimit_lookup getrlimit isspace s) [
    | skip ↦ first_line lines ndx
    | bad ↦ first_line lines ndx
    | assign i val ↦ or_else (if i == ndx then some val else none) (first_line lines ndx)
  ]

  -- what the environment gives for an entry, looked at from one on
  abbrev pub environment_at : ℕ → List Bytes → (Bytes → Option Bytes) → ℕ → Option Bytes
  environment_at i [] getenv ndx = none
  environment_at i (name ∷ names) getenv ndx =
      or_else (if i == ndx then getenv name else none) (environment_at (suc i) names getenv ndx)

  behind :
      (i : ℕ) (names : List Bytes) (getenv : Bytes → Option Bytes) (ndx : ℕ)
      → ndx < i
      → environment_at i names getenv ndx ≡ none
  behind i [] getenv ndx h = refl
  behind i (name ∷ names) getenv ndx h =
      ground (arith, h, behind (suc i) names getenv ndx (omega (arith, h)))

  pub environment_at_lem :
      (i k : ℕ) (names : List Bytes) (getenv : Bytes → Option Bytes)
      → k < length names
      → environment_at i names getenv (i + k) ≡ getenv (get_or names k [])
  environment_at_lem i k [] getenv h = absurd (omega (arith, h))
  environment_at_lem i zero (name ∷ names) getenv h =
      rw (behind (suc i) names getenv (i + 0) (omega arith))
        (ground (arith, or_else-none (getenv name)))
  environment_at_lem i (suc k) (name ∷ names) getenv h =
      let apart : (i == i + suc k) ≡ false = ground arith in
      rw apart (
        ap (environment_at (suc i) names getenv) {x = i + suc k} {y = suc i + k} (omega arith)
        ∙ environment_at_lem (suc i) k names getenv (omega (arith, h)))

  -- the resource of an entry, with its hard limit
  module _ (ndx id hard : ℕ) (known : rlimit_lookup (get_or limit_names ndx []) ≡ some id)
      (is_hard : getrlimit id ≡ some hard) (in_table : ndx < 11) where
    -- what an entry holds where it was set from this argument, or not at all
    abbrev pub Entry : Option Bytes → Limit → Type 0
    Entry none l = l ≡ unset
    Entry (some arg) l =
        (0 < l.is_set) × (soft_limit arg hard ≡ some l.rl_soft) × (l.rl_hard ≡ hard) × (l.id ≡ id)

    pub record IsFrom (o : Option Bytes) (t : List Limit) : Type 0 where
      pub as_long : length t ≡ 11
      pub entry : Entry o (get_or t ndx unset)

    pub setup-same :
        (arg : Bytes) (o : Option Bytes) (t : List Limit) {t' : List Limit}
        → IsFrom o t
        → setup rlimit_lookup getrlimit isspace ndx arg t ≡ some t'
        → IsFrom (some arg) t'
    unfolding setup
    setup-same arg o t {t'} h done = elim (Option-cases (soft_limit arg hard)) [
      | inl bad_number ↦
          let never : none ≡ some t' = rw (known, setup, is_hard, bad_number) at done in cc
      | inr (soft, is_soft) ↦
          let l : Limit = record {
            id = id;
            is_set = (get_or t ndx unset).is_set + 1;
            rl_soft = soft;
            rl_hard = hard;
          } in
          let value : set t ndx l ≡ t' =
            some-injective _ _ (rw (known, setup, is_hard, is_soft) at done) in
          let stored : get_or (set t ndx l) ndx unset ≡ l =
            get_or-set t ndx ndx l unset (omega (arith, h.as_long, in_table)) ∙ ground arith in
          subst (IsFrom (some arg)) value (record {
            as_long = length-set t ndx l ∙ h.as_long;
            entry = subst (Entry (some arg)) (sym stored) (omega arith, is_soft, refl, refl);
          })
    ]

    pub setup-other :
        (i : ℕ) (arg : Bytes) (o : Option Bytes) (t : List Limit) {t' : List Limit}
        → i ≢ ndx
        → IsFrom o t
        → setup rlimit_lookup getrlimit isspace i arg t ≡ some t'
        → IsFrom o t'
    unfolding setup
    setup-other i arg o t {t'} apart h done =
        elim (Option-cases (rlimit_lookup (get_or limit_names i []))) [
          | inl absent ↦ subst (IsFrom o) (some-injective _ _ (rw (absent, setup) at done)) h
          | inr (id1, is_id) ↦ elim (Option-cases (getrlimit id1)) [
            | inl failed ↦ let never : none ≡ some t' = rw (is_id, setup, failed) at done in cc
            | inr (hard1, is_hard1) ↦ elim (Option-cases (soft_limit arg hard1)) [
              | inl bad_number ↦
                  let never : none ≡ some t' = rw (is_id, setup, is_hard1, bad_number) at done in cc
              | inr (soft, is_soft) ↦
                  let l : Limit = record {
                    id = id1;
                    is_set = (get_or t i unset).is_set + 1;
                    rl_soft = soft;
                    rl_hard = hard1;
                  } in
                  let value : set t i l ≡ t' =
                    some-injective _ _ (rw (is_id, setup, is_hard1, is_soft) at done) in
                  let kept : get_or (set t i l) ndx unset ≡ get_or t ndx unset =
                    get_or-set t i ndx l unset (omega (arith, h.as_long, in_table))
                    ∙ ground (arith, apart) in
                  subst (IsFrom o) value (record {
                    as_long = length-set t i l ∙ h.as_long;
                    entry = subst (Entry o) (sym kept) h.entry;
                  })
            ]
          ]
        ]

    skipped :
        (val a : Bytes) (t : List Limit) {t' : List Limit}
        → IsFrom (some a) t
        → runlimit_setup_ndx rlimit_lookup getrlimit isspace ndx val t ≡ some t'
        → IsFrom (some a) t'
    unfolding runlimit_setup_ndx
    skipped val a t h done =
        let test : ltb 0 (get_or t ndx unset).is_set ≡ true = ground (arith, h.entry.0) in
        subst (IsFrom (some a)) (some-injective _ _ (rw (test, runlimit_setup_ndx) at done)) h

    set_first :
        (val : Bytes) (t : List Limit) {t' : List Limit}
        → IsFrom none t
        → runlimit_setup_ndx rlimit_lookup getrlimit isspace ndx val t ≡ some t'
        → IsFrom (some val) t'
    unfolding runlimit_setup_ndx
    set_first val t {t'} h done =
        let test : ltb 0 (get_or t ndx unset).is_set ≡ false = ap (λ l. ltb 0 l.is_set) h.entry in
        elim (Bool-cases (is_empty val)) [
          | inl empty ↦
              let never : none ≡ some t' = rw (test, runlimit_setup_ndx, empty) at done in cc
          | inr more ↦ setup-same val none t h (rw (test, runlimit_setup_ndx, more) at done)
        ]

    set_other :
        (i : ℕ) (val : Bytes) (o : Option Bytes) (t : List Limit) {t' : List Limit}
        → i ≢ ndx
        → IsFrom o t
        → runlimit_setup_ndx rlimit_lookup getrlimit isspace i val t ≡ some t'
        → IsFrom o t'
    unfolding runlimit_setup_ndx
    set_other i val o t {t'} apart h done = elim (Bool-cases (ltb 0 (get_or t i unset).is_set)) [
      | inl set_before ↦
          subst (IsFrom o) (some-injective _ _ (rw (set_before, runlimit_setup_ndx) at done)) h
      | inr new ↦ elim (Bool-cases (is_empty val)) [
        | inl empty ↦ let never : none ≡ some t' = rw (new, runlimit_setup_ndx, empty) at done in cc
        | inr more ↦ setup-other i val o t apart h (rw (new, runlimit_setup_ndx, more) at done)
      ]
    ]

    -- an entry is set from a source only where it was not set before
    pub set_ndx_lem :
        (i : ℕ) (val : Bytes) (o : Option Bytes) (t : List Limit) {t' : List Limit}
        → IsFrom o t
        → runlimit_setup_ndx rlimit_lookup getrlimit isspace i val t ≡ some t'
        → IsFrom (or_else o (if i == ndx then some val else none)) t'
    set_ndx_lem i val o t {t'} h done = elim (Bool-cases (i == ndx)) [
      | inr other ↦ rw other (
          subst (λ o. IsFrom o t') (sym (or_else-none o))
            (set_other i val o t (ground (arith, other)) h done))
      | inl same ↦
          let here : i ≡ ndx = ground (arith, same) in
          rw same (
            go o h (
              ap (λ j. runlimit_setup_ndx rlimit_lookup getrlimit isspace j val t) (sym here)
              ∙ done))
    ]
      where
        go :
            (o : Option Bytes)
            → IsFrom o t
            → runlimit_setup_ndx rlimit_lookup getrlimit isspace ndx val t ≡ some t'
            → IsFrom (or_else o (some val)) t'
        go none h done = set_first val t h done
        go (some a) h done = skipped val a t h done
