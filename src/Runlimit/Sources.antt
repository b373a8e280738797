-- ===== src/Runlimit/Sources.antt =====
-- runtools/runlimit.c: what each of the sources of a limit makes of an entry of the table.
use mathlib.Core.Option.{some-injective}
use mathlib.Core.Path.{subst}
use perp.Common.{
  ℕ, suc, ◌≡◌, ◌<◌, inl, inr, sym, ◌∙◌, ap, Bool, Option, none, some, List, [], ◌∷◌, Bytes, ◌==◌,
  if◌then◌else◌, get_or, arith, Bool-cases, Option-cases,
}
use perp.Runlimit.{
  Limit, limit_names, runlimit_ndx, setup, runlimit_setup_opt, runlimit_setup_ndx, Line, skip, bad,
  assign, parse_line, do_file, environment_from, do_options,
}
use perp.Runlimit.Entry.{
  or_else, or_else_assoc, or_else-none, last_option, first_line, environment_at, IsFrom, setup-same,
  setup-other, set_ndx_lem,
}

module _ (rlimit_lookup : Bytes → Option ℕ) (getrlimit : ℕ → Option ℕ) (isspace : ℕ → Bool) where
  module _ (ndx id hard : ℕ) (known : rlimit_lookup (get_or limit_names ndx []) ≡ some id)
      (is_hard : getrlimit id ≡ some hard) (in_table : ndx < 11) where
    -- the entry of the table is as this argument makes it
    abbrev From : Option Bytes → List Limit → Type 0
    From o t = IsFrom rlimit_lookup getrlimit isspace ndx id hard known is_hard in_table o t

    option_lem :
        (i : ℕ) (arg : Bytes) (o : Option Bytes) (t : List Limit) {t' : List Limit}
        → From o t
        → setup rlimit_lookup getrlimit isspace i arg t ≡ some t'
        → From (or_else (if i == ndx then some arg else none) o) t'
    option_lem i arg o t {t'} h done = elim (Bool-cases (i == ndx)) [
      | inr other ↦ rw other (
          setup-other rlimit_lookup getrlimit isspace ndx id hard known is_hard in_table i arg o t
            (ground (arith, other)) h done)
      | inl same ↦
          let here : i ≡ ndx = ground (arith, same) in
          rw same (
            setup-same rlimit_lookup getrlimit isspace ndx id hard known is_hard in_table arg o t h
              (ap (λ j. setup rlimit_lookup getrlimit isspace j arg t) (sym here) ∙ done))
    ]

    pub options_lem :
        (opts : List (Bytes × Bytes)) (o : Option Bytes) (t : List Limit) {t' : List Limit}
        → From o t
        → do_options rlimit_lookup getrlimit isspace opts t ≡ some t'
        → From (or_else (last_option opts ndx) o) t'
    unfolding do_options runlimit_setup_opt
    options_lem [] o t h done = subst (From o) (some-injective _ _ done) h
    options_lem ((name, arg) ∷ opts) o t {t'} h done = elim (Option-cases (runlimit_ndx name)) [
      | inl bad_name ↦ let never : none ≡ some t' = rw (bad_name, do_options) at done in cc
      | inr (i, is_i) ↦ elim (Option-cases (setup rlimit_lookup getrlimit isspace i arg t)) [
        | inl failed ↦ let never : none ≡ some t' = rw (is_i, do_options, failed) at done in cc
        | inr (t1, put) ↦
            let rest =
              options_lem opts (or_else (if i == ndx then some arg else none) o) t1
                (option_lem i arg o t h put) (rw (is_i, do_options, put) at done) in
            subst (λ p. From p t')
              (sym (or_else_assoc (last_option opts ndx) (if i == ndx then some arg else none) o)
                ∙ ap (λ q. or_else (or_else (last_option opts ndx) q) o)
                    (sym (
                      ap
                        (λ m. elim m [ none ↦ none | some j ↦ if j == ndx then some arg else none ])
                        is_i)))
              rest
      ]
    ]

    pub file_lem :
        (lines : List Bytes) (o : Option Bytes) (t : List Limit) {t' : List Limit}
        → From o t
        → do_file rlimit_lookup getrlimit isspace lines t ≡ some t'
        → From (or_else o (first_line rlimit_lookup getrlimit isspace lines ndx)) t'
    unfolding do_file
    file_lem [] o t {t'} h done =
        subst (λ p. From p t') (sym (or_else-none o)) (subst (From o) (some-injective _ _ done) h)
    file_lem (s ∷ lines) o t {t'} h done =
        go (parse_line rlimit_lookup getrlimit isspace s)
          (λ o1 t1 h1 done1. file_lem lines o1 t1 h1 done1) done
      where
        go :
            (l : Line rlimit_lookup getrlimit isspace)
            → ((o1 : Option Bytes) (t1 : List Limit)
                → From o1 t1
                → do_file rlimit_lookup getrlimit isspace lines t1 ≡ some t'
                → From (or_else o1 (first_line rlimit_lookup getrlimit isspace lines ndx)) t')
            → elim l [
              | skip ↦ do_file rlimit_lookup getrlimit isspace lines t
              | bad ↦ none
              | assign i val ↦ elim (runlimit_setup_ndx rlimit_lookup getrlimit isspace i val t) [
                | none ↦ none
                | some t1 ↦ do_file rlimit_lookup getrlimit isspace lines t1
              ]
            ]
              ≡ some t'
            → From
                (or_else o (elim l [
                  | skip ↦ first_line rlimit_lookup getrlimit isspace lines ndx
                  | bad ↦ first_line rlimit_lookup getrlimit isspace lines ndx
                  | assign i val ↦
                      or_else
                        (if i == ndx then some val else none)
                        (first_line rlimit_lookup getrlimit isspace lines ndx)
                ]))
                t'
        go skip ih e = ih o t h e
        go bad ih e = cc
        go (assign i val) ih e =
            elim (Option-cases (runlimit_setup_ndx rlimit_lookup getrlimit isspace i val t)) [
              | inl failed ↦ let never : none ≡ some t' = rw failed at e in cc
              | inr (t1, put) ↦
                  subst (λ p. From p t')
                    (or_else_assoc o (if i == ndx then some val else none)
                      (first_line rlimit_lookup getrlimit isspace lines ndx))
                    (ih (or_else o (if i == ndx then some val else none)) t1
                      (set_ndx_lem rlimit_lookup getrlimit isspace ndx id hard known is_hard
                        in_table i val o t h put)
                      (rw put at e))
            ]

    pub environment_lem :
        (i : ℕ) (names : List Bytes) (getenv : Bytes → Option Bytes) (o : Option Bytes)
        (t : List Limit) {t' : List Limit}
        → From o t
        → environment_from rlimit_lookup getrlimit isspace i names getenv t ≡ some t'
        → From (or_else o (environment_at rlimit_lookup getrlimit isspace i names getenv ndx)) t'
    unfolding environment_from
    environment_lem i [] getenv o t {t'} h done =
        subst (λ p. From p t') (sym (or_else-none o)) (subst (From o) (some-injective _ _ done) h)
    environment_lem i (name ∷ names) getenv o t {t'} h done =
        go (getenv name) (λ o1 t1 h1 done1. environment_lem (suc i) names getenv o1 t1 h1 done1)
          done
      where
        go :
            (v : Option Bytes)
            → ((o1 : Option Bytes) (t1 : List Limit)
                → From o1 t1
                → environment_from rlimit_lookup getrlimit isspace (suc i) names getenv t1 ≡ some t'
                → From
                    (or_else o1
                      (environment_at rlimit_lookup getrlimit isspace (suc i) names getenv ndx))
                    t')
            → elim v [
              | none ↦ environment_from rlimit_lookup getrlimit isspace (suc i) names getenv t
              | some val ↦ elim (runlimit_setup_ndx rlimit_lookup getrlimit isspace i val t) [
                | none ↦ none
                | some t1 ↦ environment_from rlimit_lookup getrlimit isspace (suc i) names getenv t1
              ]
            ]
              ≡ some t'
            → From
                (or_else o (
                  or_else
                    (if i == ndx then v else none)
                    (environment_at rlimit_lookup getrlimit isspace (suc i) names getenv ndx)))
                t'
        go none ih e =
            subst
              (λ q.
                From
                  (or_else o (
                    or_else q
                      (environment_at rlimit_lookup getrlimit isspace (suc i) names getenv ndx)))
                  t')
              {x = none} {y = if i == ndx then none else none} (ground arith) (ih o t h e)
        go (some val) ih e =
            elim (Option-cases (runlimit_setup_ndx rlimit_lookup getrlimit isspace i val t)) [
              | inl failed ↦ let never : none ≡ some t' = rw failed at e in cc
              | inr (t1, put) ↦
                  subst (λ p. From p t')
                    (or_else_assoc o (if i == ndx then some val else none)
                      (environment_at rlimit_lookup getrlimit isspace (suc i) names getenv ndx))
                    (ih (or_else o (if i == ndx then some val else none)) t1
                      (set_ndx_lem rlimit_lookup getrlimit isspace ndx id hard known is_hard
                        in_table i val o t h put)
                      (rw put at e))
            ]
