-- ===== src/Runlimit/Precedence.antt =====
-- runtools/runlimit.c: which of the sources a limit is taken from.
use mathlib.Core.Option.{some-injective}
use mathlib.Core.Path.{subst}
use perp.Common.{
  Bool-cases, ℕ, zero, suc, ◌+◌, ◌≡◌, ◌<◌, inl, inr, refl, sym, ◌∙◌, ap, Bool, Option, none, some,
  List, [], Bytes, get_or, replicate, arith, Option-cases,
}
use perp.Runlimit.{
  Limit, limit_names, unset, runlimits, do_environment, do_options, all_names, goes_on, with_file,
  with_environment, prepare,
}
use perp.Runlimit.Entry.{
  or_else, or_else_assoc, or_else-none, last_option, first_line, environment_at, environment_at_lem,
  Entry, IsFrom,
}
use perp.Runlimit.Sources.{options_lem, file_lem, environment_lem}

module _ (rlimit_lookup : Bytes → Option ℕ) (getrlimit : ℕ → Option ℕ) (isspace : ℕ → Bool) where
  -- the argument for an entry from the sources, in the order of their precedence
  abbrev pub chosen :
      List (ℕ × Bytes) → Option (List Bytes) → Option (Bytes → Option Bytes) → ℕ → Option Bytes
  chosen opts file env ndx =
      or_else (last_option (all_names rlimit_lookup getrlimit isspace opts) ndx) (
        or_else
          (elim file [
            | none ↦ none
            | some lines ↦ first_line rlimit_lookup getrlimit isspace lines ndx
          ])
          (elim env [ none ↦ none | some getenv ↦ getenv (get_or limit_names ndx []) ]))

  module _ (ndx id hard : ℕ) (known : rlimit_lookup (get_or limit_names ndx []) ≡ some id)
      (is_hard : getrlimit id ≡ some hard) (in_table : ndx < 11) where
    -- the entry of the table is as this argument makes it
    abbrev From : Option Bytes → List Limit → Type 0
    From o t = IsFrom rlimit_lookup getrlimit isspace ndx id hard known is_hard in_table o t

    with_file_lem :
        (file : Option (List Bytes)) (o : Option Bytes) (t : List Limit) {t' : List Limit}
        → From o t
        → with_file rlimit_lookup getrlimit isspace file t ≡ some t'
        → From
            (or_else o (elim file [
              | none ↦ none
              | some lines ↦ first_line rlimit_lookup getrlimit isspace lines ndx
            ]))
            t'
    with_file_lem none o t {t'} h done =
        subst (λ p. From p t') (sym (or_else-none o)) (subst (From o) (some-injective _ _ done) h)
    with_file_lem (some lines) o t h done =
        file_lem rlimit_lookup getrlimit isspace ndx id hard known is_hard in_table lines o t h done

    with_environment_lem :
        (env : Option (Bytes → Option Bytes)) (o : Option Bytes) (t : List Limit) {t' : List Limit}
        → From o t
        → with_environment rlimit_lookup getrlimit isspace env t ≡ some t'
        → From
            (or_else o
              (elim env [ none ↦ none | some getenv ↦ getenv (get_or limit_names ndx []) ]))
            t'
    unfolding do_environment
    with_environment_lem none o t {t'} h done =
        subst (λ p. From p t') (sym (or_else-none o)) (subst (From o) (some-injective _ _ done) h)
    with_environment_lem (some getenv) o t {t'} h done =
        subst (λ q. From (or_else o q) t')
          (ap (environment_at rlimit_lookup getrlimit isspace 0 limit_names getenv) {x = ndx}
              {y = 0 + ndx} (omega arith)
            ∙ environment_at_lem rlimit_lookup getrlimit isspace 0 ndx limit_names getenv in_table)
          (environment_lem rlimit_lookup getrlimit isspace ndx id hard known is_hard in_table 0
            limit_names getenv o t h done)

    unset_at : (n k : ℕ) → get_or (replicate n unset) k unset ≡ unset
    unset_at zero k = refl
    unset_at (suc n) zero = refl
    unset_at (suc n) (suc k) = unset_at n k

    -- Where the system has the resource of an entry, and the options, the file and the environment do
    -- not make runlimit end: the entry is as before where no source has the resource; otherwise it is
    -- set, with the hard limit that the system has and the soft limit that one argument asks for: that
    -- of the last option for it, or else of the first line of the file, with -F, or else of the
    -- environment, with -E.
    pub prepare_lem :
        (opts : List (ℕ × Bytes)) (file : Option (List Bytes)) (env : Option (Bytes → Option Bytes))
        {t : List Limit}
        → prepare rlimit_lookup getrlimit isspace opts file env ≡ some t
        → Entry rlimit_lookup getrlimit isspace ndx id hard known is_hard in_table
            (chosen opts file env ndx)
            (get_or t ndx unset)
    unfolding prepare
    prepare_lem opts file env {t} done =
        elim (Bool-cases (goes_on rlimit_lookup getrlimit isspace opts)) [
          | inr ends ↦ let never : none ≡ some t = rw (prepare, ends) at done in cc
          | inl on ↦
              let names = all_names rlimit_lookup getrlimit isspace opts in
              let start : From none runlimits = record {
                as_long = refl;
                entry = unset_at 11 ndx;
              } in
              elim (Option-cases (do_options rlimit_lookup getrlimit isspace names runlimits)) [
                | inl failed ↦ let never : none ≡ some t = rw (prepare, on, failed) at done in cc
                | inr (t1, first) ↦
                    elim (Option-cases (with_file rlimit_lookup getrlimit isspace file t1)) [
                      | inl failed ↦
                          let never : none ≡ some t = rw (prepare, on, first, failed) at done in cc
                      | inr (t2, second) ↦
                          let o1 = last_option names ndx in
                          let f = elim file as (λ x. Option Bytes) [
                            | none ↦ none
                            | some lines ↦ first_line rlimit_lookup getrlimit isspace lines ndx
                          ] in
                          let e = elim env as (λ x. Option Bytes) [
                            | none ↦ none
                            | some getenv ↦ getenv (get_or limit_names ndx [])
                          ] in
                          let h1 =
                            subst (λ o. From o t1) (or_else-none o1)
                              (options_lem rlimit_lookup getrlimit isspace ndx id hard known is_hard
                                in_table names none runlimits start first) in
                          let h2 = with_file_lem file o1 t1 h1 second in
                          let h3 =
                            with_environment_lem env (or_else o1 f) t2 h2
                              (rw (prepare, on, first, second) at done) in
                          let all : From (or_else o1 (or_else f e)) t =
                            subst (λ o. From o t) (or_else_assoc o1 f e) h3 in
                          all.entry
                    ]
              ]
        ]
