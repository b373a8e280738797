-- ===== src/Nextopt/Progress.antt =====
-- lasagna/nextopt/nextopt.c: reading options comes to an end.
use mathlib.Core.Path.{subst}
use perp.Common.{
  ℕ, zero, suc, ◌+◌, ◌≡◌, ◌≤◌, ◌<◌, ◌⊎◌, inl, inr, refl, sym, ap, Option, none, some, List, [], ◌∷◌,
  Bytes, ◌==◌, if◌then◌else◌, length, drop, arith, Bool-cases, codes,
}
use perp.Cstr.{cstr_cmp, is_same}
use perp.Nextopt.{Nextopt, current, advance, valid, is_end, nextopt, nextopt_start}
use perp.Nextopt.Cursor.{IsPlaced, Moves, weight, unread, at_inside, one_of, not_one, letter-Moves}

-- A call of `nextopt` with its cursors placed ends the options, or leaves the cursors placed, the
-- vector as it is, and less of it to be read.
pub nextopt_progress : (n : Nextopt) → IsPlaced n → ((nextopt n).0 ≡ 0) ⊎ Moves n (nextopt n).1
unfolding nextopt
nextopt_progress n h =
    let n0 = record n { opt_got = 0; opt_arg = none } in
    elim (Bool-cases (n.ondx == 1)) [
      | inr later ↦
          let (inside, letter) = h.is_letter (not_one later) in
          let value : nextopt n ≡ valid (advance n0) = rw (later, nextopt) refl in
          inr (subst (λ r. Moves n r.1) (sym value) (letter-Moves n h inside letter))
      | inl start ↦ elim (Bool-cases (is_end n)) [
        | inl over ↦
            let value : nextopt n ≡ (0, n0) = rw (start, nextopt, over) refl in
            inl (ap (λ r. r.0) value)
        | inr more ↦ elim (Bool-cases (is_same (cstr_cmp (current n) (codes "--")))) [
          | inl dashes ↦
              let value : nextopt n ≡ (0, record n0 { arg_ndx = n.arg_ndx + 1 }) =
                rw (start, nextopt, more, dashes) refl in
              inl (ap (λ r. r.0) value)
          | inr option ↦
              let value : nextopt n ≡ valid (advance n0) = rw (start, nextopt, more, option) refl in
              let second : 1 < length (current n) =
                at_inside (current n) 1 (λ nul. ground (arith, more, nul)) in
              inr (
                subst (λ r. Moves n r.1) (sym value)
                  (letter-Moves n h (ground (arith, more)) (omega (arith, second, one_of start))))
        ]
      ]
    ]

-- what the calls of `nextopt` return, up to the nul
abbrev pub options : ℕ → Nextopt → Option (List ℕ)
options zero n = none
options (suc f) n =
    let (opt, n') = nextopt n in
    let rest = options f n' in
    if opt == 0 then some [] else elim rest [ none ↦ none | some opts ↦ some (opt ∷ opts) ]

options_end :
    (f : ℕ) (n : Nextopt) → IsPlaced n → unread n < f → (opts : List ℕ) × (options f n ≡ some opts)
options_end zero n h enough = absurd (omega (arith, enough))
options_end (suc f) n h enough = elim (Bool-cases ((nextopt n).0 == 0)) [
  | inl over ↦ ([], rw over refl)
  | inr more ↦ elim (nextopt_progress n h) [
    | inl over ↦ absurd (ground (arith, more, over))
    | inr moved ↦
        let (opts, rest) =
          options_end f (nextopt n).1 moved.placed (omega (arith, moved.less, enough)) in
        ((nextopt n).0 ∷ opts, rw (more, rest) refl)
  ]
]

-- On any vector of arguments and from any start in it, with any list of options, a loop over
-- `nextopt` comes to the nul that ends the options, with at most one call more than there are
-- characters in the arguments, counting two more for each argument.
pub nextopt_ends :
    (argv : List Bytes) (optlist : Bytes) (start : ℕ)
    → start ≤ length argv
    → (opts : List ℕ) × (options (weight (drop start argv) + 1) (nextopt_start argv optlist start)
        ≡ some opts)
nextopt_ends argv optlist start h =
    options_end (weight (drop start argv) + 1) (nextopt_start argv optlist start)
      (record { starts = omega arith; within = h; is_letter = λ later. absurd (later refl) })
      (omega arith)
