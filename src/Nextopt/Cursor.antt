-- ===== src/Nextopt/Cursor.antt =====
-- lasagna/nextopt/nextopt.c: how far the cursors move.
use mathlib.Core.Path.{subst}
use perp.Common.{
  ℕ, zero, suc, ◌+◌, ◌-◌, ◌≡◌, ◌≤◌, ◌<◌, ◌≢◌, inl, inr, refl, sym, ◌∙◌, ap, true, false, ◌||◌,
  Option, none, some, List, [], ◌∷◌, Bytes, leb, ◌==◌, length, get_or, drop, arith, Bool-cases,
}
use perp.Upak.{at}
use perp.Nextopt.{Nextopt, current, advance, take_arg, valid, cstr_pos}

-- The cursors are at the start of an argument, or behind the vector, or within an argument.
pub record IsPlaced (n : Nextopt) : Type 0 where
  pub starts : 1 ≤ n.ondx
  pub within : n.arg_ndx ≤ length n.argv
  pub is_letter : n.ondx ≢ 1 → (n.arg_ndx < length n.argv) × (n.ondx < length (current n))

-- the characters of the arguments, with one more for each
abbrev pub weight : List Bytes → ℕ
weight [] = 0
weight (arg ∷ args) = suc (suc (length arg)) + weight args

-- what is left to be read
abbrev pub unread : Nextopt → ℕ
unread n = weight (drop n.arg_ndx n.argv) - n.ondx

-- the arguments from the current one on
drop_current :
    (i : ℕ) (argv : List Bytes)
    → i < length argv
    → weight (drop i argv) ≡ suc (suc (length (get_or argv i []))) + weight (drop (i + 1) argv)
drop_current i [] h = absurd (omega (arith, h))
drop_current zero (a ∷ argv) h = refl
drop_current (suc i) (a ∷ argv) h =
    drop_current i argv (omega (arith, h))
    ∙ ap (λ m. suc (suc (length (get_or argv i []))) + weight (drop m (a ∷ argv))) {x = suc (i + 1)}
        (omega arith)

pub at_inside : (b : Bytes) (i : ℕ) → at b i ≢ 0 → i < length b
at_inside [] i h = absurd (h refl)
at_inside (x ∷ b) zero h = omega arith
at_inside (x ∷ b) (suc i) h = omega (arith, at_inside b i h)

-- the cursors are placed, and less is left
pub record Moves (n n' : Nextopt) : Type 0 where
  pub placed : IsPlaced n'
  pub same_argv : n'.argv ≡ n.argv
  pub less : unread n' < unread n

advance-Moves :
    (n : Nextopt)
    → IsPlaced n
    → n.arg_ndx < length n.argv
    → n.ondx < length (current n)
    → Moves n (advance n)
unfolding advance
advance-Moves n h inside letter = elim (Bool-cases (at (current n) (n.ondx + 1) == 0)) [
  | inl over ↦
      let n' = record n { opt_got = at (current n) n.ondx; arg_ndx = n.arg_ndx + 1; ondx = 1 } in
      let value : advance n ≡ n' = rw (over, advance) refl in
      subst (Moves n) (sym value) (record {
        placed = record {
          starts = omega arith;
          within = omega (arith, inside);
          is_letter = λ later. absurd (later refl);
        };
        same_argv = refl;
        less = omega (arith, drop_current n.arg_ndx n.argv inside, letter);
      })
  | inr more ↦
      let n' = record n { opt_got = at (current n) n.ondx; ondx = n.ondx + 1 } in
      let value : advance n ≡ n' = rw (more, advance) refl in
      subst (Moves n) (sym value) (record {
        placed = record {
          starts = omega arith;
          within = h.within;
          is_letter = λ later.
              (inside, at_inside (current n) (n.ondx + 1) (λ nul. ground (arith, more, nul)));
        };
        same_argv = refl;
        less = omega (arith, drop_current n.arg_ndx n.argv inside, letter);
      })
]

pub one_of : {k : ℕ} → (k == 1) ≡ true → k ≡ 1
one_of h = ground (arith, h)

pub not_one : {k : ℕ} → (k == 1) ≡ false → k ≢ 1
not_one h = λ one. ground (arith, h, one)

-- a cursor that moves on to the next argument
skip-Moves :
    (n m : Nextopt) (arg : Option Bytes)
    → Moves n m
    → m.arg_ndx < length m.argv
    → Moves n (record m { opt_arg = arg; arg_ndx = m.arg_ndx + 1; ondx = 1 })
skip-Moves n m arg h inside = record {
  placed = record {
    starts = omega arith;
    within = omega (arith, inside);
    is_letter = λ later. absurd (later refl);
  };
  same_argv = h.same_argv;
  less = elim (Bool-cases (m.ondx == 1)) [
    | inl start ↦ omega (arith, h.less, drop_current m.arg_ndx m.argv inside, one_of start)
    | inr later ↦
        let letter = (h.placed.is_letter (not_one later)).1 in
        omega (arith, h.less, drop_current m.arg_ndx m.argv inside, letter)
  ];
}

take_arg-Moves : (n m : Nextopt) → Moves n m → Moves n (take_arg m).1
unfolding take_arg
take_arg-Moves n m h = elim (Bool-cases (m.ondx == 1)) [
  | inr later ↦
      let n' = record m {
        opt_arg = some (drop m.ondx (current m));
        arg_ndx = m.arg_ndx + 1;
        ondx = 1;
      } in
      let value : take_arg m ≡ (m.opt_got, n') = rw (later, take_arg) refl in
      subst (λ r. Moves n r.1) (sym value)
        (skip-Moves n m (some (drop m.ondx (current m))) h (h.placed.is_letter (not_one later)).0)
  | inl new_arg ↦ elim (Bool-cases (leb (length m.argv) m.arg_ndx)) [
    | inl missing ↦
        let value : take_arg m ≡ (b':', m) = rw (new_arg, take_arg, missing) refl in
        subst (λ r. Moves n r.1) (sym value) h
    | inr there ↦
        let arg = some (current m) in
        let n' = record m { opt_arg = arg; arg_ndx = m.arg_ndx + 1 } in
        let value : take_arg m ≡ (m.opt_got, n') = rw (new_arg, take_arg, there) refl in
        let at_start =
          ap (λ k. record m { opt_arg = arg; arg_ndx = m.arg_ndx + 1; ondx = k })
            (sym (one_of new_arg)) in
        subst (λ r. Moves n r.1) (sym value)
          (subst (Moves n) at_start (skip-Moves n m arg h (ground (arith, there))))
  ]
]

valid-Moves : (n m : Nextopt) → Moves n m → Moves n (valid m).1
unfolding valid
valid-Moves n m h =
    let lookup = drop (cstr_pos m.opt_list m.opt_got) m.opt_list in
    elim (Bool-cases (m.opt_got == b':' || at lookup 0 == 0)) [
      | inl wrong ↦
          let value : valid m ≡ (b'?', m) = rw (wrong, valid) refl in
          subst (λ r. Moves n r.1) (sym value) h
      | inr known ↦ elim (Bool-cases (at lookup 1 == b':')) [
        | inl takes ↦
            let value : valid m ≡ take_arg m = rw (known, valid, takes) refl in
            subst (λ r. Moves n r.1) (sym value) (take_arg-Moves n m h)
        | inr flag ↦
            let value : valid m ≡ (m.opt_got, m) = rw (known, valid, flag) refl in
            subst (λ r. Moves n r.1) (sym value) h
      ]
    ]

pub letter-Moves :
    (n : Nextopt)
    → IsPlaced n
    → n.arg_ndx < length n.argv
    → n.ondx < length (current n)
    → Moves n (valid (advance (record n { opt_got = 0; opt_arg = none }))).1
letter-Moves n h inside letter =
    let n0 = record n { opt_got = 0; opt_arg = none } in
    let placed0 : IsPlaced n0 = record {
      starts = h.starts;
      within = h.within;
      is_letter = h.is_letter;
    } in
    let moved = valid-Moves n0 (advance n0) (advance-Moves n0 placed0 inside letter) in
    record { placed = moved.placed; same_argv = moved.same_argv; less = moved.less }
