-- ===== src/Dynstuf/Vector.antt =====
-- lasagna/dynstuf: the vector as a list.
use mathlib.Core.Path.{subst}
use perp.Common.{
  ℕ, zero, suc, ◌+◌, ◌-◌, ◌*◌, ◌/◌, ◌%◌, ◌^◌, ◌≡◌, ◌≤◌, ◌<◌, ◌⊎◌, inl, inr, refl, sym, ◌∙◌, ap,
  Bool, true, false, ◌||◌, some, List, [], ◌∷◌, ◌++◌, ltb, length, set, take, take-append_less,
  length-replicate, replicate, length-set, length-take, take-take, length-append, arith, Bool-cases,
}
use perp.Upak.{u64_mod}
use perp.Dynstuf.{Dynstuf, slots_of, is_null, regrown, dynstuf_grow, dynstuf_push}

-- what the vector holds
abbrev pub view : Dynstuf → List ℕ
view s = take s.items (slots_of s)

-- The slots in use are slots of the array.
pub record IsSound (s : Dynstuf) : Type 0 where
  pub used : s.items ≤ s.slots
  pub there : s.slots ≤ length (slots_of s)

take-set :
    (n : ℕ) (xs : List ℕ) (p : ℕ)
    → n < length xs
    → take (suc n) (set xs n p) ≡ take n xs ++ (p ∷ [])
take-set n [] p h = absurd (omega (arith, h))
take-set zero (x ∷ xs) p h = refl
take-set (suc n) (x ∷ xs) p h = ap (λ zs. x ∷ zs) (take-set n xs p (omega (arith, h)))

module _ (gives : ℕ → Bool) (junk : ℕ) where
  length-regrown : (cs : List ℕ) (bytes : ℕ) → length (regrown gives junk cs bytes) ≡ bytes / 8
  length-regrown cs bytes = omega (
    arith,
    length-append (take (bytes / 8) cs) (replicate (bytes / 8 - length cs) junk),
    length-take (bytes / 8) cs,
    length-replicate (bytes / 8 - length cs) junk,
  )

  view-regrown :
      (cs : List ℕ) (n bytes : ℕ)
      → n ≤ length cs
      → n ≤ bytes / 8
      → take n (regrown gives junk cs bytes) ≡ take n cs
  view-regrown cs n bytes h k =
      take-append_less n (take (bytes / 8) cs) (replicate (bytes / 8 - length cs) junk)
        (omega (arith, length-take (bytes / 8) cs, h, k))
      ∙ take-take n (bytes / 8) cs k

  -- what `dynstuf_grow` does to a vector that is sound
  pub record Grows (add : ℕ) (s s' : Dynstuf) : Type 0 where
    pub sound : IsSound s'
    pub room : s.items + add ≤ s'.slots
    pub same_items : s'.items ≡ s.items
    pub same_view : view s' ≡ view s

  -- it fails and leaves the vector as it is, or grows
  abbrev pub Outcome : ℕ → Dynstuf → Bool × Dynstuf → Type 0
  Outcome add s r = ((r.0 ≡ false) × (r.1 ≡ s)) ⊎ ((r.0 ≡ true) × Grows add s r.1)

  pub grow_lem :
      (add : ℕ) (s : Dynstuf)
      → IsSound s
      → s.items + add < 2 ^ 59
      → Outcome add s (dynstuf_grow gives junk add s)
  unfolding dynstuf_grow
  grow_lem add s h small =
      let n = s.items + add in
      let e1 : n % u64_mod ≡ n = omega (arith, small) in
      let e2 : n * 2 % u64_mod ≡ n * 2 = omega (arith, small) in
      let e3 : n * 2 * 8 % u64_mod ≡ n * 16 = omega (arith, small) in
      let no_wrap1 : ltb n s.items ≡ false = ground arith in
      let no_wrap2 : ltb (n * 2) n ≡ false = ground arith in
      let no_wrap3 : ltb (n * 16) (n * 2) ≡ false = ground arith in
      let grown = record s {
        stuf = some (regrown gives junk (slots_of s) (n * 16));
        slots = n * 2;
      } in
      elim (Bool-cases (is_null s || ltb s.slots n)) [
        | inr enough ↦
            let value : dynstuf_grow gives junk add s ≡ (true, s) =
              rw (e1, dynstuf_grow, no_wrap1, enough) refl in
            subst (Outcome add s) (sym value) (
              inr (
                refl,
                record {
                  sound = h;
                  room = ground (arith, enough);
                  same_items = refl;
                  same_view = refl;
                },
              ))
        | inl short ↦ elim (Bool-cases (gives (n * 16))) [
          | inr refused ↦
              let value : dynstuf_grow gives junk add s ≡ (false, s) =
                rw (e1, dynstuf_grow, no_wrap1, short, e2, no_wrap2, e3, no_wrap3, refused) refl in
              subst (Outcome add s) (sym value) (inl (refl, refl))
          | inl given ↦
              let value : dynstuf_grow gives junk add s ≡ (true, grown) =
                rw (e1, dynstuf_grow, no_wrap1, short, e2, no_wrap2, e3, no_wrap3, given) refl in
              subst (Outcome add s) (sym value) (
                inr (
                  refl,
                  record {
                    sound = record {
                      used = omega arith;
                      there = omega (arith, length-regrown (slots_of s) (n * 16));
                    };
                    room = omega arith;
                    same_items = refl;
                    same_view =
                        view-regrown (slots_of s) s.items (n * 16) (omega (arith, h.used, h.there))
                          (omega arith);
                  },
                ))
        ]
      ]

  -- a pointer behind the others
  pub push_lem :
      (p : ℕ) (s : Dynstuf)
      → IsSound s
      → s.items + 1 < 2 ^ 59
      → let (done, s') = dynstuf_push gives junk p s in
        ((done ≡ false) × (s' ≡ s)) ⊎ ((done ≡ true) × IsSound s' × (view s' ≡ view s ++ (p ∷ [])))
  unfolding dynstuf_push
  push_lem p s h small = elim (grow_lem 1 s h small) [
    | inl (failed, same) ↦ inl (rw failed refl, rw failed same)
    | inr (done, g) ↦
        let s1 = (dynstuf_grow gives junk 1 s).1 in
        let inside : s1.items < length (slots_of s1) =
          omega (arith, g.sound.there, g.room, g.same_items) in
        inr (
          rw done refl,
          rw done (record {
            used = omega (arith, g.room, g.same_items);
            there = omega (arith, g.sound.there, length-set (slots_of s1) s1.items p);
          }),
          rw done (
              ap (λ n. take n (set (slots_of s1) s1.items p)) {x = s1.items + 1} {y = suc s1.items}
                (omega arith)
              ∙ (take-set s1.items (slots_of s1) p inside ∙ ap (λ v. v ++ (p ∷ [])) g.same_view)),
        )
  ]
