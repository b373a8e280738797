-- ===== src/Dynstr/Content.antt =====
-- lasagna/dynstr: what a string holds.
use mathlib.Core.Path.{subst}
use perp.Common.{
  ℕ, ◌+◌, ◌-◌, ◌%◌, ◌≡◌, ◌≤◌, ◌<◌, ◌⊎◌, inl, inr, refl, sym, ◌∙◌, ap, Bool, true, false, ◌||◌,
  Option, none, some, [], ◌∷◌, ◌++◌, append_assoc, Bytes, ltb, length, store, take, drop, replicate,
  take-take, take-append, take-append_less, length-take, length-append, length-replicate, arith,
  Bool-cases,
}
use perp.Upak.{u64_mod, at}
use perp.Cdb.Arrays.{at-append, at-store_in, length-store}
use perp.Dynstr.{
  Dynstr, array, is_unset, remade, dynstr_need, dynstr_grow, stored, with_nul, append_str, copied,
}

-- The used part of the array is this string, and the array is as long as it is taken to be.
pub record IsPrefix (str : Bytes) (d : Dynstr) : Type 0 where
  pub used : d.n ≡ length str
  pub fits : d.n ≤ d.k
  pub as_long : length (array d) ≡ d.k
  pub part : take d.n (array d) ≡ str

-- and a nul follows, if there is an array
pub record Holds (str : Bytes) (d : Dynstr) : Type 0 where
  pub prefix : IsPrefix str d
  pub ended : 0 < d.k → (d.n < d.k) × (at (array d) d.n ≡ 0)

-- a routine fails for want of memory and changes nothing, or does this
abbrev pub OrFails : (ℕ → Bool) → (Dynstr → Type 0) → Dynstr → Bool × Dynstr → Type 0
OrFails gives P d r =
    ((r.0 ≡ false) × (r.1 ≡ d) × (n : ℕ) × (gives n ≡ false)) ⊎ ((r.0 ≡ true) × P r.1)

-- an array that is taken to be too short, or is not there, has less in it
short_lem :
    (need : ℕ) (str : Bytes) (d : Dynstr)
    → IsPrefix str d
    → (is_unset d || ltb d.k (need + 1)) ≡ true
    → d.n ≤ need
short_lem need str d h short = go d.s h.as_long short
  where
    go :
        (s : Option Bytes)
        → length (elim s [ none ↦ [] | some a ↦ a ]) ≡ d.k
        → (elim s [ none ↦ true | some a ↦ false ] || ltb d.k (need + 1)) ≡ true
        → d.n ≤ need
    go none empty e = omega (arith, h.fits, empty)
    go (some a) as_long e = ground (arith, e, h.fits)

module _ (gives : ℕ → Bool) (junk : ℕ) where
  -- the string is still there, and so much room
  abbrev pub HasRoom : ℕ → Bytes → Dynstr → Type 0
  HasRoom room str d = IsPrefix str d × (room ≤ d.k)

  pub need_lem :
      (need : ℕ) (str : Bytes) (d : Dynstr)
      → need + 1 < u64_mod
      → IsPrefix str d
      → OrFails gives (HasRoom (need + 1) str) d (dynstr_need gives junk need d)
  unfolding dynstr_need
  need_lem need str d small h =
      let e : (need + 1) % u64_mod ≡ need + 1 = omega (arith, small) in
      let a = array d in
      let grown = record d { s = some (remade gives junk a (need + 1)); k = need + 1 } in
      elim (Bool-cases (is_unset d || ltb d.k (need + 1))) [
        | inr enough ↦
            let value : dynstr_need gives junk need d ≡ (true, d) =
              rw (e, dynstr_need, enough) refl in
            subst (OrFails gives (HasRoom (need + 1) str) d) (sym value)
              (inr (refl, (h, ground (arith, enough))))
        | inl short ↦
            let more : length str ≤ need = omega (arith, short_lem need str d h short, h.used) in
            elim (Bool-cases (gives (need + 1))) [
              | inr refused ↦
                  let value : dynstr_need gives junk need d ≡ (false, d) =
                    rw (e, dynstr_need, short, refused) refl in
                  subst (OrFails gives (HasRoom (need + 1) str) d) (sym value)
                    (inl (refl, refl, need + 1, refused))
              | inl given ↦
                  let value : dynstr_need gives junk need d ≡ (true, grown) =
                    rw (e, dynstr_need, short, given) refl in
                  subst (OrFails gives (HasRoom (need + 1) str) d) (sym value) (
                    inr (
                      refl,
                      (
                        record {
                          used = h.used;
                          fits = omega (arith, h.used, more);
                          as_long = omega (
                            arith,
                            length-append (take (need + 1) a)
                                (replicate (need + 1 - length a) junk),
                            length-take (need + 1) a,
                            length-replicate (need + 1 - length a) junk,
                          );
                          part =
                              take-append_less d.n (take (need + 1) a)
                                (replicate (need + 1 - length a) junk)
                                (omega (
                                  arith,
                                  length-take (need + 1) a,
                                  h.as_long,
                                  h.fits,
                                  h.used,
                                  more,
                                ))
                              ∙ (take-take d.n (need + 1) a (omega (arith, h.used, more)) ∙ h.part);
                        },
                        omega arith,
                      ),
                    ))
            ]
      ]

  pub grow_lem :
      (grow : ℕ) (str : Bytes) (d : Dynstr)
      → length str + grow + 2 < u64_mod
      → IsPrefix str d
      → OrFails gives (HasRoom (length str + grow + 1) str) d (dynstr_grow gives junk grow d)
  unfolding dynstr_grow
  grow_lem grow str d small h =
      let need = length str + grow + 1 in
      let e : (d.n + grow + 1) % u64_mod ≡ need = omega (arith, small, h.used) in
      elim (Bool-cases (ltb d.k need)) [
        | inr enough ↦
            let value : dynstr_grow gives junk grow d ≡ (true, d) =
              rw (e, dynstr_grow, enough) refl in
            subst (OrFails gives (HasRoom need str) d) (sym value)
              (inr (refl, (h, ground (arith, enough))))
        | inl short ↦
            let value : dynstr_grow gives junk grow d ≡ dynstr_need gives junk need d =
              rw (e, dynstr_grow, short) refl in
            subst (OrFails gives (HasRoom need str) d) (sym value)
              (elim (need_lem need str d (omega (arith, small)) h) [
                | inl failed ↦ inl failed
                | inr (done, (held, room)) ↦ inr (done, (held, omega (arith, room)))
              ])
      ]

  -- what is written at the end, once there is room
  pub append_str-Holds :
      (base str : Bytes) (d : Dynstr)
      → HasRoom (length base + length str + 1) base d
      → Holds (base ++ str) (append_str gives junk str d)
  append_str-Holds base str d (h, room) =
      let a = array d in
      let ended = str ++ (0 ∷ []) in
      let tail = drop (d.n + length ended) a in
      let long : length ended ≡ length str + 1 = length-append str (0 ∷ []) in
      let fits : d.n + length ended ≤ length a = omega (arith, long, h.used, h.as_long, room) in
      let split : store a d.n ended ≡ (base ++ str) ++ ((0 ∷ []) ++ tail) =
        ap (λ p. p ++ (ended ++ tail)) h.part
        ∙ (ap (λ p. base ++ p) (append_assoc str (0 ∷ []) tail)
            ∙ sym (append_assoc base str ((0 ∷ []) ++ tail))) in
      let count : d.n + length str ≡ length (base ++ str) =
        omega (arith, h.used, length-append base str) in
      record {
        prefix = record {
          used = count;
          fits = omega (arith, h.used, room);
          as_long = length-store a ended d.n fits ∙ h.as_long;
          part =
              ap (λ n. take n (store a d.n ended)) count
              ∙ (ap (take (length (base ++ str))) split
                  ∙ take-append (base ++ str) ((0 ∷ []) ++ tail));
        };
        ended = λ some_room. (
          omega (arith, h.used, room),
          at-store_in a ended d.n (length str) fits (omega (arith, long))
              ∙ (at-append str (0 ∷ []) (length str) ∙ ground arith),
        );
      }

  pub copied-Holds :
      (base str : Bytes) (d : Dynstr)
      → HasRoom (length str + 1) base d
      → Holds str (copied gives junk str d)
  copied-Holds base str d (h, room) =
      let empty : IsPrefix [] (record d { n = 0 }) = record {
        used = refl;
        fits = omega arith;
        as_long = h.as_long;
        part = refl;
      } in
      let long : 0 + length str ≡ length str = omega arith in
      subst (λ n. Holds str (record (stored 0 (with_nul str) d) { n = n })) long
        (append_str-Holds [] str (record d { n = 0 }) (empty, omega (arith, room)))
