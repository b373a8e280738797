-- ===== src/Dynstuf/Calls.antt =====
-- lasagna/dynstuf: the calls, and the same calls on a list.
use perp.Common.{
  ℕ, zero, suc, ◌+◌, ◌-◌, ◌≡◌, ◌≤◌, ◌<◌, inl, inr, refl, sym, ◌∙◌, ap, Bool, some, List, [], ◌∷◌,
  ◌++◌, ltb, if◌then◌else◌, length, get_or, set, take, length-set, length-take, take-take, arith,
  Bool-cases,
}
use perp.Dynstuf.{
  Dynstuf, slots_of, dynstuf_push, dynstuf_pop, dynstuf_peek, dynstuf_get, dynstuf_set,
  dynstuf_replace, dynstuf_reverse,
}
use perp.Dynstuf.Reverse.{get_or-take, reversed, length-reverse_from, take-reverse_from}
use perp.Dynstuf.Vector.{view, IsSound}

pub data Op : Type 0 where
  push : ℕ → Op
  pop peek reverse : Op
  get : ℕ → Op
  put replace : ℕ → ℕ → Op

module _ (gives : ℕ → Bool) (junk : ℕ) where
  -- a call on the vector, with what it returns; -1 of a push is 1 here
  abbrev pub call : Op → Dynstuf → ℕ × Dynstuf
  call (push p) s = let (done, s') = dynstuf_push gives junk p s in (if done then 0 else 1, s')
  call pop s = dynstuf_pop s
  call peek s = (dynstuf_peek s, s)
  call reverse s = (0, dynstuf_reverse s)
  call (get i) s = (dynstuf_get i s, s)
  call (put i p) s = dynstuf_set i p s
  call (replace i p) s = dynstuf_replace i p s

-- the last element, or NULL
abbrev pub last : List ℕ → ℕ
last v = get_or v (length v - 1) 0

-- the same call on a list, where a push has room
abbrev pub on_list : Op → List ℕ → ℕ × List ℕ
on_list (push p) v = (0, v ++ (p ∷ []))
on_list pop v = (last v, take (length v - 1) v)
on_list peek v = (last v, v)
on_list reverse v = (0, reversed v)
on_list (get i) v = (get_or v i 0, v)
on_list (put i p) v = (if ltb i (length v) then p else 0, set v i p)
on_list (replace i p) v = (get_or v i 0, set v i p)

pub length-view : (s : Dynstuf) → IsSound s → length (view s) ≡ s.items
length-view s h = omega (arith, length-take s.items (slots_of s), h.used, h.there)

get_or_out : (v : List ℕ) (i : ℕ) → length v ≤ i → get_or v i 0 ≡ 0
get_or_out [] i h = refl
get_or_out (x ∷ v) zero h = absurd (omega (arith, h))
get_or_out (x ∷ v) (suc i) h = get_or_out v i (omega (arith, h))

set_out : (v : List ℕ) (i p : ℕ) → length v ≤ i → set v i p ≡ v
set_out [] i p h = refl
set_out (x ∷ v) zero p h = absurd (omega (arith, h))
set_out (x ∷ v) (suc i) p h = ap (λ w. x ∷ w) (set_out v i p (omega (arith, h)))

take-set : (n : ℕ) (cs : List ℕ) (i p : ℕ) → take n (set cs i p) ≡ set (take n cs) i p
take-set zero cs i p = refl
take-set (suc n) [] i p = refl
take-set (suc n) (x ∷ cs) zero p = refl
take-set (suc n) (x ∷ cs) (suc i) p = ap (λ w. x ∷ w) (take-set n cs i p)

-- a result on the vector is the one on the list
pub record Agrees (s : Dynstuf) (r : ℕ × Dynstuf) (q : ℕ × List ℕ) : Type 0 where
  pub sound : IsSound r.1
  pub fits : r.1.items ≤ s.items + 1
  pub same_result : r.0 ≡ q.0
  pub same_view : view r.1 ≡ q.1

pub get_lem : (i : ℕ) (s : Dynstuf) → IsSound s → dynstuf_get i s ≡ get_or (view s) i 0
unfolding dynstuf_get
get_lem i s h = elim (Bool-cases (ltb i s.items)) [
  | inl low ↦ ground (arith, low, get_or-take s.items (slots_of s) i)
  | inr high ↦ ground (arith, high, get_or_out (view s) i, length-view s h)
]

set-IsSound :
    (i p : ℕ) (s : Dynstuf) → IsSound s → IsSound (record s { stuf = some (set (slots_of s) i p) })
set-IsSound i p s h = record {
  used = h.used;
  there = omega (arith, h.there, length-set (slots_of s) i p);
}

pub put-Agrees :
    (i p : ℕ) (s : Dynstuf) → IsSound s → Agrees s (dynstuf_set i p s) (on_list (put i p) (view s))
unfolding dynstuf_set
put-Agrees i p s h = elim (Bool-cases (ltb i s.items)) [
  | inl low ↦ rw low (record {
    sound = set-IsSound i p s h;
    fits = omega arith;
    same_result = ground (arith, low, length-view s h);
    same_view = take-set s.items (slots_of s) i p;
  })
  | inr high ↦ rw high (record {
    sound = h;
    fits = omega arith;
    same_result = ground (arith, high, length-view s h);
    same_view = sym (set_out (view s) i p (ground (arith, high, length-view s h)));
  })
]

pub replace-Agrees :
    (i p : ℕ) (s : Dynstuf)
    → IsSound s
    → Agrees s (dynstuf_replace i p s) (on_list (replace i p) (view s))
unfolding dynstuf_replace dynstuf_get
replace-Agrees i p s h = elim (Bool-cases (ltb i s.items)) [
  | inl low ↦ rw low (record {
    sound = set-IsSound i p s h;
    fits = omega arith;
    same_result = ground (arith, low, get_lem i s h);
    same_view = take-set s.items (slots_of s) i p;
  })
  | inr high ↦ rw high (record {
    sound = h;
    fits = omega arith;
    same_result = ground (arith, high, get_lem i s h);
    same_view = sym (set_out (view s) i p (ground (arith, high, length-view s h)));
  })
]

last_lem :
    (s : Dynstuf) → IsSound s → 0 < s.items → get_or (slots_of s) (s.items - 1) 0 ≡ last (view s)
last_lem s h some_items =
    sym (get_or-take s.items (slots_of s) (s.items - 1) (omega (arith, some_items)))
    ∙ ap (λ n. get_or (view s) (n - 1) 0) (sym (length-view s h))

last_none : (s : Dynstuf) → IsSound s → s.items ≡ 0 → last (view s) ≡ 0
last_none s h none_there =
    get_or_out (view s) (length (view s) - 1) (omega (arith, length-view s h, none_there))

pub peek-Agrees : (s : Dynstuf) → IsSound s → Agrees s (dynstuf_peek s, s) (on_list peek (view s))
unfolding dynstuf_peek
peek-Agrees s h = record {
  sound = h;
  fits = omega arith;
  same_result = ground (arith, last_lem s h, last_none s h);
  same_view = refl;
}

pub pop-Agrees : (s : Dynstuf) → IsSound s → Agrees s (dynstuf_pop s) (on_list pop (view s))
unfolding dynstuf_pop
pop-Agrees s h = elim (Bool-cases (ltb 0 s.items)) [
  | inl more ↦ rw more (record {
    sound = record { used = omega (arith, h.used); there = h.there };
    fits = omega arith;
    same_result = last_lem s h (ground (arith, more));
    same_view =
        sym (take-take (s.items - 1) s.items (slots_of s) (omega arith))
        ∙ ap (λ n. take (n - 1) (view s)) (sym (length-view s h));
  })
  | inr empty ↦ rw empty (record {
    sound = h;
    fits = omega arith;
    same_result = sym (last_none s h (ground (arith, empty)));
    same_view =
        sym (
          take-take (s.items - 1) s.items (slots_of s) (omega arith)
          ∙ ap (λ n. take n (slots_of s)) (ground (arith, empty)))
        ∙ ap (λ n. take (n - 1) (view s)) (sym (length-view s h));
  })
]

pub reverse-Agrees :
    (s : Dynstuf) → IsSound s → Agrees s (0, dynstuf_reverse s) (on_list reverse (view s))
unfolding dynstuf_reverse
reverse-Agrees s h = elim (Bool-cases (ltb s.items 2)) [
  | inl few ↦ rw few (record {
    sound = h;
    fits = omega arith;
    same_result = refl;
    same_view = short_reversed (view s) (ground (arith, few, length-view s h));
  })
  | inr many ↦ rw many (record {
    sound = record {
      used = h.used;
      there =
          omega (arith, h.there, length-reverse_from (s.items - 1) 0 (s.items - 1) (slots_of s));
    };
    fits = omega arith;
    same_result = refl;
    same_view =
        take-reverse_from s.items (slots_of s) (ground (arith, many))
          (omega (arith, h.used, h.there));
  })
]
  where
    short_reversed : (v : List ℕ) → length v < 2 → v ≡ reversed v
    short_reversed [] few = refl
    short_reversed (x ∷ []) few = refl
    short_reversed (x ∷ y ∷ v) few = absurd (omega (arith, few))
