-- ===== src/Dynstuf/Client.antt =====
-- lasagna/dynstuf: what a client observes over any sequence of calls.
use perp.Common.{
  ℕ, suc, ◌+◌, ◌^◌, ◌≡◌, ◌<◌, inl, inr, refl, sym, ◌∙◌, ap, Bool, true, false, none, some, List, [],
  ◌∷◌, length, take, length-append, arith,
}
use perp.Dynstuf.{Dynstuf, slots_of, dynstuf_init, dynstuf_grow, dynstuf_push}
use perp.Dynstuf.Vector.{view, IsSound, push_lem}
use mathlib.Core.Path.{subst}
use mathlib.Core.Option.{some-injective}
use perp.Dynstuf.Vector.{grow_lem}
use perp.Dynstuf.Calls.{
  Op, push, pop, peek, reverse, get, put, replace, call, on_list, Agrees, length-view, get_lem,
  put-Agrees, replace-Agrees, peek-Agrees, pop-Agrees, reverse-Agrees,
}

-- a call on a list, or a push that is refused
abbrev pub unless : Bool → Op → List ℕ → ℕ × List ℕ
unless true (push p) v = (1, v)
unless false op v = on_list op v
unless true pop v = on_list pop v
unless true peek v = on_list peek v
unless true reverse v = on_list reverse v
unless true (get i) v = on_list (get i) v
unless true (put i p) v = on_list (put i p) v
unless true (replace i p) v = on_list (replace i p) v

abbrev pub replay : List Op → List Bool → List ℕ → List ℕ × List ℕ
replay [] refusals v = ([], v)
replay (op ∷ ops) [] v = ([], v)
replay (op ∷ ops) (refused ∷ refusals) v =
    let (r, v1) = unless refused op v in let (rs, v2) = replay ops refusals v1 in (r ∷ rs, v2)

module _ (gives : ℕ → Bool) (junk : ℕ) where
  -- the results of the calls, and the vector behind them
  abbrev pub calls : List Op → Dynstuf → List ℕ × Dynstuf
  calls [] s = ([], s)
  calls (op ∷ ops) s =
      let (r, s1) = call gives junk op s in let (rs, s2) = calls ops s1 in (r ∷ rs, s2)

  call_lem :
      (op : Op) (s : Dynstuf)
      → IsSound s
      → s.items + 1 < 2 ^ 59
      → (refused : Bool) × Agrees s (call gives junk op s) (unless refused op (view s))
  call_lem (push p) s h small = elim (push_lem gives junk p s h small) [
    | inl (failed, same) ↦ (
      true,
      record {
        sound = subst IsSound (sym same) h;
        fits = omega (arith, ap (λ t. t.items) same);
        same_result = ground (arith, failed);
        same_view = ap view same;
      },
    )
    | inr (done, sound, held) ↦ (
      false,
      record {
        sound = sound;
        fits = omega (
          arith,
          length-view (dynstuf_push gives junk p s).1 sound,
          length-view s h,
          ap length held,
          length-append (view s) (p ∷ []),
        );
        same_result = ground (arith, done);
        same_view = held;
      },
    )
  ]
  call_lem pop s h small = (false, pop-Agrees s h)
  call_lem peek s h small = (false, peek-Agrees s h)
  call_lem reverse s h small = (false, reverse-Agrees s h)
  call_lem (get i) s h small = (
    false,
    record { sound = h; fits = omega arith; same_result = get_lem i s h; same_view = refl },
  )
  call_lem (put i p) s h small = (false, put-Agrees i p s h)
  call_lem (replace i p) s h small = (false, replace-Agrees i p s h)

  -- From a sound vector, over any calls that leave it below 2 ^ 59 pointers, there are pushes that are
  -- refused, if any, such that the calls return what the same calls return on a list, less the
  -- refused pushes, and the vector then holds that list.
  pub calls_refine :
      (ops : List Op) (s : Dynstuf)
      → IsSound s
      → s.items + length ops < 2 ^ 59
      → (refusals : List Bool) × (length refusals ≡ length ops)
        × ((calls ops s).0 ≡ (replay ops refusals (view s)).0)
        × (view (calls ops s).1 ≡ (replay ops refusals (view s)).1)
  calls_refine [] s h small = ([], refl, refl, refl)
  calls_refine (op ∷ ops) s h small =
      let (refused, a) = call_lem op s h (omega (arith, small)) in
      let s1 = (call gives junk op s).1 in
      let (refusals, as_many, results, held) =
        calls_refine ops s1 a.sound (omega (arith, small, a.fits)) in
      (
        refused ∷ refusals,
        ap suc as_many,
        ap (λ r. r ∷ (calls ops s1).0) a.same_result
            ∙ ap (λ rs. (unless refused op (view s)).0 ∷ rs)
                (results ∙ ap (λ v. (replay ops refusals v).0) a.same_view),
        held ∙ ap (λ v. (replay ops refusals v).1) a.same_view,
      )

  init-IsSound : {s : Dynstuf} → dynstuf_init gives junk ≡ some s → IsSound s × (s.items ≡ 0)
  unfolding dynstuf_init
  init-IsSound {s} made =
      let empty : Dynstuf = record { stuf = none; slots = 0; items = 0 } in
      let h : IsSound empty = record { used = omega arith; there = omega arith } in
      elim (grow_lem gives junk 1 empty h (omega arith)) [
        | inl (failed, same) ↦ let never : none ≡ some s = rw (failed, dynstuf_init) at made in cc
        | inr (done, g) ↦
            let same : (dynstuf_grow gives junk 1 empty).1 ≡ s =
              some-injective _ _ (rw (done, dynstuf_init) at made) in
            (subst IsSound same g.sound, ap (λ t. t.items) (sym same) ∙ g.same_items)
      ]

  -- On a new vector, over less than 2 ^ 59 calls, there are pushes that are refused, if any, such that
  -- the calls return what the same calls return on a list that is empty at first, less the refused
  -- pushes, and the vector then holds that list.
  pub new_refines :
      (ops : List Op) {s : Dynstuf}
      → dynstuf_init gives junk ≡ some s
      → length ops < 2 ^ 59
      → (refusals : List Bool) × (length refusals ≡ length ops)
        × ((calls ops s).0 ≡ (replay ops refusals []).0)
        × (view (calls ops s).1 ≡ (replay ops refusals []).1)
  new_refines ops {s} made small =
      let (h, none_there) = init-IsSound made in
      let empty : view s ≡ [] = ap (λ n. take n (slots_of s)) none_there in
      subst
        (λ v.
          (refusals : List Bool) × (length refusals ≡ length ops)
          × ((calls ops s).0 ≡ (replay ops refusals v).0)
          × (view (calls ops s).1 ≡ (replay ops refusals v).1))
        empty (calls_refine ops s h (omega (arith, none_there, small)))
