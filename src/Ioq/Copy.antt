-- ===== src/Ioq/Copy.antt =====
-- lasagna/buf/buf_rcopy.c: an array copied onto a later part of itself.
use perp.Common.{
  ℕ, zero, suc, ◌+◌, ◌-◌, ◌≡◌, ◌≤◌, ◌<◌, inl, inr, refl, sym, ◌∙◌, ap, ◌&&◌, [], ◌∷◌, Bytes, ltb,
  leb, ◌==◌, if◌then◌else◌, length, set, store, take, drop, length-set, length-take, length-drop,
  arith, Bool-cases,
}
use perp.Upak.{at}
use perp.Cdb.Arrays.{at-take, at-drop, at-store_in, at-store_out, length-store}
use perp.Ioq.{buf_rcopy}

-- arrays of the same length with the same bytes
pub same_bytes :
    (xs ys : Bytes)
    → length xs ≡ length ys
    → ((j : ℕ) → j < length xs → at xs j ≡ at ys j)
    → xs ≡ ys
same_bytes [] [] h same = refl
same_bytes [] (y ∷ ys) h same = absurd (omega (arith, h))
same_bytes (x ∷ xs) [] h same = absurd (omega (arith, h))
same_bytes (x ∷ xs) (y ∷ ys) h same =
    let tails : xs ≡ ys =
      same_bytes xs ys (omega (arith, h)) (λ j less. same (suc j) (omega (arith, less))) in
    ap (λ z. z ∷ xs) (same 0 (omega arith)) ∙ ap (λ zs. y ∷ zs) tails

at-set : (b : Bytes) (i v j : ℕ) → i < length b → at (set b i v) j ≡ (if i == j then v else at b j)
at-set [] i v j h = absurd (omega (arith, h))
at-set (x ∷ b) zero v zero h = ground arith
at-set (x ∷ b) zero v (suc j) h = ground arith
at-set (x ∷ b) (suc i) v zero h = ground arith
at-set (x ∷ b) (suc i) v (suc j) h = ground (arith, at-set b i v j (omega (arith, h)))

length-buf_rcopy : (b : Bytes) (to from n : ℕ) → length (buf_rcopy b to from n) ≡ length b
unfolding buf_rcopy
length-buf_rcopy b to from zero = refl
length-buf_rcopy b to from (suc n) =
    length-buf_rcopy (set b (to + n) (at b (from + n))) to from n
    ∙ length-set b (to + n) (at b (from + n))

at-buf_rcopy :
    (b : Bytes) (to from n j : ℕ)
    → from ≤ to
    → to + n ≤ length b
    → at (buf_rcopy b to from n) j
      ≡ (if leb to j && ltb j (to + n) then at b (from + (j - to)) else at b j)
unfolding buf_rcopy
at-buf_rcopy b to from zero j before fits = ground arith
at-buf_rcopy b to from (suc n) j before fits =
    let v = at b (from + n) in
    let b1 = set b (to + n) v in
    let fits1 : to + n ≤ length b1 = omega (arith, length-set b (to + n) v, fits) in
    let k = from + (j - to) in
    let last : j ≡ to + n → v ≡ at b k = λ e. ap (at b) (omega (arith, e)) in
    ground (
      arith,
      at-buf_rcopy b1 to from n j before fits1,
      at-set b (to + n) v j (omega (arith, fits)),
      at-set b (to + n) v k (omega (arith, fits)),
      last,
      before,
    )

at-moved :
    (b : Bytes) (to from n j : ℕ)
    → from ≤ to
    → to + n ≤ length b
    → length (take n (drop from b)) ≡ n
    → at (buf_rcopy b to from n) j ≡ at (store b to (take n (drop from b))) j
at-moved b to from n j before fits count =
    let moved = take n (drop from b) in
    let room : to + length moved ≤ length b = omega (arith, count, fits) in
    let value = at-buf_rcopy b to from n j before fits in
    elim (Bool-cases (ltb j to)) [
      | inl low ↦
          ground (arith, value, low, at-store_out b moved to j room (inl (ground (arith, low))))
      | inr from_to ↦ elim (Bool-cases (ltb j (to + n))) [
        | inr high ↦
            ground (
              arith,
              value,
              high,
              at-store_out b moved to j room (inr (ground (arith, high, count))),
            )
        | inl within ↦
            let k = j - to in
            let less : k < n = ground (arith, from_to, within) in
            let here : to + k ≡ j = ground (arith, from_to) in
            let stored : at (store b to moved) j ≡ at b (from + k) =
              ap (at (store b to moved)) (sym here)
              ∙ (at-store_in b moved to k room (omega (arith, less, count))
                  ∙ (at-take n (drop from b) k less ∙ at-drop from b k)) in
            ground (arith, value, from_to, within, stored)
      ]
    ]

-- Bytes copied from the last one down onto a place that is not before their own, within the array, are
-- what they were before the copy, also where the two places overlap; nothing else in the array changes.
pub buf_rcopy_lem :
    (b : Bytes) (to from n : ℕ)
    → from ≤ to
    → to + n ≤ length b
    → buf_rcopy b to from n ≡ store b to (take n (drop from b))
buf_rcopy_lem b to from n before fits =
    let moved = take n (drop from b) in
    let count : length moved ≡ n =
      omega (arith, length-take n (drop from b), length-drop from b, before, fits) in
    let room : to + length moved ≤ length b = omega (arith, count, fits) in
    same_bytes (buf_rcopy b to from n) (store b to moved)
      (length-buf_rcopy b to from n ∙ sym (length-store b moved to room))
      (λ j less. at-moved b to from n j before fits count)
