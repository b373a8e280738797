-- ===== src/Cdb/Arrays.antt =====
-- Arrays of bytes, read a byte or four at a time.
use perp.Common.{
  ℕ, zero, suc, ◌+◌, ◌-◌, ◌≡◌, ◌≤◌, ◌<◌, ◌⊎◌, inl, inr, refl, sym, ◌∙◌, ap, [], ◌∷◌, ◌++◌, Bytes,
  ltb, if◌then◌else◌, drop, take, length, store, arith, length-take, length-drop, length-append,
}
use perp.Upak.{at, upak32_unpack}

pub at-take : (n : ℕ) (b : Bytes) (i : ℕ) → i < n → at (take n b) i ≡ at b i
at-take zero b i h = absurd (omega (arith, h))
at-take (suc n) [] i h = refl
at-take (suc n) (x ∷ b) zero h = refl
at-take (suc n) (x ∷ b) (suc i) h = at-take n b i (omega (arith, h))

pub at-drop : (n : ℕ) (b : Bytes) (i : ℕ) → at (drop n b) i ≡ at b (n + i)
at-drop zero b i = ap (at b) {x = i} (omega arith)
at-drop (suc n) [] i = refl
at-drop (suc n) (x ∷ b) i = at-drop n b i ∙ ap (at (x ∷ b)) {x = suc (n + i)} (omega arith)

pub at-append :
    (xs ys : Bytes) (j : ℕ)
    → at (xs ++ ys) j ≡ (if ltb j (length xs) then at xs j else at ys (j - length xs))
at-append [] ys j = ground (arith, ap (at ys) {x = j} {y = j - 0} (omega arith))
at-append (x ∷ xs) ys zero = ground arith
at-append (x ∷ xs) ys (suc j) = ground (arith, at-append xs ys j)

pub at-store_in :
    (k b : Bytes) (i j : ℕ)
    → i + length b ≤ length k
    → j < length b
    → at (store k i b) (i + j) ≡ at b j
at-store_in k b i j fits h =
    let rest = b ++ drop (i + length b) k in
    ground (
      arith,
      at-append (take i k) rest (i + j),
      length-take i k,
      fits,
      ap (at rest) {x = i + j - i} {y = j} (omega arith),
      at-append b (drop (i + length b) k) j,
      h,
    )

pub at-store_out :
    (k b : Bytes) (i j : ℕ)
    → i + length b ≤ length k
    → (j < i) ⊎ (i + length b ≤ j)
    → at (store k i b) j ≡ at k j
at-store_out k b i j fits (inl low) = ground (
  arith,
  at-append (take i k) (b ++ drop (i + length b) k) j,
  length-take i k,
  fits,
  low,
  at-take i k j,
)
at-store_out k b i j fits (inr high) =
    let tail = drop (i + length b) k in
    at-append (take i k) (b ++ tail) j
    ∙ (ground (arith, length-take i k, fits, high)
        ∙ (at-append b tail (j - i)
            ∙ (ground (arith, high)
                ∙ (at-drop (i + length b) k (j - i - length b) ∙ ap (at k) (omega (arith, high))))))

-- four bytes that are the same
pub unpack_same :
    (b c : Bytes) (o p : ℕ)
    → ((i : ℕ) → i < 4 → at b (o + i) ≡ at c (p + i))
    → upak32_unpack (drop o b) ≡ upak32_unpack (drop p c)
unfolding upak32_unpack
unpack_same b c o p same =
    let byte : (i : ℕ) → i < 4 → at (drop o b) i ≡ at (drop p c) i =
      λ i h. at-drop o b i ∙ (same i h ∙ sym (at-drop p c i)) in
    rw (byte 0 (omega arith), byte 1 (omega arith), byte 2 (omega arith), byte 3 (omega arith)) refl

pub length-store : (k b : Bytes) (i : ℕ) → i + length b ≤ length k → length (store k i b) ≡ length k
length-store k b i fits = omega (
  arith,
  length-append (take i k) (b ++ drop (i + length b) k),
  length-append b (drop (i + length b) k),
  length-take i k,
  length-drop (i + length b) k,
  fits,
)
