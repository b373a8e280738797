-- ===== src/Nfmt/Width.antt =====
-- The two loops of a conversion agree on the number of characters.
use Prim.Native.Nat.{max}
use perp.Common.{
  ℕ, zero, suc, ◌+◌, ◌-◌, ◌/◌, ◌%◌, ◌<◌, ◌≤◌, ◌≡◌, Bytes, [], ◌∷◌, length, length-append, arith,
  Bool, true, false, ltb, ◌==◌, if◌then◌else◌,
}
use perp.Nfmt.{
  count_from, store_from, decimal, hexify, nfmt_uint32_, nfmt_uint64_, nfmt_uint32o_, nfmt_uint32x_,
  pad_from, nfmt_uint32_pad,
}

-- With rounds to spare, the length loop counts what the storing loop stores.
stores_10 :
    (f n len : ℕ) (out : Bytes)
    → n < f
    → length (store_from decimal 10 f n out) + len ≡ count_from 10 9 f n len + length out + 1
unfolding count_from store_from
stores_10 zero n len out h = absurd (omega arith)
stores_10 (suc f) n len out h =
    ground (arith, stores_10 f (n / 10) (len + 1) (decimal (n % 10) ∷ out))

stores_8 :
    (f n len : ℕ) (out : Bytes)
    → n < f
    → length (store_from decimal 8 f n out) + len ≡ count_from 8 7 f n len + length out + 1
unfolding count_from store_from
stores_8 zero n len out h = absurd (omega arith)
stores_8 (suc f) n len out h = ground (arith, stores_8 f (n / 8) (len + 1) (decimal (n % 8) ∷ out))

-- `nfmt_uint32_` stores exactly the `len` characters from `s` on.
pub length-stores-uint32 : (n : ℕ) → length (nfmt_uint32_ n).stores ≡ (nfmt_uint32_ n).len
unfolding nfmt_uint32_
length-stores-uint32 n = omega (arith, stores_10 (n + 1) n 1 [])

pub length-stores-uint64 : (n : ℕ) → length (nfmt_uint64_ n).stores ≡ (nfmt_uint64_ n).len
unfolding nfmt_uint64_
length-stores-uint64 n = omega (arith, stores_10 (n + 1) n 1 [])

pub length-stores-uint32o : (n : ℕ) → length (nfmt_uint32o_ n).stores ≡ (nfmt_uint32o_ n).len
unfolding nfmt_uint32o_
length-stores-uint32o n = omega (arith, stores_8 (n + 1) n 1 [])

-- The padding loop fills up to the width.
length-pad_from : (c w f len : ℕ) → w ≤ len + f → length (pad_from c w f len) ≡ w - len
unfolding pad_from
length-pad_from c w zero len h = omega arith
length-pad_from c w (suc f) len h = ground (arith, length-pad_from c w f (len + 1))

-- A padded number is as long as the width, or as its digits where they are more.
pub length-nfmt_uint32_pad : (n w : ℕ) → length (nfmt_uint32_pad n w) ≡ max w (nfmt_uint32_ n).len
unfolding nfmt_uint32_pad
length-nfmt_uint32_pad n w =
    let k = (nfmt_uint32_ n).len in
    omega (
      arith,
      length-append (pad_from b' ' w w k) (nfmt_uint32_ n).stores,
      length-pad_from b' ' w w k (omega arith),
      length-stores-uint32 n,
    )

-- do the hexadecimal digits of `n` start with 1 and 0?
pub starts_10 : ℕ → ℕ → Bool
starts_10 zero n = false
starts_10 (suc f) n =
    let rest = starts_10 f (n / 16) in if n == 16 then true else if ltb n 16 then false else rest

-- the last digit
stores_last :
    (f n : ℕ) (out : Bytes)
    → 0 < f
    → n < 16
    → length (store_from hexify 16 f n out) ≡ length out + 1
unfolding store_from
stores_last zero n out h lt = absurd (omega arith)
stores_last (suc f) n out h lt = ground arith

stores_16 :
    (f n len : ℕ) (out : Bytes)
    → n < f
    → length (store_from hexify 16 f n out) + len
      ≡ count_from 16 16 f n len + length out + (if starts_10 f n then 2 else 1)
unfolding count_from store_from starts_10
stores_16 zero n len out h = absurd (omega arith)
stores_16 (suc f) n len out h = ground (
  arith,
  stores_16 f (n / 16) (len + 1) (hexify (n % 16) ∷ out),
  stores_last f (n / 16) (hexify (n % 16) ∷ out),
)

-- `nfmt_uint32x_` stores one character more than its `len`, in front of the buffer, exactly for
-- the numbers whose digits start with 10.
pub length-stores-uint32x :
    (n : ℕ)
    → length (nfmt_uint32x_ n).stores
      ≡ (nfmt_uint32x_ n).len + (if starts_10 (n + 1) n then 1 else 0)
unfolding nfmt_uint32x_
length-stores-uint32x n = ground (arith, stores_16 (n + 1) n 1 [])
