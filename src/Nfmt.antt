-- ===== src/Nfmt.antt =====
-- lasagna/nfmt: an unsigned integer as text, and its length.
-- The conversions fill the buffer from its end: they store at `s + len - 1` downwards, where `len`
-- comes from a first loop. `stores` gives the characters that the second loop stores, the lowest
-- address first, and the first loop's `len` says at which address they end.
pub mod Width
mod Tests
use perp.Common.{ℕ, zero, suc, ◌+◌, ◌-◌, ◌/◌, ◌%◌, Bytes, [], ◌∷◌, ◌++◌, ltb, ◌==◌, if◌then◌else◌}

-- `while (q > last) { ++len; q /= base; }`; each round divides by two at least, so `q + 1` rounds
-- are enough.
unfoldable pub count_from : ℕ → ℕ → ℕ → ℕ → ℕ → ℕ
count_from base last zero q len = len
count_from base last (suc f) q len =
    let rest = count_from base last f (q / base) (len + 1) in if ltb last q then rest else len

-- `do { *--s = digit(n % base); n /= base; } while (n);`
unfoldable pub store_from : (ℕ → ℕ) → ℕ → ℕ → ℕ → Bytes → Bytes
store_from digit base zero n out = out
store_from digit base (suc f) n out =
    let out' = digit (n % base) ∷ out in
    let rest = store_from digit base f (n / base) out' in if n / base == 0 then out' else rest

abbrev pub decimal : ℕ → ℕ
decimal d = b'0' + d

abbrev pub hexify : ℕ → ℕ
hexify x = if ltb x 10 then x + b'0' else x - 10 + b'a'

-- what a conversion returns, and what it stores
pub record Stored : Type 0 where
  pub len : ℕ
  pub stores : Bytes

unfoldable pub nfmt_uint32_ : ℕ → Stored
unfolding count_from store_from
nfmt_uint32_ n = record {
  len = count_from 10 9 (n + 1) n 1;
  stores = store_from decimal 10 (n + 1) n [];
}

-- the same loops at 64 bits
unfoldable pub nfmt_uint64_ : ℕ → Stored
unfolding count_from store_from
nfmt_uint64_ n = record {
  len = count_from 10 9 (n + 1) n 1;
  stores = store_from decimal 10 (n + 1) n [];
}

unfoldable pub nfmt_uint32o_ : ℕ → Stored
unfolding count_from store_from
nfmt_uint32o_ n = record {
  len = count_from 8 7 (n + 1) n 1;
  stores = store_from decimal 8 (n + 1) n [];
}

-- The length loop tests `q > 16`.
unfoldable pub nfmt_uint32x_ : ℕ → Stored
unfolding count_from store_from
nfmt_uint32x_ n = record {
  len = count_from 16 16 (n + 1) n 1;
  stores = store_from hexify 16 (n + 1) n [];
}

-- The C string that `nfmt_uint32` leaves, without its nul at `s[len]`.
unfoldable pub nfmt_uint32 : ℕ → Bytes
unfolding nfmt_uint32_
nfmt_uint32 n = (nfmt_uint32_ n).stores

unfoldable pub nfmt_uint64 : ℕ → Bytes
unfolding nfmt_uint64_
nfmt_uint64 n = (nfmt_uint64_ n).stores

-- `while (len < w) { *s++ = c; ++len; }`
pub pad_from : ℕ → ℕ → ℕ → ℕ → Bytes
pad_from c w zero len = []
pad_from c w (suc f) len = let rest = pad_from c w f (len + 1) in if ltb len w then c ∷ rest else []

unfoldable pub nfmt_uint32_pad : ℕ → ℕ → Bytes
unfolding nfmt_uint32_ pad_from
nfmt_uint32_pad n w = pad_from b' ' w w (nfmt_uint32_ n).len ++ (nfmt_uint32_ n).stores

unfoldable pub nfmt_uint32_pad0 : ℕ → ℕ → Bytes
unfolding nfmt_uint32_ pad_from
nfmt_uint32_pad0 n w = pad_from b'0' w w (nfmt_uint32_ n).len ++ (nfmt_uint32_ n).stores
