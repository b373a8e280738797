-- ===== src/Nuscan/RoundTrip.antt =====
-- What `nuscan_uint32` makes of digits.
use perp.Common.{
  ℕ, zero, suc, ◌+◌, ◌-◌, ◌*◌, ◌/◌, ◌%◌, ◌<◌, ◌≤◌, ◌≡◌, Bytes, [], ◌∷◌, All, arith, refl,
}
use perp.Upak.{u32_mod}
use perp.Nfmt.{store_from, decimal, nfmt_uint32}
use perp.Nuscan.{scan_from, nuscan_uint32}

-- Scanning what the storing loop stored for `n` takes the scanner from 0 to `n`.
scan_from-store_from :
    (f n : ℕ) (out : Bytes)
    → n < f
    → n < u32_mod
    → scan_from 10 0 (store_from decimal 10 f n out) ≡ scan_from 10 n out
unfolding scan_from store_from
scan_from-store_from zero n out h fits = absurd (omega arith)
scan_from-store_from (suc f) n out h fits =
    ground (arith, scan_from-store_from f (n / 10) (decimal (n % 10) ∷ out))

-- Every uint32_t is read back from its decimal text, and the whole text is used.
pub nuscan_uint32-nfmt_uint32 : (n : ℕ) → n < u32_mod → nuscan_uint32 (nfmt_uint32 n) ≡ (n, [])
unfolding nuscan_uint32 nfmt_uint32
nuscan_uint32-nfmt_uint32 n fits = scan_from-store_from (n + 1) n [] (omega arith) fits

abbrev pub IsDigit : ℕ → Type 0
IsDigit c = (b'0' ≤ c) × (c < b'0' + 10)

-- the number that digits spell behind `r`, with no bound
abbrev pub value : ℕ → Bytes → ℕ
value r [] = r
value r (c ∷ s) = value (r * 10 + (c - b'0')) s

le-value : (r : ℕ) (s : Bytes) → r ≤ value r s
le-value r [] = omega arith
le-value r (c ∷ s) = omega (arith, le-value (r * 10 + (c - b'0')) s)

scan_from-value :
    (s : Bytes) (r : ℕ) → All IsDigit s → value r s < u32_mod → scan_from 10 r s ≡ (value r s, [])
unfolding scan_from
scan_from-value [] r d fits = refl
scan_from-value (c ∷ s) r (dc, ds) fits =
    let m = r * 10 + (c - b'0') in ground (arith, scan_from-value s m ds fits, le-value m s)

-- A string of digits whose number fits 32 bits is read exactly, leading zeros included.
pub nuscan_uint32-value :
    (s : Bytes) → All IsDigit s → value 0 s < u32_mod → nuscan_uint32 s ≡ (value 0 s, [])
unfolding nuscan_uint32
nuscan_uint32-value s d fits = scan_from-value s 0 d fits
