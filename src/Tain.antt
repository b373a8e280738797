-- ===== src/Tain.antt =====
-- lasagna/tain.h and lasagna/tain: TAI timestamps, seconds in a uint64_t and nanoseconds in a
-- uint32_t. A routine that fills its first argument returns the new timestamp.
pub mod Arithmetic
pub mod Label
mod Tests
use perp.Common.{
  ℕ, ◌+◌, ◌-◌, ◌*◌, ◌/◌, ◌%◌, Bool, ◌&&◌, Bytes, [], ◌∷◌, ◌++◌, ltb, leb, ◌==◌, if◌then◌else◌, zero,
  suc, codes, get_or,
}
use perp.Upak.{uchar, at, shift_in, u32_mod, u64_mod}
use Prim.Native.Nat.{bit_and}

pub record Tain : Type 0 where
  pub sec : ℕ
  pub nsec : ℕ

abbrev pub second : ℕ
second = 1000000000

abbrev pub tain_utc_offset : ℕ
tain_utc_offset = 4611686018427387914

abbrev pub tain_load : ℕ → ℕ → Tain
tain_load s n = record { sec = s % u64_mod; nsec = n % u32_mod }

abbrev pub tain_assign : Tain → Tain
tain_assign t = record { sec = t.sec; nsec = t.nsec }

unfoldable pub tain_load_utc : ℕ → Tain
tain_load_utc u = record { sec = (tain_utc_offset + u) % u64_mod; nsec = 0 }

unfoldable pub tain_to_utc : Tain → ℕ
tain_to_utc t = (t.sec + u64_mod - tain_utc_offset) % u64_mod

-- what `gettimeofday` reports
pub record Timeval : Type 0 where
  pub tv_sec : ℕ
  pub tv_usec : ℕ

unfoldable pub tain_now : Timeval → Tain
unfolding tain_load_utc
tain_now now = record (tain_load_utc now.tv_sec) { nsec = (1000 * now.tv_usec + 500) % u32_mod }

unfoldable pub tain_load_msecs : ℕ → Tain
tain_load_msecs m = record { sec = m / 1000; nsec = m % 1000 * 1000000 }

unfoldable pub tain_to_msecs : Tain → ℕ
tain_to_msecs t = (t.sec * 1000 + t.nsec / 1000000) % u64_mod

unfoldable pub tain_less : Tain → Tain → Bool
tain_less a b = if a.sec == b.sec then ltb a.nsec b.nsec else ltb a.sec b.sec

unfoldable pub tain_iszero : Tain → Bool
tain_iszero t = t.sec == 0 && t.nsec == 0

unfoldable pub tain_plus : Tain → Tain → Tain
tain_plus a b =
    let s = (a.sec + b.sec) % u64_mod in
    let n = (a.nsec + b.nsec) % u32_mod in
    if ltb 999999999 n
    then record { sec = (s + 1) % u64_mod; nsec = n - 1000000000 }
    else record { sec = s; nsec = n }

unfoldable pub tain_minus : Tain → Tain → Tain
tain_minus a b =
    let s = (a.sec + u64_mod - b.sec) % u64_mod in
    if leb b.nsec a.nsec then record { sec = s; nsec = a.nsec - b.nsec } else record {
      sec = (s + u64_mod - 1) % u64_mod;
      nsec = (1000000000 + a.nsec + u64_mod - b.nsec) % u64_mod % u32_mod;
    }

unfoldable pub tain_uptime : Tain → Tain → ℕ
unfolding tain_less tain_minus
tain_uptime now when =
    let temp = if tain_less when now then tain_minus now when else tain_minus when now in
    if ltb 500000000 temp.nsec then (temp.sec + 1) % u64_mod else temp.sec

-- most significant byte first
unfoldable pub tain_tai_pack : Tain → Bytes
tain_tai_pack t =
    let x6 = t.sec / 256 in
    let x5 = x6 / 256 in
    let x4 = x5 / 256 in
    let x3 = x4 / 256 in
    let x2 = x3 / 256 in
    let x1 = x2 / 256 in
    let x0 = x1 / 256 in
    uchar x0 ∷ uchar x1 ∷ uchar x2 ∷ uchar x3 ∷ uchar x4 ∷ uchar x5 ∷ uchar x6 ∷ uchar t.sec ∷ []

unfoldable pub tain_pack : Tain → Bytes
unfolding tain_tai_pack
tain_pack t =
    let x2 = t.nsec / 256 in
    let x1 = x2 / 256 in
    let x0 = x1 / 256 in tain_tai_pack t ++ (uchar x0 ∷ uchar x1 ∷ uchar x2 ∷ uchar t.nsec ∷ [])

unfoldable pub tain_tai_unpack : Bytes → ℕ
tain_tai_unpack b =
    let shift = shift_in u64_mod in
    let high = shift (shift (shift (at b 0) (at b 1)) (at b 2)) (at b 3) in
    shift (shift (shift (shift high (at b 4)) (at b 5)) (at b 6)) (at b 7)

unfoldable pub tain_unpack : Bytes → Tain
unfolding tain_tai_unpack
tain_unpack b =
    let shift = shift_in u32_mod in
    record {
      sec = tain_tai_unpack b;
      nsec = shift (shift (shift (at b 8) (at b 9)) (at b 10)) (at b 11);
    }

-- `hex[x & 15]`
abbrev hex_char : ℕ → ℕ
hex_char x = get_or (codes "0123456789abcdef") (x % 16) 0

hex_pairs : Bytes → Bytes
hex_pairs [] = []
hex_pairs (b ∷ bs) = hex_char (b / 16) ∷ hex_char b ∷ hex_pairs bs

-- the string without its terminating nul
unfoldable pub tain_packhex : Tain → Bytes
unfolding tain_pack hex_pairs
tain_packhex t = hex_pairs (tain_pack t)

-- one character's value, in a uchar_t
pub unhex_char : ℕ → ℕ
unhex_char u =
    if leb b'A' u then (bit_and u 0xdf + 256 - b'A' + 10) % 256 else (u + 256 - b'0') % 256

-- `tpack[i]` from `s[i]` and `s[i + 1]`, for `n` values of `i`
unhex_from : Bytes → ℕ → ℕ → Bytes
unfolding unhex_char
unhex_from s i zero = []
unhex_from s i (suc n) =
    uchar (uchar (unhex_char (at s i) * 16) + unhex_char (at s (i + 1))) ∷ unhex_from s (i + 1) n

unfoldable pub tain_unpackhex : Bytes → Tain
unfolding unhex_from tain_unpack
tain_unpackhex s = tain_unpack (unhex_from s 0 12)
