-- ===== src/Upak.antt =====
-- lasagna/upak: portable little-endian packing of unsigned integers.
-- A pack routine returns the bytes that it stores, in order; an unpack routine takes the bytes of
-- its buffer. `u & 255` is `u % 256`, `u >>= 8` is `u / 256`, and `u <<= 8` wraps at the width.
pub mod RoundTrip
mod Tests
use perp.Common.{ℕ, ◌+◌, ◌*◌, ◌/◌, ◌%◌, ◌^◌, [], ◌∷◌, ◌++◌, Bytes, List, ◌==◌, if◌then◌else◌}
use perp.Common.{Bool, ◌||◌, get_or}

-- the conversion to uchar_t
abbrev pub uchar : ℕ → ℕ
uchar n = n % 256

-- the least significant byte first
unfoldable pub upak16_pack : ℕ → Bytes
upak16_pack u = uchar u ∷ uchar (u / 256) ∷ []

unfoldable pub upak24_pack : ℕ → Bytes
upak24_pack u = let v = u / 256 in let w = v / 256 in uchar u ∷ uchar v ∷ uchar w ∷ []

unfoldable pub upak32_pack : ℕ → Bytes
upak32_pack u =
    let v = u / 256 in let w = v / 256 in uchar u ∷ uchar v ∷ uchar w ∷ uchar (w / 256) ∷ []

unfoldable pub upak64_pack : ℕ → Bytes
upak64_pack u =
    let v = u / 256 in
    let w = v / 256 in
    let x = w / 256 in
    let y = x / 256 in
    let z = y / 256 in
    let q = z / 256 in
    uchar u ∷ uchar v ∷ uchar w ∷ uchar x ∷ uchar y ∷ uchar z ∷ uchar q ∷ uchar (q / 256) ∷ []

-- `u <<= 8; u += b;` in an unsigned integer type of 2 ^ k values
abbrev pub shift_in : ℕ → ℕ → ℕ → ℕ
shift_in width u b = (u * 256 % width + b) % width

abbrev pub u16_mod : ℕ
u16_mod = 2 ^ 16

abbrev pub u32_mod : ℕ
u32_mod = 2 ^ 32

-- arithmetic in uint32_t
abbrev pub u32 : ℕ → ℕ
u32 n = n % u32_mod

abbrev pub u64_mod : ℕ
u64_mod = 2 ^ 64

-- `b[i]`
abbrev pub at : Bytes → ℕ → ℕ
at b i = get_or b i 0

unfoldable pub upak16_unpack : Bytes → ℕ
upak16_unpack b = shift_in u16_mod (at b 1) (at b 0)

unfoldable pub upak24_unpack : Bytes → ℕ
upak24_unpack b = shift_in u32_mod (shift_in u32_mod (at b 2) (at b 1)) (at b 0)

unfoldable pub upak32_unpack : Bytes → ℕ
upak32_unpack b =
    let shift = shift_in u32_mod in shift (shift (shift (at b 3) (at b 2)) (at b 1)) (at b 0)

unfoldable pub upak64_unpack : Bytes → ℕ
upak64_unpack b =
    let shift = shift_in u64_mod in
    let high = shift (shift (shift (at b 7) (at b 6)) (at b 5)) (at b 4) in
    shift (shift (shift (shift high (at b 3)) (at b 2)) (at b 1)) (at b 0)

-- What `upak_pack` does: the bytes stored, or -1 with EINVAL. `fault` is a `va_arg` past the last
-- argument, which C leaves undefined.
pub data Packed : Type 0 where
  packed : Bytes → Packed
  einval fault : Packed

-- the bytes of one more format character in front
abbrev pub before : Bytes → Packed → Packed
before b (packed rest) = packed (b ++ rest)
before b einval = einval
before b fault = fault

-- one format character with its argument, before the rest is packed
pub pack_item : ℕ → ℕ → Packed → Packed
unfolding upak16_pack upak32_pack upak64_pack
pack_item c a rest =
    if c == b'b'
    then before (uchar a ∷ []) rest
    else if c == b'c'
    then before (uchar a ∷ []) rest
    else if c == b's'
    then before (upak16_pack (a % u16_mod)) rest
    else if c == b'd'
    then before (upak32_pack (a % u32_mod)) rest
    else if c == b'L'
    then before (upak64_pack (a % u64_mod)) rest
    else einval

-- is this a character that `upak_pack` knows?
pub known : ℕ → Bool
known c = c == b'b' || c == b'c' || c == b's' || c == b'd' || c == b'L'

pub upak_pack : Bytes → List ℕ → Packed
unfolding pack_item known
upak_pack [] args = packed []
upak_pack (c ∷ fmt) [] = if known c then fault else einval
upak_pack (c ∷ fmt) (a ∷ args) = pack_item c a (upak_pack fmt args)
