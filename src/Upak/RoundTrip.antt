-- ===== src/Upak/RoundTrip.antt =====
-- Unpacking what was packed.
use perp.Common.{ℕ, ◌<◌, ◌≡◌, arith, ◌++◌, Bytes}
use perp.Upak.{
  u16_mod, u32_mod, u64_mod, upak16_pack, upak16_unpack, upak24_pack, upak24_unpack, upak32_pack,
  upak32_unpack, upak64_pack, upak64_unpack,
}

-- Every uint16_t is read back from its packed form, whatever bytes follow it.
pub upak16_unpack-pack :
    (u : ℕ) (rest : Bytes) → u < u16_mod → upak16_unpack (upak16_pack u ++ rest) ≡ u
unfolding upak16_pack upak16_unpack
upak16_unpack-pack u rest h = omega arith

pub upak24_unpack-pack :
    (u : ℕ) (rest : Bytes) → u < 16777216 → upak24_unpack (upak24_pack u ++ rest) ≡ u
unfolding upak24_pack upak24_unpack
upak24_unpack-pack u rest h = omega arith

pub upak32_unpack-pack :
    (u : ℕ) (rest : Bytes) → u < u32_mod → upak32_unpack (upak32_pack u ++ rest) ≡ u
unfolding upak32_pack upak32_unpack
upak32_unpack-pack u rest h = omega arith

-- Every uint64_t is read back from its packed form, whatever bytes follow it.
pub upak64_unpack-pack :
    (u : ℕ) (rest : Bytes) → u < u64_mod → upak64_unpack (upak64_pack u ++ rest) ≡ u
unfolding upak64_pack upak64_unpack
upak64_unpack-pack u rest h = omega arith
