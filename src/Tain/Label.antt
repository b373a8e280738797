-- ===== src/Tain/Label.antt =====
-- The external TAI64N formats.
use perp.Common.{◌<◌, ◌≡◌, ◌++◌, Bytes, arith}
use perp.Upak.{u32_mod, u64_mod}
use perp.Tain.{Tain, tain_pack, tain_unpack}

-- A timestamp whose fields fit 64 and 32 bits is read back from its 12 byte label, whatever bytes
-- follow it.
pub tain_unpack-pack :
    (t : Tain) (rest : Bytes)
    → t.sec < u64_mod
    → t.nsec < u32_mod
    → tain_unpack (tain_pack t ++ rest) ≡ t
unfolding tain_pack tain_unpack
tain_unpack-pack t rest hs hn = ground arith
