-- ===== src/Nfmt/Tests.antt =====
-- Runs of the conversions.
use perp.Common.{◌≡◌, refl, codes}
use perp.Nfmt.{nfmt_uint32, nfmt_uint32x_, nfmt_uint32_pad}

decimal_runs : nfmt_uint32 4294967295 ≡ codes "4294967295"
unfolding nfmt_uint32
decimal_runs = refl

padded_runs : nfmt_uint32_pad 42 5 ≡ codes "   42"
unfolding nfmt_uint32_pad
padded_runs = refl

-- two characters are stored, and one is counted
hex_sixteen : nfmt_uint32x_ 16 ≡ record { len = 1; stores = codes "10" }
unfolding nfmt_uint32x_
hex_sixteen = refl
