-- ===== src/Nuscan/Tests.antt =====
-- Runs of the scanner.
use perp.Common.{arith}
use perp.Nfmt.{nfmt_uint32}
use perp.Nuscan.RoundTrip.{nuscan_uint32-nfmt_uint32}
use perp.Common.{◌≡◌, refl, codes, []}
use perp.Nuscan.{nuscan_uint32}

scan_runs : nuscan_uint32 (codes "120s") ≡ (120, codes "s")
unfolding nuscan_uint32
scan_runs = refl

-- the wrapped product is larger than the number before it, so the overflow goes unseen
unseen_overflow : nuscan_uint32 (codes "5000000000") ≡ (705032704, [])
unfolding nuscan_uint32
unseen_overflow = refl

nuscan_uint32-nfmt_uint32_example : nuscan_uint32 (nfmt_uint32 4294967295) ≡ (4294967295, [])
nuscan_uint32-nfmt_uint32_example = nuscan_uint32-nfmt_uint32 4294967295 (omega arith)
