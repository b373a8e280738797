-- ===== src/Upak/Tests.antt =====
-- Runs of the packing routines.
use perp.Common.{◌≡◌, refl, [], ◌∷◌}
use perp.Upak.{upak32_pack}

pack_runs : upak32_pack 0x01020304 ≡ 4 ∷ 3 ∷ 2 ∷ 1 ∷ []
unfolding upak32_pack
pack_runs = refl
