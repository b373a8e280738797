-- ===== src/Hfunc/Tests.antt =====
-- Hashes of short keys.
use perp.Common.{◌≡◌, codes, refl}
use perp.Hfunc.{hfunc_djba, hfunc_elf1}

hash_of_a : hfunc_djba (codes "a") ≡ 177670
unfolding hfunc_djba
hash_of_a = refl

elf_of_ab : hfunc_elf1 (codes "ab") ≡ 1650
unfolding hfunc_elf1
elf_of_ab = refl
