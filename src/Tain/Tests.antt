-- ===== src/Tain/Tests.antt =====
-- Runs of the timestamp routines.
use perp.Common.{arith}
use perp.Tain.Arithmetic.{IsCanonical}
use perp.Common.{◌≡◌, refl, codes}
use perp.Tain.{Tain, tain_packhex, tain_unpackhex}

abbrev stamp : Tain
stamp = record { sec = 0x400000004d4e1ad2; nsec = 500 }

packhex_runs : tain_packhex stamp ≡ codes "400000004d4e1ad2000001f4"
unfolding tain_packhex
packhex_runs = refl

unpackhex_runs :
    tain_unpackhex (codes "400000004d4e1ad2000001f4")
    ≡ record { sec = 0x4000000000000004; nsec = 0x4dd44ee1 }
unfolding tain_unpackhex
unpackhex_runs = refl

abbrev early : Tain
early = record { sec = 10; nsec = 999999999 }

abbrev late : Tain
late = record { sec = 12; nsec = 3 }

early-IsCanonical : IsCanonical early
early-IsCanonical = ground arith

late-IsCanonical : IsCanonical late
late-IsCanonical = ground arith
