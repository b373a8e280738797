-- ===== src/Tain/Arithmetic.antt =====
-- Timestamps as counts of nanoseconds.
use perp.Common.{ℕ, ◌+◌, ◌-◌, ◌*◌, ◌<◌, ◌≤◌, ◌≡◌, ◌↔◌, true, arith}
use perp.Upak.{u64_mod}
use perp.Tain.{Tain, second, tain_less, tain_plus, tain_minus, tain_uptime}

abbrev pub nanos : Tain → ℕ
nanos t = t.sec * second + t.nsec

-- what every routine that makes a timestamp promises
pub record IsCanonical (t : Tain) : Type 0 where
  pub sec_fits : t.sec < u64_mod
  pub nsec_small : t.nsec < second

-- On canonical timestamps, `tain_less` is the order of the instants.
pub tain_less_iff :
    (a b : Tain) → IsCanonical a → IsCanonical b → (tain_less a b ≡ true) ↔ (nanos a < nanos b)
unfolding tain_less
tain_less_iff a b ha hb = ground arith

pub tain_plus-IsCanonical :
    (a b : Tain) → IsCanonical a → IsCanonical b → IsCanonical (tain_plus a b)
unfolding tain_plus
tain_plus-IsCanonical a b ha hb = ground arith

pub tain_minus-IsCanonical :
    (a b : Tain) → IsCanonical a → IsCanonical b → IsCanonical (tain_minus a b)
unfolding tain_minus
tain_minus-IsCanonical a b ha hb = ground arith

-- The sum of two canonical timestamps is exact when it fits the seconds.
pub nanos-tain_plus :
    (a b : Tain)
    → IsCanonical a
    → IsCanonical b
    → nanos a + nanos b < u64_mod * second
    → nanos (tain_plus a b) ≡ nanos a + nanos b
unfolding tain_plus
nanos-tain_plus a b ha hb fits = ground arith

-- The difference of two canonical timestamps is exact when it is not negative.
pub nanos-tain_minus :
    (a b : Tain)
    → IsCanonical a
    → IsCanonical b
    → nanos b ≤ nanos a
    → nanos (tain_minus a b) ≡ nanos a - nanos b
unfolding tain_minus
nanos-tain_minus a b ha hb le = ground arith

-- The distance between two instants, in nanoseconds.
abbrev pub distance : Tain → Tain → ℕ
distance a b = (nanos a - nanos b) + (nanos b - nanos a)

-- On canonical timestamps whose seconds are not the last ones, the uptime is the distance rounded
-- to the nearest second, whichever instant is the later one.
pub tain_uptime_rounds :
    (now when : Tain)
    → IsCanonical now
    → IsCanonical when
    → now.sec + 1 < u64_mod
    → when.sec + 1 < u64_mod
    → (tain_uptime now when * second ≤ distance now when + 500000000)
      × (distance now when ≤ tain_uptime now when * second + 500000000)
unfolding tain_uptime
tain_uptime_rounds a b ha hb fa fb = ground arith
