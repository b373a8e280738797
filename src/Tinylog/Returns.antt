-- ===== src/Tinylog/Returns.antt =====
-- perp/tinylog.c: `do_log` returns, where the clock gives names that are not taken.
use perp.Common.{ℕ, ◌≡◌, Option, some, Bytes}
use perp.Tinylog.{Tinylog, Disk}
use perp.Tinylog.Collisions.{Advances, IsFresh}

module _ (clock : ℕ → Bytes) (gzip : Bytes → Option Bytes) (f : ℕ)
    (advances : Advances clock f) where
  -- a result, with the names still to come unused
  record Returns (o : Option (Tinylog × Disk)) : Type 0 where
    state : Tinylog × Disk
    returned : o ≡ some state
    fresh : IsFresh clock state.1
