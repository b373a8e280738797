-- ===== src/Dynstuf/Tests.antt =====
-- Calls on a vector.
use perp.Common.{
  ℕ, ◌*◌, ◌%◌, ◌≡◌, refl, Bool, Option, none, some, List, [], ◌∷◌, length, arith, leb,
}
use perp.Dynstuf.{Dynstuf, dynstuf_init}
use perp.Dynstuf.Vector.{view}
use perp.Dynstuf.Calls.{Op, push, pop, peek, reverse, get, put}
use perp.Dynstuf.Client.{calls, replay, new_refines}

-- memory for 4 pointers
abbrev four : ℕ → Bool
four bytes = leb bytes 32

abbrev vector : Option Dynstuf → Dynstuf
vector none = record { stuf = none; slots = 0; items = 0 }
vector (some s) = s

abbrev ops : List Op
ops = push 7 ∷ push 8 ∷ push 9 ∷ reverse ∷ put 0 5 ∷ pop ∷ get 0 ∷ peek ∷ []

new_refines_example :
    let s = vector (dynstuf_init four 0) in
    (refusals : List Bool) × (length refusals ≡ 8)
    × ((calls four 0 ops s).0 ≡ (replay ops refusals []).0)
    × (view (calls four 0 ops s).1 ≡ (replay ops refusals []).1)
unfolding dynstuf_init
new_refines_example = new_refines four 0 ops refl (omega arith)

-- the array of a vector that is to have 3 * 2 ^ 60 slots has 2 ^ 60
abbrev bytes_of : ℕ → ℕ
bytes_of need = need * 2 % 18446744073709551616 * 8 % 18446744073709551616

too_small : bytes_of 1729382256910270464 ≡ 9223372036854775808
too_small = refl
