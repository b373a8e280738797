-- ===== src/Dynstr/Tests.antt =====
-- lasagna/dynstr: runs on concrete strings, and the theorems at concrete inputs.
use perp.Common.{ℕ, ◌≡◌, refl, Bool, false, some, List, [], ◌∷◌, Bytes, length, All, arith, leb}
use perp.Dynstr.{
  Dynstr, dynstr_new, dynstr_need, dynstr_grow, dynstr_set, dynstr_puts, dynstr_putn, dynstr_putc,
  dynstr_chop, dynstr_vputs,
}
use perp.Dynstr.Content.{Holds}
use perp.Dynstr.Calls.{Op, puts, putn, putc, chop}
use perp.Dynstr.Client.{calls, replay, IsExcused, dynstr_refines}

abbrev up_to_five : ℕ → Bool
up_to_five n = leb n 5

abbrev up_to_24 : ℕ → Bool
up_to_24 n = leb n 24

abbrev fresh : Dynstr
fresh = record { s = some (0 ∷ 7 ∷ []); n = 0; k = 2 }

abbrev ops : List Op
ops = puts (b'a' ∷ b'b' ∷ []) ∷ putc b'\n' ∷ chop ∷ putn (b'c' ∷ b'd' ∷ []) 1 ∷ []

new_fresh : dynstr_new up_to_24 7 ≡ some fresh
unfolding dynstr_new
new_fresh = refl

ops_run : (calls up_to_24 7 ops fresh).1.s ≡ some (b'a' ∷ b'b' ∷ b'c' ∷ 0 ∷ [])
unfolding dynstr_need dynstr_grow dynstr_puts dynstr_putn dynstr_putc dynstr_chop
ops_run = refl

dynstr_refines_example :
    (refusals : List Bool) × (length refusals ≡ 4)
    × All (IsExcused up_to_24 7) refusals
    × ((calls up_to_24 7 ops fresh).0 ≡ (replay ops refusals []).0)
    × Holds (replay ops refusals []).1 (calls up_to_24 7 ops fresh).1
dynstr_refines_example = dynstr_refines up_to_24 7 ops new_fresh (omega arith)

abbrev strs : List Bytes
strs = (b'a' ∷ b'b' ∷ []) ∷ (b'c' ∷ b'd' ∷ b'e' ∷ []) ∷ []

abbrev start : Dynstr
start = dynstr_set (b'x' ∷ [])

start-Holds : Holds (b'x' ∷ []) start
start-Holds = record {
  prefix = record { used = refl; fits = omega arith; as_long = refl; part = refl };
  ended = λ h. (omega arith, refl);
}

-- there is memory for the first string only
strs_run : (dynstr_vputs up_to_five 7 strs start).0 ≡ false
unfolding dynstr_need dynstr_grow dynstr_puts dynstr_vputs
strs_run = refl
