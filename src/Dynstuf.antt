-- ===== src/Dynstuf.antt =====
-- lasagna/dynstuf.h and lasagna/dynstuf: vectors of pointers that grow.
pub mod Reverse
pub mod Vector
pub mod Calls
pub mod Client
mod Tests
use perp.Common.{
  ℕ, zero, suc, ◌+◌, ◌-◌, ◌*◌, ◌/◌, ◌%◌, Bool, true, false, ◌||◌, Option, none, some, List, [], ◌∷◌,
  ltb, ◌==◌, if◌then◌else◌, length, get_or, set, take, replicate, ◌++◌,
}
use perp.Upak.{u64_mod}

-- `struct dynstuf`: the array, if any, how many slots it is taken to have, and how many are used. A
-- pointer is its address, and NULL is 0.
pub record Dynstuf : Type 0 where
  pub stuf : Option (List ℕ)
  pub slots : ℕ
  pub items : ℕ

abbrev pub slots_of : Dynstuf → List ℕ
slots_of s = elim s.stuf [ none ↦ [] | some cs ↦ cs ]

abbrev pub is_null : Dynstuf → Bool
is_null s = elim s.stuf [ none ↦ true | some cs ↦ false ]

-- Whether `realloc` gives so many bytes, and what is in the slots that it adds.
module _ (gives : ℕ → Bool) (junk : ℕ) where
  -- the array of so many bytes
  abbrev pub regrown : List ℕ → ℕ → List ℕ
  regrown cs bytes = take (bytes / 8) cs ++ replicate (bytes / 8 - length cs) junk

  -- whether it returns 0, and the vector then
  unfoldable pub dynstuf_grow : ℕ → Dynstuf → Bool × Dynstuf
  dynstuf_grow add s =
      let need = (s.items + add) % u64_mod in
      let twice = need * 2 % u64_mod in
      let bytes = twice * 8 % u64_mod in
      if ltb need s.items
      then (false, s)
      else if is_null s || ltb s.slots need
      then if ltb twice need
        then (false, s)
        else if ltb bytes twice
        then (false, s)
        else if gives bytes
        then (true, record s { stuf = some (regrown (slots_of s) bytes); slots = twice })
        else (false, s)
      else (true, s)

  -- `none` is NULL
  unfoldable pub dynstuf_init : Option Dynstuf
  unfolding dynstuf_grow
  dynstuf_init =
      let (done, s) = dynstuf_grow 1 (record { stuf = none; slots = 0; items = 0 }) in
      if done then some s else none

  unfoldable pub dynstuf_push : ℕ → Dynstuf → Bool × Dynstuf
  unfolding dynstuf_grow
  dynstuf_push p s =
      let (done, s') = dynstuf_grow 1 s in
      if done
      then (true, record s' { stuf = some (set (slots_of s') s'.items p); items = s'.items + 1 })
      else (false, s')

abbrev pub dynstuf_isempty : Dynstuf → Bool
dynstuf_isempty s = s.items == 0

unfoldable pub dynstuf_peek : Dynstuf → ℕ
dynstuf_peek s = if ltb 0 s.items then get_or (slots_of s) (s.items - 1) 0 else 0

unfoldable pub dynstuf_pop : Dynstuf → ℕ × Dynstuf
dynstuf_pop s =
    if ltb 0 s.items
    then (get_or (slots_of s) (s.items - 1) 0, record s { items = s.items - 1 })
    else (0, s)

unfoldable pub dynstuf_get : ℕ → Dynstuf → ℕ
dynstuf_get slot s = if ltb slot s.items then get_or (slots_of s) slot 0 else 0

unfoldable pub dynstuf_set : ℕ → ℕ → Dynstuf → ℕ × Dynstuf
dynstuf_set slot p s =
    if ltb slot s.items then (p, record s { stuf = some (set (slots_of s) slot p) }) else (0, s)

unfoldable pub dynstuf_replace : ℕ → ℕ → Dynstuf → ℕ × Dynstuf
dynstuf_replace slot p s =
    if ltb slot s.items
    then (get_or (slots_of s) slot 0, record s { stuf = some (set (slots_of s) slot p) })
    else (0, s)

-- the loop, over so many slots from one on
unfoldable pub find_from : ℕ → ℕ → (ℕ → Bool) → List ℕ → ℕ
find_from zero slot is_match cs = slot
find_from (suc k) slot is_match cs =
    let rest = find_from k (slot + 1) is_match cs in
    if is_match (get_or cs slot 0) then slot else rest

-- a comparison with the key gives 0
unfoldable pub dynstuf_find : ℕ → (ℕ → Bool) → Dynstuf → ℕ
unfolding find_from
dynstuf_find slot is_match s =
    if ltb slot s.items then find_from (s.items - slot) slot is_match (slots_of s) else s.items

-- `DYNSTUF_SWAP`
abbrev pub swap : List ℕ → ℕ → ℕ → List ℕ
swap cs a b = set (set cs a (get_or cs b 0)) b (get_or cs a 0)

-- The two indices approach each other, so that the second one is fuel enough.
unfoldable pub reverse_from : ℕ → ℕ → ℕ → List ℕ → List ℕ
reverse_from zero ix0 ix_n cs = cs
reverse_from (suc f) ix0 ix_n cs =
    let rest = reverse_from f (ix0 + 1) (ix_n - 1) (swap cs ix0 ix_n) in
    if ltb ix0 ix_n then rest else cs

unfoldable pub dynstuf_reverse : Dynstuf → Dynstuf
unfolding reverse_from
dynstuf_reverse s =
    if ltb s.items 2
    then s
    else record s { stuf = some (reverse_from (s.items - 1) 0 (s.items - 1) (slots_of s)) }

-- the pointers that the visitor is called with, in order
unfoldable pub visit_from : ℕ → ℕ → List ℕ → List ℕ
visit_from zero i cs = []
visit_from (suc k) i cs = get_or cs i 0 ∷ visit_from k (i + 1) cs

unfoldable pub dynstuf_visit : Dynstuf → List ℕ
unfolding visit_from
dynstuf_visit s = visit_from s.items 0 (slots_of s)
