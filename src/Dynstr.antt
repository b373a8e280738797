-- ===== src/Dynstr.antt =====
-- lasagna/dynstr.h and lasagna/dynstr: strings that grow.
pub mod Content
pub mod Calls
pub mod Client
mod Tests
use perp.Common.{
  ℕ, ◌+◌, ◌-◌, ◌%◌, Bool, true, false, ◌||◌, ◌&&◌, Option, none, some, List, [], ◌∷◌, ◌++◌, Bytes,
  ltb, ◌==◌, if◌then◌else◌, length, store, take, replicate,
}
use perp.Upak.{u64_mod, at}

-- `struct dynstr`: the array, if any, how long it is, and how much of it is used
pub record Dynstr : Type 0 where
  pub s : Option Bytes
  pub n : ℕ
  pub k : ℕ

abbrev pub array : Dynstr → Bytes
array d = elim d.s [ none ↦ [] | some a ↦ a ]

abbrev pub is_unset : Dynstr → Bool
is_unset d = elim d.s [ none ↦ true | some a ↦ false ]

abbrev pub dynstr_init : Dynstr
dynstr_init = record { s = none; n = 0; k = 0 }

-- a string that the caller owns; it and those below are the bytes before the nul
abbrev pub dynstr_set : Bytes → Dynstr
dynstr_set str = record { s = some (str ++ (0 ∷ [])); n = length str; k = length str + 1 }

-- bytes stored in the array
abbrev pub stored : ℕ → Bytes → Dynstr → Dynstr
stored i bytes d = record d { s = some (store (array d) i bytes) }

-- what `cstr_copy` stores
abbrev pub with_nul : Bytes → Bytes
with_nul str = str ++ (0 ∷ [])

-- the string from an offset on, up to the nul
abbrev pub cstr : Bytes → Bytes
cstr [] = []
cstr (c ∷ a) = if c == 0 then [] else c ∷ cstr a

-- whether `malloc` and `realloc` give so many bytes, and what is in those that are added
module _ (gives : ℕ → Bool) (junk : ℕ) where
  abbrev pub remade : Bytes → ℕ → Bytes
  remade a need = take need a ++ replicate (need - length a) junk

  -- whether it returns 0, and the string then
  unfoldable pub dynstr_need : ℕ → Dynstr → Bool × Dynstr
  dynstr_need need d =
      let bytes = (need + 1) % u64_mod in
      if is_unset d || ltb d.k bytes
      then if gives bytes
        then (true, record d { s = some (remade (array d) bytes); k = bytes })
        else (false, d)
      else (true, d)

  unfoldable pub dynstr_grow : ℕ → Dynstr → Bool × Dynstr
  unfolding dynstr_need
  dynstr_grow grow d =
      let need = (d.n + grow + 1) % u64_mod in
      if ltb d.k need then dynstr_need need d else (true, d)

  -- `none` is NULL; the two calls of `malloc` are told apart by their sizes, 24 and 2
  unfoldable pub dynstr_new : Option Dynstr
  dynstr_new =
      if gives 24 && gives 2 then some (record { s = some (0 ∷ junk ∷ []); n = 0; k = 2 }) else none

  -- what the routines below do once there is room
  abbrev pub if_room : Bool × Dynstr → (Dynstr → Dynstr) → Bool × Dynstr
  if_room r next = if r.0 then (true, next r.1) else r

  abbrev pub append_str : Bytes → Dynstr → Dynstr
  append_str str d = record (stored d.n (with_nul str) d) { n = d.n + length str }

  unfoldable pub dynstr_puts : Bytes → Dynstr → Bool × Dynstr
  unfolding dynstr_grow
  dynstr_puts str d = if_room (dynstr_grow (length str) d) (append_str str)

  unfoldable pub dynstr_put : Dynstr → Dynstr → Bool × Dynstr
  unfolding dynstr_grow
  dynstr_put from d = if_room (dynstr_grow from.n d) (append_str (cstr (array from)))

  unfoldable pub dynstr_putn : Bytes → ℕ → Dynstr → Bool × Dynstr
  unfolding dynstr_grow
  dynstr_putn str n d =
      let grow = if ltb n (length str) then n else length str in
      if_room (dynstr_grow grow d) (append_str (take grow str))

  unfoldable pub dynstr_putc : ℕ → Dynstr → Bool × Dynstr
  unfolding dynstr_grow
  dynstr_putc c d = if_room (dynstr_grow 1 d) (append_str (c ∷ []))

  abbrev pub copied : Bytes → Dynstr → Dynstr
  copied str d = record (stored 0 (with_nul str) d) { n = length str }

  unfoldable pub dynstr_copys : Bytes → Dynstr → Bool × Dynstr
  unfolding dynstr_need
  dynstr_copys str d = if_room (dynstr_need (length str) d) (copied str)

  unfoldable pub dynstr_copy : Dynstr → Dynstr → Bool × Dynstr
  unfolding dynstr_need
  dynstr_copy from d = if_room (dynstr_need from.n d) (copied (cstr (array from)))

  -- at least one string is given
  unfoldable pub dynstr_vputs : List Bytes → Dynstr → Bool × Dynstr
  unfolding dynstr_puts
  dynstr_vputs [] d = (true, d)
  dynstr_vputs (str ∷ strs) d =
      let (done, d') = dynstr_puts str d in if done then dynstr_vputs strs d' else (false, d')

unfoldable pub dynstr_clear : Dynstr → Dynstr
dynstr_clear d = if ltb 0 d.k then record (stored 0 (0 ∷ []) d) { n = 0 } else record d { n = 0 }

unfoldable pub dynstr_chop : Dynstr → Dynstr
dynstr_chop d =
    if ltb 0 d.n && at (array d) (d.n - 1) == b'\n'
    then record (stored (d.n - 1) (0 ∷ []) d) { n = d.n - 1 }
    else d

unfoldable pub dynstr_freestr : Dynstr → Dynstr
dynstr_freestr d = record { s = none; n = 0; k = 0 }
