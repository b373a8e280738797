-- ===== src/Newenv.antt =====
-- lasagna/newenv/newenv.c: the environment of a program that is run, where memory is given.
-- An environment is the list of its strings, and one that is NULL is empty.
pub mod Names
pub mod Set
mod Tests
use perp.Common.{
  ℕ, ◌+◌, ◌-◌, ◌%◌, Bool, ◌&&◌, Option, none, some, List, [], ◌∷◌, ◌++◌, Bytes, ◌==◌, if◌then◌else◌,
}
use perp.Upak.{at, u64_mod}
use perp.Cstr.{cstr_ncmp, is_same}
use perp.Nextopt.{cstr_pos}
use perp.Perpd.Cull.{last_first}

-- the variables to be set or removed, with one more
abbrev pub newenv_set : Bytes → Option Bytes → List Bytes → List Bytes
newenv_set [] value newenv = newenv
newenv_set (c ∷ name) none newenv = newenv ++ ((c ∷ name) ∷ [])
newenv_set (c ∷ name) (some value) newenv = newenv ++ (((c ∷ name) ++ (b'=' ∷ value)) ∷ [])

-- The string at the place is taken out, and the last one put there; the new one is added if that
-- place is then behind the others.
abbrev pub taken_out : Bool → Bytes → List Bytes → List Bytes
taken_out sets envstr [] = if sets then envstr ∷ [] else []
taken_out sets envstr (e ∷ rest) = last_first e rest

-- The loop over the environment for one variable, whose name ends at `split`; `sets` says that
-- it has a value.
unfoldable pub merge_at : ℕ → Bool → Bytes → List Bytes → List Bytes
unfolding cstr_ncmp last_first
merge_at split sets envstr [] = if sets then envstr ∷ [] else []
merge_at split sets envstr (e ∷ rest) =
    let later = merge_at split sets envstr rest in
    if cstr_pos e b'=' == split
    then if sets && is_same (cstr_ncmp envstr e split)
      then envstr ∷ rest
      else if is_same (cstr_ncmp envstr e ((split + u64_mod - 1) % u64_mod))
      then taken_out sets envstr rest
      else e ∷ later
    else e ∷ later

unfoldable pub merge_one : Bytes → List Bytes → List Bytes
unfolding merge_at
merge_one envstr ee =
    let split = cstr_pos envstr b'=' in merge_at split (at envstr split == b'=') envstr ee

unfoldable pub newenv_merge : List Bytes → List Bytes → List Bytes
unfolding merge_one
newenv_merge [] ee = ee
newenv_merge (envstr ∷ newenv) ee = newenv_merge newenv (merge_one envstr ee)
