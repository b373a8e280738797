-- ===== src/Runenv.antt =====
-- runtools/runenv.c: an environment read from a file.
pub mod Escape
mod Tests
use perp.Common.{
  ℕ, suc, Bool, ◌||◌, ◌++◌, Option, none, some, List, [], ◌∷◌, Bytes, ◌==◌, if◌then◌else◌, take,
  drop,
}
use perp.Upak.{at}
use perp.Cstr.Trim.{is_empty, cstr_ltrim, cstr_rtrim, cstr_trim}
use perp.Nextopt.{cstr_pos}
use perp.Newenv.{newenv_set}

-- one character in front of what follows
abbrev pub before : Bytes → Option Bytes → Option Bytes
before b none = none
before b (some s) = some (b ++ s)

-- what a backslash and a character stand for
abbrev pub escaped : ℕ → Bytes
escaped c =
    if c == b'\\'
    then b'\\' ∷ []
    else if c == b'n'
    then b'\n' ∷ []
    else if c == b't'
    then b'\t' ∷ []
    else if c == b'_'
    then b' ' ∷ []
    else b'\\' ∷ c ∷ []

-- `none` where the loop reads on behind the end of the string
unfoldable pub val_unescape : Bytes → Option Bytes
val_unescape [] = some []
val_unescape (c ∷ []) = if c == b'\\' then none else some (c ∷ [])
val_unescape (c ∷ d ∷ s) =
    let two = val_unescape s in
    let one = val_unescape (d ∷ s) in
    if c == b'\\' then before (escaped d) two else before (c ∷ []) one

-- what a line comes to: a variable to be set, or removed
pub data Line : Type 0 where
  skip overrun : Line
  variable : Bytes → Option Bytes → Line

-- a key with what its value is read as
abbrev pub assigned : Option Bytes → Bytes → Line
assigned none key = overrun
assigned (some v) key = if is_empty key then skip else variable key (some v)

module _ (isspace : ℕ → Bool) where
  -- a trimmed line, with the place of its first `=`
  unfoldable pub split_line : Bytes → ℕ → Line
  unfolding val_unescape
  split_line line split =
      let key = cstr_rtrim isspace (take split line) in
      let val = cstr_ltrim isspace (drop (suc split) line) in
      if is_empty line || at line 0 == b'#'
      then skip
      else if at (drop split line) 0 == b'='
      then assigned (val_unescape val) key
      else variable line none

  unfoldable pub env_line : Bytes → Line
  unfolding split_line
  env_line s = let line = cstr_trim isspace s in split_line line (cstr_pos line b'=')

  -- the loop over the lines that `ioq_getln` gives; `none` where a value is read beyond its end
  unfoldable pub do_envfile : List Bytes → List Bytes → Option (List Bytes)
  unfolding env_line
  do_envfile [] newenv = some newenv
  do_envfile (s ∷ lines) newenv = elim (env_line s) [
    | skip ↦ do_envfile lines newenv
    | overrun ↦ none
    | variable key val ↦ do_envfile lines (newenv_set key val newenv)
  ]
