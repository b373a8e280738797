-- ===== src/Nextopt.antt =====
-- lasagna/nextopt.h and lasagna/nextopt/nextopt.c, with lasagna/cstr/cstr_pos.c: the options of a
-- command line.
mod Cursor
mod Progress
mod Tests
use perp.Common.{
  ℕ, ◌+◌, Bool, not, ◌||◌, ◌&&◌, Option, none, some, List, [], ◌∷◌, Bytes, leb, ◌==◌, if◌then◌else◌,
  length, get_or, drop, codes,
}
use perp.Upak.{at}
use perp.Cstr.{cstr_cmp, is_same}

-- `struct nextopt`; a letter of 0 is the nul
pub record Nextopt : Type 0 where
  pub opt_got : ℕ
  pub opt_arg : Option Bytes
  pub opt_list : Bytes
  pub arg_ndx : ℕ
  pub argv : List Bytes
  pub ondx : ℕ

abbrev pub nextopt_start : List Bytes → Bytes → ℕ → Nextopt
nextopt_start argv optlist start = record {
  opt_got = 0;
  opt_arg = none;
  opt_list = optlist;
  arg_ndx = start;
  argv = argv;
  ondx = 1;
}

-- where a character is first, or the length
abbrev pub cstr_pos : Bytes → ℕ → ℕ
cstr_pos [] c = 0
cstr_pos (d ∷ s) c = if d == c then 0 else cstr_pos s c + 1

-- `argv[arg_ndx]`
abbrev pub current : Nextopt → Bytes
current n = get_or n.argv n.arg_ndx []

-- the cursors behind the letter that is read
unfoldable pub advance : Nextopt → Nextopt
advance n =
    if at (current n) (n.ondx + 1) == 0
    then record n { opt_got = at (current n) n.ondx; arg_ndx = n.arg_ndx + 1; ondx = 1 }
    else record n { opt_got = at (current n) n.ondx; ondx = n.ondx + 1 }

-- a valid letter that takes an argument
unfoldable pub take_arg : Nextopt → ℕ × Nextopt
take_arg n =
    if not (n.ondx == 1)
    then (
      n.opt_got,
      record n { opt_arg = some (drop n.ondx (current n)); arg_ndx = n.arg_ndx + 1; ondx = 1 },
    )
    else if leb (length n.argv) n.arg_ndx
    then (b':', n)
    else (n.opt_got, record n { opt_arg = some (current n); arg_ndx = n.arg_ndx + 1 })

-- a letter that was read
unfoldable pub valid : Nextopt → ℕ × Nextopt
unfolding take_arg
valid n =
    let lookup = drop (cstr_pos n.opt_list n.opt_got) n.opt_list in
    if n.opt_got == b':' || at lookup 0 == 0
    then (b'?', n)
    else if at lookup 1 == b':'
    then take_arg n
    else (n.opt_got, n)

-- at the start of an argument: is it none of options?
abbrev pub is_end : Nextopt → Bool
is_end n = leb (length n.argv) n.arg_ndx || not (at (current n) 0 == b'-') || at (current n) 1 == 0

unfoldable pub nextopt : Nextopt → ℕ × Nextopt
unfolding advance valid
nextopt n =
    let n0 = record n { opt_got = 0; opt_arg = none } in
    if n.ondx == 1 && is_end n
    then (0, n0)
    else if n.ondx == 1 && is_same (cstr_cmp (current n) (codes "--"))
    then (0, record n0 { arg_ndx = n.arg_ndx + 1 })
    else valid (advance n0)
