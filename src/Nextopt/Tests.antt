-- ===== src/Nextopt/Tests.antt =====
-- The options of a command line.
use perp.Common.{ℕ, ◌+◌, ◌≡◌, refl, some, List, [], ◌∷◌, Bytes, codes, drop, arith}
use perp.Nextopt.{nextopt_start, nextopt}
use perp.Nextopt.Cursor.{weight}
use perp.Nextopt.Progress.{options, nextopt_ends}

abbrev command_line : List Bytes
command_line =
    codes "perpd" ∷ codes "-vg" ∷ codes "adm" ∷ codes "-ax" ∷ codes "--" ∷ codes "/etc/perp" ∷ []

nextopt_ends_example :
    (opts : List ℕ) × (options
        (weight (drop 1 command_line) + 1)
        (nextopt_start command_line (codes "a:g:v") 1)
      ≡ some opts)
nextopt_ends_example = nextopt_ends command_line (codes "a:g:v") 1 (omega arith)

letters : options 9 (nextopt_start command_line (codes "a:g:v") 1) ≡ some (b'v' ∷ b'g' ∷ b'a' ∷ [])
unfolding nextopt perp.Nextopt.take_arg perp.Cstr.cstr_cmp
letters = refl
