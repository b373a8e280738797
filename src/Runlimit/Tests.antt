-- ===== src/Runlimit/Tests.antt =====
-- runtools/runlimit.c: limits from three sources.
use perp.Common.{
  ℕ, ◌≡◌, refl, Bool, ◌||◌, ◌==◌, Option, none, some, List, [], ◌∷◌, Bytes, codes, get_or, arith,
  length, if◌then◌else◌,
}
use perp.Cstr.{cstr_cmp}
use perp.Nuscan.{nuscan_uint32}
use perp.Runlimit.{
  Limit, unset, runlimit_ndx, soft_limit, setup, runlimit_setup_opt, runlimit_setup_ndx, parse_line,
  do_file, environment_from, do_environment, do_options, goes_on, option_names, prepare,
}
use perp.Runlimit.Entry.{Entry}
use perp.Runlimit.Precedence.{chosen, prepare_lem}

abbrev lookup : Bytes → Option ℕ
lookup name = some (length name)

abbrev hard_limits : ℕ → Option ℕ
hard_limits id = some 100

abbrev is_blank : ℕ → Bool
is_blank c = c == b' ' || c == b'\n'

abbrev opts : List (ℕ × Bytes)
opts = (b'c', codes "5") ∷ []

abbrev file : List Bytes
file =
    codes "# limits"
    ∷ codes " RLIMIT_CORE=9"
    ∷ codes "RLIMIT_NOFILE = 7"
    ∷ codes "RLIMIT_NOFILE=8"
    ∷ []

abbrev env : Bytes → Option Bytes
env name = if length name == 10 then some (codes "200") else none

abbrev table : List Limit
table =
    unset
    ∷ unset
    ∷ record { id = 11; is_set = 1; rl_soft = 5; rl_hard = 100 }
    ∷ unset
    ∷ unset
    ∷ unset
    ∷ record { id = 13; is_set = 1; rl_soft = 7; rl_hard = 100 }
    ∷ unset
    ∷ record { id = 10; is_set = 1; rl_soft = 100; rl_hard = 100 }
    ∷ unset
    ∷ record { id = 10; is_set = 1; rl_soft = 100; rl_hard = 100 }
    ∷ []

prepared : prepare lookup hard_limits is_blank opts (some file) (some env) ≡ some table
unfolding prepare goes_on do_options do_file do_environment option_names runlimit_setup_opt
    runlimit_setup_ndx setup soft_limit parse_line runlimit_ndx environment_from nuscan_uint32
    cstr_cmp
prepared = refl

prepare_lem_example :
    Entry lookup hard_limits is_blank 6 13 100 refl refl
      (omega arith)
      (chosen lookup hard_limits is_blank opts (some file) (some env) 6)
      (get_or table 6 unset)
prepare_lem_example =
    prepare_lem lookup hard_limits is_blank 6 13 100 refl refl (omega arith) opts (some file)
      (some env) prepared
