-- ===== src/Runlimit.antt =====
-- runtools/runlimit.c: resource limits from options, a file and the environment, for a program that is then run.
pub mod Entry
pub mod Precedence
pub mod Sources
mod Tests
use perp.Common.{
  ℕ, suc, ◌+◌, Bool, true, false, not, ◌||◌, Option, none, some, List, [], ◌∷◌, ◌++◌, Bytes, ltb,
  ◌==◌, if◌then◌else◌, length, ◌&&◌, get_or, set, take, drop, codes, replicate,
}
use perp.Upak.{at}
use perp.Cstr.{cstr_cmp, is_same}
use perp.Cstr.Trim.{is_empty, cstr_ltrim, cstr_rtrim, cstr_trim}
use perp.Nextopt.{cstr_pos}
use perp.Nuscan.{nuscan_uint32}

-- `struct runlimit`, less its name; `id` is not looked at before it is set
pub record Limit : Type 0 where
  pub id : ℕ
  pub is_set : ℕ
  pub rl_soft : ℕ
  pub rl_hard : ℕ

-- the names in the table `runlimits`, in order
abbrev pub limit_names : List Bytes
limit_names =
    codes "RLIMIT_AS"
    ∷ codes "RLIMIT_VMEM"
    ∷ codes "RLIMIT_CORE"
    ∷ codes "RLIMIT_DATA"
    ∷ codes "RLIMIT_FSIZE"
    ∷ codes "RLIMIT_MEMLOCK"
    ∷ codes "RLIMIT_NOFILE"
    ∷ codes "RLIMIT_NPROC"
    ∷ codes "RLIMIT_RSS"
    ∷ codes "RLIMIT_STACK"
    ∷ codes "RLIMIT_CPU"
    ∷ []

abbrev pub unset : Limit
unset = record { id = 0; is_set = 0; rl_soft = 0; rl_hard = 0 }

abbrev pub runlimits : List Limit
runlimits = replicate 11 unset

abbrev pub index_of : Bytes → List Bytes → Option ℕ
index_of name [] = none
index_of name (n ∷ names) =
    let rest = index_of name names in
    if is_same (cstr_cmp name n) then some 0 else elim rest [ none ↦ none | some i ↦ some (suc i) ]

-- `none` is -1
unfoldable pub runlimit_ndx : Bytes → Option ℕ
runlimit_ndx name = index_of name limit_names

-- The soft limit that an argument asks for, below a hard limit; `none` where it is not a number.
unfoldable pub soft_limit : Bytes → ℕ → Option ℕ
soft_limit arg hard =
    let (u, rest) = nuscan_uint32 arg in
    if at arg 0 == b'_' || at arg 0 == b'^' || at arg 0 == b'='
    then some hard
    else if not (is_empty rest)
    then none
    else if ltb u hard
    then some u
    else some hard

-- `rlimit_lookup`, which knows the names that the system has; `getrlimit`, which gives the hard limit
-- of a resource; and `isspace`
module _ (rlimit_lookup : Bytes → Option ℕ) (getrlimit : ℕ → Option ℕ) (isspace : ℕ → Bool) where
  -- Below, `none` is an abort. An entry is set where the system has the resource.
  unfoldable pub setup : ℕ → Bytes → List Limit → Option (List Limit)
  unfolding soft_limit
  setup ndx arg t = elim (rlimit_lookup (get_or limit_names ndx [])) [
    | none ↦ some t
    | some id ↦ elim (getrlimit id) [
      | none ↦ none
      | some hard ↦ elim (soft_limit arg hard) [
        | none ↦ none
        | some soft ↦
            let n = (get_or t ndx unset).is_set + 1 in
            some (set t ndx (record { id = id; is_set = n; rl_soft = soft; rl_hard = hard }))
      ]
    ]
  ]

  unfoldable pub runlimit_setup_opt : Bytes → Bytes → List Limit → Option (List Limit)
  unfolding setup
  runlimit_setup_opt name arg t = elim (runlimit_ndx name) [
    | none ↦ none
    | some ndx ↦ setup ndx arg t
  ]

  -- `arg` may be NULL
  unfoldable pub runlimit_setup_ndx : ℕ → Bytes → List Limit → Option (List Limit)
  unfolding setup
  runlimit_setup_ndx ndx arg t =
      if ltb 0 (get_or t ndx unset).is_set
      then some t
      else if is_empty arg
      then none
      else setup ndx arg t

  -- what a line of the file comes to
  pub data Line : Type 0 where
    skip bad : Line
    assign : ℕ → Bytes → Line

  unfoldable pub parse_line : Bytes → Line
  unfolding runlimit_ndx
  parse_line s =
      let line = cstr_trim isspace s in
      let split = cstr_pos line b'=' in
      let key = cstr_rtrim isspace (take split line) in
      let val = cstr_ltrim isspace (drop (suc split) line) in
      if is_empty line || at line 0 == b'#'
      then skip
      else if not (at (drop split line) 0 == b'=')
      then bad
      else if is_empty key
      then skip
      else elim (runlimit_ndx key) [ none ↦ bad | some ndx ↦ assign ndx val ]

  -- the loop over the lines that `ioq_getln` gives
  unfoldable pub do_file : List Bytes → List Limit → Option (List Limit)
  unfolding parse_line runlimit_setup_ndx
  do_file [] t = some t
  do_file (s ∷ lines) t = elim (parse_line s) [
    | skip ↦ do_file lines t
    | bad ↦ none
    | assign ndx val ↦ elim (runlimit_setup_ndx ndx val t) [
      | none ↦ none
      | some t' ↦ do_file lines t'
    ]
  ]

  -- the loop from an entry on, over the names from there
  unfoldable pub environment_from :
      ℕ → List Bytes → (Bytes → Option Bytes) → List Limit → Option (List Limit)
  unfolding runlimit_setup_ndx
  environment_from i [] getenv t = some t
  environment_from i (name ∷ names) getenv t = elim (getenv name) [
    | none ↦ environment_from (suc i) names getenv t
    | some val ↦ elim (runlimit_setup_ndx i val t) [
      | none ↦ none
      | some t' ↦ environment_from (suc i) names getenv t'
    ]
  ]

  unfoldable pub do_environment : (Bytes → Option Bytes) → List Limit → Option (List Limit)
  unfolding environment_from
  do_environment getenv t = environment_from 0 limit_names getenv t

  -- the resources with their arguments, one after the other
  unfoldable pub do_options : List (Bytes × Bytes) → List Limit → Option (List Limit)
  unfolding runlimit_setup_opt
  do_options [] t = some t
  do_options ((name, arg) ∷ opts) t = elim (runlimit_setup_opt name arg t) [
    | none ↦ none
    | some t' ↦ do_options opts t'
  ]

  -- an option letter with its argument, for each resource that it stands for
  unfoldable pub option_names : ℕ → Bytes → List (Bytes × Bytes)
  option_names opt arg =
      if opt == b'a'
      then (codes "RLIMIT_AS", arg) ∷ []
      else if opt == b'c'
      then (codes "RLIMIT_CORE", arg) ∷ []
      else if opt == b'd'
      then (codes "RLIMIT_DATA", arg) ∷ []
      else if opt == b'f'
      then (codes "RLIMIT_FSIZE", arg) ∷ []
      else if opt == b'l'
      then (codes "RLIMIT_MEMLOCK", arg) ∷ []
      else if opt == b'm'
      then (codes "RLIMIT_AS", arg)
        ∷ (codes "RLIMIT_DATA", arg)
        ∷ (codes "RLIMIT_MEMLOCK", arg)
        ∷ (codes "RLIMIT_STACK", arg)
        ∷ []
      else if opt == b'o'
      then (codes "RLIMIT_NOFILE", arg) ∷ []
      else if opt == b'p'
      then (codes "RLIMIT_NPROC", arg) ∷ []
      else if opt == b'r'
      then (codes "RLIMIT_RSS", arg) ∷ []
      else if opt == b's'
      then (codes "RLIMIT_STACK", arg) ∷ []
      else if opt == b't'
      then (codes "RLIMIT_CPU", arg) ∷ []
      else []

  -- the letters at which `main` goes on: at the others it ends
  unfoldable pub goes_on : List (ℕ × Bytes) → Bool
  unfolding option_names
  goes_on [] = true
  goes_on ((opt, arg) ∷ opts) =
      (opt == b'v' || opt == b'E' || opt == b'F' || ltb 0 (length (option_names opt arg)))
      && goes_on opts

  abbrev pub all_names : List (ℕ × Bytes) → List (Bytes × Bytes)
  all_names [] = []
  all_names ((opt, arg) ∷ opts) = option_names opt arg ++ all_names opts

  abbrev pub with_file : Option (List Bytes) → List Limit → Option (List Limit)
  with_file none t = some t
  with_file (some lines) t = do_file lines t

  abbrev pub with_environment : Option (Bytes → Option Bytes) → List Limit → Option (List Limit)
  with_environment none t = some t
  with_environment (some getenv) t = do_environment getenv t

  -- What `main` makes of its options before a program, of the file where there is -F, and of the
  -- environment where there is -E; `none` where it ends.
  unfoldable pub prepare :
      List (ℕ × Bytes) → Option (List Bytes) → Option (Bytes → Option Bytes) → Option (List Limit)
  unfolding do_options do_file do_environment option_names goes_on
  prepare opts file env =
      if not (goes_on opts) then none else elim (do_options (all_names opts) runlimits) [
        | none ↦ none
        | some t1 ↦ elim (with_file file t1) [ none ↦ none | some t2 ↦ with_environment env t2 ]
      ]

-- The calls of `setrlimit`, with the id, the soft and the hard limit, where they succeed; the first
-- that fails is the last one, and an abort.
unfoldable pub do_runlimits : (ℕ × ℕ × ℕ → Bool) → List Limit → Bool × List (ℕ × ℕ × ℕ)
do_runlimits setrlimit [] = (true, [])
do_runlimits setrlimit (l ∷ t) =
    let (done, calls) = do_runlimits setrlimit t in
    let call : ℕ × ℕ × ℕ = (l.id, l.rl_soft, l.rl_hard) in
    if not (ltb 0 l.is_set)
    then (done, calls)
    else if setrlimit call
    then (done, call ∷ calls)
    else (false, call ∷ [])
