-- ===== src/Perpd/Types.antt =====
-- perp/perpd.h: service definitions, the variables in file scope of perpd.c, and what the kernel
-- and the C library answer.
use perp.Common.{ℕ, ◌+◌, ◌≡◌, ◌<◌, Bool, true, Option, some, List, ◌∷◌, Bytes, if◌then◌else◌}
use perp.Tain.{Tain, Timeval}

-- `SUBSV_MAIN` and `SUBSV_LOG`
pub data Which : Type 0 where
  main log : Which

-- `SVRUN_START` and `SVRUN_RESET`
pub data Target : Type 0 where
  start reset : Target

-- `struct subsv`. The six bits of `bitflags` that have a name are fields of their own; the
-- other two are never set. `pid` is 0 or what `fork` returned.
pub record Subsv : Type 0 where
  pub pid : ℕ
  pub is_log : Bool
  pub is_reset : Bool
  pub is_once : Bool
  pub is_paused : Bool
  pub want_down : Bool
  pub failing : Bool
  pub when : Tain
  pub when_ok : Tain
  pub wstat : ℕ

-- `struct svdef`, its `bitflags` likewise. `name` is without its nul.
pub record Svdef : Type 0 where
  pub dev : ℕ
  pub ino : ℕ
  pub fd_dir : ℕ
  pub name : Bytes
  pub when : Tain
  pub active : Bool
  pub has_log : Bool
  pub cull : Bool
  pub cycle : Bool
  pub down : Bool
  pub once : Bool
  pub logpipe_read : ℕ
  pub logpipe_write : ℕ
  pub sv_main : Subsv
  pub sv_log : Subsv

-- `svdef->svpair[which]`, read and written
abbrev pub subsv : Svdef → Which → Subsv
subsv s main = s.sv_main
subsv s log = s.sv_log

abbrev pub set_subsv : Svdef → Which → Subsv → Svdef
set_subsv s main v = record s { sv_main = v }
set_subsv s log v = record s { sv_log = v }

abbrev pub bit : Bool → ℕ → ℕ
bit b n = if b then n else 0

-- the bytes `bitflags` that a status query sends
unfoldable pub subsv_bitflags : Subsv → ℕ
subsv_bitflags v =
    bit v.is_log 0x01
    + bit v.is_reset 0x02
    + bit v.is_once 0x04
    + bit v.is_paused 0x08
    + bit v.want_down 0x10
    + bit v.failing 0x20

unfoldable pub svdef_bitflags : Svdef → ℕ
svdef_bitflags s =
    bit s.active 0x01
    + bit s.has_log 0x02
    + bit s.cull 0x04
    + bit s.cycle 0x08
    + bit s.down 0x10
    + bit s.once 0x20

-- the signals that perpd sends
pub data Signal : Type 0 where
  sigalrm sigcont sighup sigint sigkill sigquit sigstop sigterm sigusr1 sigusr2 sigwinch : Signal

-- whom `kill` addresses: a positive or a negative pid
pub data Receiver : Type 0 where
  process group : ℕ → Receiver

-- What a child does between `fork` and `execve`; it dies at the first step that fails.
pub data ChildStep : Type 0 where
  set_session : ChildStep
  change_dir : ℕ → ChildStep
  close_fd : ℕ → ChildStep
  close_range : ℕ → ℕ → ChildStep
  duplicate : ℕ → ℕ → ChildStep
  set_perp_base : ChildStep
  pause : Tain → ChildStep
  reset_signals : ChildStep
  exec : List Bytes → ChildStep

-- What perpd does to the world outside.
pub data Effect : Type 0 where
  kill : Receiver → Signal → Effect
  close : ℕ → Effect
  spawn : List ChildStep → Effect
  ping : Effect
  sleep : Tain → Effect
  die : ℕ → Effect

-- The variables of perpd.c that the subroutines share. `trace` holds the effects, the latest
-- first; `calls` counts the questions put to the kernel, which answers each by its number.
pub record Globals : Type 0 where
  pub flag_chld : ℕ
  pub flag_hup : ℕ
  pub flag_term : ℕ
  pub flag_failing : ℕ
  pub flag_terminating : Bool
  pub calls : ℕ
  pub trace : List Effect

-- What `stat` reports of a file.
pub record Stat : Type 0 where
  pub st_dev : ℕ
  pub st_ino : ℕ
  pub is_dir : Bool
  pub is_sticky : Bool
  pub is_user_executable : Bool

-- perpd's own pid and start time, and the kernel and the C library: `fork` returns a pid to the parent, or fails; the decoding of a
-- wait status; `sysstr_signal`, a table that the build generates; the numbers of errors.
pub record Env : Type 0 where
  pub fork : ℕ → Option ℕ
  pub gettimeofday : ℕ → Timeval
  pub open_dir : ℕ → Bytes → Option ℕ
  pub stat : ℕ → Bytes → Option Stat
  pub pipe : ℕ → Option (ℕ × ℕ)
  pub if_exited : ℕ → Bool
  pub exit_status : ℕ → ℕ
  pub if_signaled : ℕ → Bool
  pub term_sig : ℕ → ℕ
  pub stop_sig : ℕ → ℕ
  pub signal_name : ℕ → Option Bytes
  pub my_pid : ℕ
  pub my_when : Tain
  pub errno_eproto : ℕ
  pub errno_enoent : ℕ
  pub errno_ebusy : ℕ
  pub errno_enotdir : ℕ
  pub errno_enotsup : ℕ

-- POSIX: `fork` returns a positive pid to the parent.
pub record ForkIsPositive (e : Env) : Type 0 where
  pub fork_pos : (n p : ℕ) → e.fork n ≡ some p → 0 < p

-- POSIX: a status of zero says that the child exited, with status zero.
pub record ZeroIsExit (e : Env) : Type 0 where
  pub zero_exited : e.if_exited 0 ≡ true
  pub zero_status : e.exit_status 0 ≡ 0

abbrev pub emit : Effect → Globals → Globals
emit x g = record g { trace = x ∷ g.trace }

-- the number of the next question
abbrev pub asked : Globals → Globals
asked g = record g { calls = g.calls + 1 }
