-- ===== src/Perpd/Samples.antt =====
-- A kernel that answers, a service with a logger, and a client, for the runs in Tests.
use perp.Common.{ℕ, ◌+◌, true, false, none, some, [], ◌∷◌, Bytes, codes, arith, replicate}
use perp.Perpd.Types.{Subsv, Svdef, Globals, Env, ForkIsPositive}
use perp.Perpd.Conn.{Conn, reading}
use perp.Perpd.Mainloop.{Loop}
use perp.Common.{store}

-- every fork succeeds, and every file is a directory to activate
abbrev pub kernel : Env
kernel = record {
  fork = λ n. some (n + 100);
  gettimeofday = λ n. record { tv_sec = 1000 + n; tv_usec = 7 };
  open_dir = λ n name. some 9;
  stat = λ n name. some (record {
    st_dev = 5;
    st_ino = 6;
    is_dir = true;
    is_sticky = true;
    is_user_executable = true;
  });
  pipe = λ n. some (10, 11);
  if_exited = λ status. true;
  exit_status = λ status. status;
  if_signaled = λ status. false;
  term_sig = λ status. 0;
  stop_sig = λ status. 0;
  signal_name = λ n. none;
  my_pid = 42;
  my_when = record { sec = 1; nsec = 2 };
  errno_eproto = 71;
  errno_enoent = 2;
  errno_ebusy = 16;
  errno_enotdir = 20;
  errno_enotsup = 95;
}

-- a kernel out of processes
abbrev pub full_kernel : Env
full_kernel = record kernel { fork = λ n. none }

pub kernel-ForkIsPositive : ForkIsPositive kernel
kernel-ForkIsPositive = record { fork_pos = λ n p h. ground arith }

abbrev pub idle : Subsv
idle = record {
  pid = 0;
  is_log = false;
  is_reset = false;
  is_once = false;
  is_paused = false;
  want_down = true;
  failing = false;
  when = record { sec = 3; nsec = 4 };
  when_ok = record { sec = 3; nsec = 4 };
  wstat = 0;
}

-- a running one
abbrev pub alive : ℕ → Subsv
alive pid = record idle { pid = pid; want_down = false }

abbrev pub resetting : ℕ → Subsv
resetting pid = record idle { pid = pid; is_reset = true }

-- a service with a logger, both running
abbrev pub service : Svdef
service = record {
  dev = 5;
  ino = 6;
  fd_dir = 9;
  name = codes "web";
  when = record { sec = 3; nsec = 4 };
  active = true;
  has_log = true;
  cull = false;
  cycle = false;
  down = false;
  once = false;
  logpipe_read = 10;
  logpipe_write = 11;
  sv_main = alive 50;
  sv_log = alive 51;
}

-- one that is going, its main reset running
abbrev pub going : Svdef
going = record service { cull = true; has_log = false; sv_main = resetting 60; sv_log = idle }

abbrev pub calm : Globals
calm = record {
  flag_chld = 0;
  flag_hup = 0;
  flag_term = 0;
  flag_failing = 0;
  flag_terminating = false;
  calls = 0;
  trace = [];
}

-- a client that has sent a request of this type, with this payload
abbrev pub client : ℕ → Bytes → ℕ → Conn
client kind payload len = record {
  connfd = some 30;
  stamp = record { sec = 3; nsec = 4 };
  state = reading;
  pkt = store (replicate 258 0) 0 (2 ∷ kind ∷ len ∷ payload);
  n = len + 3;
  w = 0;
}

-- the device and the inode of the service, packed
abbrev pub target : Bytes
target = 5 ∷ 0 ∷ 0 ∷ 0 ∷ 0 ∷ 0 ∷ 0 ∷ 0 ∷ 6 ∷ 0 ∷ 0 ∷ 0 ∷ 0 ∷ 0 ∷ 0 ∷ 0 ∷ []

abbrev pub loop : Loop
loop = record {
  svdefs = service ∷ going ∷ [];
  clients = [];
  globals = calm;
  autoscan = 0;
  fd_listen = 7;
}
