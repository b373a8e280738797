-- ===== src/Perpd/Svdef.antt =====
-- perp/perpd_svdef.c: activation, retries after a failed fork, and deactivation.
use perp.Common.{
  ℕ, ◌+◌, ◌&&◌, ◌||◌, Bool, true, false, not, Option, none, some, [], ◌++◌, Bytes, codes, ltb,
  if◌then◌else◌, length, take,
}
use perp.Tain.{Tain, tain_now}
use perp.Perpd.Types.{
  Which, main, log, start, reset, Subsv, Svdef, subsv, sigterm, sigcont, process, kill, close,
  Globals, Env, Stat, emit, asked,
}
use perp.Perpd.Run.{perpd_svdef_run}

-- the bytes that `cstr_lcpy` stores into `name[31 + 1]`
abbrev pub service_name : Bytes → Bytes
service_name svdir = take 31 svdir

-- all bytes zero
abbrev pub zero_tain : Tain
zero_tain = record { sec = 0; nsec = 0 }

abbrev pub clear_subsv : Subsv
clear_subsv = record {
  pid = 0;
  is_log = false;
  is_reset = false;
  is_once = false;
  is_paused = false;
  want_down = false;
  failing = false;
  when = zero_tain;
  when_ok = zero_tain;
  wstat = 0;
}

abbrev pub perpd_svdef_clear : Svdef
perpd_svdef_clear = record {
  dev = 0;
  ino = 0;
  fd_dir = 0;
  name = [];
  when = zero_tain;
  active = false;
  has_log = false;
  cull = false;
  cycle = false;
  down = false;
  once = false;
  logpipe_read = 0;
  logpipe_write = 0;
  sv_main = clear_subsv;
  sv_log = clear_subsv;
}

unfoldable pub perpd_svdef_close : Svdef → Globals → Globals
perpd_svdef_close s g = emit (close s.fd_dir) g

abbrev pub is_some {ℓ} : {A : Type ℓ} → Option A → Bool
is_some none = false
is_some (some a) = true

abbrev pub is_executable : Option Stat → Bool
is_executable none = false
is_executable (some st) = st.is_user_executable

abbrev pub in_dir : Bytes → Bytes → Bytes
in_dir svdir file = codes "./" ++ (svdir ++ file)

module _ (e : Env) where
  -- The first starts of an activated service: the logger, if there is one, and then the service,
  -- unless it is flagged down.
  unfoldable pub start_log : Svdef → Globals → Svdef × Globals
  start_log s g =
      let logging = record s { sv_log = record s.sv_log { is_log = true } } in
      let (s1, g1, ok) = perpd_svdef_run e logging log start g in
      if s.has_log then (s1, g1) else (s, g)

  unfoldable pub start_main : Svdef → Globals → Svdef × Globals
  start_main s g =
      let flagged = record s {
        sv_main = record s.sv_main { is_once = s.sv_main.is_once || s.once };
      } in
      let (s1, g1, ok) = perpd_svdef_run e flagged main start g in
      if s.down then (record s { sv_main = record s.sv_main { want_down = true } }, g) else (s1, g1)

  unfoldable pub first_starts : Svdef → Globals → Svdef × Globals
  unfolding start_log start_main
  first_starts s g = let (s1, g1) = start_log s g in start_main s1 g1

  -- the definition as its directory describes it; questions `n` to `n + 4`
  unfoldable pub inspect : Bytes → Stat → ℕ → ℕ → Svdef
  inspect svdir st fd n = record perpd_svdef_clear {
    dev = st.st_dev;
    ino = st.st_ino;
    fd_dir = fd;
    name = service_name svdir;
    when = tain_now (e.gettimeofday n);
    active = true;
    down = is_some (e.stat (n + 2) (in_dir svdir (codes "/flag.down")));
    once = is_some (e.stat (n + 3) (in_dir svdir (codes "/flag.once")));
    has_log = is_executable (e.stat (n + 4) (in_dir svdir (codes "/rc.log")));
  }

  -- with the log pipe, if one is needed; `none` is -1
  unfoldable pub open_logpipe : Svdef → Globals → Option (Svdef × Globals)
  unfolding first_starts
  open_logpipe s g =
      if s.has_log
      then elim (e.pipe g.calls) [
        | none ↦ none
        | some (r, w) ↦
            some (first_starts (record s { logpipe_read = r; logpipe_write = w }) (asked g))
      ]
      else some (first_starts s g)

  -- The new definition, or `none` for -1; the globals count the questions and the effects.
  unfoldable pub perpd_svdef_activate : Bytes → Stat → Globals → Option Svdef × Globals
  unfolding inspect open_logpipe
  perpd_svdef_activate svdir st g =
      if ltb 240 (length svdir)
      then (none, g)
      else elim (e.open_dir (g.calls + 1) (in_dir svdir [])) [
        | none ↦ (none, record g { calls = g.calls + 2 })
        | some fd ↦
            let g5 = record g { calls = g.calls + 5 } in
            elim (open_logpipe (inspect svdir st fd g.calls) g5) [
              | none ↦ (none, emit (close fd) (asked g5))
              | some (s, g') ↦ (some s, g')
            ]
      ]

  -- the retry of one subservice, on the target that failed
  unfoldable pub retry : Svdef → Which → Globals → Svdef × Globals
  retry s w g =
      let (s', g', ok) = perpd_svdef_run e s w (if (subsv s w).is_reset then reset else start) g in
      if (subsv s w).failing then (s', g') else (s, g)

  unfoldable pub perpd_svdef_checkfail : Svdef → Globals → Svdef × Globals
  unfolding retry
  perpd_svdef_checkfail s g =
      let (s1, g1) = if s.has_log then retry s log g else (s, g) in
      let (s2, g2) = retry s1 main g1 in if s.active then (s2, g2) else (s, g)

unfoldable pub perpd_svdef_keep : Svdef → Bytes → Svdef
perpd_svdef_keep s svdir = record s { active = true; name = service_name svdir }

-- SIGTERM to what is not running its reset, and SIGCONT to all
unfoldable pub end_main : Svdef → Globals → Svdef × Globals
end_main s g =
    let pid = s.sv_main.pid in
    let g1 = if s.sv_main.is_reset then g else emit (kill (process pid) sigterm) g in
    (
      record s { sv_main = record s.sv_main { is_paused = false } },
      emit (kill (process pid) sigcont) g1,
    )

-- the same for the logger, whose pipe is closed first
unfoldable pub end_log : Svdef → Globals → Svdef × Globals
end_log s g =
    let pid = s.sv_log.pid in
    let closed = emit (close s.logpipe_read) (emit (close s.logpipe_write) g) in
    let g1 = if s.sv_log.is_reset then g else emit (kill (process pid) sigterm) closed in
    (
      record s { sv_log = record s.sv_log { is_paused = false } },
      emit (kill (process pid) sigcont) g1,
    )

-- flagged for deactivation, with every subservice wanted down
unfoldable pub flag_cull : Svdef → Svdef
flag_cull s = record s {
  cull = true;
  sv_main = record s.sv_main { want_down = true };
  sv_log = record s.sv_log { want_down = s.sv_log.want_down || s.has_log };
}

-- The Boolean is the result: `true` for 1.
unfoldable pub perpd_svdef_wantcull : Svdef → Globals → Svdef × Globals × Bool
unfolding end_main end_log flag_cull
perpd_svdef_wantcull s g =
    let s1 = flag_cull s in
    let (m, gm) = end_main s1 g in
    let (l, gl) = end_log s1 g in
    if ltb 0 s1.sv_main.pid
    then (m, gm, false)
    else if s1.has_log && ltb 0 s1.sv_log.pid
    then (l, gl, false)
    else (s1, g, true)

unfoldable pub perpd_svdef_cullok : Svdef → Bool
perpd_svdef_cullok s = s.cull && not (ltb 0 s.sv_main.pid) && not (s.has_log && ltb 0 s.sv_log.pid)
