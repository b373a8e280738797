-- ===== src/Perpd/Tests.antt =====
-- Runs of the supervisor.
mod Services
mod Requests
use perp.Upak.{u64_mod}
use perp.Common.{
  ℕ, ◌+◌, ◌<◌, ◌≡◌, ◌⊎◌, refl, true, false, Option, none, some, [], ◌∷◌, ◌++◌, arith, codes,
}
use perp.Perpd.Types.{log, start, reset, Svdef}
use perp.Perpd.Samples.{
  kernel, kernel-ForkIsPositive, idle, service, going, calm, client, target, loop,
}
use perp.Perpd.Mainloop.{Loop, chld, Events, round}
use perp.Perpd.Sockets.{no_client}
use perp.Tain.{tain_now, second, tain_load}
use perp.Tain.Arithmetic.{IsCanonical, nanos}
use perp.Perpd.Types.{spawn}
use perp.Perpd.Run.{child_steps, perpd_svdef_run}
use perp.Perpd.Run.Governor.{Spawns, release, run_spaced}
use perp.Perpd.Run.Outcome.{Started, Refused, run_outcome}
use perp.Perpd.Run.ResetArgs.{run_reset_says_exit_0}
use perp.Perpd.Conn.{Conn, perpd_conn_exec}
use perp.Perpd.Replies.{IsReply, exec-IsReply}
use mathlib.Core.List.{filter_map, Perm}
use perp.Perpd.Cull.{perpd_cull}
use perp.Perpd.Cull.Harvest.{stays, Closes, cull-perm, cull-Closes}
use perp.Perpd.Rounds.{IsSound, round-IsSound}

-- one that is gone
abbrev done : Svdef
done = record going { sv_main = idle }

-- the web server has died, and so has the reset of the service that goes
abbrev two_deaths : Events
two_deaths = record {
  traps = chld ∷ [];
  deaths = (50, 1) ∷ (60, 0) ∷ [];
  listing = none;
  due = false;
  clients = [];
  new_client = no_client;
}

-- the loop behind a round
abbrev behind : Option Loop → Loop
behind none = loop
behind (some p) = p

loop-IsSound : IsSound loop
loop-IsSound = record {
  services = record { all_supervised = ground arith; within = omega arith };
  connections = omega arith;
}

round-IsSound_example : IsSound (behind (round kernel two_deaths loop))
unfolding round perp.Perpd.Reap.perpd_waitup perp.Perpd.Reap.find_child
    perp.Perpd.Run.perpd_svdef_run perp.Perpd.Svdef.perpd_svdef_cullok perp.Perpd.Cull.perpd_cull
    perp.Perpd.Svdef.perpd_svdef_close
round-IsSound_example =
    round-IsSound kernel-ForkIsPositive two_deaths loop (ground arith) loop-IsSound refl

-- an idle logger of a running service
abbrev lone : Svdef
lone = record service { sv_log = idle }

now-IsCanonical : IsCanonical (tain_now (kernel.gettimeofday 0))
unfolding tain_now
now-IsCanonical = ground arith

now_early : (tain_now (kernel.gettimeofday 0)).sec + 2 < u64_mod
unfolding tain_now
now_early = ground arith

idle-IsCanonical : IsCanonical idle.when_ok
idle-IsCanonical = ground arith

run_spaced_example :
    let now = tain_now (kernel.gettimeofday 0) in
    let (s', g', ok) = perpd_svdef_run kernel lone log start calm in
    ((wait : ℕ) × Spawns calm g' wait (codes "./rc.log" ∷ codes "start" ∷ lone.name ∷ [])
      × (nanos now + wait ≡ release now idle))
    × (nanos s'.sv_log.when_ok ≡ release now idle + second)
run_spaced_example =
    run_spaced kernel lone log calm 101 refl refl refl now-IsCanonical idle-IsCanonical now_early
      (omega arith)

run_outcome_example :
    let (s', g', ok) = perpd_svdef_run kernel lone log start calm in
    ((ok ≡ true) × Started s' log start × (g'.flag_failing ≡ 0))
    ⊎ ((ok ≡ false) × Refused s' log start × (g'.flag_failing ≡ 1))
run_outcome_example = run_outcome kernel kernel-ForkIsPositive lone log start calm refl refl

exec-IsReply_example :
    IsReply
      (perpd_conn_exec kernel (service ∷ []) calm (client b'C' (target ++ (b'd' ∷ 0 ∷ [])) 18)).2
exec-IsReply_example =
    exec-IsReply kernel (service ∷ []) calm (client b'C' (target ++ (b'd' ∷ 0 ∷ [])) 18)

-- a request that is longer than it says
abbrev odd : Conn
odd = record (client b'Q' target 16) { n = 20 }

cull-perm_example :
    Perm (perpd_cull (done ∷ service ∷ []) calm).0 (filter_map stays (done ∷ service ∷ []))
cull-perm_example = cull-perm (done ∷ service ∷ []) calm

cull-Closes_example : Closes (done ∷ service ∷ []) calm (perpd_cull (done ∷ service ∷ []) calm).1
cull-Closes_example = cull-Closes (done ∷ service ∷ []) calm

run_reset_says_exit_0_example :
    (perpd_svdef_run kernel lone log reset calm).1.trace
    ≡ spawn (
        child_steps lone log reset
          (tain_load 0 0)
          (codes "./rc.log" ∷ codes "reset" ∷ codes "web" ∷ codes "exit" ∷ codes "0" ∷ []))
      ∷ []
run_reset_says_exit_0_example =
    run_reset_says_exit_0 kernel lone log calm 101
      (record { zero_exited = refl; zero_status = refl }) refl refl refl
