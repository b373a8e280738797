-- ===== src/Client/Tests.antt =====
-- perpok and perpctl on a service of a running perpd.
use perp.Common.{◌≡◌, refl, true, some, List, [], ◌∷◌, set, arith}
use perp.Tain.{Tain}
use perp.Perpd.Types.{log, Svdef}
use perp.Perpd.Cull.{perpd_lookup}
use perp.Perpd.Control.{do_control}
use perp.Perpd.Conn.{Conn, perpd_conn_exec}
use perp.Perpd.Samples.{kernel, service, calm, client}
use perp.Perpls.Display.{IsShowable}
use perp.Client.{ServiceStat, command_of, perpok, control_one, control_request}
use perp.Client.Wire.{asked_by, served}
use perp.Client.Ok.{judged, perpok_lem}
use perp.Client.Control.{perpctl_lem}

abbrev one : List Svdef
one = service ∷ []

abbrev dir : ServiceStat
dir = record { dev = 5; ino = 6; is_dir = true; is_sticky = true }

abbrev idle_client : Conn
idle_client = client b'Q' [] 0

abbrev later : Tain
later = record { sec = 100; nsec = 4 }

service-IsShowable : IsShowable service.sv_main
service-IsShowable = record {
  fits = record { pid_fits = omega arith; sec_fits = omega arith; nsec_fits = omega arith };
  is_pid = omega arith;
}

perpok_lem_example :
    perpok (some dir) (served kernel one calm idle_client (0 ∷ []) []) 60 later
    ≡ judged service.sv_main 60 later
unfolding perpd_lookup
perpok_lem_example =
    perpok_lem kernel one calm idle_client (0 ∷ []) [] dir 0 service 60 later refl refl
      (omega arith) (omega arith) refl refl service-IsShowable

perpctl_lem_example :
    let (s', g', ok) = do_control kernel service log b't' true calm in
    let r =
      perpd_conn_exec kernel one calm
        (asked_by kernel one calm idle_client (0 ∷ []) [] (control_request dir b't' 3)) in
    (control_one b't' 3 (some dir) (served kernel one calm idle_client (0 ∷ []) []) ≡ true)
    × (ok ≡ true)
    × (r.0 ≡ set one 0 s')
    × (r.1 ≡ g')
unfolding perpd_lookup command_of
perpctl_lem_example =
    perpctl_lem kernel one calm idle_client (0 ∷ []) [] true true b't' b't' 3 dir 0 service refl
      refl refl (omega arith) (omega arith) refl refl refl
