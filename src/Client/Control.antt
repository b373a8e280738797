-- ===== src/Client/Control.antt =====
-- perp/perpctl.c against perp/perpd_conn.c: a command of perpctl has its effect in perpd.
use perp.Common.{
  ℕ, ◌+◌, ◌≡◌, ◌≢◌, ◌<◌, ◌∙◌, ap, refl, inl, inr, Bool, true, false, not, ◌||◌, Option, none, some,
  List, ◌++◌, Bytes, ◌==◌, if◌then◌else◌, take, get_elem?, set, arith, Option-cases,
}
use perp.Upak.{at, u32_mod, u64_mod, upak32_pack, upak64_pack, upak32_unpack}
use perp.Pkt.{pkt_data, pkt_len, pkt_load}
use perp.Perpd.Types.{Which, main, log, Svdef, Globals, Env}
use perp.Perpd.Cull.{perpd_lookup}
use perp.Perpd.Control.{command, do_control}
use perp.Perpd.Conn.{
  Conn, command_which, command_killpg, perpd_conn_exec, perpd_conn_exec_reply, reply_with,
}
use perp.Perpd.Replies.Requests.{Asks, exec_control_lem}
use perp.Client.{
  ServiceStat, control_request, control_reply, control_one, send, is_command, is_meta, command_of,
}
use perp.Client.Wire.{asked_by, served, control_dev, control_ino}

abbrev flags_of : Bool → Bool → ℕ
flags_of opt_l opt_g = (if opt_l then 1 else 0) + (if opt_g then 2 else 0)

sent_lem :
    (opt_l opt_g : Bool) (c cmd flags : ℕ)
    → command_of opt_l opt_g c ≡ send cmd flags
    → (cmd ≡ c) × (flags ≡ flags_of opt_l opt_g) × ((is_command c || is_meta c) ≡ true)
unfolding command_of
sent_lem opt_l opt_g c cmd flags sent = ground (arith, sent)

known_lem : (c : ℕ) → (is_command c || is_meta c) ≡ true → command c ≢ none
unfolding command
known_lem c known = ground (arith, known)

do_control_ok :
    (e : Env) (s : Svdef) (w : Which) (cmd : ℕ) (k : Bool) (g : Globals)
    → command cmd ≢ none
    → (do_control e s w cmd k g).2 ≡ true
unfolding do_control
do_control_ok e s w cmd k g known = elim (Option-cases (command cmd)) [
  | inl nothing ↦ absurd (known nothing)
  | inr (c, is_c) ↦ rw (do_control, is_c) refl
]

which_lem :
    (opt_l opt_g : Bool) → command_which (flags_of opt_l opt_g) ≡ (if opt_l then log else main)
which_lem true true = refl
which_lem true false = refl
which_lem false true = refl
which_lem false false = refl

killpg_lem : (opt_l opt_g : Bool) → command_killpg (flags_of opt_l opt_g) ≡ opt_g
killpg_lem true true = refl
killpg_lem true false = refl
killpg_lem false true = refl
killpg_lem false false = refl

error_len : (c : Conn) (err : ℕ) → pkt_len (perpd_conn_exec_reply c err).pkt ≡ 7
unfolding perpd_conn_exec_reply reply_with pkt_load upak32_pack
error_len c err = refl

control_len : (st : ServiceStat) (cmd flags : ℕ) → pkt_len (control_request st cmd flags) ≡ 21
unfolding control_request
control_len st cmd flags = refl

control_reply_lem :
    (c : Conn) (err : ℕ) (behind : Bytes)
    → err < u32_mod
    → control_reply (take 7 (perpd_conn_exec_reply c err).pkt ++ behind) ≡ (err == 0)
unfolding control_reply perpd_conn_exec_reply reply_with pkt_load upak32_pack upak32_unpack
control_reply_lem c err behind h = ground (arith, h)

module _ (e : Env) (l : List Svdef) (g : Globals) (c : Conn)
    (behind_request behind_reply : Bytes) where
  control-Asks :
      (st : ServiceStat) (cmd flags i : ℕ)
      → st.dev < u64_mod
      → st.ino < u64_mod
      → perpd_lookup l st.dev st.ino ≡ some i
      → Asks b'C' 21 l i
          (asked_by e l g c behind_request behind_reply (control_request st cmd flags))
  unfolding control_request upak64_pack
  control-Asks st cmd flags i dev_fits ino_fits found = record {
    proto_2 = refl;
    of_kind = refl;
    of_size = refl;
    complete = refl;
    found =
        (λ j.
          perpd_lookup l (control_dev st behind_request cmd flags dev_fits j)
            (control_ino st behind_request cmd flags ino_fits j))
        ∙ found;
  }

  command_bytes :
      (st : ServiceStat) (cmd flags : ℕ)
      → let input =
          pkt_data
            (asked_by e l g c behind_request behind_reply (control_request st cmd flags)).pkt in
        (at input 16 ≡ cmd) × (at input 17 ≡ flags)
  unfolding control_request upak64_pack
  command_bytes st cmd flags = (refl, refl)

  -- A command that perpctl accepts, with its options -L and -g, on a service directory that is activated,
  -- and that perpd has and is not deactivating: perpctl reports success, and perpd has changed that
  -- service and the globals as `do_control` does with this command on the logger, with -L, or the main
  -- subservice, and its process group, with -g, or its process; it has changed no other service.
  pub perpctl_lem :
      (opt_l opt_g : Bool) (letter cmd flags : ℕ) (st : ServiceStat) (i : ℕ) (s : Svdef)
      → command_of opt_l opt_g letter ≡ send cmd flags
      → st.is_dir ≡ true
      → st.is_sticky ≡ true
      → st.dev < u64_mod
      → st.ino < u64_mod
      → perpd_lookup l st.dev st.ino ≡ some i
      → get_elem? l i ≡ some s
      → s.cull ≡ false
      → let (s', g', ok) = do_control e s (if opt_l then log else main) letter opt_g g in
        let r =
          perpd_conn_exec e l g
            (asked_by e l g c behind_request behind_reply (control_request st cmd flags)) in
        (control_one cmd flags (some st) (served e l g c behind_request behind_reply) ≡ true)
        × (ok ≡ true)
        × (r.0 ≡ set l i s')
        × (r.1 ≡ g')
  unfolding control_one
  perpctl_lem opt_l opt_g letter cmd flags st i s sent dir sticky dev_fits ino_fits found at_i
        free =
      let conn = asked_by e l g c behind_request behind_reply (control_request st cmd flags) in
      let (same_cmd, same_flags, known) = sent_lem opt_l opt_g letter cmd flags sent in
      let (byte_16, byte_17) = command_bytes st cmd flags in
      let done = do_control e s (if opt_l then log else main) letter opt_g g in
      let asks = control-Asks st cmd flags i dev_fits ino_fits found in
      let w = ap command_which (byte_17 ∙ same_flags) ∙ which_lem opt_l opt_g in
      let b = byte_16 ∙ same_cmd in
      let k = ap command_killpg (byte_17 ∙ same_flags) ∙ killpg_lem opt_l opt_g in
      let answer : Svdef × Globals × Bool → List Svdef × Globals × Conn =
        λ d. (set l i d.0, d.1, perpd_conn_exec_reply conn (if d.2 then 0 else e.errno_eproto)) in
      let ok : done.2 ≡ true =
        do_control_ok e s (if opt_l then log else main) letter opt_g g (known_lem letter known) in
      let exec : perpd_conn_exec e l g conn ≡ answer done =
        exec_control_lem e l i s g conn asks at_i free
        ∙ (λ j. answer (do_control e s (w j) (b j) (k j) g)) in
      let replied : (perpd_conn_exec e l g conn).2 ≡ perpd_conn_exec_reply conn 0 =
        ap (λ r. r.2) exec
        ∙ ap (λ (t : Bool). perpd_conn_exec_reply conn (if t then 0 else e.errno_eproto)) ok in
      let answered : Conn → Option Bytes = λ r. some (take (pkt_len r.pkt) r.pkt ++ behind_reply) in
      let reply : served e l g c behind_request behind_reply (control_request st cmd flags)
          ≡ some (take 7 (perpd_conn_exec_reply conn 0).pkt ++ behind_reply) =
        ap answered replied
        ∙ ap (λ n. some (take n (perpd_conn_exec_reply conn 0).pkt ++ behind_reply))
            (error_len conn 0) in
      let step : Bool → Bool → Option Bytes → Bool = λ d t r.
        if not d
        then false
        else if not t
        then false
        else elim r [ none ↦ false | some k ↦ control_reply k ] in
      (
        (λ j. step (dir j) (sticky j) (reply j))
            ∙ control_reply_lem conn 0 behind_reply (omega arith),
        ok,
        ap (λ r. r.0) exec,
        ap (λ r. r.1) exec,
      )
