-- ===== src/Perpd/Rounds/Services.antt =====
-- perp/perpd.c, perp/perpd_conn.c: what the parts of a round do to the services.
use perp.Common.{
  ℕ, suc, ◌+◌, ◌≡◌, inl, inr, refl, if_ind, ap, List, [], ◌∷◌, length, arith, Option-cases, All,
  All-set, All-get_elem?, length-set, get_elem?, set, if◌then◌else◌, drop,
}
use perp.Upak.{at, upak64_unpack}
use perp.Pkt.{pkt_read, Count, count, error, pkt_data}
use perp.Perpd.Types.{Svdef, Globals, Env, ForkIsPositive}
use perp.Perpd.Run.Outcome.{IsSupervised}
use perp.Perpd.Cull.{perpd_lookup}
use perp.Perpd.Svdef.{perpd_svdef_wantcull, perpd_svdef_checkfail}
use perp.Perpd.Conn.{
  command_which, command_killpg, dispatch, perpd_conn_exec_reply, Conn, control_service,
  perpd_conn_exec_control, perpd_conn_exec, perpd_conn_read, received,
}
use perp.Perpd.Mainloop.{wantcull_all, checkfail_all}
use perp.Perpd.Sockets.{handle, ClientEvent, quiet, broken, readable, writable, serve, serve_all}
use perp.Perpd.Control.{do_control}
use perp.Perpd.Supervision.{wantcull-IsSupervised, checkfail-IsSupervised}
use perp.Perpd.Supervision.Control.{control-IsSupervised}
use perp.Perpd.Invariant.{FitsVector}

set-FitsVector :
    (l : List Svdef) (i : ℕ) (s : Svdef) → FitsVector l → IsSupervised s → FitsVector (set l i s)
set-FitsVector l i s h v = record {
  all_supervised = All-set IsSupervised l i s h.all_supervised v;
  within = omega (arith, length-set l i s, h.within);
}

module _ {e : Env} (fp : ForkIsPositive e) where
  control_service-IsSupervised :
      (s : Svdef) (cmd flags : ℕ) (g : Globals) (c : Conn)
      → IsSupervised s
      → IsSupervised (control_service e s cmd flags g c).0
  unfolding control_service
  control_service-IsSupervised s cmd flags g c v =
      let (s', g', ok) = do_control e s (command_which flags) cmd (command_killpg flags) g in
      if_ind (λ (r : Svdef × Globals × Conn). IsSupervised r.0) s.cull
        (s, g, perpd_conn_exec_reply c e.errno_ebusy)
        (s', g', perpd_conn_exec_reply c (if ok then 0 else e.errno_eproto)) v
        (control-IsSupervised fp s (command_which flags) cmd (command_killpg flags) g v)

  exec_control-FitsVector :
      (l : List Svdef) (g : Globals) (c : Conn)
      → FitsVector l
      → FitsVector (perpd_conn_exec_control e l g c).0
  unfolding perpd_conn_exec_control
  exec_control-FitsVector l g c h =
      let payload = pkt_data c.pkt in
      elim (Option-cases
        (perpd_lookup l (upak64_unpack payload) (upak64_unpack (drop 8 payload)))) [
          | inl lost ↦ rw (lost, perpd_conn_exec_control) h
          | inr (i, found) ↦ elim (Option-cases (get_elem? l i)) [
            | inl out ↦ rw (found, perpd_conn_exec_control, out) h
            | inr (s, at_i) ↦
                rw (found, perpd_conn_exec_control, at_i)
                  (set-FitsVector l i _ h (
                    control_service-IsSupervised s (at payload 16) (at payload 17) g c
                      (All-get_elem? IsSupervised l i h.all_supervised at_i)))
          ]
        ]

  dispatch-FitsVector :
      (n : ℕ) (l : List Svdef) (g : Globals) (c : Conn)
      → FitsVector l
      → FitsVector (dispatch e n l g c).0
  unfolding dispatch
  dispatch-FitsVector n l g c h = ground (arith, exec_control-FitsVector l g c h)

  exec-FitsVector :
      (l : List Svdef) (g : Globals) (c : Conn)
      → FitsVector l
      → FitsVector (perpd_conn_exec e l g c).0
  unfolding perpd_conn_exec
  exec-FitsVector l g c h = ground (
    arith,
    dispatch-FitsVector c.n l g c h,
    dispatch-FitsVector c.n l g (perpd_conn_exec_reply c e.errno_eproto) h,
  )

  received-FitsVector :
      (r : Count) (l : List Svdef) (g : Globals) (c : Conn)
      → FitsVector l
      → FitsVector (received e r l g c).0
  unfolding received
  received-FitsVector (error f) l g c h = h
  received-FitsVector (count m) l g c h =
      let more = record c { n = c.n + m } in ground (arith, exec-FitsVector l g more h)

  handle-FitsVector :
      (event : ClientEvent) (l : List Svdef) (g : Globals) (c : Conn)
      → FitsVector l
      → FitsVector (handle e event l g c).0
  unfolding handle perpd_conn_read
  handle-FitsVector quiet l g c h = h
  handle-FitsVector broken l g c h = h
  handle-FitsVector (readable s) l g c h =
      let r = pkt_read c.pkt c.n s in received-FitsVector r.result l g (record c { pkt = r.pkt }) h
  handle-FitsVector (writable s) l g c h = h

  serve-FitsVector :
      (event : ClientEvent) (l : List Svdef) (g : Globals) (c : Conn)
      → FitsVector l
      → FitsVector (serve e event l g c).0
  unfolding serve
  serve-FitsVector event l g c h = ground (arith, handle-FitsVector event l g c h)

  pub serve_all-FitsVector :
      (events : List ClientEvent) (l : List Svdef) (g : Globals) (cs : List Conn)
      → FitsVector l
      → FitsVector (serve_all e events l g cs).0
  unfolding serve_all
  serve_all-FitsVector [] l g cs h = h
  serve_all-FitsVector (event ∷ events) l g [] h = h
  serve_all-FitsVector (event ∷ events) l g (c ∷ cs) h =
      let (l1, g1, c') = serve e event l g c in
      serve_all-FitsVector events l1 g1 cs (serve-FitsVector event l g c h)

  checkfail_all-All :
      (l : List Svdef) (g : Globals) → All IsSupervised l → All IsSupervised (checkfail_all e l g).0
  unfolding checkfail_all
  checkfail_all-All [] g h = tt
  checkfail_all-All (s ∷ l) g (v, h) =
      (checkfail-IsSupervised fp s g v, checkfail_all-All l (perpd_svdef_checkfail e s g).1 h)

  length-checkfail_all : (l : List Svdef) (g : Globals) → length (checkfail_all e l g).0 ≡ length l
  unfolding checkfail_all
  length-checkfail_all [] g = refl
  length-checkfail_all (s ∷ l) g = ap suc (length-checkfail_all l (perpd_svdef_checkfail e s g).1)

  pub checkfail_all-FitsVector :
      (l : List Svdef) (g : Globals) → FitsVector l → FitsVector (checkfail_all e l g).0
  checkfail_all-FitsVector l g h = record {
    all_supervised = checkfail_all-All l g h.all_supervised;
    within = omega (arith, length-checkfail_all l g, h.within);
  }

wantcull_all-All :
    (l : List Svdef) (g : Globals) → All IsSupervised l → All IsSupervised (wantcull_all l g).0
unfolding wantcull_all
wantcull_all-All [] g h = tt
wantcull_all-All (s ∷ l) g (v, h) =
    (wantcull-IsSupervised s g v, wantcull_all-All l (perpd_svdef_wantcull s g).1 h)

length-wantcull_all : (l : List Svdef) (g : Globals) → length (wantcull_all l g).0 ≡ length l
unfolding wantcull_all
length-wantcull_all [] g = refl
length-wantcull_all (s ∷ l) g = ap suc (length-wantcull_all l (perpd_svdef_wantcull s g).1)

pub wantcull_all-FitsVector :
    (l : List Svdef) (g : Globals) → FitsVector l → FitsVector (wantcull_all l g).0
wantcull_all-FitsVector l g h = record {
  all_supervised = wantcull_all-All l g h.all_supervised;
  within = omega (arith, length-wantcull_all l g, h.within);
}
