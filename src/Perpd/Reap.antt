-- ===== src/Perpd/Reap.antt =====
-- perp/perpd.c: `perpd_waitup`.
use perp.Common.{
  ℕ, suc, ◌&&◌, ◌||◌, Bool, true, false, not, Option, none, some, List, [], ◌∷◌, ltb, ◌==◌,
  if◌then◌else◌, set, get_elem?,
}
use perp.Perpd.Types.{Which, main, log, start, reset, Subsv, Svdef, subsv, set_subsv, Globals, Env}
use perp.Perpd.Run.{is_main, perpd_svdef_run, trigger_scan}
use perp.Perpd.Svdef.{end_log, perpd_svdef_cullok}
use perp.Perpd.Cull.{perpd_cull}

-- the service and the subservice whose process this is
unfoldable pub find_child : ℕ → List Svdef → Option (ℕ × Which)
find_child pid [] = none
find_child pid (s ∷ l) =
    let rest = find_child pid l in
    if pid == s.sv_main.pid
    then some (0, main)
    else if pid == s.sv_log.pid
    then some (0, log)
    else elim rest [ none ↦ none | some (i, w) ↦ some (suc i, w) ]

-- what `waitpid` reported is noted
unfoldable pub note_exit : ℕ → Subsv → Subsv
note_exit wstat v = record v { pid = 0; wstat = wstat; want_down = v.want_down || v.is_once }

-- does the end of this subservice end the logger too?
unfoldable pub log_follows : Svdef → Which → Bool
log_follows s w = is_main w && s.has_log && s.sv_log.want_down && ltb 0 s.sv_log.pid

module _ (e : Env) where
  -- One child's end. The Boolean says that the loop's body goes on to its check for culling.
  unfoldable pub reap : Svdef → Which → ℕ → Globals → Svdef × Globals × Bool
  unfolding note_exit log_follows
  reap s w wstat g =
      let v = note_exit wstat (subsv s w) in
      let s1 = set_subsv s w v in
      let (r, gr, okr) = perpd_svdef_run e s1 w reset g in
      let (u, gu, oku) = perpd_svdef_run e s1 w start g in
      let (l, gl) = end_log s1 g in
      if not v.is_reset
      then (r, gr, false)
      else if not v.want_down
      then (u, gu, false)
      else if log_follows s1 w
      then (l, gl, false)
      else (s1, g, true)

  -- One round of the loop: `waitpid` has returned a pid and a status. The last two results say
  -- whether it counts for `got_cull` and for `got_cycle`.
  unfoldable pub reap_child : ℕ → ℕ → List Svdef → Globals → List Svdef × Globals × Bool × Bool
  unfolding reap
  reap_child pid wstat l g = elim (find_child pid l) [
    | none ↦ (l, g, false, false)
    | some (i, w) ↦ elim (get_elem? l i) [
      | none ↦ (l, g, false, false)
      | some s ↦
          let (s', g', finished) = reap s w wstat g in
          (set l i s', g', finished && perpd_svdef_cullok s', finished && s'.cycle)
    ]
  ]

  -- the loop over all that `waitpid` returns
  unfoldable pub reap_all :
      List (ℕ × ℕ) → List Svdef → Globals → Bool → Bool → List Svdef × Globals × Bool × Bool
  unfolding reap_child
  reap_all [] l g cull cycle = (l, g, cull, cycle)
  reap_all ((pid, wstat) ∷ deaths) l g cull cycle =
      let (l', g', c, y) = reap_child pid wstat l g in
      reap_all deaths l' g' (cull || c) (cycle || y)

  unfoldable pub perpd_waitup : List (ℕ × ℕ) → List Svdef → Globals → List Svdef × Globals
  unfolding reap_all
  perpd_waitup deaths l g =
      let (l1, g1, cull, cycle) = reap_all deaths l g false false in
      let culled = perpd_cull l1 g1 in
      let (l2, g2) = if cull then culled else (l1, g1) in
      (l2, if cycle then trigger_scan g2 else g2)
