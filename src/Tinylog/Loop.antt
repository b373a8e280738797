-- ===== src/Tinylog/Loop.antt =====
-- perp/tinylog.c: `init_current` and `do_log`.
use perp.Common.{
  ℕ, zero, suc, ◌+◌, Bool, true, false, not, ◌&&◌, Option, none, some, [], ◌∷◌, ◌++◌, Bytes,
  if◌then◌else◌, length, codes,
}
use perp.Tinylog.Line.{startpos, collect}
use perp.Tinylog.{Tinylog, Disk, opened, tinylog_keep, tinylog_post}

module _ (clock : ℕ → Bytes) (gzip : Bytes → Option Bytes) (patience : ℕ) where
  -- a log that is there is archived under this extension, and a new one opened
  unfoldable pub init_new : Tinylog → Bytes → Disk → Option (Tinylog × Disk)
  init_new t ext d =
      elim (tinylog_keep clock gzip patience t d.current ext (record d { current = [] })) [
        | none ↦ none
        | some d' ↦ some (record t { current_size = 0 }, opened d')
      ]

  unfoldable pub init_current : Tinylog → Bool → Disk → Option (Tinylog × Disk)
  unfolding init_new
  init_current t resume d =
      if not d.is_there
      then some (record t { current_size = 0 }, opened d)
      else if not d.is_clean
      then init_new t (codes "u") d
      else if not resume
      then init_new t (codes "s") d
      else some (record t { current_size = length d.current }, record d { is_clean = false })

  -- A line that was collected is posted, with its stamp, unless it is empty.
  unfoldable pub post_line : Bool → Tinylog → Bytes → Disk → Option (Tinylog × Disk)
  post_line wantstamp t [] d = some (t, d)
  post_line wantstamp t (c ∷ line) d =
      let stamped = clock d.readings ++ (b':' ∷ b' ' ∷ c ∷ line) in
      let posted =
        tinylog_post clock gzip patience t (stamped ++ (b'\n' ∷ []))
          (record d { readings = d.readings + 1 }) in
      if wantstamp then posted else tinylog_post clock gzip patience t (c ∷ line ++ (b'\n' ∷ [])) d

  -- behind a line: the log is clean at the end of the input, or the loop goes on with the rest
  abbrev pub proceed :
      Bool
      → Option (Tinylog × Disk)
      → Bytes
      → (Tinylog → Bytes → Disk → Option (Bool × Tinylog × Disk))
      → Option (Bool × Tinylog × Disk)
  proceed ended none rest next = none
  proceed true (some (t, d)) rest next = some (true, t, record d { is_clean = true })
  proceed false (some (t, d)) rest next = next t rest d

  -- What `do_log` returns: whether it is 0, with the state that it leaves. The input ends with the
  -- end of file, or with an error where `failing`. Each round but the last takes a newline off the
  -- input, so that its length and one are fuel enough.
  unfoldable pub log_from :
      Bool → Bool → Bool → ℕ → Tinylog → Bytes → Disk → Option (Bool × Tinylog × Disk)
  unfolding post_line
  log_from signed failing wantstamp zero t input d = none
  log_from signed failing wantstamp (suc f) t input d =
      let (line, rest, ended) = collect signed (startpos wantstamp) [] input in
      if ended && failing
      then some (false, t, d)
      else proceed ended (post_line wantstamp t line d) rest (log_from signed failing wantstamp f)

  unfoldable pub do_log : Bool → Bool → Tinylog → Bytes → Disk → Option (Bool × Tinylog × Disk)
  unfolding log_from
  do_log signed failing t input d = log_from signed failing t.wantstamp (length input + 1) t input d
