-- ===== src/Client.antt =====
-- perp/perpok.c and perp/perpctl.c: the clients of perpd that ask about a service and control it.
pub mod Wire
pub mod Ok
pub mod Control
mod Tests
use perp.Common.{
  ℕ, ◌+◌, Bool, false, not, ◌||◌, ◌&&◌, Option, none, some, [], ◌∷◌, ◌++◌, Bytes, ltb, ◌==◌,
  if◌then◌else◌, drop, store, replicate,
}
use perp.Upak.{at, upak32_unpack, upak64_pack}
use perp.Tain.{Tain, tain_unpack, tain_uptime}
use perp.Pkt.{pkt_data, pkt_proto, pkt_type}
use perp.Perpls.{has_bit, is_positive}

-- `pkt_INIT`
abbrev pub pkt_init : ℕ → ℕ → ℕ → Bytes
pkt_init proto type dlen = proto ∷ type ∷ dlen ∷ replicate 255 0

-- what `stat` reports of a directory, less what is not looked at
pub record ServiceStat : Type 0 where
  pub dev : ℕ
  pub ino : ℕ
  pub is_dir : Bool
  pub is_sticky : Bool

-- the packet that asks for the status of a service
unfoldable pub query_request : ServiceStat → Bytes
query_request st = store (pkt_init 2 b'Q' 16) 3 (upak64_pack st.dev ++ upak64_pack st.ino)

-- the exit codes 0, 1, 100 and 111
pub data Exit : Type 0 where
  exit_ok exit_fail exit_usage exit_fatal : Exit

-- what perpok makes of the array that the reply was read into
unfoldable pub perpok_reply : ℕ → Tain → Bytes → Exit
perpok_reply upsecs now k =
    let status = pkt_data k in
    let flags = at status 46 in
    if not (pkt_proto k == 2) || not (pkt_type k == b'S')
    then exit_fatal
    else if upsecs == 0
    then exit_ok
    else if not (is_positive (upak32_unpack (drop 30 status)))
    then exit_fail
    else if has_bit flags 0x02
    then exit_fail
    else if has_bit flags 0x10
    then exit_fail
    else if ltb (tain_uptime now (tain_unpack (drop 34 status))) upsecs
    then exit_fail
    else exit_ok

-- An exchange writes a packet and reads the reply into the same array; `none` is -1 of `pkt_write` or
-- `pkt_read`. The connection is made before.
unfoldable pub perpok : Option ServiceStat → (Bytes → Option Bytes) → ℕ → Tain → Exit
unfolding perpok_reply query_request
perpok none exchange upsecs now = exit_fatal
perpok (some st) exchange upsecs now =
    if not st.is_dir
    then exit_usage
    else if not st.is_sticky
    then exit_fail
    else elim (exchange (query_request st)) [
      | none ↦ exit_fatal
      | some k ↦ perpok_reply upsecs now k
    ]

-- what the first letter of the command of perpctl, with its options -L and -g, asks for
pub data Asked : Type 0 where
  activate deactivate usage : Asked
  send : ℕ → ℕ → Asked

-- is this a control command?
abbrev pub is_command : ℕ → Bool
is_command c =
    c == b'd'
    || c == b'u'
    || c == b'o'
    || c == b'p'
    || c == b'c'
    || c == b'a'
    || c == b'h'
    || c == b'i'
    || c == b'k'
    || c == b'q'
    || c == b't'
    || c == b'w'
    || c == b'1'
    || c == b'2'

abbrev pub is_meta : ℕ → Bool
is_meta c = c == b'D' || c == b'U'

-- the two bytes of the command
unfoldable pub command_of : Bool → Bool → ℕ → Asked
command_of opt_l opt_g c =
    let killpg = if opt_g then 2 else 0 in
    if c == b'A'
    then activate
    else if c == b'X'
    then deactivate
    else if is_command c
    then send c ((if opt_l then 1 else 0) + killpg)
    else if is_meta c
    then (if opt_l then usage else send c killpg)
    else usage

unfoldable pub control_request : ServiceStat → ℕ → ℕ → Bytes
control_request st cmd flags =
    store (pkt_init 2 b'C' 18) 3 (upak64_pack st.dev ++ (upak64_pack st.ino ++ (cmd ∷ flags ∷ [])))

-- does the array hold a reply that reports no error?
unfoldable pub control_reply : Bytes → Bool
control_reply k = pkt_proto k == 2 && pkt_type k == b'E' && upak32_unpack (pkt_data k) == 0

-- one round of the loop of `do_control`, true where it reports success
unfoldable pub control_one : ℕ → ℕ → Option ServiceStat → (Bytes → Option Bytes) → Bool
unfolding control_request control_reply
control_one cmd flags none exchange = false
control_one cmd flags (some st) exchange =
    if not st.is_dir
    then false
    else if not st.is_sticky
    then false
    else elim (exchange (control_request st cmd flags)) [ none ↦ false | some k ↦ control_reply k ]
