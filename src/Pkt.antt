-- ===== src/Pkt.antt =====
-- lasagna/pkt.h and lasagna/pkt: the packet protocol between perpd and its clients.
-- A `pkt_t` is an array of 258 bytes: protocol, type, size of the payload, and the payload.
pub mod Write
pub mod Read
mod Tests
use perp.Common.{
  store, ℕ, ◌+◌, ◌-◌, not, Option, none, some, List, [], ◌∷◌, ◌++◌, Bytes, ltb, leb, ◌==◌,
  if◌then◌else◌, length, take, drop,
}
use perp.Upak.{uchar, at}

abbrev pub pkt_header : ℕ
pkt_header = 3

abbrev pub pkt_payload : ℕ
pkt_payload = 255

abbrev pub pkt_size : ℕ
pkt_size = 258

abbrev pub pkt_proto : Bytes → ℕ
pkt_proto k = at k 0

abbrev pub pkt_type : Bytes → ℕ
pkt_type k = at k 1

abbrev pub pkt_dlen : Bytes → ℕ
pkt_dlen k = at k 2

abbrev pub pkt_len : Bytes → ℕ
pkt_len k = pkt_header + pkt_dlen k

abbrev pub pkt_data : Bytes → Bytes
pkt_data k = drop 3 k

-- The new array; `none` is -1 with ERANGE. `buf` holds the `n` bytes that are copied.
unfoldable pub pkt_load : Bytes → ℕ → ℕ → Bytes → ℕ → Option Bytes
pkt_load k p t buf n =
    if ltb (pkt_size - 3) n
    then none
    else some (store k 0 (uchar p ∷ uchar t ∷ uchar n ∷ take n buf))

-- Why a call returns -1.
pub data Failure : Type 0 where
  einval eproto io_failure : Failure

-- What a call returns: a count, which is 0 at end of file, or -1.
pub data Count : Type 0 where
  count : ℕ → Count
  error : Failure → Count

-- What `read` on the socket meets, in order. A chunk may be read in pieces; an empty one is the
-- end of file. Past the end of the list, `read` fails with EAGAIN.
pub data Arrival : Type 0 where
  chunk : Bytes → Arrival
  interrupted would_block failed : Arrival

-- the bytes that must be there before the packet can be complete
abbrev pub to_read : Bytes → ℕ → ℕ
to_read k n = if ltb n pkt_header then pkt_header else pkt_len k

pub record ReadResult : Type 0 where
  pub pkt : Bytes
  pub result : Count
  pub rest : List Arrival

-- behind the loop: a size mismatch is a protocol error
unfoldable pub finish_read : Bytes → ℕ → ℕ → List Arrival → ReadResult
finish_read k offset n s = record {
  pkt = k;
  result = if n == to_read k n then count (n - offset) else error eproto;
  rest = s;
}

-- The loop, with `n` bytes in the array. `max` is the room behind them. A read that fills the
-- array ends the loop, since no packet is longer.
unfoldable pub read_from : Bytes → ℕ → ℕ → List Arrival → ReadResult
unfolding finish_read
read_from k offset n [] =
    if ltb n (to_read k n)
    then record { pkt = k; result = count (n - offset); rest = [] }
    else finish_read k offset n []
read_from k offset n (interrupted ∷ s) =
    let again = read_from k offset n s in
    if ltb n (to_read k n) then again else finish_read k offset n (interrupted ∷ s)
read_from k offset n (would_block ∷ s) =
    if ltb n (to_read k n)
    then record { pkt = k; result = count (n - offset); rest = s }
    else finish_read k offset n (would_block ∷ s)
read_from k offset n (failed ∷ s) =
    if ltb n (to_read k n)
    then record { pkt = k; result = error io_failure; rest = s }
    else finish_read k offset n (failed ∷ s)
read_from k offset n (chunk b ∷ s) =
    let max = pkt_size - n in
    let got = take max b in
    let k' = store k n got in
    let again = read_from k' offset (n + length got) s in
    if not (ltb n (to_read k n))
    then finish_read k offset n (chunk b ∷ s)
    else if length got == 0
    then record { pkt = k; result = count 0; rest = s }
    else if leb (length b) max
    then again
    else finish_read k' offset (n + length got) (chunk (drop max b) ∷ s)

unfoldable pub pkt_read : Bytes → ℕ → List Arrival → ReadResult
unfolding read_from
pkt_read k offset s =
    if ltb pkt_size offset
    then record { pkt = k; result = error einval; rest = s }
    else read_from k offset offset s

-- What `write` on the socket does, in order: it takes up to so many bytes. Past the end of the
-- list it fails with EAGAIN.
pub data Room : Type 0 where
  room : ℕ → Room
  interrupted would_block failed : Room

pub record WriteResult : Type 0 where
  pub wire : Bytes
  pub result : Count

-- The loop, with `b` the bytes still to be written and `done` those written in this call.
unfoldable pub write_from : Bytes → Bytes → List Room → WriteResult
write_from [] done s = record { wire = done; result = count (length done) }
write_from (x ∷ b) done [] = record { wire = done; result = count (length done) }
write_from (x ∷ b) done (interrupted ∷ s) = write_from (x ∷ b) done s
write_from (x ∷ b) done (would_block ∷ s) = record { wire = done; result = count (length done) }
write_from (x ∷ b) done (failed ∷ s) = record { wire = done; result = error io_failure }
write_from (x ∷ b) done (room w ∷ s) = write_from (drop w (x ∷ b)) (done ++ take w (x ∷ b)) s

unfoldable pub pkt_write : Bytes → ℕ → List Room → WriteResult
unfolding write_from
pkt_write k offset s =
    if ltb (pkt_len k) offset
    then record { wire = []; result = error einval }
    else write_from (drop offset (take (pkt_len k) k)) [] s
