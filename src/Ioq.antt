-- ===== src/Ioq.antt =====
-- lasagna/ioq.h and lasagna/ioq: buffered input and output on a file descriptor.
-- The operation is a list of what `read` or `write` meets in order, as in lasagna/pkt; where it would
-- block, it fails. A buffer is shorter than 2 ^ 31 bytes, which `ioq_flush` counts with an `int`.
pub mod Copy
pub mod Feed
pub mod Get
pub mod Put
pub mod Routines
pub mod Client
mod Tests
use perp.Common.{
  ℕ, zero, suc, ◌+◌, ◌-◌, ◌%◌, Bool, true, false, not, Option, none, some, List, [], ◌∷◌, ◌++◌,
  Bytes, ltb, leb, ◌==◌, if◌then◌else◌, length, set, store, take, drop,
}
use perp.Upak.{u64_mod, at}
use perp.Pkt.{Arrival, chunk, Room, room}

-- `struct ioq` without the descriptor: for input the bytes in the queue are the `p` from `n` on, for
-- output the first `p` of `n`
pub record Ioq : Type 0 where
  pub buf : Bytes
  pub n : ℕ
  pub p : ℕ

abbrev pub ioq_init : Bytes → Ioq
ioq_init buf = record { buf = buf; n = length buf; p = 0 }

-- bytes copied in an array from the last one down
unfoldable pub buf_rcopy : Bytes → ℕ → ℕ → ℕ → Bytes
buf_rcopy b to from zero = b
buf_rcopy b to from (suc n) = buf_rcopy (set b (to + n) (at b (from + n))) to from n

-- What one `read` of so many bytes returns, `none` for -1 and no bytes for 0, and what is left.
unfoldable pub read_once : ℕ → List Arrival → Option Bytes × List Arrival
read_once want [] = (none, [])
read_once want (Arrival.interrupted ∷ s) = read_once want s
read_once want (Arrival.would_block ∷ s) = (none, s)
read_once want (Arrival.failed ∷ s) = (none, s)
read_once want (chunk b ∷ s) =
    if leb (length b) want then (some b, s) else (some (take want b), chunk (drop want b) ∷ s)

abbrev pub ioq_seek : Ioq → ℕ → Ioq
ioq_seek q len = record q { n = q.n + len; p = q.p - len }

unfoldable pub ioq_extract : Ioq → ℕ → Bytes × Ioq
ioq_extract q len =
    let some_of = if ltb q.p len then q.p else len in
    (take some_of (drop q.n q.buf), record q { p = q.p - some_of; n = q.n + some_of })

pub record Input (A : Type 0) : Type 0 where
  pub result : A
  pub queue : Ioq
  pub rest : List Arrival

-- the bytes that were read moved to the end of the buffer
unfoldable pub fed : Ioq → Bytes → Ioq
fed q got =
    let b = store q.buf 0 got in
    let r = length got in
    let n = q.n - r in record { buf = if ltb 0 n then buf_rcopy b n 0 r else b; n = n; p = r }

-- `none` is an error
unfoldable pub ioq_feed : Ioq → List Arrival → Input (Option ℕ)
unfolding read_once fed
ioq_feed q s =
    if ltb 0 q.p
    then record { result = some q.p; queue = q; rest = s }
    else let (r, s') = read_once q.n s in
      elim r [
        | none ↦ record { result = none; queue = q; rest = s' }
        | some [] ↦ record { result = some 0; queue = q; rest = s' }
        | some (c ∷ got) ↦ record {
          result = some (length (c ∷ got));
          queue = fed q (c ∷ got);
          rest = s';
        }
      ]

-- what is behind a feed, where the caller then takes bytes out of the queue
abbrev pub fed_then : ℕ → Input (Option ℕ) → Input (Option Bytes)
fed_then len f = elim f.result [
  | none ↦ record { result = none; queue = f.queue; rest = f.rest }
  | some zero ↦ record { result = some []; queue = f.queue; rest = f.rest }
  | some (suc r) ↦
      let (got, q') = ioq_extract f.queue len in
      record { result = some got; queue = q'; rest = f.rest }
]

-- `none` is an error; otherwise the bytes stored for the caller
unfoldable pub ioq_get : Ioq → ℕ → List Arrival → Input (Option Bytes)
unfolding ioq_feed ioq_extract read_once
ioq_get q len s =
    if ltb 0 q.p
    then (let (got, q') = ioq_extract q len in record { result = some got; queue = q'; rest = s })
    else if leb q.n len
    then (let (r, s') = read_once len s in record { result = r; queue = q; rest = s' })
    else fed_then len (ioq_feed q s)

-- What was written, whether all of it was, and what is left.
pub record Written : Type 0 where
  pub ok : Bool
  pub wire : Bytes
  pub rest : List Room

unfoldable pub write_all : Bytes → List Room → Written
write_all [] s = record { ok = true; wire = []; rest = s }
write_all (x ∷ b) [] = record { ok = false; wire = []; rest = [] }
write_all (x ∷ b) (Room.interrupted ∷ s) = write_all (x ∷ b) s
write_all (x ∷ b) (Room.would_block ∷ s) = record { ok = false; wire = []; rest = s }
write_all (x ∷ b) (Room.failed ∷ s) = record { ok = false; wire = []; rest = s }
write_all (x ∷ b) (room w ∷ s) =
    let next = write_all (drop w (x ∷ b)) s in record next { wire = take w (x ∷ b) ++ next.wire }

-- the result of a routine, and the queue then
pub record Output : Type 0 where
  pub sent : Written
  pub queue : Ioq

-- written behind what was written before
abbrev pub after : Bytes → Output → Output
after before o = record o { sent = record o.sent { wire = before ++ o.sent.wire } }

unfoldable pub ioq_flush : Ioq → List Room → Output
unfolding write_all
ioq_flush q s =
    if q.p == 0
    then record { sent = record { ok = true; wire = []; rest = s }; queue = q }
    else record { sent = write_all (take q.p q.buf) s; queue = record q { p = 0 } }

-- the space available, a `size_t`
abbrev pub space : Ioq → ℕ
space q = (q.n + u64_mod - q.p) % u64_mod

-- The last step: the bytes are copied behind those in the buffer.
abbrev pub kept : Bytes → Ioq → List Room → Output
kept b q s = record {
  sent = record { ok = true; wire = []; rest = s };
  queue = record q { buf = store q.buf q.p b; p = q.p + length b };
}

abbrev pub ioq_bufsize : ℕ
ioq_bufsize = 8192

-- the loop of `ioq_put`, `n` the length of a block; `none` where the fuel is used up
unfoldable pub put_blocks : ℕ → ℕ → Bytes → Ioq → List Room → Option Output
unfolding write_all
put_blocks zero n b q s = none
put_blocks (suc fuel) n b q s =
    let n' = if ltb (length b) n then length b else n in
    let w = write_all (take n' b) s in
    let next = put_blocks fuel n' (drop n' b) q w.rest in
    if not (ltb q.n (length b))
    then some (kept b q s)
    else if w.ok
    then (elim next [ none ↦ none | some o ↦ some (after w.wire o) ])
    else some (record { sent = w; queue = q })

unfoldable pub ioq_put : Ioq → Bytes → List Room → Option Output
unfolding ioq_flush put_blocks
ioq_put q b s =
    if not (ltb (space q) (length b))
    then some (kept b q s)
    else let f = ioq_flush q s in
      if not f.sent.ok
      then some f
      else let n = if ltb q.n ioq_bufsize then ioq_bufsize else q.n in
        elim (put_blocks (length b + 1) n b f.queue f.sent.rest) [
          | none ↦ none
          | some o ↦ some (after f.sent.wire o)
        ]

unfoldable pub ioq_putflush : Ioq → Bytes → List Room → Output
unfolding ioq_flush write_all
ioq_putflush q b s =
    let f = ioq_flush q s in
    if not f.sent.ok
    then f
    else after f.sent.wire (record { sent = write_all b f.sent.rest; queue = f.queue })

-- the loop of `ioq_putfill`
unfoldable pub fill_from : ℕ → Bytes → Ioq → List Room → Option Output
unfolding ioq_flush
fill_from zero b q s = none
fill_from (suc fuel) b q s =
    let n = space q in
    let f = ioq_flush (record q { buf = store q.buf q.p (take n b); p = q.p + n }) s in
    let next = fill_from fuel (drop n b) f.queue f.sent.rest in
    if not (ltb n (length b))
    then some (kept b q s)
    else if f.sent.ok
    then (elim next [ none ↦ none | some o ↦ some (after f.sent.wire o) ])
    else some f

unfoldable pub ioq_putfill : Ioq → Bytes → List Room → Option Output
unfolding fill_from
ioq_putfill q b s = fill_from (length b + 2) b q s

-- what comes behind a routine, unless it failed
abbrev pub and_then : Option Output → (Output → Option Output) → Option Output
and_then none next = none
and_then (some o) next =
    if not o.sent.ok
    then some o
    else elim (next o) [ none ↦ none | some o' ↦ some (after o.sent.wire o') ]

-- strings put until there is an error; at least one is given
unfoldable pub ioq_vputs : Ioq → List Bytes → List Room → Option Output
unfolding ioq_put
ioq_vputs q [] s = some (record { sent = record { ok = true; wire = []; rest = s }; queue = q })
ioq_vputs q (b ∷ bs) s = and_then (ioq_put q b s) (λ o. ioq_vputs o.queue bs o.sent.rest)
