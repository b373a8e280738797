-- ===== src/Ioq/Tests.antt =====
-- lasagna/ioq: runs on concrete input, and the theorems at concrete inputs.
use perp.Common.{◌≡◌, refl, true, some, List, [], ◌∷◌, Bytes, arith}
use perp.Pkt.{Arrival, chunk, Room, room}
use perp.Ioq.{
  Ioq, ioq_init, buf_rcopy, read_once, ioq_extract, fed, ioq_feed, ioq_get, write_all, ioq_flush,
  put_blocks, ioq_put,
}
use perp.Ioq.Get.{Gives, ioq_get-Gives}
use perp.Ioq.Put.{IsOutput, Puts}
use perp.Ioq.Client.{Op, put, putflush, putfill, calls, all_bytes, ioq_calls-Puts}

abbrev empty : Ioq
empty = ioq_init (9 ∷ 9 ∷ 9 ∷ 9 ∷ [])

abbrev arrivals : List Arrival
arrivals = Arrival.interrupted ∷ chunk (1 ∷ 2 ∷ 3 ∷ []) ∷ chunk [] ∷ []

-- a short read is moved to the end of the buffer
feed_run : (ioq_feed empty arrivals).queue ≡ record { buf = 1 ∷ 1 ∷ 2 ∷ 3 ∷ []; n = 1; p = 3 }
unfolding ioq_feed read_once fed buf_rcopy
feed_run = refl

get_run : (ioq_get empty 2 arrivals).result ≡ some (1 ∷ 2 ∷ [])
unfolding ioq_get ioq_feed ioq_extract read_once fed buf_rcopy
get_run = refl

ioq_get-Gives_example : Gives empty 2 arrivals (ioq_get empty 2 arrivals)
ioq_get-Gives_example = ioq_get-Gives empty 2 arrivals refl

abbrev bytes : Bytes
bytes = 1 ∷ 2 ∷ 3 ∷ 4 ∷ 5 ∷ []

rcopy_run : buf_rcopy bytes 1 0 3 ≡ 1 ∷ 1 ∷ 2 ∷ 3 ∷ 5 ∷ []
unfolding buf_rcopy
rcopy_run = refl

empty-IsOutput : IsOutput empty
empty-IsOutput = record { as_long = refl; within = omega arith; small = omega arith }

abbrev ops : List Op
ops = put (1 ∷ 2 ∷ 3 ∷ []) ∷ put (4 ∷ 5 ∷ []) ∷ putfill (6 ∷ 7 ∷ 8 ∷ []) ∷ putflush (9 ∷ []) ∷ []

abbrev rooms : List Room
rooms = room 2 ∷ Room.interrupted ∷ room 5 ∷ room 0 ∷ room 9 ∷ Room.failed ∷ []

put_run :
    calls (put (1 ∷ 2 ∷ 3 ∷ []) ∷ put (4 ∷ 5 ∷ []) ∷ []) empty rooms
    ≡ some (record {
      sent = record { ok = true; wire = 1 ∷ 2 ∷ 3 ∷ []; rest = room 0 ∷ room 9 ∷ Room.failed ∷ [] };
      queue = record { buf = 4 ∷ 5 ∷ 3 ∷ 9 ∷ []; n = 4; p = 2 };
    })
unfolding ioq_put ioq_flush write_all put_blocks
put_run = refl

ioq_calls-Puts_example : Puts empty (all_bytes ops) (calls ops empty rooms)
ioq_calls-Puts_example = ioq_calls-Puts ops empty rooms empty-IsOutput (omega arith)
