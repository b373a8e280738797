-- ===== src/Ioq/Client.antt =====
-- lasagna/ioq: what a descriptor is given over any sequence of calls that put.
use perp.Common.{
  ◌≡◌, ◌<◌, inl, inr, refl, sym, ◌∙◌, ap, Bool, true, not, Option, none, some, List, [], ◌∷◌, ◌++◌,
  append_assoc, append-nil, Bytes, take-none, if◌then◌else◌, arith,
}
use perp.Pkt.{Room}
use perp.Ioq.{
  Ioq, Output, after, and_then, ioq_flush, ioq_put, ioq_putflush, ioq_putfill, ioq_vputs,
}
use perp.Ioq.Put.{IsOutput, held, Wrote, Sends, Puts, after_lem, flush_lem}
use perp.Ioq.Routines.{ioq_put-Puts, ioq_putflush-Sends, ioq_putfill-Puts}

pub data Op : Type 0 where
  put putflush putfill : Bytes → Op
  vputs : List Bytes → Op
  flush : Op

abbrev pub call : Op → Ioq → List Room → Option Output
call (put b) q s = ioq_put q b s
call (putflush b) q s = some (ioq_putflush q b s)
call (putfill b) q s = ioq_putfill q b s
call (vputs bs) q s = ioq_vputs q bs s
call flush q s = some (ioq_flush q s)

abbrev pub concat : List Bytes → Bytes
concat [] = []
concat (b ∷ bs) = b ++ concat bs

abbrev pub bytes_in : Op → Bytes
bytes_in (put b) = b
bytes_in (putflush b) = b
bytes_in (putfill b) = b
bytes_in (vputs bs) = concat bs
bytes_in flush = []

abbrev pub all_bytes : List Op → Bytes
all_bytes [] = []
all_bytes (op ∷ ops) = bytes_in op ++ all_bytes ops

-- the calls, up to one that fails
abbrev pub calls : List Op → Ioq → List Room → Option Output
calls [] q s = some (record { sent = record { ok = true; wire = []; rest = s }; queue = q })
calls (op ∷ ops) q s = and_then (call op q s) (λ o. calls ops o.queue o.sent.rest)

done_already :
    (q : Ioq) (s : List Room)
    → IsOutput q
    → Sends q [] (record { sent = record { ok = true; wire = []; rest = s }; queue = q })
done_already q s h = record {
  still = h;
  same_n = refl;
  wrote = inl (refl, sym (append-nil (held q)));
}

-- a routine behind another
and_then_lem :
    (q : Ioq) (b1 b2 : Bytes) (r : Option Output) (next : Output → Option Output)
    → Puts q b1 r
    → ((o : Output) → IsOutput o.queue → o.queue.n ≡ q.n → Puts o.queue b2 (next o))
    → Puts q (b1 ++ b2) (and_then r next)
and_then_lem q b1 b2 r next (o, e, sends) go = elim sends.wrote [
  | inr (failed, unsent, part) ↦
      let value : and_then r next ≡ some o = rw (e, failed) refl in
      (
        o,
        value,
        record {
          still = sends.still;
          same_n = sends.same_n;
          wrote = inr (
            failed,
            unsent ++ b2,
            sym (append_assoc o.sent.wire unsent b2)
                ∙ (ap (λ ys. ys ++ b2) part ∙ append_assoc (held q) b1 b2),
          );
        },
      )
  | inl (done, before) ↦
      let (o2, e2, sends2) = go o sends.still sends.same_n in
      let step : Bool → Option Output → Option Output = λ b t.
        if not b then some o else elim t [ none ↦ none | some o' ↦ some (after o.sent.wire o') ] in
      let value : and_then r next ≡ some (after o.sent.wire o2) =
        ap (λ t. and_then t next) e ∙ (λ i. step (done i) (e2 i)) in
      (
        after o.sent.wire o2,
        value,
        after_lem q o.queue o.sent.wire b1 b2 o2 sends.same_n before sends2,
      )
]

vputs-Puts :
    (bs : List Bytes) (q : Ioq) (s : List Room) → IsOutput q → Puts q (concat bs) (ioq_vputs q bs s)
unfolding ioq_vputs
vputs-Puts [] q s h = (_, refl, done_already q s h)
vputs-Puts (b ∷ bs) q s h =
    and_then_lem q b (concat bs) (ioq_put q b s) (λ o. ioq_vputs o.queue bs o.sent.rest)
      (ioq_put-Puts q b s h) (λ o still same. vputs-Puts bs o.queue o.sent.rest still)

flush-Puts : (q : Ioq) (s : List Room) → IsOutput q → Puts q [] (some (ioq_flush q s))
flush-Puts q s h =
    let f = ioq_flush q s in
    let (still, same, empty, sent) = flush_lem q s h in
    let wrote : Wrote (held q ++ []) f = rw (append-nil (held q)) (elim sent [
      | inl (done, all) ↦ inl (
        done,
        ap (λ ys. f.sent.wire ++ ys) (take-none f.queue.p f.queue.buf empty)
            ∙ (append-nil f.sent.wire ∙ all),
      )
      | inr (failed, unsent, part) ↦ inr (failed, unsent, part)
    ]) in
    (f, refl, record { still = still; same_n = same; wrote = wrote })

call-Puts :
    (op : Op) (q : Ioq) (s : List Room) → IsOutput q → 0 < q.n → Puts q (bytes_in op) (call op q s)
call-Puts (put b) q s h some_n = ioq_put-Puts q b s h
call-Puts (putflush b) q s h some_n = (ioq_putflush q b s, refl, (ioq_putflush-Sends q b s h).0)
call-Puts (putfill b) q s h some_n = ioq_putfill-Puts q b s h some_n
call-Puts (vputs bs) q s h some_n = vputs-Puts bs q s h
call-Puts flush q s h some_n = flush-Puts q s h

-- Over any calls that put bytes in an output queue, up to one that fails, whatever the descriptor does:
-- the calls end; the queue is an output queue with the same buffer length, so no byte is stored outside the buffer; and
-- where none failed, what was written and what is in the queue are, in order, what was in the queue and what was put;
-- otherwise a first part of that was written.
pub ioq_calls-Puts :
    (ops : List Op) (q : Ioq) (s : List Room)
    → IsOutput q
    → 0 < q.n
    → Puts q (all_bytes ops) (calls ops q s)
ioq_calls-Puts [] q s h some_n = (_, refl, done_already q s h)
ioq_calls-Puts (op ∷ ops) q s h some_n =
    and_then_lem q (bytes_in op) (all_bytes ops) (call op q s) (λ o. calls ops o.queue o.sent.rest)
      (call-Puts op q s h some_n)
      (λ o still same. ioq_calls-Puts ops o.queue o.sent.rest still (omega (arith, same, some_n)))
