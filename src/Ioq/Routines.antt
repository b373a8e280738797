-- ===== src/Ioq/Routines.antt =====
-- lasagna/ioq/ioq_put.c: the routines, and any sequence of them.
use mathlib.Core.Path.{subst}
use perp.Common.{
  ℕ, zero, suc, ◌+◌, ◌-◌, ◌≡◌, ◌≤◌, ◌<◌, ◌⊎◌, inl, inr, refl, sym, ◌∙◌, ap, true, false, some, List,
  [], ◌++◌, append_assoc, append-nil, Bytes, ltb, ◌==◌, if◌then◌else◌, length, store, take, drop,
  length-take, length-drop, take-append-drop, take-none, arith, Bool-cases,
}
use perp.Pkt.{Room}
use perp.Pkt.Read.{take-store}
use perp.Ioq.{
  Ioq, Output, after, write_all, space, kept, ioq_flush, ioq_bufsize, ioq_put, ioq_putflush,
  fill_from, ioq_putfill,
}
use perp.Ioq.Put.{
  IsOutput, held, Wrote, Sends, Puts, write_all_lem, space_lem, kept_lem, after_lem, flush_lem,
  put_blocks_lem,
}

-- what a flush leads to: a routine goes on behind it, or stops there
flush-Sends :
    (q : Ioq) (b : Bytes) (s : List Room)
    → IsOutput q
    → (((ioq_flush q s).sent.ok ≡ true)
        × ((o : Output)
            → Sends (ioq_flush q s).queue b o
            → Sends q b (after (ioq_flush q s).sent.wire o)))
      ⊎ (((ioq_flush q s).sent.ok ≡ false) × Sends q b (ioq_flush q s))
flush-Sends q b s h =
    let f = ioq_flush q s in
    let (still, same, empty, sent) = flush_lem q s h in
    elim sent [
      | inl (done, all) ↦
          let before : f.sent.wire ++ held f.queue ≡ held q ++ [] =
            ap (λ ys. f.sent.wire ++ ys) (take-none f.queue.p f.queue.buf empty)
            ∙ (append-nil f.sent.wire ∙ (all ∙ sym (append-nil (held q)))) in
          inl (done, λ o sends. after_lem q f.queue f.sent.wire [] b o same before sends)
      | inr (failed, unsent, part) ↦ inr (
        failed,
        record {
          still = still;
          same_n = same;
          wrote = inr (
            failed,
            unsent ++ b,
            sym (append_assoc f.sent.wire unsent b) ∙ ap (λ ys. ys ++ b) part,
          );
        },
      )
    ]

pub ioq_put-Puts : (q : Ioq) (b : Bytes) (s : List Room) → IsOutput q → Puts q b (ioq_put q b s)
unfolding ioq_put
ioq_put-Puts q b s h = elim (Bool-cases (ltb (space q) (length b))) [
  | inr fits ↦
      let little : length b ≤ q.n - q.p = ground (arith, fits, space_lem q h) in
      rw fits (kept b q s, refl, kept_lem b q s h little)
  | inl more ↦
      let f = ioq_flush q s in
      let n = if ltb q.n ioq_bufsize then ioq_bufsize else q.n in
      let some_n : 0 < n = ground arith in
      let (still, same, empty, sent) = flush_lem q s h in
      elim (flush-Sends q b s h) [
        | inr (failed, sends) ↦
            let value : ioq_put q b s ≡ some f = rw (ioq_put, more, failed) refl in
            (f, value, sends)
        | inl (done, next) ↦
            let (o, e, sends) =
              put_blocks_lem (length b + 1) n b f.queue f.sent.rest (omega arith) some_n still
                empty in
            let value : ioq_put q b s ≡ some (after f.sent.wire o) =
              rw (ioq_put, more, done, e) refl in
            (after f.sent.wire o, value, next o sends)
      ]
]

pub ioq_putflush-Sends :
    (q : Ioq) (b : Bytes) (s : List Room)
    → IsOutput q
    → Sends q b (ioq_putflush q b s) × ((ioq_putflush q b s).queue.p ≡ 0)
unfolding ioq_putflush
ioq_putflush-Sends q b s h =
    let f = ioq_flush q s in
    let (still, same, empty, sent) = flush_lem q s h in
    let nothing : held f.queue ≡ [] = take-none f.queue.p f.queue.buf empty in
    let r : Output = record { sent = write_all b f.sent.rest; queue = f.queue } in
    let wrote : Wrote (held f.queue ++ b) r = elim (write_all_lem b f.sent.rest) [
      | inl (done, all) ↦ inl (done, rw nothing (append-nil r.sent.wire ∙ all))
      | inr (failed, unsent, part) ↦ inr (failed, unsent, rw nothing part)
    ] in
    elim (flush-Sends q b s h) [
      | inr (failed, sends) ↦
          let value : ioq_putflush q b s ≡ f = rw (ioq_putflush, failed) refl in
          rw value (sends, empty)
      | inl (done, next) ↦
          let value : ioq_putflush q b s ≡ after f.sent.wire r = rw (ioq_putflush, done) refl in
          rw value (next r (record { still = still; same_n = refl; wrote = wrote }), empty)
    ]

-- the rounds of `ioq_putfill`: one more where the queue is full at first
abbrev rounds : Bytes → Ioq → ℕ
rounds b q = length b + (if q.p == q.n then 1 else 0)

-- the queue with the first of the bytes put in the space left
filled_lem :
    (b : Bytes) (q : Ioq)
    → IsOutput q
    → q.n - q.p < length b
    → let q1 = record q { buf = store q.buf q.p (take (space q) b); p = q.p + space q } in
      IsOutput q1 × (held q1 ≡ held q ++ take (space q) b)
filled_lem b q h more =
    let n = space q in
    let count : length (take n b) ≡ n = omega (arith, space_lem q h, length-take n b, more) in
    let k = kept_lem (take n b) q [] h (omega (arith, space_lem q h, count)) in
    let part : take (q.p + length (take n b)) (store q.buf q.p (take n b)) ≡ held q ++ take n b =
      take-store q.buf q.p (take n b) (omega (arith, h.as_long, h.within)) in
    (
      record {
        as_long = k.still.as_long;
        within = omega (arith, space_lem q h, h.within);
        small = h.small;
      },
      ap (λ m. take (q.p + m) (store q.buf q.p (take n b))) (sym count) ∙ part,
    )

fill_from_lem :
    (fuel : ℕ) (b : Bytes) (q : Ioq) (s : List Room)
    → rounds b q < fuel
    → IsOutput q
    → 0 < q.n
    → Puts q b (fill_from fuel b q s)
unfolding fill_from
fill_from_lem zero b q s enough h some_n = absurd (omega (arith, enough))
fill_from_lem (suc fuel) b q s enough h some_n =
    let n = space q in
    elim (Bool-cases (ltb n (length b))) [
      | inr fits ↦
          rw fits (kept b q s, refl, kept_lem b q s h (ground (arith, fits, space_lem q h)))
      | inl more ↦
          let q1 = record q { buf = store q.buf q.p (take n b); p = q.p + n } in
          let f = ioq_flush q1 s in
          let (h1, front) = filled_lem b q h (ground (arith, more, space_lem q h)) in
          let (still, same, empty, sent) = flush_lem q1 s h1 in
          let nothing : held f.queue ≡ [] = take-none f.queue.p f.queue.buf empty in
          let fewer : rounds (drop n b) f.queue < fuel =
            ground (arith, enough, length-drop n b, empty, same, some_n, space_lem q h, h.within) in
          let (o, e, sends) =
            fill_from_lem fuel (drop n b) f.queue f.sent.rest fewer still
              (omega (arith, same, some_n)) in
          let all = take-append-drop n b in
          elim sent [
            | inl (done, wire) ↦
                let value : fill_from (suc fuel) b q s ≡ some (after f.sent.wire o) =
                  rw (fill_from, more, done, e) refl in
                let before : f.sent.wire ++ held f.queue ≡ held q ++ take n b =
                  ap (λ ys. f.sent.wire ++ ys) nothing
                  ∙ (append-nil f.sent.wire ∙ (wire ∙ front)) in
                (
                  after f.sent.wire o,
                  value,
                  subst (λ c. Sends q c (after f.sent.wire o)) all
                      (after_lem q f.queue f.sent.wire (take n b) (drop n b) o same before sends),
                )
            | inr (failed, unsent, part) ↦
                let value : fill_from (suc fuel) b q s ≡ some f =
                  rw (fill_from, more, failed) refl in
                let rest : f.sent.wire ++ (unsent ++ drop n b) ≡ held q ++ b =
                  sym (append_assoc f.sent.wire unsent (drop n b))
                  ∙ (ap (λ ys. ys ++ drop n b) (part ∙ front)
                      ∙ (append_assoc (held q) (take n b) (drop n b)
                          ∙ ap (λ ys. held q ++ ys) all)) in
                (
                  f,
                  value,
                  record {
                    still = still;
                    same_n = same;
                    wrote = inr (failed, unsent ++ drop n b, rest);
                  },
                )
          ]
    ]

pub ioq_putfill-Puts :
    (q : Ioq) (b : Bytes) (s : List Room) → IsOutput q → 0 < q.n → Puts q b (ioq_putfill q b s)
unfolding ioq_putfill
ioq_putfill-Puts q b s h some_n = fill_from_lem (length b + 2) b q s (ground arith) h some_n
