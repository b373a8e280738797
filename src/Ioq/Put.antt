-- ===== src/Ioq/Put.antt =====
-- lasagna/ioq/ioq_put.c: what is written is what the caller puts.
use mathlib.Core.Path.{subst}
use perp.Common.{
  ℕ, zero, suc, ◌+◌, ◌-◌, ◌^◌, ◌≡◌, ◌≤◌, ◌<◌, ◌⊎◌, inl, inr, refl, sym, ◌∙◌, ap, true, false,
  Option, some, List, [], ◌∷◌, ◌++◌, append_assoc, append-nil, Bytes, ltb, ◌==◌, if◌then◌else◌,
  length, take, drop, length-drop, take-append-drop, take-none, arith, Bool-cases,
}
use perp.Cdb.Arrays.{length-store}
use perp.Pkt.{Room, room}
use perp.Pkt.Read.{take-store}
use perp.Ioq.{Ioq, Written, Output, after, write_all, space, kept, ioq_flush, put_blocks}

-- a queue for output
pub record IsOutput (q : Ioq) : Type 0 where
  pub as_long : length q.buf ≡ q.n
  pub within : q.p ≤ q.n
  pub small : q.n < 2 ^ 31

-- the bytes in the queue
abbrev pub held : Ioq → Bytes
held q = take q.p q.buf

-- All the bytes were written or are in the queue, in order; or there was an error, and a first part of
-- them was written.
abbrev pub Wrote : Bytes → Output → Type 0
Wrote all o =
    ((o.sent.ok ≡ true) × (o.sent.wire ++ held o.queue ≡ all))
    ⊎ ((o.sent.ok ≡ false) × (unsent : Bytes) × (o.sent.wire ++ unsent ≡ all))

pub record Sends (q : Ioq) (b : Bytes) (o : Output) : Type 0 where
  pub still : IsOutput o.queue
  pub same_n : o.queue.n ≡ q.n
  pub wrote : Wrote (held q ++ b) o

abbrev pub AllSent : Bytes → Written → Type 0
AllSent b w =
    ((w.ok ≡ true) × (w.wire ≡ b)) ⊎ ((w.ok ≡ false) × (unsent : Bytes) × (w.wire ++ unsent ≡ b))

pub write_all_lem : (b : Bytes) (s : List Room) → AllSent b (write_all b s)
unfolding write_all
write_all_lem [] s = inl (refl, refl)
write_all_lem (x ∷ b) [] = inr (refl, x ∷ b, refl)
write_all_lem (x ∷ b) (Room.interrupted ∷ s) = write_all_lem (x ∷ b) s
write_all_lem (x ∷ b) (Room.would_block ∷ s) = inr (refl, x ∷ b, refl)
write_all_lem (x ∷ b) (Room.failed ∷ s) = inr (refl, x ∷ b, refl)
write_all_lem (x ∷ b) (room w ∷ s) =
    let next = write_all (drop w (x ∷ b)) s in
    let all = take-append-drop w (x ∷ b) in
    elim (write_all_lem (drop w (x ∷ b)) s) [
      | inl (done, sent) ↦ inl (done, ap (λ ys. take w (x ∷ b) ++ ys) sent ∙ all)
      | inr (failed, unsent, sent) ↦ inr (
        failed,
        unsent,
        append_assoc (take w (x ∷ b)) next.wire unsent
            ∙ (ap (λ ys. take w (x ∷ b) ++ ys) sent ∙ all),
      )
    ]

pub space_lem : (q : Ioq) → IsOutput q → space q ≡ q.n - q.p
space_lem q h = omega (arith, h.within, h.small)

pub kept_lem :
    (b : Bytes) (q : Ioq) (s : List Room)
    → IsOutput q
    → length b ≤ q.n - q.p
    → Sends q b (kept b q s)
kept_lem b q s h fits =
    let room_for : q.p + length b ≤ length q.buf = omega (arith, h.as_long, h.within, fits) in
    record {
      still = record {
        as_long = length-store q.buf b q.p room_for ∙ h.as_long;
        within = omega (arith, h.as_long, room_for);
        small = h.small;
      };
      same_n = refl;
      wrote = inl (refl, take-store q.buf q.p b (omega (arith, room_for)));
    }

-- bytes written before the others
pub after_lem :
    (q q1 : Ioq) (w b1 b2 : Bytes) (o : Output)
    → q1.n ≡ q.n
    → w ++ held q1 ≡ held q ++ b1
    → Sends q1 b2 o
    → Sends q (b1 ++ b2) (after w o)
after_lem q q1 w b1 b2 o same before s =
    let all : w ++ (held q1 ++ b2) ≡ held q ++ (b1 ++ b2) =
      sym (append_assoc w (held q1) b2)
      ∙ (ap (λ ys. ys ++ b2) before ∙ append_assoc (held q) b1 b2) in
    record {
      still = s.still;
      same_n = s.same_n ∙ same;
      wrote = elim s.wrote [
        | inl (done, sent) ↦
            inl (done, append_assoc w o.sent.wire (held o.queue) ∙ (ap (λ ys. w ++ ys) sent ∙ all))
        | inr (failed, unsent, sent) ↦
            inr
              (failed, unsent, append_assoc w o.sent.wire unsent ∙ (ap (λ ys. w ++ ys) sent ∙ all))
      ];
    }

-- a flush that is done leaves the queue empty
pub flush_lem :
    (q : Ioq) (s : List Room)
    → IsOutput q
    → IsOutput (ioq_flush q s).queue
      × ((ioq_flush q s).queue.n ≡ q.n)
      × ((ioq_flush q s).queue.p ≡ 0)
      × AllSent (held q) (ioq_flush q s).sent
unfolding ioq_flush
flush_lem q s h = elim (Bool-cases (q.p == 0)) [
  | inl empty ↦
      let nothing : q.p ≡ 0 = ground (arith, empty) in
      rw empty (h, refl, nothing, inl (refl, sym (take-none q.p q.buf nothing)))
  | inr more ↦ rw more (
    record { as_long = h.as_long; within = omega arith; small = h.small },
    refl,
    refl,
    write_all_lem (take q.p q.buf) s,
  )
]

-- a routine is done in the fuel given
abbrev pub Puts : Ioq → Bytes → Option Output → Type 0
Puts q b r = (o : Output) × (r ≡ some o) × Sends q b o

-- nothing is in the queue before, and the first of the bytes cannot all be written
pub failed_lem :
    (q : Ioq) (first rest unsent : Bytes) (w : Written)
    → IsOutput q
    → held q ≡ []
    → w.ok ≡ false
    → w.wire ++ unsent ≡ first
    → Sends q (first ++ rest) (record { sent = w; queue = q })
failed_lem q first rest unsent w h empty failed sent = record {
  still = h;
  same_n = refl;
  wrote = inr (
    failed,
    unsent ++ rest,
    sym (append_assoc w.wire unsent rest)
        ∙ (ap (λ ys. ys ++ rest) sent ∙ ap (λ ys. ys ++ (first ++ rest)) (sym empty)),
  );
}

pub put_blocks_lem :
    (fuel n : ℕ) (b : Bytes) (q : Ioq) (s : List Room)
    → length b < fuel
    → 0 < n
    → IsOutput q
    → q.p ≡ 0
    → Puts q b (put_blocks fuel n b q s)
unfolding put_blocks
put_blocks_lem zero n b q s enough some_n h empty = absurd (omega (arith, enough))
put_blocks_lem (suc fuel) n b q s enough some_n h empty =
    let n' = if ltb (length b) n then length b else n in
    let w = write_all (take n' b) s in
    let nothing : held q ≡ [] = take-none q.p q.buf empty in
    elim (Bool-cases (ltb q.n (length b))) [
      | inr fits ↦ rw fits (kept b q s, refl, kept_lem b q s h (ground (arith, fits, empty)))
      | inl more ↦
          let some_n' : 0 < n' = ground (arith, more, some_n) in
          let some_b : 0 < length b = ground (arith, more) in
          let (o, e, sends) =
            put_blocks_lem fuel n' (drop n' b) q w.rest
              (omega (arith, enough, length-drop n' b, some_b, some_n')) some_n' h empty in
          elim (write_all_lem (take n' b) s) [
            | inl (done, sent) ↦
                let first : w.wire ++ held q ≡ held q ++ take n' b =
                  ap (λ ys. w.wire ++ ys) nothing
                  ∙ (append-nil w.wire ∙ (sent ∙ ap (λ ys. ys ++ take n' b) (sym nothing))) in
                let value : put_blocks (suc fuel) n b q s ≡ some (after w.wire o) =
                  rw (put_blocks, more, done, e) refl in
                (
                  after w.wire o,
                  value,
                  subst (λ c. Sends q c (after w.wire o)) (take-append-drop n' b)
                      (after_lem q q w.wire (take n' b) (drop n' b) o refl first sends),
                )
            | inr (failed, unsent, sent) ↦
                let r : Output = record { sent = w; queue = q } in
                let value : put_blocks (suc fuel) n b q s ≡ some r =
                  rw (put_blocks, more, failed) refl in
                (
                  r,
                  value,
                  subst (λ c. Sends q c r) (take-append-drop n' b)
                      (failed_lem q (take n' b) (drop n' b) unsent w h nothing failed sent),
                )
          ]
    ]
