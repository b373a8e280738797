-- ===== src/Ioq/Get.antt =====
-- lasagna/ioq/ioq_get.c: what a caller reads is what the descriptor gives.
use mathlib.Core.Path.{subst}
use perp.Common.{
  ℕ, ◌≡◌, ◌≤◌, ◌<◌, ◌⊎◌, inl, inr, refl, sym, ◌∙◌, ap, Bool, true, false, Option, none, some, List,
  [], ◌∷◌, ◌++◌, append_assoc, Bytes, ltb, leb, if◌then◌else◌, length, drop, length-drop, drop-all,
  arith, Bool-cases,
}
use perp.Pkt.{Arrival}
use perp.Pkt.Read.{bytes_of}
use perp.Ioq.{Ioq, Input, read_once, ioq_extract, fed, ioq_feed, fed_then, ioq_get}
use perp.Ioq.Feed.{IsInput, stream, ends, ReadOf, read_once_lem, fed_lem, extract_lem}

-- on an error nothing is lost; otherwise the bytes given and those left are those that there were
abbrev pub GivesOf : Ioq → ℕ → List Arrival → Ioq → List Arrival → Option Bytes → Type 0
GivesOf q len s q' s' none = stream q' s' ≡ stream q s
GivesOf q len s q' s' (some got) =
    (got ++ stream q' s' ≡ stream q s)
    × (length got ≤ len)
    × (got ≡ [] → (len ≡ 0) ⊎ ((q.p ≡ 0) × (ends s ≡ true)))

pub record Gives (q : Ioq) (len : ℕ) (s : List Arrival) (r : Input (Option Bytes)) : Type 0 where
  pub still : IsInput r.queue
  pub as_long : length r.queue.buf ≡ length q.buf
  pub given : GivesOf q len s r.queue r.rest r.result

get_full :
    (q : Ioq) (len : ℕ) (s : List Arrival) → IsInput q → 0 < q.p → Gives q len s (ioq_get q len s)
unfolding ioq_get
get_full q len s h more =
    let test : ltb 0 q.p ≡ true = ground (arith, more) in
    let (h', as_long, few, all, nothing) = extract_lem q len h in
    let (got, q') = ioq_extract q len in
    let value : ioq_get q len s ≡ record { result = some got; queue = q'; rest = s } =
      rw (ioq_get, test) refl in
    subst (Gives q len s) (sym value) (record {
      still = h';
      as_long = as_long;
      given = (
        sym (append_assoc got (drop q'.n q'.buf) (bytes_of s)) ∙ ap (λ ys. ys ++ bytes_of s) all,
        few,
        λ e. elim (nothing e) [ inl z ↦ inl z | inr z ↦ absurd (omega (arith, z, more)) ],
      );
    })

GivesOf-read :
    (q : Ioq) (len : ℕ) (s : List Arrival) (r : Option Bytes × List Arrival)
    → q.p ≡ 0
    → drop q.n q.buf ≡ []
    → ReadOf len s r
    → GivesOf q len s q r.1 r.0
GivesOf-read q len s (none, rest) empty nothing same = ap (λ ys. drop q.n q.buf ++ ys) same
GivesOf-read q len s (some got, rest) empty nothing (all, few, end) = (
  ap (λ ys. got ++ (ys ++ bytes_of rest)) nothing
      ∙ (all ∙ ap (λ ys. ys ++ bytes_of s) (sym nothing)),
  few,
  λ e. elim (end e) [ inl z ↦ inl z | inr f ↦ inr (empty, f) ],
)

-- a `read` for the caller
get_direct :
    (q : Ioq) (len : ℕ) (s : List Arrival)
    → IsInput q
    → q.p ≡ 0
    → q.n ≤ len
    → Gives q len s (ioq_get q len s)
unfolding ioq_get
get_direct q len s h empty much =
    let test : ltb 0 q.p ≡ false = ground (arith, empty) in
    let test1 : leb q.n len ≡ true = ground (arith, much) in
    let nothing : drop q.n q.buf ≡ [] = drop-all q.n q.buf (omega (arith, h, empty)) in
    let r = read_once len s in
    let value : ioq_get q len s ≡ record { result = r.0; queue = q; rest = r.1 } =
      rw (ioq_get, test, test1) refl in
    subst (Gives q len s) (sym value) (record {
      still = h;
      as_long = refl;
      given = GivesOf-read q len s r empty nothing (read_once_lem len s);
    })

abbrev feed_result : Ioq → Option Bytes × List Arrival → Input (Option ℕ)
feed_result q (r, s') = elim r [
  | none ↦ record { result = none; queue = q; rest = s' }
  | some [] ↦ record { result = some 0; queue = q; rest = s' }
  | some (c ∷ got) ↦ record { result = some (length (c ∷ got)); queue = fed q (c ∷ got); rest = s' }
]

Gives-feed :
    (q : Ioq) (len : ℕ) (s : List Arrival) (r : Option Bytes × List Arrival)
    → IsInput q
    → q.p ≡ 0
    → 0 < q.n
    → ReadOf q.n s r
    → Gives q len s (fed_then len (feed_result q r))
Gives-feed q len s (none, rest) h empty room same = record {
  still = h;
  as_long = refl;
  given = ap (λ ys. drop q.n q.buf ++ ys) same;
}
Gives-feed q len s (some [], rest) h empty room (all, few, end) = record {
  still = h;
  as_long = refl;
  given = (
    ap (λ ys. drop q.n q.buf ++ ys) all,
    omega arith,
    λ e. elim (end refl) [ inl z ↦ absurd (omega (arith, z, room)) | inr f ↦ inr (empty, f) ],
  );
}
Gives-feed q len s (some (c ∷ got), rest) h empty room (all, few, end) =
    let (h1, long1, front) = fed_lem q (c ∷ got) h empty few in
    let (h2, long2, few2, all2, nothing) = extract_lem (fed q (c ∷ got)) len h1 in
    let (got2, q2) = ioq_extract (fed q (c ∷ got)) len in
    let none_there : drop q.n q.buf ≡ [] = drop-all q.n q.buf (omega (arith, h, empty)) in
    let together : got2 ++ stream q2 rest ≡ stream q s =
      sym (append_assoc got2 (drop q2.n q2.buf) (bytes_of rest))
      ∙ (ap (λ ys. ys ++ bytes_of rest) (all2 ∙ front)
          ∙ (all ∙ ap (λ ys. ys ++ bytes_of s) (sym none_there))) in
    record {
      still = h2;
      as_long = long2 ∙ long1;
      given = (
        together,
        few2,
        λ e. elim (nothing e) [
          | inl z ↦ inl z
          | inr z ↦ absurd (
              omega (
                arith,
                z,
                h1,
                length-drop (fed q (c ∷ got)).n (fed q (c ∷ got)).buf,
                ap length front,
              ))
        ],
      );
    }

feed_lem : (q : Ioq) (s : List Arrival) → q.p ≡ 0 → ioq_feed q s ≡ feed_result q (read_once q.n s)
unfolding ioq_feed
feed_lem q s empty =
    let test : ltb 0 q.p ≡ false = ground (arith, empty) in rw (ioq_feed, test) refl

get_fed :
    (q : Ioq) (len : ℕ) (s : List Arrival)
    → IsInput q
    → q.p ≡ 0
    → len < q.n
    → Gives q len s (ioq_get q len s)
unfolding ioq_get
get_fed q len s h empty little =
    let test : ltb 0 q.p ≡ false = ground (arith, empty) in
    let test1 : leb q.n len ≡ false = ground (arith, little) in
    let r = read_once q.n s in
    let choose : Bool → Bool → Input (Option Bytes) = λ b c.
      if b
      then record { result = some (ioq_extract q len).0; queue = (ioq_extract q len).1; rest = s }
      else if c
      then record { result = (read_once len s).0; queue = q; rest = (read_once len s).1 }
      else fed_then len (ioq_feed q s) in
    let taken : ioq_get q len s ≡ fed_then len (ioq_feed q s) = (λ i. choose (test i) (test1 i)) in
    let value : ioq_get q len s ≡ fed_then len (feed_result q r) =
      taken ∙ ap (fed_then len) (feed_lem q s empty) in
    subst (Gives q len s) (sym value)
      (Gives-feed q len s r h empty (omega (arith, little)) (read_once_lem q.n s))

-- From a queue for input, whatever the descriptor gives, a call of `ioq_get` leaves a queue for input
-- with a buffer of the same length. On an error no byte is lost. Otherwise no more bytes are given than
-- are asked for; they, those in the queue and those that the descriptor has still to give are, in
-- order, those that there were; and no byte is given only where none is asked for, or the queue was
-- empty and the descriptor at the end of file.
pub ioq_get-Gives :
    (q : Ioq) (len : ℕ) (s : List Arrival) → IsInput q → Gives q len s (ioq_get q len s)
ioq_get-Gives q len s h = elim (Bool-cases (ltb 0 q.p)) [
  | inl more ↦ get_full q len s h (ground (arith, more))
  | inr empty ↦ elim (Bool-cases (leb q.n len)) [
    | inl much ↦ get_direct q len s h (ground (arith, empty)) (ground (arith, much))
    | inr little ↦ get_fed q len s h (ground (arith, empty)) (ground (arith, little))
  ]
]
