-- ===== src/Dynstr/Client.antt =====
-- lasagna/dynstr: what a client observes over any sequence of calls, and of `dynstr_vputs`.
use mathlib.Core.Path.{subst}
use mathlib.Core.Option.{some-injective}
use perp.Common.{
  ℕ, suc, ◌+◌, ◌-◌, ◌≡◌, ◌≤◌, ◌<◌, ◌⊎◌, inl, inr, refl, sym, ap, Bool, true, false, ◌&&◌, none,
  some, List, [], ◌∷◌, ◌++◌, append_assoc, append-nil, Bytes, if◌then◌else◌, length, length-append,
  length-take, take, All, arith, Bool-cases,
}
use perp.Upak.{u64_mod}
use perp.Dynstr.{Dynstr, cstr, dynstr_new, dynstr_puts, dynstr_vputs}
use perp.Dynstr.Content.{Holds}
use perp.Dynstr.Calls.{
  Op, puts, copys, put, copy, putn, putc, clear, chop, call, on_string, size, length-cstr, call_lem,
}

abbrev pub unless : Bool → Op → Bytes → Bool × Bytes
unless refused op s = if refused then (false, s) else (true, on_string op s)

-- the same calls on a string, some of them refused
abbrev pub replay : List Op → List Bool → Bytes → List Bool × Bytes
replay [] refusals s = ([], s)
replay (op ∷ ops) [] s = ([], s)
replay (op ∷ ops) (refused ∷ refusals) s =
    let (r, s1) = unless refused op s in let (rs, s2) = replay ops refusals s1 in (r ∷ rs, s2)

abbrev pub sizes : List Op → ℕ
sizes [] = 0
sizes (op ∷ ops) = size op + sizes ops

length-on_string : (op : Op) (s : Bytes) → length (on_string op s) ≤ length s + size op
length-on_string (puts str) s = omega (arith, length-append s str)
length-on_string (copys str) s = omega arith
length-on_string (put str) s = omega (arith, length-append s (cstr str), length-cstr str)
length-on_string (copy str) s = omega (arith, length-cstr str)
length-on_string (putn str n) s = omega (arith, length-append s (take n str), length-take n str)
length-on_string (putc c) s = omega (arith, length-append s (c ∷ []))
length-on_string clear s = omega arith
length-on_string chop s = ground (arith, length-take (length s - 1) s)

module _ (gives : ℕ → Bool) (junk : ℕ) where
  -- what the calls return, and the string behind them
  abbrev pub calls : List Op → Dynstr → List Bool × Dynstr
  calls [] d = ([], d)
  calls (op ∷ ops) d =
      let (r, d1) = call gives junk op d in let (rs, d2) = calls ops d1 in (r ∷ rs, d2)

  -- memory was refused at some time, if a call was
  abbrev pub IsExcused : Bool → Type 0
  IsExcused refused = refused ≡ true → (n : ℕ) × (gives n ≡ false)

  -- From a string that holds these bytes, over any calls that make it no longer than 2 ^ 64 - 3 bytes,
  -- there are calls that are refused, if any, and for these memory was refused; the calls return what
  -- the same calls return on the bytes, less those, and the string then holds what they leave.
  pub calls_refine :
      (ops : List Op) (s : Bytes) (d : Dynstr)
      → Holds s d
      → length s + sizes ops + 2 < u64_mod
      → (refusals : List Bool) × (length refusals ≡ length ops)
        × All IsExcused refusals
        × ((calls ops d).0 ≡ (replay ops refusals s).0)
        × Holds (replay ops refusals s).1 (calls ops d).1
  calls_refine [] s d h small = ([], refl, tt, refl, h)
  calls_refine (op ∷ ops) s d h small = elim (call_lem gives junk op s d h (omega (arith, small))) [
    | inl (failed, same, n, refused) ↦
        let (refusals, as_many, excused, results, held) =
          calls_refine ops s (call gives junk op d).1 (subst (Holds s) (sym same) h)
            (omega (arith, small)) in
        (
          true ∷ refusals,
          ap suc as_many,
          ((λ e. (n, refused)), excused),
          rw (failed, results) refl,
          held,
        )
    | inr (done, next) ↦
        let (refusals, as_many, excused, results, held) =
          calls_refine ops (on_string op s) (call gives junk op d).1 next
            (omega (arith, small, length-on_string op s)) in
        (false ∷ refusals, ap suc as_many, ((λ e. cc), excused), rw (done, results) refl, held)
  ]

  new-Holds : {d : Dynstr} → dynstr_new gives junk ≡ some d → Holds [] d
  unfolding dynstr_new
  new-Holds {d} made = elim (Bool-cases (gives 24 && gives 2)) [
    | inl given ↦
        let first : Dynstr = record { s = some (0 ∷ junk ∷ []); n = 0; k = 2 } in
        let held : Holds [] first = record {
          prefix = record { used = refl; fits = omega arith; as_long = refl; part = refl };
          ended = λ h. (omega arith, refl);
        } in
        subst (Holds []) (some-injective _ _ (rw given at made)) held
    | inr refused ↦ let never : none ≡ some d = rw refused at made in cc
  ]

  -- On a new string, over calls that write less than 2 ^ 64 - 2 bytes, there are calls that are refused,
  -- if any, and for these memory was refused; the calls return what the same calls return on a string
  -- that is empty at first, less those, and the dynstr then holds what they leave, a nul after it.
  pub dynstr_refines :
      (ops : List Op) {d : Dynstr}
      → dynstr_new gives junk ≡ some d
      → sizes ops + 2 < u64_mod
      → (refusals : List Bool) × (length refusals ≡ length ops)
        × All IsExcused refusals
        × ((calls ops d).0 ≡ (replay ops refusals []).0)
        × Holds (replay ops refusals []).1 (calls ops d).1
  dynstr_refines ops {d} made small = calls_refine ops [] d (new-Holds made) (omega (arith, small))

abbrev pub concat : List Bytes → Bytes
concat [] = []
concat (str ∷ strs) = str ++ concat strs

module _ (gives : ℕ → Bool) (junk : ℕ) where
  -- all the strings were append_str; or memory was refused and those before some one of them were
  abbrev pub HasPut : List Bytes → Bytes → Bool × Dynstr → Type 0
  HasPut strs s r =
      ((r.0 ≡ true) × Holds (s ++ concat strs) r.1)
      ⊎ ((r.0 ≡ false)
          × (k : ℕ) × (k < length strs)
          × Holds (s ++ concat (take k strs)) r.1
          × (n : ℕ) × (gives n ≡ false))

  HasPut-cons :
      (str : Bytes) (strs : List Bytes) (s : Bytes) (r : Bool × Dynstr)
      → HasPut strs (s ++ str) r
      → HasPut (str ∷ strs) s r
  HasPut-cons str strs s r (inl (done, held)) =
      inl (done, subst (λ t. Holds t r.1) (append_assoc s str (concat strs)) held)
  HasPut-cons str strs s r (inr (failed, k, less, held, n, refused)) = inr (
    failed,
    suc k,
    omega (arith, less),
    subst (λ t. Holds t r.1) (append_assoc s str (concat (take k strs))) held,
    n,
    refused,
  )

  -- From a string that holds these bytes, where they and the strings given are no longer than 2 ^ 64 - 3
  -- bytes, `dynstr_vputs` either returns 0 with all the strings append_str; or memory was refused, it
  -- returns -1, and the strings before some one of them are append_str.
  pub dynstr_vputs_lem :
      (strs : List Bytes) (s : Bytes) (d : Dynstr)
      → Holds s d
      → length s + length (concat strs) + 2 < u64_mod
      → HasPut strs s (dynstr_vputs gives junk strs d)
  unfolding dynstr_vputs
  dynstr_vputs_lem [] s d h small = inl (refl, subst (λ t. Holds t d) (sym (append-nil s)) h)
  dynstr_vputs_lem (str ∷ strs) s d h small =
      let long = length-append str (concat strs) in
      let next = dynstr_puts gives junk str d in
      elim (call_lem gives junk (puts str) s d h (omega (arith, small, long))) [
        | inl (failed, same, n, refused) ↦
            let held : Holds (s ++ []) next.1 =
              subst (λ t. Holds t next.1) (sym (append-nil s)) (subst (Holds s) (sym same) h) in
            rw failed (inr (refl, 0, omega arith, held, n, refused))
        | inr (done, held) ↦ rw done (
            HasPut-cons str strs s (dynstr_vputs gives junk strs next.1) (
              dynstr_vputs_lem strs (s ++ str) next.1 held
                (omega (arith, small, long, length-append s str))))
      ]
