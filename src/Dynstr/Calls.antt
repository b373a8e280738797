-- ===== src/Dynstr/Calls.antt =====
-- lasagna/dynstr: what each call does to the string.
use mathlib.Core.Path.{subst}
use perp.Common.{
  ℕ, zero, suc, ◌+◌, ◌-◌, ◌≡◌, ◌≤◌, ◌<◌, inl, inr, refl, sym, ◌∙◌, ap, Bool, true, ◌&&◌, [], ◌∷◌,
  ◌++◌, append-nil, Bytes, ltb, ◌==◌, if◌then◌else◌, length, take, take-take, length-take, arith,
  Bool-cases,
}
use perp.Upak.{u64_mod, at}
use perp.Cdb.Arrays.{at-take}
use perp.Dynstr.{
  Dynstr, array, dynstr_need, dynstr_set, dynstr_grow, stored, if_room, append_str, copied, cstr,
  dynstr_puts, dynstr_put, dynstr_putn, dynstr_putc, dynstr_copys, dynstr_copy, dynstr_clear,
  dynstr_chop,
}
use perp.Dynstr.Content.{
  IsPrefix, Holds, OrFails, HasRoom, need_lem, grow_lem, append_str-Holds, copied-Holds,
}

pub data Op : Type 0 where
  puts copys put copy : Bytes → Op
  putn : Bytes → ℕ → Op
  putc : ℕ → Op
  clear chop : Op

module _ (gives : ℕ → Bool) (junk : ℕ) where
  -- a call; `put` and `copy` are given another string that was set to these bytes
  abbrev pub call : Op → Dynstr → Bool × Dynstr
  call (puts str) d = dynstr_puts gives junk str d
  call (copys str) d = dynstr_copys gives junk str d
  call (put str) d = dynstr_put gives junk (dynstr_set str) d
  call (copy str) d = dynstr_copy gives junk (dynstr_set str) d
  call (putn str n) d = dynstr_putn gives junk str n d
  call (putc c) d = dynstr_putc gives junk c d
  call clear d = (true, dynstr_clear d)
  call chop d = (true, dynstr_chop d)

abbrev pub chopped : Bytes → Bytes
chopped s = if ltb 0 (length s) && at s (length s - 1) == b'\n' then take (length s - 1) s else s

-- the same on a string, if there is memory
abbrev pub on_string : Op → Bytes → Bytes
on_string (puts str) s = s ++ str
on_string (copys str) s = str
on_string (put str) s = s ++ cstr str
on_string (copy str) s = cstr str
on_string (putn str n) s = s ++ take n str
on_string (putc c) s = s ++ (c ∷ [])
on_string clear s = []
on_string chop s = chopped s

-- at most so many bytes are added
abbrev pub size : Op → ℕ
size (puts str) = length str
size (copys str) = length str
size (put str) = length str
size (copy str) = length str
size (putn str n) = length str
size (putc c) = 1
size clear = 0
size chop = 0

cstr-ended : (str : Bytes) → cstr (str ++ (0 ∷ [])) ≡ cstr str
cstr-ended [] = refl
cstr-ended (c ∷ str) = ground (arith, cstr-ended str)

pub length-cstr : (str : Bytes) → length (cstr str) ≤ length str
length-cstr [] = omega arith
length-cstr (c ∷ str) = ground (arith, length-cstr str)

take-min :
    (n : ℕ) (str : Bytes) → take (if ltb n (length str) then n else length str) str ≡ take n str
take-min zero [] = refl
take-min zero (c ∷ str) = ground arith
take-min (suc n) [] = ground arith
take-min (suc n) (c ∷ str) = ground (arith, take-min n str, ap (λ s. c ∷ s) (take-min n str))

clear_lem : (base : Bytes) (d : Dynstr) → Holds base d → Holds [] (dynstr_clear d)
unfolding dynstr_clear
clear_lem base d h = elim (Bool-cases (ltb 0 d.k)) [
  | inl there ↦ rw there (copied-Holds (λ n. true) 0 base [] d (h.prefix, ground (arith, there)))
  | inr nothing ↦ rw nothing (record {
    prefix = record { used = refl; fits = omega arith; as_long = h.prefix.as_long; part = refl };
    ended = λ some_room. absurd (ground (arith, nothing, some_room));
  })
]

-- the last byte of the string is in the array
last_byte :
    (base : Bytes) (d : Dynstr)
    → IsPrefix base d
    → (ltb 0 d.n && at (array d) (d.n - 1) == b'\n')
      ≡ (ltb 0 (length base) && at base (length base - 1) == b'\n')
last_byte base d h =
    let same : 0 < d.n → at base (d.n - 1) ≡ at (array d) (d.n - 1) = λ more.
      ap (λ b. at b (d.n - 1)) (sym h.part)
      ∙ at-take d.n (array d) (d.n - 1) (omega (arith, more)) in
    rw (sym h.used) (ground (arith, same))

chop_lem : (base : Bytes) (d : Dynstr) → Holds base d → Holds (chopped base) (dynstr_chop d)
unfolding dynstr_chop
chop_lem base d h =
    let e = last_byte base d h.prefix in
    elim (Bool-cases (ltb 0 (length base) && at base (length base - 1) == b'\n')) [
      | inr other ↦ rw (e, other) h
      | inl newline ↦
          let more : 0 < d.n = ground (arith, newline, h.prefix.used) in
          let less = take (length base - 1) base in
          let shorter : IsPrefix less (record d { n = d.n - 1 }) = record {
            used = omega (arith, length-take (length base - 1) base, h.prefix.used);
            fits = omega (arith, h.prefix.fits);
            as_long = h.prefix.as_long;
            part =
                sym (take-take (d.n - 1) d.n (array d) (omega arith))
                ∙ (ap (take (d.n - 1)) h.prefix.part ∙ ap (λ n. take (n - 1) base) h.prefix.used);
          } in
          let cut = record (stored (d.n - 1) (0 ∷ []) d) { n = d.n - 1 } in
          let value : Holds (less ++ []) (record cut { n = d.n - 1 + 0 }) =
            append_str-Holds (λ n. true) 0 less [] (record d { n = d.n - 1 })
              (shorter, omega (arith, shorter.used, h.prefix.fits, more)) in
          let there : d.n - 1 + 0 ≡ d.n - 1 = omega arith in
          let held : Holds (less ++ []) cut =
            subst (λ n. Holds (less ++ []) (record cut { n = n })) there value in
          rw (e, newline) (subst (λ s. Holds s cut) (append-nil less) held)
    ]

module _ (gives : ℕ → Bool) (junk : ℕ) where
  if_room_lem :
      (P Q : Dynstr → Type 0) (d : Dynstr) (r : Bool × Dynstr) (next : Dynstr → Dynstr)
      → OrFails gives P d r
      → ((e : Dynstr) → P e → Q (next e))
      → OrFails gives Q d (if_room gives junk r next)
  if_room_lem P Q d (b, e) next (inl (failed, same, n, refused)) after =
      rw failed (inl (refl, same, n, refused))
  if_room_lem P Q d (b, e) next (inr (done, held)) after = rw done (inr (refl, after e held))

  -- bytes append_str, no more than there is room made for
  put_bytes_lem :
      (base str : Bytes) (d : Dynstr) (grow : ℕ)
      → IsPrefix base d
      → length base + grow + 2 < u64_mod
      → length str ≤ grow
      → OrFails gives
          (Holds (base ++ str))
          d
          (if_room gives junk (dynstr_grow gives junk grow d) (append_str gives junk str))
  put_bytes_lem base str d grow h small few =
      if_room_lem (HasRoom gives junk (length base + grow + 1) base) (Holds (base ++ str)) d
        (dynstr_grow gives junk grow d) (append_str gives junk str)
        (grow_lem gives junk grow base d small h)
        (λ e (held, room). append_str-Holds gives junk base str e (held, omega (arith, room, few)))

  copy_bytes_lem :
      (base str : Bytes) (d : Dynstr) (need : ℕ)
      → IsPrefix base d
      → need + 1 < u64_mod
      → length str ≤ need
      → OrFails gives
          (Holds str)
          d
          (if_room gives junk (dynstr_need gives junk need d) (copied gives junk str))
  copy_bytes_lem base str d need h small few =
      if_room_lem (HasRoom gives junk (need + 1) base) (Holds str) d (dynstr_need gives junk need d)
        (copied gives junk str) (need_lem gives junk need base d small h)
        (λ e (held, room). copied-Holds gives junk base str e (held, omega (arith, room, few)))

  -- a call fails and changes nothing, or does what it does on a string
  pub call_lem :
      (op : Op) (base : Bytes) (d : Dynstr)
      → Holds base d
      → length base + size op + 2 < u64_mod
      → OrFails gives (Holds (on_string op base)) d (call gives junk op d)
  unfolding dynstr_puts dynstr_put dynstr_putn dynstr_putc dynstr_copys dynstr_copy
  call_lem (puts str) base d h small =
      put_bytes_lem base str d (length str) h.prefix small (omega arith)
  call_lem (putc c) base d h small = put_bytes_lem base (c ∷ []) d 1 h.prefix small (omega arith)
  call_lem (put str) base d h small =
      subst (λ s. OrFails gives (Holds (base ++ s)) d (call gives junk (put str) d))
        (cstr-ended str)
        (put_bytes_lem base (cstr (str ++ (0 ∷ []))) d (length str) h.prefix small
          (omega (arith, length-cstr str, ap length (cstr-ended str))))
  call_lem (putn str n) base d h small =
      let grow = if ltb n (length str) then n else length str in
      let less : grow ≤ length str = ground arith in
      subst (λ s. OrFails gives (Holds (base ++ s)) d (call gives junk (putn str n) d))
        (take-min n str)
        (put_bytes_lem base (take grow str) d grow h.prefix (omega (arith, small, less))
          (omega (arith, length-take grow str)))
  call_lem (copys str) base d h small =
      copy_bytes_lem base str d (length str) h.prefix (omega (arith, small)) (omega arith)
  call_lem (copy str) base d h small =
      subst (λ s. OrFails gives (Holds s) d (call gives junk (copy str) d)) (cstr-ended str)
        (copy_bytes_lem base (cstr (str ++ (0 ∷ []))) d (length str) h.prefix (omega (arith, small))
          (omega (arith, length-cstr str, ap length (cstr-ended str))))
  call_lem clear base d h small = inr (refl, clear_lem base d h)
  call_lem chop base d h small = inr (refl, chop_lem base d h)
