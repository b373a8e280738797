-- ===== src/Hfunc.antt =====
-- lasagna/hfunc: hash functions of 32 bits.
pub mod Same
mod Tests
use Prim.Native.Nat.{bit_and, bit_xor}
use perp.Common.{ℕ, ◌+◌, ◌-◌, ◌*◌, ◌/◌, ◌^◌, [], ◌∷◌, Bytes, ◌==◌, if◌then◌else◌}
use perp.Upak.{u32, u32_mod}

abbrev pub shl : ℕ → ℕ → ℕ
shl h k = u32 (h * 2 ^ k)

abbrev pub shr : ℕ → ℕ → ℕ
shr h k = h / 2 ^ k

-- the loop over the bytes of the key
abbrev pub over : (ℕ → ℕ → ℕ) → ℕ → Bytes → ℕ
over round h [] = h
over round h (c ∷ key) = over round (round h c) key

unfoldable pub hfunc_ghfa : Bytes → ℕ → ℕ → ℕ
hfunc_ghfa key init mult = over (λ h c. u32 (u32 (h * mult) + c)) init key

unfoldable pub hfunc_ghfx : Bytes → ℕ → ℕ → ℕ
hfunc_ghfx key init mult = over (λ h c. bit_xor (u32 (h * mult)) c) init key

-- the five lines that several functions end with
unfoldable pub hfunc_postmix32 : ℕ → ℕ
hfunc_postmix32 h =
    let h1 = u32 (h + shl h 13) in
    let h2 = bit_xor h1 (shr h1 7) in
    let h3 = u32 (h2 + shl h2 3) in let h4 = bit_xor h3 (shr h3 17) in u32 (h4 + shl h4 5)

unfoldable pub hfunc_ghfm : Bytes → ℕ → ℕ → ℕ
unfolding hfunc_postmix32
hfunc_ghfm key init mult = hfunc_postmix32 (over (λ h c. u32 (bit_xor h c * mult)) init key)

unfoldable pub hfunc_djba : Bytes → ℕ
hfunc_djba key = over (λ h c. u32 (u32 (shl h 5 + h) + c)) 5381 key

unfoldable pub hfunc_p50a : Bytes → ℕ
hfunc_p50a key = over (λ h c. u32 (u32 (shl h 5 + h) + c)) 0 key

unfoldable pub hfunc_kp37 : Bytes → ℕ
hfunc_kp37 key = over (λ h c. u32 (u32 (u32 (shl h 5 + shl h 2) + h) + c)) 0 key

unfoldable pub hfunc_kr31 : Bytes → ℕ
hfunc_kr31 key = over (λ h c. u32 (u32 (shl h 5 + u32_mod - h) + c)) 0 key

unfoldable pub hfunc_sdbm : Bytes → ℕ
hfunc_sdbm key = over (λ h c. u32 (u32 (u32 (shl h 6 + shl h 16) + u32_mod - h) + c)) 0 key

-- `*key - ' '` is an int, which is converted
unfoldable pub hfunc_kx17 : Bytes → ℕ
hfunc_kx17 key = over (λ h c. u32 (u32 (shl h 4 + h) + u32 (c + u32_mod - b' '))) 0 key

unfoldable pub hfunc_djbx : Bytes → ℕ
hfunc_djbx key = over (λ h c. bit_xor (u32 (shl h 5 + h)) c) 5381 key

unfoldable pub hfunc_djbm : Bytes → ℕ
unfolding hfunc_postmix32
hfunc_djbm key = hfunc_postmix32 (over (λ h c. let g = bit_xor h c in u32 (shl g 5 + g)) 5381 key)

unfoldable pub hfunc_fnva : Bytes → ℕ
hfunc_fnva key = over (λ h c. u32 (bit_xor h c * 16777619)) 2166136261 key

unfoldable pub hfunc_fnvm : Bytes → ℕ
unfolding hfunc_postmix32
hfunc_fnvm key = hfunc_postmix32 (over (λ h c. u32 (bit_xor h c * 16777619)) 2166136261 key)

unfoldable pub hfunc_rot1 : Bytes → ℕ
hfunc_rot1 key = over (λ h c. bit_xor (bit_xor (shl h 5) (shr h 27)) c) 0 key

unfoldable pub hfunc_rotm : Bytes → ℕ
unfolding hfunc_postmix32
hfunc_rotm key =
    hfunc_postmix32 (over (λ h c. let g = bit_xor h c in bit_xor (shl g 5) (shr g 27)) 0 key)

unfoldable pub hfunc_sax1 : Bytes → ℕ
hfunc_sax1 key = over (λ h c. bit_xor h (u32 (u32 (shl h 5 + shr h 2) + c))) 0 key

unfoldable pub hfunc_oat1 : Bytes → ℕ
hfunc_oat1 key =
    let h =
      over (λ h c. let h1 = u32 (h + c) in let h2 = u32 (h1 + shl h1 10) in u32 (h2 + shr h2 6)) 0
        key in
    let h1 = u32 (h + shl h 3) in let h2 = bit_xor h1 (shr h1 11) in u32 (h2 + shl h2 15)

unfoldable pub hfunc_elf1 : Bytes → ℕ
hfunc_elf1 key =
    over
      (λ h c.
        let h1 = u32 (shl h 4 + c) in
        let g = bit_and h1 0xf0000000 in
        let h2 = if g == 0 then h1 else bit_xor h1 (shr g 24) in bit_and h2 (0xffffffff - g))
      0 key

unfoldable pub hfunc_pjw1 : Bytes → ℕ
hfunc_pjw1 key =
    over
      (λ h c.
        let h1 = u32 (shl h 4 + c) in
        let g = bit_and h1 0xf0000000 in if g == 0 then h1 else bit_xor h1 (bit_xor (shr g 24) g))
      0 key
