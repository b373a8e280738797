-- ===== src/Hfunc/Same.antt =====
-- lasagna/hfunc: functions that are others with parameters set.
use Prim.Native.Nat.{bit_xor}
use perp.Common.{ℕ, ◌+◌, ◌*◌, ◌<◌, ◌≡◌, refl, ap, ◌∙◌, [], ◌∷◌, Bytes, arith}
use perp.Upak.{u32_mod, u32}
use perp.Cdb.Hash.{cdb_hash, mix, bytewise, cdb_hashpart-bytewise}
use perp.Hfunc.{
  over, hfunc_ghfa, hfunc_ghfx, hfunc_ghfm, hfunc_postmix32, hfunc_djba, hfunc_p50a, hfunc_kp37,
  hfunc_kr31, hfunc_sdbm, hfunc_djbx, hfunc_djbm, hfunc_fnva, hfunc_fnvm,
}

-- two rounds that do the same to every uint32_t
over-same :
    (f g : ℕ → ℕ → ℕ)
    → ((h c : ℕ) → h < u32_mod → f h c ≡ g h c)
    → ((h c : ℕ) → g h c < u32_mod)
    → (h : ℕ) (key : Bytes) → h < u32_mod
    → over f h key ≡ over g h key
over-same f g same fits h [] small = refl
over-same f g same fits h (c ∷ key) small =
    ap (λ n. over f n key) (same h c small) ∙ over-same f g same fits (g h c) key (fits h c)

-- the same, where the rounds are the same on every number
over-equal :
    (f g : ℕ → ℕ → ℕ)
    → ((h c : ℕ) → f h c ≡ g h c)
    → (h : ℕ) (key : Bytes) → over f h key ≡ over g h key
over-equal f g same h [] = refl
over-equal f g same h (c ∷ key) =
    ap (λ n. over f n key) (same h c) ∙ over-equal f g same (g h c) key

-- The functions that add with shifts are `hfunc_ghfa` with these starts and factors, whatever the
-- key.
pub shifts_are_ghfa :
    (key : Bytes)
    → (hfunc_djba key ≡ hfunc_ghfa key 5381 33)
      × (hfunc_p50a key ≡ hfunc_ghfa key 0 33)
      × (hfunc_kp37 key ≡ hfunc_ghfa key 0 37)
      × (hfunc_kr31 key ≡ hfunc_ghfa key 0 31)
      × (hfunc_sdbm key ≡ hfunc_ghfa key 0 65599)
unfolding hfunc_djba hfunc_p50a hfunc_kp37 hfunc_kr31 hfunc_sdbm hfunc_ghfa
shifts_are_ghfa key =
    let fits : (mult h c : ℕ) → u32 (u32 (h * mult) + c) < u32_mod = λ mult h c. omega arith in
    (
      over-same _ _ (λ h c small. omega arith) (fits 33) 5381 key (omega arith),
      over-same _ _ (λ h c small. omega arith) (fits 33) 0 key (omega arith),
      over-same _ _ (λ h c small. omega arith) (fits 37) 0 key (omega arith),
      over-same _ _ (λ h c small. omega (arith, small)) (fits 31) 0 key (omega arith),
      over-same _ _ (λ h c small. omega (arith, small)) (fits 65599) 0 key (omega arith),
    )

bytewise-over : (h : ℕ) (key : Bytes) → bytewise h key ≡ over mix h key
bytewise-over h [] = refl
bytewise-over h (c ∷ key) = bytewise-over (mix h c) key

-- The hash of cdb, four bytes a round, is `hfunc_djbx`, and that is `hfunc_ghfx` with start 5381 and
-- factor 33, whatever the key.
pub cdb_hash_is_djbx :
    (key : Bytes) → (cdb_hash key ≡ hfunc_djbx key) × (hfunc_djbx key ≡ hfunc_ghfx key 5381 33)
unfolding hfunc_djbx hfunc_ghfx
cdb_hash_is_djbx key = (
  cdb_hashpart-bytewise 5381 key
      ∙ (bytewise-over 5381 key
          ∙ over-equal mix _ (λ h c. ap (λ n. bit_xor n c) (omega arith)) 5381 key),
  over-equal _ _ (λ h c. ap (λ n. bit_xor n c) (omega arith)) 5381 key,
)

-- Both functions with mixing behind the loop are `hfunc_ghfm` with their parameters, and
-- `hfunc_fnvm` is `hfunc_fnva` with the mixing, whatever the key.
pub mixed_are_ghfm :
    (key : Bytes)
    → (hfunc_djbm key ≡ hfunc_ghfm key 5381 33)
      × (hfunc_fnvm key ≡ hfunc_ghfm key 2166136261 16777619)
      × (hfunc_fnvm key ≡ hfunc_postmix32 (hfunc_fnva key))
unfolding hfunc_djbm hfunc_ghfm hfunc_fnvm hfunc_fnva
mixed_are_ghfm key = (ap hfunc_postmix32 (over-equal _ _ (λ h c. omega arith) 5381 key), refl, refl)
