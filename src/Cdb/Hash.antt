-- ===== src/Cdb/Hash.antt =====
-- lasagna/cdb/cdb_hashpart.c: the hash of a key.
use Prim.Native.Nat.{bit_xor}
use perp.Common.{ℕ, ◌+◌, ◌*◌, ◌≡◌, refl, [], ◌∷◌, ◌++◌, Bytes, ap, ◌∙◌, sym}
use perp.Upak.{u32}

-- `h += h << 5; h ^= c;`
abbrev pub mix : ℕ → ℕ → ℕ
mix h c = bit_xor (u32 (h + u32 (h * 32))) c

-- four bytes a round, and the last three, two or one
unfoldable pub cdb_hashpart : ℕ → Bytes → ℕ
cdb_hashpart h [] = h
cdb_hashpart h (a ∷ []) = mix h a
cdb_hashpart h (a ∷ b ∷ []) = mix (mix h a) b
cdb_hashpart h (a ∷ b ∷ c ∷ []) = mix (mix (mix h a) b) c
cdb_hashpart h (a ∷ b ∷ c ∷ d ∷ key) = cdb_hashpart (mix (mix (mix (mix h a) b) c) d) key

abbrev pub cdb_hash : Bytes → ℕ
cdb_hash key = cdb_hashpart 5381 key

-- the hash a byte at a time
abbrev pub bytewise : ℕ → Bytes → ℕ
bytewise h [] = h
bytewise h (a ∷ key) = bytewise (mix h a) key

pub cdb_hashpart-bytewise : (h : ℕ) (key : Bytes) → cdb_hashpart h key ≡ bytewise h key
unfolding cdb_hashpart
cdb_hashpart-bytewise h [] = refl
cdb_hashpart-bytewise h (a ∷ []) = refl
cdb_hashpart-bytewise h (a ∷ b ∷ []) = refl
cdb_hashpart-bytewise h (a ∷ b ∷ c ∷ []) = refl
cdb_hashpart-bytewise h (a ∷ b ∷ c ∷ d ∷ key) =
    cdb_hashpart-bytewise (mix (mix (mix (mix h a) b) c) d) key

bytewise-append : (h : ℕ) (k l : Bytes) → bytewise h (k ++ l) ≡ bytewise (bytewise h k) l
bytewise-append h [] l = refl
bytewise-append h (a ∷ k) l = bytewise-append (mix h a) k l

-- Hashing a key in two parts, wherever it is cut, gives the hash of the key.
pub cdb_hashpart-append :
    (h : ℕ) (k l : Bytes) → cdb_hashpart (cdb_hashpart h k) l ≡ cdb_hashpart h (k ++ l)
cdb_hashpart-append h k l =
    cdb_hashpart-bytewise (cdb_hashpart h k) l
    ∙ (ap (λ g. bytewise g l) (cdb_hashpart-bytewise h k)
        ∙ (sym (bytewise-append h k l) ∙ sym (cdb_hashpart-bytewise h (k ++ l))))
