-- ===== src/Runenv/Tests.antt =====
-- runtools/runenv.c: values and lines.
use perp.Common.{
  ℕ, ◌≡◌, ◌≢◌, refl, Bool, ◌||◌, ◌==◌, none, some, List, [], ◌∷◌, Bytes, All, codes, arith,
}
use perp.Newenv.{newenv_merge}
use perp.Newenv.Names.{env_get}
use perp.Runenv.{val_unescape, do_envfile}
use perp.Runenv.Escape.{do_envfile_lem}

abbrev is_blank : ℕ → Bool
is_blank c = c == b' ' || c == b'\n'

-- a value that ends with a backslash is read beyond its end
backslash_overruns : val_unescape (codes "a\\") ≡ none
unfolding val_unescape
backslash_overruns = refl

abbrev env : List Bytes
env = codes "HOME=/" ∷ []

do_envfile_lem_example :
    (newenv : List Bytes) × (do_envfile is_blank (codes "PS=a\\_b" ∷ []) [] ≡ some newenv)
    × (env_get (codes "PS") (newenv_merge newenv env) ≡ some (codes "a b"))
    × ((m : Bytes)
        → All (λ c. c ≢ b'=') m
        → m ≢ codes "PS"
        → env_get m (newenv_merge newenv env) ≡ env_get m env)
do_envfile_lem_example =
    do_envfile_lem is_blank b'P' (codes "S") (codes "a b") env (omega arith) (omega arith)
      (refl, (refl, (refl, (refl, (refl, (refl, (refl, tt))))))) (omega arith)
      ((λ near. absurd (omega (arith, near.0))), tt)
