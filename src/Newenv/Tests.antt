-- ===== src/Newenv/Tests.antt =====
-- lasagna/newenv: variables that are set.
use perp.Common.{◌≡◌, refl, ap, ◌++◌, List, [], ◌∷◌, Bytes, codes, arith}
use perp.Upak.{at}
use perp.Cstr.{cstr_ncmp}
use perp.Perpd.Cull.{last_first}
use perp.Newenv.{merge_at, merge_one, newenv_merge}
use perp.Newenv.Set.{IsMerged, merge-IsMerged, merge_loses}

abbrev env : List Bytes
env = codes "HOME=/" ∷ codes "PATH=/bin" ∷ codes "N=1" ∷ []

path_replaced :
    newenv_merge (codes "PATH=/" ∷ []) env ≡ codes "HOME=/" ∷ codes "PATH=/" ∷ codes "N=1" ∷ []
unfolding newenv_merge merge_one merge_at cstr_ncmp
path_replaced = refl

merge-IsMerged_example :
    IsMerged
      (codes "PATH")
      (codes "/")
      (omega arith, omega arith)
      env
      (newenv_merge ((codes "PATH" ++ codes "=/") ∷ []) env)
merge-IsMerged_example =
    merge-IsMerged (codes "PATH") (codes "/") (omega arith, omega arith) env (omega arith)
      (
        (λ near. absurd (omega (arith, ap (λ b. at b 0) near.1))),
        ((λ near. (refl, refl)), ((λ near. absurd (omega (arith, near.0))), tt)),
      )

merge_loses_example :
    newenv_merge (codes "FOO=1" ∷ []) (codes "FOX=2" ∷ codes "A=3" ∷ codes "B=4" ∷ [])
    ≡ last_first (codes "A=3") (codes "B=4" ∷ [])
merge_loses_example =
    merge_loses (codes "FO") b'O' b'X' (codes "1") (codes "2") (codes "A=3") (codes "B=4" ∷ [])
      (omega arith) (omega arith) (omega arith) (omega arith) (omega arith)
