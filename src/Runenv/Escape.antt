-- ===== src/Runenv/Escape.antt =====
-- runtools/runenv.c: a value that was escaped is read back.
use perp.Common.{
  ℕ, zero, suc, ◌≡◌, ◌≢◌, ◌<◌, refl, ◌∙◌, ap, Bool, false, ◌||◌, Option, none, some, List, [], ◌∷◌,
  ◌++◌, Bytes, ◌==◌, if◌then◌else◌, length, take, drop, take-append, drop-append_length, All, arith,
}
use perp.Upak.{at, u64_mod}
use perp.Cstr.Trim.{
  is_empty, IsSolid, cstr_ltrim, cstr_rtrim, cstr_trim, ltrim_solid, rtrim_solid, trim_solid,
}
use perp.Nextopt.{cstr_pos}
use perp.Newenv.{newenv_set, newenv_merge}
use perp.Newenv.Names.{pos_lem, Near, Names, env_get}
use perp.Newenv.Set.{merge-IsMerged}
use perp.Runenv.{
  before, val_unescape, Line, skip, overrun, variable, assigned, split_line, env_line, do_envfile,
}

-- a text in which white space and backslashes are escaped
abbrev pub escape : Bytes → Bytes
escape [] = []
escape (c ∷ s) =
    if c == b'\\'
    then b'\\' ∷ b'\\' ∷ escape s
    else if c == b'\n'
    then b'\\' ∷ b'n' ∷ escape s
    else if c == b'\t'
    then b'\\' ∷ b't' ∷ escape s
    else if c == b' '
    then b'\\' ∷ b'_' ∷ escape s
    else c ∷ escape s

plain_char :
    (c : ℕ) (s : Bytes)
    → (c == b'\\') ≡ false
    → val_unescape (c ∷ s) ≡ before (c ∷ []) (val_unescape s)
unfolding val_unescape
plain_char c [] plain = rw plain refl
plain_char c (d ∷ s) plain = rw plain refl

pub val_unescape-escape : (s : Bytes) → val_unescape (escape s) ≡ some s
unfolding val_unescape
val_unescape-escape [] = refl
val_unescape-escape (c ∷ s) = ground (arith, plain_char c (escape s), val_unescape-escape s)

drop_more : (n : ℕ) (xs ys : Bytes) (y : ℕ) → n ≡ length xs → drop (suc n) (xs ++ (y ∷ ys)) ≡ ys
drop_more n [] ys y h = ap (λ m. drop (suc m) (y ∷ ys)) h
drop_more zero (x ∷ xs) ys y h = absurd (omega (arith, h))
drop_more (suc n) (x ∷ xs) ys y h = drop_more n xs ys y (omega (arith, h))

IsSolid-front :
    (isspace : ℕ → Bool) (xs ys : Bytes) → IsSolid isspace (xs ++ ys) → IsSolid isspace xs
IsSolid-front isspace [] ys h = tt
IsSolid-front isspace (x ∷ xs) ys (first, h) = (first, IsSolid-front isspace xs ys h)

IsSolid-back :
    (isspace : ℕ → Bool) (xs ys : Bytes) → IsSolid isspace (xs ++ ys) → IsSolid isspace ys
IsSolid-back isspace [] ys h = h
IsSolid-back isspace (x ∷ xs) ys (first, h) = IsSolid-back isspace xs ys h

-- A line that is a key, `=` and an escaped value, with no white space left, where the key is not
-- empty, has no `=` and does not start with `#`, is read as this key with this value.
pub env_line-escape :
    (isspace : ℕ → Bool) (k : ℕ) (key value : Bytes)
    → All (λ c. c ≢ b'=') (k ∷ key)
    → k ≢ b'#'
    → IsSolid isspace ((k ∷ key) ++ (b'=' ∷ escape value))
    → env_line isspace ((k ∷ key) ++ (b'=' ∷ escape value)) ≡ variable (k ∷ key) (some value)
unfolding env_line split_line
env_line-escape isspace k key value plain no_comment solid =
    let name = k ∷ key in
    let line = name ++ (b'=' ∷ escape value) in
    let trimmed : cstr_trim isspace line ≡ line = trim_solid isspace line solid in
    let pos : cstr_pos line b'=' ≡ length name = pos_lem name (escape value) plain in
    let front : cstr_rtrim isspace (take (length name) line) ≡ name =
      ap (cstr_rtrim isspace) (take-append name (b'=' ∷ escape value))
      ∙ rtrim_solid isspace name (IsSolid-front isspace name (b'=' ∷ escape value) solid) in
    let back : cstr_ltrim isspace (drop (suc (length name)) line) ≡ escape value =
      ap (cstr_ltrim isspace) (drop_more (length name) name (escape value) b'=' refl)
      ∙ ltrim_solid isspace (escape value)
          (IsSolid-back isspace name (b'=' ∷ escape value) solid).1 in
    let sign : at (drop (length name) line) 0 ≡ b'=' =
      ap (λ b. at b 0) (drop-append_length name (b'=' ∷ escape value)) in
    let read = ap val_unescape back ∙ val_unescape-escape value in
    let goes_on : (is_empty line || at line 0 == b'#') ≡ false = ground (arith, no_comment) in
    let step : Bool → ℕ → Option Bytes → Bytes → Line =
      λ b c v n. if b then skip else if c == b'=' then assigned v n else variable line none in
    let parsed : split_line isspace line (length name) ≡ assigned (some value) name =
      (λ i. step (goes_on i) (sign i) (read i) (front i)) in
    (λ i. split_line isspace (trimmed i) (cstr_pos (trimmed i) b'='))
    ∙ (ap (split_line isspace line) pos ∙ (parsed ∙ ground arith))

-- A file of one line sets a variable, with none set before: the line is a key, `=` and a value in
-- which backslash, newline, tab and blank are escaped. The key is not empty, has no `=`, does not
-- start with `#` and is shorter than 2 ^ 64 characters; and no character of the line is white
-- space, so that the value has none but newline, tab and blank. Then the variable reaches the
-- program: where no string of the environment has a name that is as long as the key and differs in
-- its last character only, the value is found under the key in the environment that the program is
-- given, and under other names what was there before.
pub do_envfile_lem :
    (isspace : ℕ → Bool) (k : ℕ) (key value : Bytes) (ee : List Bytes)
    → (plain : All (λ c. c ≢ b'=') (k ∷ key)) → k ≢ b'#'
    → IsSolid isspace ((k ∷ key) ++ (b'=' ∷ escape value))
    → length (k ∷ key) < u64_mod
    → All (λ e. Near (k ∷ key) e → Names (k ∷ key) e) ee
    → (newenv : List Bytes) × (do_envfile isspace (((k ∷ key) ++ (b'=' ∷ escape value)) ∷ []) []
        ≡ some newenv)
      × (env_get (k ∷ key) (newenv_merge newenv ee) ≡ some value)
      × ((m : Bytes)
          → All (λ c. c ≢ b'=') m
          → m ≢ k ∷ key
          → env_get m (newenv_merge newenv ee) ≡ env_get m ee)
unfolding do_envfile
do_envfile_lem isspace k key value ee plain no_comment solid small apart =
    let name = k ∷ key in
    let set = merge-IsMerged name value (omega arith, plain) ee small apart in
    let line = env_line-escape isspace k key value plain no_comment solid in
    let after : Line → Option (List Bytes) =
      λ l. elim l [ skip ↦ some [] | overrun ↦ none | variable n v ↦ some (newenv_set n v []) ] in
    ((name ++ (b'=' ∷ value)) ∷ [], ap after line, set.gives, set.others)
