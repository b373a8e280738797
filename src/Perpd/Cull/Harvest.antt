-- ===== src/Perpd/Cull/Harvest.antt =====
-- `perpd_cull` removes exactly the services that are ready, and closes exactly their directories.
use mathlib.Core.List.{filter_map, filter_map-cons-none, filter_map-cons-some, Perm, perm_middle}
use mathlib.Core.List.Perm
use perp.Common.{
  ℕ, zero, suc, ◌≡◌, ◌≤◌, inl, inr, refl, ap, sym, true, false, Option, none, some, List, [], ◌∷◌,
  ◌++◌, append_assoc, append-nil, ◌∙◌, length, arith, if◌then◌else◌, Bool-cases,
}
use perp.Perpd.Types.{Svdef, Globals, Effect, close}
use perp.Perpd.Svdef.{perpd_svdef_close, perpd_svdef_cullok}
use perp.Perpd.Cull.{last_first, fill_gap, cull_from, perpd_cull}

module _ {ℓ} {A : Type ℓ} where
  pub length-last_first : (x : A) (l : List A) → length (last_first x l) ≡ suc (length l)
  unfolding last_first
  length-last_first x [] = refl
  length-last_first x (y ∷ ys) = ground (arith, length-last_first y ys)

  pub length-fill_gap : (l : List A) → length (fill_gap l) ≡ length l
  unfolding fill_gap
  length-fill_gap [] = refl
  length-fill_gap (x ∷ xs) = length-last_first x xs

  pub last_first-perm : (x : A) (l : List A) → Perm (last_first x l) (x ∷ l)
  unfolding last_first
  last_first-perm x [] = Perm.refl (x ∷ [])
  last_first-perm x (y ∷ ys) = go (last_first y ys) (last_first-perm y ys)
    where
      go :
          (t : List A)
          → Perm t (y ∷ ys)
          → Perm (elim t [ [] ↦ x ∷ [] | z ∷ zs ↦ z ∷ x ∷ zs ]) (x ∷ y ∷ ys)
      go [] p = cc (Perm.nil-eq p)
      go (z ∷ zs) p = Perm.trans (Perm.swap x z zs) (Perm.cons x p)

  pub fill_gap-perm : (l : List A) → Perm (fill_gap l) l
  unfolding fill_gap
  fill_gap-perm [] = Perm.refl []
  fill_gap-perm (x ∷ xs) = last_first-perm x xs

-- a service stays unless its deactivation is complete
abbrev pub stays : Svdef → Option Svdef
stays s = if perpd_svdef_cullok s then none else some s

abbrev pub leaves : Svdef → Option Effect
leaves s = if perpd_svdef_cullok s then some (close s.fd_dir) else none

pub cull_from_ready :
    (f : ℕ) (x : Svdef) (xs : List Svdef) (g : Globals)
    → perpd_svdef_cullok x ≡ true
    → cull_from (suc f) (x ∷ xs) g ≡ cull_from f (fill_gap xs) (perpd_svdef_close x g)
unfolding cull_from
cull_from_ready f x xs g h = rw (h, cull_from)

pub cull_from_kept :
    (f : ℕ) (x : Svdef) (xs : List Svdef) (g : Globals)
    → perpd_svdef_cullok x ≡ false
    → cull_from (suc f) (x ∷ xs) g ≡ (x ∷ (cull_from f xs g).0, (cull_from f xs g).1)
unfolding cull_from
cull_from_kept f x xs g h = rw (h, cull_from)

stays_ready : (x : Svdef) → perpd_svdef_cullok x ≡ true → stays x ≡ none
stays_ready x h = rw h

stays_kept : (x : Svdef) → perpd_svdef_cullok x ≡ false → stays x ≡ some x
stays_kept x h = rw h

cull_from-perm :
    (f : ℕ) (l : List Svdef) (g : Globals)
    → length l ≤ f
    → Perm (cull_from f l g).0 (filter_map stays l)
cull_from-perm zero [] g h = unfold cull_from filter_map in Perm.refl []
cull_from-perm (suc f) [] g h = unfold cull_from filter_map in Perm.refl []
cull_from-perm zero (x ∷ xs) g h = absurd (omega arith)
cull_from-perm (suc f) (x ∷ xs) g h = elim (Bool-cases (perpd_svdef_cullok x)) [
  | inl ready ↦
      rw (cull_from_ready f x xs g ready, filter_map-cons-none stays x xs (stays_ready x ready))
        (Perm.trans
          (cull_from-perm f (fill_gap xs) (perpd_svdef_close x g)
            (omega (arith, length-fill_gap xs)))
          (Perm.filter_map stays (fill_gap-perm xs)))
  | inr kept ↦
      rw (cull_from_kept f x xs g kept, filter_map-cons-some stays x xs (stays_kept x kept))
        (Perm.cons x (cull_from-perm f xs g (omega arith)))
]

-- What remains after a harvest are the services whose deactivation is not complete, each as often
-- as before, in some order.
pub cull-perm : (l : List Svdef) (g : Globals) → Perm (perpd_cull l g).0 (filter_map stays l)
unfolding perpd_cull
cull-perm l g = cull_from-perm (length l) l g (omega arith)

leaves_ready : (x : Svdef) → perpd_svdef_cullok x ≡ true → leaves x ≡ some (close x.fd_dir)
leaves_ready x h = rw h

leaves_kept : (x : Svdef) → perpd_svdef_cullok x ≡ false → leaves x ≡ none
leaves_kept x h = rw h

-- `closes` is what a harvest of `l` puts into the trace of `g`.
pub record Closes (l : List Svdef) (g g' : Globals) : Type 0 where
  pub closes : List Effect
  pub traced : g' ≡ record g { trace = closes ++ g.trace }
  pub directories : Perm closes (filter_map leaves l)

no-Closes : (g : Globals) → Closes [] g g
unfolding filter_map
no-Closes g = record { closes = []; traced = refl; directories = Perm.refl [] }

one_close :
    (x : Svdef) (xs ys : List Svdef) (g g' : Globals)
    → perpd_svdef_cullok x ≡ true
    → Perm ys xs
    → Closes ys (perpd_svdef_close x g) g'
    → Closes (x ∷ xs) g g'
unfolding perpd_svdef_close
one_close x xs ys g g' ready p c = record {
  closes = c.closes ++ (close x.fd_dir ∷ []);
  traced =
      c.traced
      ∙ ap (λ t. record g { trace = t })
          (sym (append_assoc c.closes (close x.fd_dir ∷ []) g.trace));
  directories = rw (filter_map-cons-some leaves x xs (leaves_ready x ready)) (
      Perm.trans (perm_middle c.closes []) (
        Perm.cons (close x.fd_dir)
          (rw append-nil (Perm.trans c.directories (Perm.filter_map leaves p)))));
}

cull_from-Closes :
    (f : ℕ) (l : List Svdef) (g : Globals) → length l ≤ f → Closes l g (cull_from f l g).1
cull_from-Closes zero [] g h = unfold cull_from in no-Closes g
cull_from-Closes (suc f) [] g h = unfold cull_from in no-Closes g
cull_from-Closes zero (x ∷ xs) g h = absurd (omega arith)
cull_from-Closes (suc f) (x ∷ xs) g h = elim (Bool-cases (perpd_svdef_cullok x)) [
  | inl ready ↦ rw (cull_from_ready f x xs g ready) (
      one_close x xs (fill_gap xs) g (cull_from f (fill_gap xs) (perpd_svdef_close x g)).1 ready
        (fill_gap-perm xs)
        (cull_from-Closes f (fill_gap xs) (perpd_svdef_close x g)
          (omega (arith, length-fill_gap xs))))
  | inr kept ↦ rw (cull_from_kept f x xs g kept) (
      let c = cull_from-Closes f xs g (omega arith) in
      record {
        closes = c.closes;
        traced = c.traced;
        directories = rw (filter_map-cons-none leaves x xs (leaves_kept x kept)) c.directories;
      })
]

-- A harvest closes the directory of each service that it removes, once for each, and does nothing
-- else.
pub cull-Closes : (l : List Svdef) (g : Globals) → Closes l g (perpd_cull l g).1
unfolding perpd_cull
cull-Closes l g = cull_from-Closes (length l) l g (omega arith)
