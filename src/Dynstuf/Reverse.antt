-- ===== src/Dynstuf/Reverse.antt =====
-- lasagna/dynstuf/dynstuf_reverse.c: the swaps of the loop reverse the items.
use perp.Common.{
  ℕ, zero, suc, ◌+◌, ◌-◌, ◌≡◌, ◌≤◌, ◌<◌, inl, inr, refl, sym, ◌∙◌, ap, List, [], ◌∷◌, ◌++◌, ltb,
  leb, ◌==◌, if◌then◌else◌, length, get_or, set, take, length-set, length-take, length-append,
  arith, Bool-cases, ltb→lt,
}
use perp.Dynstuf.{swap, reverse_from}

pub get_or-set :
    (cs : List ℕ) (i k p : ℕ)
    → i < length cs
    → get_or (set cs i p) k 0 ≡ (if k == i then p else get_or cs k 0)
get_or-set [] i k p h = absurd (omega (arith, h))
get_or-set (x ∷ cs) zero zero p h = ground arith
get_or-set (x ∷ cs) zero (suc k) p h = ground arith
get_or-set (x ∷ cs) (suc i) zero p h = ground arith
get_or-set (x ∷ cs) (suc i) (suc k) p h = ground (arith, get_or-set cs i k p (omega (arith, h)))

pub get_or-take : (n : ℕ) (cs : List ℕ) (k : ℕ) → k < n → get_or (take n cs) k 0 ≡ get_or cs k 0
get_or-take zero cs k h = absurd (omega (arith, h))
get_or-take (suc n) [] k h = refl
get_or-take (suc n) (x ∷ cs) zero h = refl
get_or-take (suc n) (x ∷ cs) (suc k) h = get_or-take n cs k (omega (arith, h))

-- lists that read the same
pub get_or_ext :
    (xs ys : List ℕ)
    → length xs ≡ length ys
    → ((k : ℕ) → k < length xs → get_or xs k 0 ≡ get_or ys k 0)
    → xs ≡ ys
get_or_ext [] [] same read = refl
get_or_ext [] (y ∷ ys) same read = absurd (omega (arith, same))
get_or_ext (x ∷ xs) [] same read = absurd (omega (arith, same))
get_or_ext (x ∷ xs) (y ∷ ys) same read =
    ap (λ z. z ∷ xs) (read 0 (omega arith))
    ∙ ap (λ zs. y ∷ zs)
        (get_or_ext xs ys (omega (arith, same)) (λ k h. read (suc k) (omega (arith, h))))

abbrev pub reversed : List ℕ → List ℕ
reversed [] = []
reversed (x ∷ xs) = reversed xs ++ (x ∷ [])

pub length-reversed : (xs : List ℕ) → length (reversed xs) ≡ length xs
length-reversed [] = refl
length-reversed (x ∷ xs) = omega (arith, length-append (reversed xs) (x ∷ []), length-reversed xs)

get_or-append :
    (xs ys : List ℕ) (k : ℕ)
    → get_or (xs ++ ys) k 0
      ≡ (if ltb k (length xs) then get_or xs k 0 else get_or ys (k - length xs) 0)
get_or-append [] ys k = ground (arith, ap (λ j. get_or ys j 0) {x = k} {y = k - 0} (omega arith))
get_or-append (x ∷ xs) ys zero = ground arith
get_or-append (x ∷ xs) ys (suc k) = ground (arith, get_or-append xs ys k)

get_or-reversed :
    (xs : List ℕ) (k : ℕ)
    → k < length xs
    → get_or (reversed xs) k 0 ≡ get_or xs (length xs - 1 - k) 0
get_or-reversed [] k h = absurd (omega (arith, h))
get_or-reversed (x ∷ xs) k h = elim (Bool-cases (ltb k (length xs))) [
  | inl low ↦
      get_or-append (reversed xs) (x ∷ []) k
      ∙ (ground (arith, low, length-reversed xs)
          ∙ (get_or-reversed xs k (ground (arith, low))
              ∙ ap (λ j. get_or (x ∷ xs) j 0) {x = suc (length xs - 1 - k)} (ground (arith, low))))
  | inr last ↦
      let here : k ≡ length xs = ground (arith, last, h) in
      get_or-append (reversed xs) (x ∷ []) k
      ∙ (ground (
        arith,
        last,
        length-reversed xs,
        ap (λ j. get_or (x ∷ []) j 0) {x = k - length (reversed xs)} {y = 0}
            (omega (arith, here, length-reversed xs)),
      )
          ∙ ap (λ j. get_or (x ∷ xs) j 0) {x = 0} (omega (arith, here)))
]

length-swap : (cs : List ℕ) (a b : ℕ) → length (swap cs a b) ≡ length cs
length-swap cs a b =
    length-set (set cs a (get_or cs b 0)) b (get_or cs a 0) ∙ length-set cs a (get_or cs b 0)

get_or-swap :
    (cs : List ℕ) (a b k : ℕ)
    → a < length cs
    → b < length cs
    → get_or (swap cs a b) k 0
      ≡ (if k == b then get_or cs a 0 else if k == a then get_or cs b 0 else get_or cs k 0)
get_or-swap cs a b k ha hb =
    let once = set cs a (get_or cs b 0) in
    get_or-set once b k (get_or cs a 0) (omega (arith, hb, length-set cs a (get_or cs b 0)))
    ∙ ground (arith, get_or-set cs a k (get_or cs b 0) ha)

pub length-reverse_from : (f i j : ℕ) (cs : List ℕ) → length (reverse_from f i j cs) ≡ length cs
unfolding reverse_from
length-reverse_from zero i j cs = refl
length-reverse_from (suc f) i j cs =
    ground (arith, length-reverse_from f (i + 1) (j - 1) (swap cs i j), length-swap cs i j)

same_index : (cs : List ℕ) (a b : ℕ) → a ≡ b → get_or cs a 0 ≡ get_or cs b 0
same_index cs a b h = ap (λ j. get_or cs j 0) h

get_or-reverse_from :
    (f i j : ℕ) (cs : List ℕ) (k : ℕ)
    → j < length cs
    → j ≤ f + i
    → get_or (reverse_from f i j cs) k 0 ≡ (
        if leb i k
        then if leb k j then get_or cs (i + j - k) 0 else get_or cs k 0
        else get_or cs k 0)
unfolding reverse_from
get_or-reverse_from zero i j cs k inside near = ground (arith, near, same_index cs (i + j - k) k)
get_or-reverse_from (suc f) i j cs k inside near =
    let inner = swap cs i j in
    elim (Bool-cases (ltb i j)) [
      | inr met ↦ ground (arith, met, same_index cs (i + j - k) k)
      | inl apart ↦
          let lt = ltb→lt i j apart in
          let m = i + 1 + (j - 1) - k in
          let rest =
            get_or-reverse_from f (i + 1) (j - 1) inner k
              (omega (arith, inside, length-swap cs i j)) (omega (arith, near, lt)) in
          let at_k = get_or-swap cs i j k (omega (arith, inside, lt)) inside in
          let at_m = get_or-swap cs i j m (omega (arith, inside, lt)) inside in
          ground (
            arith,
            lt,
            rest,
            at_k,
            at_m,
            same_index cs m (i + j - k),
            same_index cs (i + j - k) j,
            same_index cs (i + j - k) i,
          )
    ]

-- The loop over the first items of an array reverses them.
pub take-reverse_from :
    (n : ℕ) (cs : List ℕ)
    → 0 < n
    → n ≤ length cs
    → take n (reverse_from (n - 1) 0 (n - 1) cs) ≡ reversed (take n cs)
take-reverse_from n cs some_items inside =
    let back = reverse_from (n - 1) 0 (n - 1) cs in
    let l1 : length (take n back) ≡ n =
      omega (arith, length-take n back, length-reverse_from (n - 1) 0 (n - 1) cs, inside) in
    let l2 : length (take n cs) ≡ n = omega (arith, length-take n cs, inside) in
    get_or_ext (take n back) (reversed (take n cs))
      (omega (arith, l1, l2, length-reversed (take n cs)))
      (λ k h.
        let low : k < n = omega (arith, h, l1) in
        get_or-take n back k low
        ∙ (get_or-reverse_from (n - 1) 0 (n - 1) cs k (omega (arith, inside, some_items))
              (omega arith)
            ∙ (ground (arith, low, same_index cs (0 + (n - 1) - k) (n - 1 - k))
                ∙ (sym (get_or-take n cs (n - 1 - k) (omega (arith, low)))
                    ∙ (same_index (take n cs) (n - 1 - k) (length (take n cs) - 1 - k)
                          (omega (arith, l2))
                        ∙ sym (get_or-reversed (take n cs) k (omega (arith, low, l2))))))))
