-- ===== src/Prelude/Lists.antt =====
-- Lists measured, indexed and searched by native numbers and Boolean tests, as the source's slices.
use Prim.Native.Nat.{ℕ, zero, suc, ◌+◌}
use mathlib.Core.Path.{◌≡◌, refl, ap}
use mathlib.Core.Logic.{◌≢◌, inl, inr}
use mathlib.Core.Bool.{Bool, true, ◌&&◌}
use mathlib.Core.List.{List, [], ◌∷◌, ◌++◌, map}
use mathlib.Core.Option.{Option, none, some}
use native.Mathlib.Omega.{arith}
use qrystal.Prelude.Tests.{if◌then◌else◌, Bool-cases}

abbrev pub bump : Option ℕ → Option ℕ
bump none = none
bump (some i) = some (suc i)

module _ {ℓ} {A : Type ℓ} where
  abbrev pub length : List A → ℕ
  length [] = 0
  length (x ∷ xs) = suc (length xs)

  abbrev pub get_elem? : List A → ℕ → Option A
  get_elem? [] i = none
  get_elem? (x ∷ xs) zero = some x
  get_elem? (x ∷ xs) (suc i) = get_elem? xs i

  -- `xs[:n]` and `xs[n:]`, cut short at the end.
  abbrev pub take : ℕ → List A → List A
  take zero xs = []
  take (suc n) [] = []
  take (suc n) (x ∷ xs) = x ∷ take n xs

  abbrev pub drop : ℕ → List A → List A
  drop zero xs = xs
  drop (suc n) [] = []
  drop (suc n) (x ∷ xs) = drop n xs

  -- A new slice of `n` values `a`.
  abbrev pub replicate : ℕ → A → List A
  replicate zero a = []
  replicate (suc n) a = a ∷ replicate n a

  -- `xs[i] = f(xs[i])`; out of bounds nothing changes.
  abbrev pub modify : List A → ℕ → (A → A) → List A
  modify [] i f = []
  modify (x ∷ xs) zero f = f x ∷ xs
  modify (x ∷ xs) (suc i) f = x ∷ modify xs i f

  abbrev pub filter_by : (A → Bool) → List A → List A
  filter_by p [] = []
  filter_by p (x ∷ xs) = if p x then x ∷ filter_by p xs else filter_by p xs

  -- `slices.IndexFunc`, with `none` for -1.
  abbrev pub index_func : (A → Bool) → List A → Option ℕ
  index_func p [] = none
  index_func p (x ∷ xs) = if p x then some 0 else bump (index_func p xs)

  -- `xs[i]` behind such a search: -1 and an index out of range give `none`.
  abbrev pub at_index : List A → Option ℕ → Option A
  at_index xs none = none
  at_index xs (some i) = get_elem? xs i

  -- The element that `slices.IndexFunc` points at.
  abbrev pub find_func : (A → Bool) → List A → Option A
  find_func p [] = none
  find_func p (x ∷ xs) = if p x then some x else find_func p xs

  abbrev pub all_of : (A → Bool) → List A → Bool
  all_of p [] = true
  all_of p (x ∷ xs) = p x && all_of p xs

module _ {ℓ} {A : Type ℓ} where
  pub all_of-find_func :
      (p q : A → Bool) (xs : List A) (x : A)
      → all_of p xs ≡ true
      → find_func q xs ≡ some x
      → p x ≡ true
  all_of-find_func p q [] x h k = cc
  all_of-find_func p q (y ∷ xs) x h k = elim (Bool-cases (q y)) [
    | inl e ↦ ground arith
    | inr e ↦ all_of-find_func p q xs x (ground arith) (ground arith)
  ]

  pub all_of-filter_by :
      (p q : A → Bool) (xs : List A) → all_of p xs ≡ true → all_of p (filter_by q xs) ≡ true
  all_of-filter_by p q [] h = refl
  all_of-filter_by p q (x ∷ xs) h = ground (arith, all_of-filter_by p q xs)

  pub all_of-modify :
      (p : A → Bool) (f : A → A) (xs : List A) (i : ℕ)
      → ((x : A) → p x ≡ true → p (f x) ≡ true)
      → all_of p xs ≡ true
      → all_of p (modify xs i f) ≡ true
  all_of-modify p f [] i k h = refl
  all_of-modify p f (x ∷ xs) zero k h = ground (arith, k x)
  all_of-modify p f (x ∷ xs) (suc i) k h = ground (arith, all_of-modify p f xs i k)

  -- What holds of the element that is found holds of it once more after it is written back.
  pub modify_same :
      (f : A → A) (xs : List A) (i : ℕ)
      → ((x : A) → get_elem? xs i ≡ some x → f x ≡ x)
      → modify xs i f ≡ xs
  modify_same f [] i h = refl
  modify_same f (x ∷ xs) zero h = ap (λ y. y ∷ xs) (h x refl)
  modify_same f (x ∷ xs) (suc i) h = ap (◌∷◌ x) (modify_same f xs i h)

  pub all_of-get_elem? :
      (p : A → Bool) (xs : List A) (i : ℕ) (x : A)
      → all_of p xs ≡ true
      → get_elem? xs i ≡ some x
      → p x ≡ true
  all_of-get_elem? p [] i x h g = cc
  all_of-get_elem? p (y ∷ xs) zero x h g = ground arith
  all_of-get_elem? p (y ∷ xs) (suc i) x h g = all_of-get_elem? p xs i x (ground arith) g

  pub length-append : (xs ys : List A) → length (xs ++ ys) ≡ length xs + length ys
  length-append [] ys = omega arith
  length-append (x ∷ xs) ys = omega (arith, length-append xs ys)

  pub take-append-drop : (n : ℕ) (xs : List A) → take n xs ++ drop n xs ≡ xs
  take-append-drop zero xs = refl
  take-append-drop (suc n) [] = refl
  take-append-drop (suc n) (x ∷ xs) = ap (◌∷◌ x) (take-append-drop n xs)

  pub filter_by-append :
      (p : A → Bool) (xs ys : List A) → filter_by p (xs ++ ys) ≡ filter_by p xs ++ filter_by p ys
  filter_by-append p [] ys = refl
  filter_by-append p (x ∷ xs) ys = ground (arith, filter_by-append p xs ys)

  pub filter_by-congr :
      (p q : A → Bool) (xs : List A) → ((x : A) → p x ≡ q x) → filter_by p xs ≡ filter_by q xs
  filter_by-congr p q [] h = refl
  filter_by-congr p q (x ∷ xs) h = ground (arith, h x, filter_by-congr p q xs h)

  -- What `IndexFunc` finds satisfies the test.
  pub find_func-test : (p : A → Bool) (xs : List A) (x : A) → find_func p xs ≡ some x → p x ≡ true
  find_func-test p [] x h = cc
  find_func-test p (y ∷ xs) x h = elim (Bool-cases (p y)) [
    | inl e ↦ ground (arith, find_func-test p xs x)
    | inr e ↦ find_func-test p xs x (ground arith)
  ]

  -- The index leads to the element.
  pub at_index-index_func :
      (p : A → Bool) (xs : List A) → at_index xs (index_func p xs) ≡ find_func p xs
  at_index-index_func p [] = refl
  at_index-index_func p (x ∷ xs) = ground (arith, at_index-index_func p xs)

  pub get_elem?-modify_self :
      (xs : List A) (i : ℕ) (f : A → A) (x : A)
      → get_elem? xs i ≡ some x
      → get_elem? (modify xs i f) i ≡ some (f x)
  get_elem?-modify_self [] i f x h = cc
  get_elem?-modify_self (y ∷ xs) zero f x h = cc
  get_elem?-modify_self (y ∷ xs) (suc i) f x h = get_elem?-modify_self xs i f x h

  pub get_elem?-modify_ne :
      (xs : List A) (i j : ℕ) (f : A → A) → i ≢ j → get_elem? (modify xs i f) j ≡ get_elem? xs j
  get_elem?-modify_ne [] i j f h = refl
  get_elem?-modify_ne (x ∷ xs) zero zero f h = absurd (h refl)
  get_elem?-modify_ne (x ∷ xs) zero (suc j) f h = refl
  get_elem?-modify_ne (x ∷ xs) (suc i) zero f h = refl
  get_elem?-modify_ne (x ∷ xs) (suc i) (suc j) f h =
      get_elem?-modify_ne xs i j f (λ e. h (ap suc e))

  -- A write that keeps the test keeps the index that the test finds.
  pub index_func-modify :
      (p : A → Bool) (xs : List A) (i : ℕ) (f : A → A)
      → ((x : A) → p (f x) ≡ p x)
      → index_func p (modify xs i f) ≡ index_func p xs
  index_func-modify p [] i f h = refl
  index_func-modify p (x ∷ xs) zero f h = ground (arith, h x)
  index_func-modify p (x ∷ xs) (suc i) f h = ground (arith, index_func-modify p xs i f h)

module _ {ℓ κ} {A : Type ℓ} {B : Type κ} where
  pub length-map : (xs : List A) (f : A → B) → length (map f xs) ≡ length xs
  length-map [] f = refl
  length-map (x ∷ xs) f = ap suc (length-map xs f)

  -- A write that a function does not see.
  pub map-modify :
      (f : A → A) (g : A → B) (xs : List A) (i : ℕ)
      → ((x : A) → g (f x) ≡ g x)
      → map g (modify xs i f) ≡ map g xs
  map-modify f g [] i h = refl
  map-modify f g (x ∷ xs) zero h = ap (λ y. y ∷ map g xs) (h x)
  map-modify f g (x ∷ xs) (suc i) h = ap (◌∷◌ (g x)) (map-modify f g xs i h)

  -- All elements satisfy a test, whichever function they are read through.
  pub all_of-map_keeps :
      (p : B → Bool) (q : A → Bool) (f : A → B) (xs : List A)
      → ((x : A) → q x ≡ true → p (f x) ≡ true)
      → all_of q xs ≡ true
      → all_of p (map f xs) ≡ true
  all_of-map_keeps p q f [] h k = refl
  all_of-map_keeps p q f (x ∷ xs) h k = ground (arith, h x, all_of-map_keeps p q f xs h)

  pub all_of-map :
      (p : B → Bool) (q : A → Bool) (f : A → B) (xs : List A)
      → ((x : A) → p (f x) ≡ q x)
      → all_of p (map f xs) ≡ all_of q xs
  all_of-map p q f [] h = refl
  all_of-map p q f (x ∷ xs) h = ground (arith, h x, all_of-map p q f xs h)

  pub get_elem?-map :
      (f : A → B) (xs : List A) (i : ℕ)
      → get_elem? (map f xs) i ≡ elim (get_elem? xs i) [ none ↦ none | some x ↦ some (f x) ]
  get_elem?-map f [] i = refl
  get_elem?-map f (x ∷ xs) zero = refl
  get_elem?-map f (x ∷ xs) (suc i) = get_elem?-map f xs i

  pub at_index-map :
      (f : A → B) (xs : List A) (i : Option ℕ)
      → at_index (map f xs) i ≡ elim (at_index xs i) [ none ↦ none | some x ↦ some (f x) ]
  at_index-map f xs none = refl
  at_index-map f xs (some i) = get_elem?-map f xs i

  -- A function that keeps the test keeps the index.
  pub index_func-map :
      (p : B → Bool) (q : A → Bool) (f : A → B) (xs : List A)
      → ((x : A) → p (f x) ≡ q x)
      → index_func p (map f xs) ≡ index_func q xs
  index_func-map p q f [] h = refl
  index_func-map p q f (x ∷ xs) h = ground (arith, h x, index_func-map p q f xs h)
