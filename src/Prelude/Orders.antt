-- ===== src/Prelude/Orders.antt =====
-- Strict total orders as an interface, and what Go's `sort.Slice` and `slices.Sort` return by one:
-- over such an order a list has one ascending rearrangement, so any sorting algorithm serves.
use mathlib.Core.Path.{◌∙◌, ◌≡◌, refl, subst}
use mathlib.Core.Logic.{inl, inr}
use mathlib.Core.Bool.{Bool, true, false, ◌&&◌, ◌||◌}
use mathlib.Core.List.{List, [], ◌∷◌}
use native.Mathlib.Omega.{arith}
use qrystal.Prelude.Tests.{if◌then◌else◌, Bool-cases}
use qrystal.Prelude.Lists.{filter_by}
use qrystal.Prelude.Classes.{IsDistinct, Eq, ◌==◌, contains}

pub record Less {ℓ} (A : Type ℓ) : Type ℓ where
  pub less : A → A → Bool
  pub irrefl : (a : A) → less a a ≡ false
  pub trans : (a b c : A) → less a b ≡ true → less b c ≡ true → less a c ≡ true
  pub total : (a b : A) → less a b ≡ false → less b a ≡ false → a ≡ b

module _ {ℓ} {A : Type ℓ} ⦃o : Less A⦄ where
  infix 50 ◌<?◌
  abbrev pub ◌<?◌ : A → A → Bool
  ◌<?◌ = o.less

  pub less_asymm : (a b : A) → (a <? b) ≡ true → (b <? a) ≡ false
  less_asymm a b h = elim (Bool-cases (b <? a)) [
    | inl k ↦ ground (arith, o.trans a b a, o.irrefl a)
    | inr k ↦ k
  ]

  -- What is not below `a`, and above which `b` is, makes `b` greater.
  pub less-of_not : (a b c : A) → (a <? b) ≡ true → (c <? b) ≡ false → (a <? c) ≡ true
  less-of_not a b c h k = elim (Bool-cases (a <? c)) [
    | inl p ↦ p
    | inr p ↦ elim (Bool-cases (c <? a)) [
      | inl q ↦ ground (arith, o.trans c a b)
      | inr q ↦ ground (arith, subst (λ x. (x <? b) ≡ true) (o.total a c p q) h)
    ]
  ]

  insert : A → List A → List A
  insert x [] = x ∷ []
  insert x (y ∷ ys) = if y <? x then y ∷ insert x ys else x ∷ y ∷ ys

  unfoldable pub sort : List A → List A
  unfolding insert
  sort [] = []
  sort (x ∷ xs) = insert x (sort xs)

  -- Nothing in the list is below `a`.
  abbrev pub IsBelow : A → List A → Type 0
  IsBelow a [] = Unit
  IsBelow a (x ∷ xs) = ((x <? a) ≡ false) × IsBelow a xs

  abbrev pub IsSorted : List A → Type 0
  IsSorted [] = Unit
  IsSorted (x ∷ xs) = IsBelow x xs × IsSorted xs

  -- Nothing is below an element below which nothing is.
  pub less_not_trans : (a b c : A) → (b <? a) ≡ false → (c <? b) ≡ false → (c <? a) ≡ false
  less_not_trans a b c h k = elim (Bool-cases (c <? a)) [
    | inl p ↦ ground (arith, less-of_not c a b p h)
    | inr p ↦ p
  ]

  pub IsBelow-weaken : (a b : A) (xs : List A) → (b <? a) ≡ false → IsBelow b xs → IsBelow a xs
  IsBelow-weaken a b [] h k = tt
  IsBelow-weaken a b (x ∷ xs) h k = (less_not_trans a b x h k.0, IsBelow-weaken a b xs h k.1)

  insert-IsBelow :
      (a x : A) (xs : List A) → (x <? a) ≡ false → IsBelow a xs → IsBelow a (insert x xs)
  unfolding insert
  insert-IsBelow a x [] h k = (h, tt)
  insert-IsBelow a x (y ∷ ys) h k = ground (arith, insert-IsBelow a x ys h k.1)

  insert-IsSorted : (x : A) (xs : List A) → IsSorted xs → IsSorted (insert x xs)
  unfolding insert
  insert-IsSorted x [] s = (tt, tt)
  insert-IsSorted x (y ∷ ys) s = elim (Bool-cases (y <? x)) [
    | inl p ↦ rw p (insert-IsBelow y x ys (less_asymm y x p) s.0, insert-IsSorted x ys s.1)
    | inr p ↦ rw p ((p, IsBelow-weaken x y ys p s.0), s)
  ]

  pub sort-IsSorted : (xs : List A) → IsSorted (sort xs)
  unfolding sort
  sort-IsSorted [] = tt
  sort-IsSorted (x ∷ xs) = insert-IsSorted x (sort xs) (sort-IsSorted xs)

  insert_head : (x : A) (xs : List A) → IsBelow x xs → insert x xs ≡ x ∷ xs
  unfolding insert
  insert_head x [] h = refl
  insert_head x (y ∷ ys) h = rw h.0

  -- An ascending list stays as it is.
  pub sort_of_IsSorted : (xs : List A) → IsSorted xs → sort xs ≡ xs
  unfolding sort
  sort_of_IsSorted [] s = refl
  sort_of_IsSorted (x ∷ xs) s = rw (sort_of_IsSorted xs s.1) (insert_head x xs s.0)

  filter_by-IsBelow :
      (p : A → Bool) (a : A) (xs : List A) → IsBelow a xs → IsBelow a (filter_by p xs)
  filter_by-IsBelow p a [] h = tt
  filter_by-IsBelow p a (x ∷ xs) h = ground (arith, filter_by-IsBelow p a xs h.1)

  pub filter_by-IsSorted : (p : A → Bool) (xs : List A) → IsSorted xs → IsSorted (filter_by p xs)
  filter_by-IsSorted p [] s = tt
  filter_by-IsSorted p (x ∷ xs) s =
      ground (arith, filter_by-IsSorted p xs s.1, filter_by-IsBelow p x xs s.0)

module _ {ℓ} {A : Type ℓ} ⦃e : Eq A⦄ ⦃o : Less A⦄ where
  contains-insert :
      (x : A) (xs : List A) (a : A) → contains (insert x xs) a ≡ (x == a || contains xs a)
  unfolding insert
  contains-insert x [] a = refl
  contains-insert x (y ∷ ys) a = ground (arith, contains-insert x ys a)

  pub contains-sort : (xs : List A) (a : A) → contains (sort xs) a ≡ contains xs a
  unfolding sort
  contains-sort [] a = refl
  contains-sort (x ∷ xs) a = rw (contains-insert x (sort xs) a, contains-sort xs a)

  insert-IsDistinct :
      (x : A) (xs : List A) → contains xs x ≡ false → IsDistinct xs → IsDistinct (insert x xs)
  unfolding insert
  insert-IsDistinct x [] h d = (refl, tt)
  insert-IsDistinct x (y ∷ ys) h d =
      ground
        (arith, insert-IsDistinct x ys, contains-insert x ys y, e.equal_iff x y, e.equal_iff y x)

  pub sort-IsDistinct : (xs : List A) → IsDistinct xs → IsDistinct (sort xs)
  unfolding sort
  sort-IsDistinct [] d = tt
  sort-IsDistinct (x ∷ xs) d =
      insert-IsDistinct x (sort xs) (contains-sort xs x ∙ d.0) (sort-IsDistinct xs d.1)

  -- An element below the head of an ascending list is not in it.
  pub contains_below :
      (x : A) (xs : List A) (a : A) → (a <? x) ≡ true → IsBelow x xs → contains (x ∷ xs) a ≡ false
  contains_below x [] a h k = ground (arith, e.equal_iff x a, o.irrefl a)
  contains_below x (y ∷ ys) a h k =
      ground (arith, contains_below x ys a h k.1, e.equal_iff x a, e.equal_iff y a, o.irrefl a)

  -- `filter_by` keeps what passes, for a test that looks at nothing but the value.
  pub contains-filter_by :
      (p : A → Bool) (xs : List A) (a : A) → contains (filter_by p xs) a ≡ (contains xs a && p a)
  contains-filter_by p [] a = refl
  contains-filter_by p (x ∷ xs) a = elim (Bool-cases (x == a)) [
    | inl h ↦
        subst (λ b. contains (filter_by p (x ∷ xs)) b ≡ (contains (x ∷ xs) b && p b))
          ((e.equal_iff x a).0 h) (ground (arith, e.equal_iff x x, contains-filter_by p xs x))
    | inr h ↦ ground (arith, contains-filter_by p xs a)
  ]

  pub filter_by-IsDistinct :
      (p : A → Bool) (xs : List A) → IsDistinct xs → IsDistinct (filter_by p xs)
  filter_by-IsDistinct p [] d = tt
  filter_by-IsDistinct p (x ∷ xs) d =
      ground (arith, filter_by-IsDistinct p xs d.1, contains-filter_by p xs x)
