-- ===== src/Prelude/Classes.antt =====
-- Equality tests and strict orders as interfaces, and what `slices.Contains` answers.
use Prim.Native.Nat.{ℕ}
use mathlib.Core.Path.{◌≡◌, refl}
use mathlib.Core.Logic.{◌↔◌}
use mathlib.Core.Bool.{Bool, true, false, ◌&&◌, ◌||◌}
use mathlib.Core.List.{List, [], ◌∷◌, ◌++◌, map}
use mathlib.Core.Option.{Option, none, some}
use native.Mathlib.Omega.{arith}
use qrystal.Prelude.Tests.{nat_beq, nat_beq_iff}
use qrystal.Prelude.Lists.{find_func}

-- Go's `==` on a comparable type.
pub record Eq {ℓ} (A : Type ℓ) : Type ℓ where
  pub equal : A → A → Bool
  pub equal_iff : (a b : A) → (equal a b ≡ true) ↔ (a ≡ b)

infix 50 ◌==◌
abbrev pub ◌==◌ {ℓ} : {A : Type ℓ} ⦃e : Eq A⦄ (a b : A) → Bool
◌==◌ ⦃e⦄ a b = e.equal a b

pub ==_iff {ℓ} : {A : Type ℓ} ⦃e : Eq A⦄ (a b : A) → ((a == b) ≡ true) ↔ (a ≡ b)
==_iff ⦃e⦄ = e.equal_iff

pub ==_refl {ℓ} : {A : Type ℓ} ⦃e : Eq A⦄ (a : A) → (a == a) ≡ true
==_refl ⦃e⦄ a = (e.equal_iff a a).1 refl

abbrev pub is_some {ℓ} : {A : Type ℓ} → Option A → Bool
is_some none = false
is_some (some a) = true

abbrev pub bool_beq : Bool → Bool → Bool
bool_beq true b = b
bool_beq false true = false
bool_beq false false = true

pub bool_beq_iff : (a b : Bool) → (bool_beq a b ≡ true) ↔ (a ≡ b)
bool_beq_iff a b = ground arith

instance abbrev pub nat_eq : Eq ℕ
nat_eq = record { equal = nat_beq; equal_iff = nat_beq_iff }

instance abbrev pub bool_eq : Eq Bool
bool_eq = record { equal = bool_beq; equal_iff = bool_beq_iff }

module _ {ℓ} {A : Type ℓ} ⦃e : Eq A⦄ where
  -- `slices.Equal`
  abbrev pub list_beq : List A → List A → Bool
  list_beq [] [] = true
  list_beq (x ∷ xs) (y ∷ ys) = x == y && list_beq xs ys
  list_beq _ _ = false

  pub list_beq_iff : (xs ys : List A) → (list_beq xs ys ≡ true) ↔ (xs ≡ ys)
  list_beq_iff [] [] = ground arith
  list_beq_iff [] (y ∷ ys) = ground arith
  list_beq_iff (x ∷ xs) [] = ground arith
  list_beq_iff (x ∷ xs) (y ∷ ys) = ground (arith, e.equal_iff x y, list_beq_iff xs ys)

  -- Two pointers to equal values, or two nil pointers.
  abbrev pub option_beq : Option A → Option A → Bool
  option_beq (some x) (some y) = x == y
  option_beq none none = true
  option_beq _ _ = false

  pub option_beq_iff : (x y : Option A) → (option_beq x y ≡ true) ↔ (x ≡ y)
  option_beq_iff none none = ground arith
  option_beq_iff none (some y) = ground arith
  option_beq_iff (some x) none = ground arith
  option_beq_iff (some x) (some y) = ground (arith, e.equal_iff x y)

  -- `slices.Contains`
  abbrev pub contains : List A → A → Bool
  contains [] a = false
  contains (x ∷ xs) a = x == a || contains xs a

  pub contains-append :
      (xs ys : List A) (a : A) → contains (xs ++ ys) a ≡ (contains xs a || contains ys a)
  contains-append [] ys a = refl
  contains-append (x ∷ xs) ys a = ground (arith, contains-append xs ys a)

  -- A search by key finds something exactly if the key is there.
  pub find_func-contains {κ} :
      {B : Type κ} (g : B → A) (ys : List B) (a : A)
      → is_some (find_func (λ y. g y == a) ys) ≡ contains (map g ys) a
  find_func-contains g [] a = refl
  find_func-contains g (y ∷ ys) a = ground (arith, find_func-contains g ys a)

  -- No element stands twice in the list.
  abbrev pub IsDistinct : List A → Type 0
  IsDistinct [] = Unit
  IsDistinct (x ∷ xs) = (contains xs x ≡ false) × IsDistinct xs

  pub append-IsDistinct :
      (xs ys : List A)
      → IsDistinct xs
      → IsDistinct ys
      → ((a : A) → contains xs a ≡ true → contains ys a ≡ false)
      → IsDistinct (xs ++ ys)
  append-IsDistinct [] ys d g h = g
  append-IsDistinct (x ∷ xs) ys d g h =
      let here : contains (x ∷ xs) x ≡ true = ground (arith, e.equal_iff x x) in
      (
        ground (arith, contains-append xs ys x, d.0, h x here),
        append-IsDistinct xs ys d.1 g (λ a k. h a (ground arith)),
      )

instance abbrev pub list_eq {ℓ} : {A : Type ℓ} ⦃e : Eq A⦄ → Eq (List A)
list_eq = record { equal = list_beq; equal_iff = list_beq_iff }

instance abbrev pub option_eq {ℓ} : {A : Type ℓ} ⦃e : Eq A⦄ → Eq (Option A)
option_eq = record { equal = option_beq; equal_iff = option_beq_iff }

-- A Go struct of two comparable fields, such as `[2]string`.
module _ {ℓ κ} {A : Type ℓ} {B : Type κ} ⦃e : Eq A⦄ ⦃f : Eq B⦄ where
  abbrev pub pair_beq : A × B → A × B → Bool
  pair_beq (a, b) (c, d) = a == c && b == d

  pub pair_beq_iff : (p q : A × B) → (pair_beq p q ≡ true) ↔ (p ≡ q)
  pair_beq_iff (a, b) (c, d) = ground (arith, e.equal_iff a c, f.equal_iff b d)

instance abbrev pub pair_eq {ℓ κ} : {A : Type ℓ} {B : Type κ} ⦃e : Eq A⦄ ⦃f : Eq B⦄ → Eq (A × B)
pair_eq = record { equal = pair_beq; equal_iff = pair_beq_iff }

-- `slices.EqualFunc`
abbrev pub equal_func {ℓ} : {A : Type ℓ} → (A → A → Bool) → List A → List A → Bool
equal_func eq [] [] = true
equal_func eq (x ∷ xs) (y ∷ ys) = eq x y && equal_func eq xs ys
equal_func eq _ _ = false

-- A test that compares the values of `g` makes `EqualFunc` compare the lists of values.
pub equal_func_iff {ℓ κ} :
    {A : Type ℓ} {B : Type κ} (eq : A → A → Bool) (g : A → B)
    → ((x y : A) → (eq x y ≡ true) ↔ (g x ≡ g y))
    → (xs ys : List A) → (equal_func eq xs ys ≡ true) ↔ (map g xs ≡ map g ys)
equal_func_iff eq g h [] [] = ground arith
equal_func_iff eq g h [] (y ∷ ys) = ground arith
equal_func_iff eq g h (x ∷ xs) [] = ground arith
equal_func_iff eq g h (x ∷ xs) (y ∷ ys) = ground (arith, h x y, equal_func_iff eq g h xs ys)
