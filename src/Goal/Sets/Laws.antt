-- ===== src/Goal/Sets/Laws.antt =====
-- The two merges of goal/util.go as sets.
use qrystal.Prelude.{
  IsDistinct, sort-IsDistinct, filter_by-IsDistinct, ◌≡◌, refl, ap, ◌∙◌, Bool, not, ◌&&◌, List, [],
  ◌∷◌, arith, Eq, contains, Less, ◌<?◌, sort, IsBelow, IsSorted, sort-IsSorted, contains-sort,
  contains_below, contains-filter_by, filter_by, filter_by-congr, filter_by-IsSorted, false,
}
use qrystal.Goal.Sets.{
  skip_less, is_absent, difference_loop, set_difference, intersection_loop, set_intersection,
}

module _ {ℓ} {A : Type ℓ} ⦃e : Eq A⦄ ⦃o : Less A⦄ where
  -- Skipping past `x` loses nothing that is not below `x`.
  contains-skip_less :
      (x : A) (bs : List A) (a : A) → (a <? x) ≡ false → contains (skip_less x bs) a ≡ contains bs a
  unfolding skip_less
  contains-skip_less x [] a h = refl
  contains-skip_less x (y ∷ ys) a h = ground (arith, contains-skip_less x ys a h, e.equal_iff y a)

  skip_less-IsSorted : (x : A) (bs : List A) → IsSorted bs → IsSorted (skip_less x bs)
  unfolding skip_less
  skip_less-IsSorted x [] s = tt
  skip_less-IsSorted x (y ∷ ys) s = ground (arith, skip_less-IsSorted x ys s.1)

  -- After the skip, the element is absent exactly when the test says so.
  is_absent-skip_less :
      (x : A) (bs : List A) → IsSorted bs → is_absent x (skip_less x bs) ≡ not (contains bs x)
  unfolding skip_less is_absent
  is_absent-skip_less x [] s = refl
  is_absent-skip_less x (y ∷ ys) s = ground (
    arith,
    is_absent-skip_less x ys s.1,
    contains_below y ys x,
    e.equal_iff y x,
    o.total x y,
    o.irrefl x,
  )

  filter_by_agree :
      (p q : A → Bool) (xs : List A) (x : A)
      → ((a : A) → (a <? x) ≡ false → p a ≡ q a)
      → IsBelow x xs
      → filter_by p xs ≡ filter_by q xs
  filter_by_agree p q [] x h k = refl
  filter_by_agree p q (y ∷ ys) x h k = ground (arith, h y k.0, filter_by_agree p q ys x h k.1)

  difference_loop-filter_by :
      (xs bs : List A)
      → IsSorted xs
      → IsSorted bs
      → difference_loop xs bs ≡ filter_by (λ x. not (contains bs x)) xs
  unfolding difference_loop
  difference_loop-filter_by [] bs sx sb = refl
  difference_loop-filter_by (x ∷ xs) bs sx sb = ground (
    arith,
    is_absent-skip_less x bs sb,
    difference_loop-filter_by xs (skip_less x bs) sx.1 (skip_less-IsSorted x bs sb),
    filter_by_agree (λ a. not (contains (skip_less x bs) a)) (λ a. not (contains bs a)) xs x
        (λ a h. ground (arith, contains-skip_less x bs a h)) sx.0,
  )

  -- Under a total order that agrees with equality, `set_difference a b` is `a` in ascending order,
  -- without the elements of `b`.
  pub set_difference-filter_by :
      (a b : List A) → set_difference a b ≡ filter_by (λ x. not (contains b x)) (sort a)
  unfolding set_difference
  set_difference-filter_by a b =
      difference_loop-filter_by (sort a) (sort b) (sort-IsSorted a) (sort-IsSorted b)
      ∙ filter_by-congr _ _ (sort a) (λ x. ap not (contains-sort b x))

  -- An element is in the difference exactly if it is in the first slice and not in the second.
  pub contains-set_difference :
      (a b : List A) (x : A)
      → contains (set_difference a b) x ≡ (contains a x && not (contains b x))
  contains-set_difference a b x =
      rw (set_difference-filter_by a b, contains-filter_by, contains-sort a x)

  pub set_difference-IsDistinct : (a b : List A) → IsDistinct a → IsDistinct (set_difference a b)
  set_difference-IsDistinct a b d =
      rw (set_difference-filter_by a b)
        (filter_by-IsDistinct (λ x. not (contains b x)) (sort a) (sort-IsDistinct a d))

  pub set_difference-IsSorted : (a b : List A) → IsSorted (set_difference a b)
  set_difference-IsSorted a b =
      rw (set_difference-filter_by a b) (filter_by-IsSorted _ (sort a) (sort-IsSorted a))

  -- What is below both heads is in neither list.
  contains-intersection_loop :
      (xs ys : List A) (a : A)
      → IsSorted xs
      → IsSorted ys
      → contains (intersection_loop xs ys) a ≡ (contains xs a && contains ys a)
  unfolding intersection_loop
  contains-intersection_loop [] ys a sx sy = refl
  contains-intersection_loop (x ∷ xs) [] a sx sy = ground arith
  contains-intersection_loop (x ∷ xs) (y ∷ ys) a sx sy = ground (
    arith,
    contains-intersection_loop xs (y ∷ ys) a sx.1 sy,
    contains-intersection_loop (x ∷ xs) ys a sx sy.1,
    contains-intersection_loop xs ys a sx.1 sy.1,
    contains_below y ys x,
    contains_below x xs y,
    e.equal_iff x a,
    e.equal_iff y a,
    o.total x y,
  )

  -- Under a total order that agrees with equality, an element is in the intersection exactly if it
  -- is in both slices.
  pub contains-set_intersection :
      (a b : List A) (x : A) → contains (set_intersection a b) x ≡ (contains a x && contains b x)
  unfolding set_intersection
  contains-set_intersection a b x =
      rw (← contains-sort a x, ← contains-sort b x)
        (contains-intersection_loop (sort a) (sort b) x (sort-IsSorted a) (sort-IsSorted b))
