-- ===== src/Goal/Sets.antt =====
-- goal/util.go: `setDifference` and `setIntersection`. An index that only moves forward through a
-- slice is the suffix that is left.
pub mod Laws
use qrystal.Prelude.{Bool, true, false, List, [], ◌∷◌, if◌then◌else◌, Less, ◌<?◌, sort}

module _ {ℓ} {A : Type ℓ} ⦃o : Less A⦄ where
  -- `for j < len(b) && less(b[j], a[i]) { j++ }`
  skip_less : A → List A → List A
  skip_less x [] = []
  skip_less x (y ∷ ys) = if y <? x then skip_less x ys else y ∷ ys

  -- `j == len(b) || less(a[i], b[j])`
  is_absent : A → List A → Bool
  is_absent x [] = true
  is_absent x (y ∷ ys) = x <? y

  difference_loop : List A → List A → List A
  unfolding skip_less is_absent
  difference_loop [] bs = []
  difference_loop (x ∷ xs) bs =
      let rest = skip_less x bs in
      let diff = difference_loop xs rest in if is_absent x rest then x ∷ diff else diff

  unfoldable pub set_difference : List A → List A → List A
  unfolding difference_loop
  set_difference a b = difference_loop (sort a) (sort b)

  -- The result, and the two slices as they are left, which are sorted in place.
  unfoldable pub set_difference_in_place : List A → List A → List A × List A × List A
  unfolding set_difference
  set_difference_in_place a b = (set_difference a b, sort a, sort b)

  intersection_loop : List A → List A → List A
  intersection_loop [] bs = []
  intersection_loop (x ∷ xs) [] = []
  intersection_loop (x ∷ xs) (y ∷ ys) = elim (x <? y) [
    | true ↦ intersection_loop xs (y ∷ ys)
    | false ↦ elim (y <? x) [
      | true ↦ intersection_loop (x ∷ xs) ys
      | false ↦ x ∷ intersection_loop xs ys
    ]
  ]

  unfoldable pub set_intersection : List A → List A → List A
  unfolding intersection_loop
  set_intersection a b = intersection_loop (sort a) (sort b)
