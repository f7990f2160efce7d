-- ===== src/Coord/Update/Union.antt =====
-- `sliceUnion` of coord/update.go, as a set.
use qrystal.Prelude.{
  ◌≡◌, refl, ◌&&◌, List, [], ◌∷◌, arith, Eq, contains, Less, sort, IsSorted, sort-IsSorted,
  contains-sort, contains_below,
}
use qrystal.Coord.Update.{union_loop, slice_union}

module _ {ℓ} {A : Type ℓ} ⦃e : Eq A⦄ ⦃o : Less A⦄ where
  contains-union_loop :
      (xs ys : List A) (a : A)
      → IsSorted xs
      → IsSorted ys
      → contains (union_loop xs ys) a ≡ (contains xs a && contains ys a)
  unfolding union_loop
  contains-union_loop [] ys a sx sy = refl
  contains-union_loop (x ∷ xs) [] a sx sy = ground arith
  contains-union_loop (x ∷ xs) (y ∷ ys) a sx sy = ground (
    arith,
    contains-union_loop xs (y ∷ ys) a sx.1 sy,
    contains-union_loop (x ∷ xs) ys a sx sy.1,
    contains-union_loop xs ys a sx.1 sy.1,
    contains_below y ys x,
    contains_below x xs y,
    e.equal_iff x a,
    e.equal_iff y a,
    e.equal_iff x y,
    o.total x y,
  )

  -- Contrary to its name, under a total order that agrees with equality, an element is in
  -- `sliceUnion(a, b)` exactly if it is in both slices.
  pub contains-slice_union :
      (a b : List A) (x : A) → contains (slice_union a b) x ≡ (contains a x && contains b x)
  unfolding slice_union
  contains-slice_union a b x =
      rw (← contains-sort a x, ← contains-sort b x)
        (contains-union_loop (sort a) (sort b) x (sort-IsSorted a) (sort-IsSorted b))
