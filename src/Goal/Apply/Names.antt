-- ===== src/Goal/Apply/Names.antt =====
-- goal/apply_linux.go: the names that the loops of `ApplyMachine` run over, while every managed
-- interface is one of the machine's.
use qrystal.Prelude.{
  ◌≡◌, true, false, List, [], ◌∷◌, ◌++◌, arith, contains, contains-append, contains-sort,
  IsDistinct, sort-IsDistinct, append-IsDistinct, ==_iff, list_eq, nat_eq, refl,
}
use qrystal.Text.{Bytes, bytes_less}
use qrystal.Goal.Sets.{set_difference}
use qrystal.Goal.Sets.Laws.{
  contains-set_difference, contains-set_intersection, set_difference-IsDistinct,
}
use qrystal.Goal.Apply.{Applier, manage, deleted_interfaces}

nothing : (xs : List Bytes) → ((x : Bytes) → contains xs x ≡ false) → xs ≡ []
nothing [] h = refl
nothing (x ∷ xs) h = absurd (ground (arith, h x, ==_iff x x))

module _ (a : Applier) (names : List Bytes)
    (known : (x : Bytes) → contains a.managed_interfaces x ≡ true → contains names x ≡ true) where
  pub contains-manage : (x : Bytes) → contains (manage a names) x ≡ contains names x
  contains-manage x = ground (
    arith,
    known x,
    contains-sort (a.managed_interfaces ++ set_difference names a.managed_interfaces) x,
    contains-append a.managed_interfaces (set_difference names a.managed_interfaces) x,
    contains-set_difference names a.managed_interfaces x,
  )

  pub manage-IsDistinct :
      IsDistinct a.managed_interfaces → IsDistinct names → IsDistinct (manage a names)
  manage-IsDistinct d g =
      let added = set_difference names a.managed_interfaces in
      sort-IsDistinct (a.managed_interfaces ++ added) (
        append-IsDistinct a.managed_interfaces added d
          (set_difference-IsDistinct names a.managed_interfaces g)
          (λ x h. ground (arith, contains-set_difference names a.managed_interfaces x)))

  -- Nothing is deleted.
  pub deleted_empty :
      (devices : List Bytes) → deleted_interfaces (manage a names) names devices ≡ []
  deleted_empty devices = nothing (deleted_interfaces (manage a names) names devices) (λ x. ground (
    arith,
    contains-manage x,
    contains-set_intersection (set_difference (manage a names) names) devices x,
    contains-set_difference (manage a names) names x,
  ))

  pub contains-updated :
      (x : Bytes) → contains (set_difference (manage a names) []) x ≡ contains names x
  contains-updated x =
      ground (arith, contains-manage x, contains-set_difference (manage a names) [] x)
