-- ===== src/Goal/Apply/Laws.antt =====
-- `ApplyMachine` of goal/apply_linux.go for an interface that the machine no longer has.
use qrystal.Prelude.{
  ◌≡◌, refl, ap, ◌∙◌, Bool, true, false, none, some, List, [], ◌∷◌, ◌++◌, map, arith, ◌==◌, ==_iff,
  list_eq, nat_eq, contains, contains-append, contains-sort, index_func, Outcome, failed, panicked,
}
use qrystal.Text.{Bytes, bytes_less}
use qrystal.Goal.Machine.{Interface, Machine}
use qrystal.Goal.Sets.{set_difference}
use qrystal.Goal.Sets.Laws.{contains-set_difference, contains-set_intersection}
use qrystal.Goal.Apply.{
  System, Applier, name_of, each_interface, manage, deleted_interfaces, delete_interface,
  apply_interfaces, apply_machine, unchanged,
}

not_found :
    (interfaces : List Interface) (name : Bytes)
    → contains (map name_of interfaces) name ≡ false
    → index_func (λ iface. iface.name == name) interfaces ≡ none
not_found [] name h = refl
not_found (x ∷ interfaces) name h = ground (arith, not_found interfaces name)

module _ {K : Type 0} (s : System K) (m : Machine) where
  -- A loop over names of which none is in the machine, and which has a name, panics at once.
  each_interface_panics :
      (names : List Bytes) (x : Bytes) (k : K) (f : Interface → K → (Bool × K) × Interface)
      → contains names x ≡ true
      → ((y : Bytes) → contains names y ≡ true → contains (map name_of m.interfaces) y ≡ false)
      → each_interface f m.interfaces names k ≡ ((panicked, k), m.interfaces)
  unfolding each_interface
  each_interface_panics [] x k f h g = absurd (ground arith)
  each_interface_panics (y ∷ names) x k f h g =
      ground (arith, not_found m.interfaces y (g y (ground (arith, ==_iff y y))))

  deleted-absent :
      (managed devices : List Bytes) (y : Bytes)
      → contains (deleted_interfaces managed (map name_of m.interfaces) devices) y ≡ true
      → contains (map name_of m.interfaces) y ≡ false
  deleted-absent managed devices y h = ground (
    arith,
    contains-set_intersection (set_difference managed (map name_of m.interfaces)) devices y,
    contains-set_difference managed (map name_of m.interfaces) y,
  )

  deleted-contains :
      (a : Applier) (devices : List Bytes) (name : Bytes)
      → contains a.managed_interfaces name ≡ true
      → contains devices name ≡ true
      → contains (map name_of m.interfaces) name ≡ false
      → contains
          (deleted_interfaces
            (manage a (map name_of m.interfaces))
            (map name_of m.interfaces)
            devices)
          name
        ≡ true
  deleted-contains a devices name managed there absent =
      let names = map name_of m.interfaces in
      let kept = a.managed_interfaces ++ set_difference names a.managed_interfaces in
      ground (
        arith,
        contains-set_intersection (set_difference (manage a names) names) devices name,
        contains-set_difference (manage a names) names name,
        contains-sort kept name,
        contains-append a.managed_interfaces (set_difference names a.managed_interfaces) name,
      )

  first_loop :
      (a : Applier) (managed devices : List Bytes) (k : K)
      → each_interface
          (unchanged (delete_interface s))
          m.interfaces
          (deleted_interfaces managed (map name_of m.interfaces) devices)
          k
        ≡ ((panicked, k), m.interfaces)
      → apply_interfaces s a managed m devices k ≡ ((panicked, k), m.interfaces)
  unfolding apply_interfaces
  first_loop a managed devices k e = rw (e, apply_interfaces) refl

  pub apply_machine-listed :
      (a : Applier) (k k2 : K) (devices : List Bytes)
      → s.devices k ≡ (some devices, k2)
      → apply_machine s a m k ≡ (
        (apply_interfaces s a (manage a (map name_of m.interfaces)) m devices k2).0,
        record a { managed_interfaces = manage a (map name_of m.interfaces) },
        record m {
          interfaces = (apply_interfaces s a (manage a (map name_of m.interfaces)) m devices k2).1;
        },
      )
  unfolding apply_machine
  apply_machine-listed a k k2 devices h =
      let managed = manage a (map name_of m.interfaces) in
      ap
        (λ r. elim r.0 as (λ _. (Outcome Bool × K) × Applier × Machine) [
          | none ↦ ((failed, r.1), a, m)
          | some xs ↦ (
            (apply_interfaces s a managed m xs r.1).0,
            record a { managed_interfaces = managed },
            record m { interfaces = (apply_interfaces s a managed m xs r.1).1 },
          )
        ])
        h

  -- `ApplyMachine` panics, and has done nothing to the system but list its devices, whenever a
  -- managed interface is not in the machine while the system has a device of its name: it means to
  -- delete the interface, and looks it up in the machine.
  pub apply_machine_panics :
      (a : Applier) (k k2 : K) (devices : List Bytes) (name : Bytes)
      → s.devices k ≡ (some devices, k2)
      → contains a.managed_interfaces name ≡ true
      → contains devices name ≡ true
      → contains (map name_of m.interfaces) name ≡ false
      → (apply_machine s a m k).0 ≡ (panicked, k2)
  apply_machine_panics a k k2 devices name h managed there absent =
      ap (λ r. r.0) (apply_machine-listed a k k2 devices h)
      ∙ ap (λ r. r.0)
          (first_loop a (manage a (map name_of m.interfaces)) devices k2 (
            each_interface_panics
              (deleted_interfaces (manage a (map name_of m.interfaces)) (map name_of m.interfaces)
                devices)
              name k2 (unchanged (delete_interface s))
              (deleted-contains a devices name managed there absent)
              (deleted-absent (manage a (map name_of m.interfaces)) devices)))
