-- ===== src/Goal/Apply/Passed.antt =====
-- goal/apply_linux.go: the loops of `ApplyMachine` that create and update devices, on a system whose
-- calls do what is documented of them.
use qrystal.Prelude.{
  ◌≡◌, ap, sym, ◌∙◌, subst, Bool, true, false, List, [], map, arith, contains, IsDistinct,
  find_func-test, ◌==◌, ==_iff, list_eq, nat_eq, bool_eq, ok, Bool-cases, inl, inr, ap, Option,
  find_func-contains, is_some, refl, find_func, ap₂, none, some,
}
use qrystal.Text.{Bytes, bytes_less}
use qrystal.Goal.Machine.{Interface, Machine}
use qrystal.Goal.Sets.{set_difference}
use qrystal.Goal.Sets.Laws.{contains-set_difference, set_difference-IsDistinct}
use qrystal.Goal.Apply.{
  System, Applier, name_of, each_interface, manage, create_interface, update_interface, unchanged,
}
use qrystal.Goal.Apply.Names.{manage-IsDistinct, contains-updated}
use qrystal.Goal.Apply.Loop.{IsNamed, Passes, each_interface-done, found_after}
use qrystal.Goal.Apply.Devices.{Device, IsSystem}
use qrystal.Goal.Apply.Updated.{
  IsSound, IsBrought, update_interface-IsBrought, create_interface-there, sorted,
}

-- The name that a search finds is the name that was searched.
named_by :
    (interfaces : List Interface) (name : Bytes) (iface : Interface)
    → IsNamed interfaces name iface
    → iface.name ≡ name
named_by interfaces name iface h =
    (==_iff iface.name name).0 (find_func-test (λ i. i.name == name) interfaces iface h)

pub named_there :
    (interfaces : List Interface) (name : Bytes) (iface : Interface)
    → IsNamed interfaces name iface
    → contains (map name_of interfaces) name ≡ true
named_there interfaces name iface h =
    sym (find_func-contains name_of interfaces name) ∙ ap is_some h

-- Each interface that is managed is one of the machine's.
abbrev pub IsManaged : Applier → Machine → Type 0
IsManaged a m =
    (x : Bytes)
    → contains a.managed_interfaces x ≡ true
    → contains (map name_of m.interfaces) x ≡ true

module _ {K : Type 0} (s : System K) (v : K → Bytes → Device) (forwards : K → Bool)
    (look : Bytes → Option Bytes) (sys : IsSystem s v forwards look) (m : Machine)
    (sound : (name : Bytes) (iface : Interface)
      → IsNamed m.interfaces name iface
      → IsSound look iface) where
  -- What is to be done at a name before each loop, and what is done after it.
  abbrev pub Missing : Bytes → Device → Type 0
  Missing name d = (d.there ≡ false) × (d.free ≡ true)

  abbrev pub There : Bytes → Device → Type 0
  There name d = d.there ≡ true

  abbrev pub Brought : Bytes → Device → Type 0
  Brought name d = (iface : Interface) → IsNamed m.interfaces name iface → IsBrought look iface d

  creating : Passes v (unchanged (create_interface s)) (λ i. i) m.interfaces Missing There
  creating name iface k at todo =
      let same = named_by m.interfaces name iface at in
      let (k2, p, there, other) =
        create_interface-there s v forwards look sys iface k (sound name iface at)
          (ap (λ n. (v k n).there) same ∙ todo.0) (ap (λ n. (v k n).free) same ∙ todo.1) in
      (
        k2,
        ap (λ r. (r, iface)) p,
        refl,
        sym (ap (λ n. (v k2 n).there) same) ∙ there,
        λ y h. other y (ap (λ n. n == y) same ∙ h),
      )

  updating : Passes v (update_interface s) sorted m.interfaces There Brought
  updating name iface k at todo =
      let same = named_by m.interfaces name iface at in
      let (k2, p, brought, other) =
        update_interface-IsBrought s v forwards look sys iface k (sound name iface at)
          (ap (λ n. (v k n).there) same ∙ todo) in
      (
        k2,
        p,
        refl,
        λ found at2.
            subst (λ (i : Interface). IsBrought look i (v k2 name)) (same_found iface found at at2)
              (subst (λ (n : Bytes). IsBrought look iface (v k2 n)) same brought),
        λ y h. other y (ap (λ n. n == y) same ∙ h),
      )
    where
      same_found :
          (iface found : Interface)
          → IsNamed m.interfaces name iface
          → IsNamed m.interfaces name found
          → iface ≡ found
      same_found iface found h g = cc

  -- After the second loop there is a device for each interface.
  created :
      (devices : List Bytes) (k0 k1 : K) (y : Bytes)
      → (v k0 y).there ≡ contains devices y
      → ((x : Bytes)
          → contains (set_difference (map name_of m.interfaces) devices) x ≡ true
          → There x (v k1 x))
      → ((x : Bytes)
          → contains (set_difference (map name_of m.interfaces) devices) x ≡ false
          → v k1 x ≡ v k0 x)
      → contains (map name_of m.interfaces) y ≡ true
      → There y (v k1 y)
  created devices k0 k1 y there0 all other h =
      let split = contains-set_difference (map name_of m.interfaces) devices y in
      elim (Bool-cases (contains devices y)) [
        | inl e ↦ ap (λ (d : Device). d.there) (other y (ground (arith, split))) ∙ (there0 ∙ e)
        | inr e ↦ all y (ground (arith, split))
      ]

  not_listed :
      (devices : List Bytes) (x : Bytes)
      → contains (set_difference (map name_of m.interfaces) devices) x ≡ true
      → contains devices x ≡ false
  not_listed devices x h =
      ground (arith, contains-set_difference (map name_of m.interfaces) devices x)

  in_names :
      (devices : List Bytes) (x : Bytes)
      → contains (set_difference (map name_of m.interfaces) devices) x ≡ true
      → contains (map name_of m.interfaces) x ≡ true
  in_names devices x h =
      ground (arith, contains-set_difference (map name_of m.interfaces) devices x)

  -- The loop that creates devices.
  pub all_created :
      (devices : List Bytes) (k : K)
      → IsDistinct (map name_of m.interfaces)
      → ((x : Bytes) → (v k x).there ≡ contains devices x)
      → ((x : Bytes)
          → contains (map name_of m.interfaces) x ≡ true
          → (v k x).there ≡ false
          → (v k x).free ≡ true)
      → (k2 : K) × (left : List Interface) × (each_interface
            (unchanged (create_interface s))
            m.interfaces
            (set_difference (map name_of m.interfaces) devices)
            k
          ≡ ((ok true, k2), left))
        × ((x : Bytes) → contains (map name_of m.interfaces) x ≡ true → There x (v k2 x))
        × ((x : Bytes) → contains (map name_of m.interfaces) x ≡ false → v k2 x ≡ v k x)
        × ((x : Bytes)
            → find_func (λ i. i.name == x) left ≡ find_func (λ i. i.name == x) m.interfaces)
  all_created devices k d listed free =
      let names = map name_of m.interfaces in
      let missing = λ (x : Bytes) (h : contains (set_difference names devices) x ≡ true).
        listed x ∙ not_listed devices x h in
      let known = λ (x : Bytes) (h : contains (set_difference names devices) x ≡ true).
        in_names devices x h in
      let (k2, left, p, all, other, finds) =
        each_interface-done v (unchanged (create_interface s)) (λ i. i) m.interfaces Missing There
          creating (set_difference names devices) m.interfaces k
          (set_difference-IsDistinct names devices d) known (λ x h. refl)
          (λ x h. (missing x h, free x (known x h) (missing x h))) in
      (
        k2,
        left,
        p,
        λ x h. created devices k k2 x (listed x) all other h,
        λ x h. other x (ground (arith, contains-set_difference names devices x)),
        λ x.
            finds x
            ∙ same_found (contains (set_difference names devices) x)
                (find_func (λ (i : Interface). i.name == x) m.interfaces),
      )
    where
      same_found : (b : Bool) (found : Option Interface) → found_after (λ i. i) b found ≡ found
      same_found true none = refl
      same_found true (some i) = refl
      same_found false found = refl

  -- The loop that updates them.
  pub all_updated :
      (a : Applier) (now : List Interface) (k : K)
      → IsDistinct a.managed_interfaces
      → IsDistinct (map name_of m.interfaces)
      → IsManaged a m
      → ((x : Bytes) → find_func (λ i. i.name == x) now ≡ find_func (λ i. i.name == x) m.interfaces)
      → ((x : Bytes) → contains (map name_of m.interfaces) x ≡ true → There x (v k x))
      → (k2 : K) × (left : List Interface) × (each_interface
            (update_interface s)
            now
            (set_difference (manage a (map name_of m.interfaces)) [])
            k
          ≡ ((ok true, k2), left))
        × ((x : Bytes) → contains (map name_of m.interfaces) x ≡ true → Brought x (v k2 x))
        × ((x : Bytes) → contains (map name_of m.interfaces) x ≡ false → v k2 x ≡ v k x)
        × ((name : Bytes) (iface : Interface)
            → IsNamed m.interfaces name iface
            → IsNamed left name (sorted iface))
  all_updated a now k d g known finds0 there =
      let names = map name_of m.interfaces in
      let same = contains-updated a names known in
      let (k2, left, p, all, other, finds) =
        each_interface-done v (update_interface s) sorted m.interfaces There Brought updating
          (set_difference (manage a names) []) now k
          (set_difference-IsDistinct (manage a names) [] (manage-IsDistinct a names known d g))
          (λ x h. sym (same x) ∙ h) (λ x h. finds0 x) (λ x h. there x (sym (same x) ∙ h)) in
      (
        k2,
        left,
        p,
        λ x h. all x (same x ∙ h),
        λ x h. other x (same x ∙ h),
        λ name iface at.
            finds name
            ∙ ap₂ (found_after sorted) (same name ∙ named_there m.interfaces name iface at)
                (finds0 name ∙ at),
      )
