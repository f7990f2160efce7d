-- ===== src/Goal/Apply/Applied.antt =====
-- goal/apply_linux.go: `ApplyMachine` as a whole, on a system whose calls do what is documented of
-- them.
use qrystal.Prelude.{
  ◌≡◌, refl, ap, sym, ◌∙◌, subst, Bool, true, false, none, some, List, [], map, arith, contains,
  IsDistinct, ◌==◌, ==_iff, list_eq, nat_eq, bool_eq, Outcome, ok, failed, Bool-cases, inl, inr, ap,
  Option, if◌then◌else◌,
}
use qrystal.Text.{Bytes, bytes_less}
use qrystal.Goal.Machine.{Interface, Machine}
use qrystal.Goal.Sets.{set_difference}
use qrystal.Goal.Apply.{
  System, Applier, name_of, each_interface, checked, manage, deleted_interfaces, create_interface,
  update_interface, set_forwarding, apply_interfaces, apply_machine, unchanged,
}
use qrystal.Goal.Apply.Names.{contains-manage, deleted_empty}
use qrystal.Goal.Apply.Laws.{apply_machine-listed}
use qrystal.Goal.Apply.Loop.{IsNamed}
use qrystal.Goal.Apply.Devices.{Device, IsSystem, Unchanged}
use qrystal.Goal.Apply.Updated.{IsSound, IsBrought, sorted}
use qrystal.Goal.Apply.Passed.{IsManaged, named_there, all_created, all_updated}

module _ {K : Type 0} (s : System K) (v : K → Bytes → Device) (forwards : K → Bool)
    (look : Bytes → Option Bytes) (sys : IsSystem s v forwards look) (m : Machine)
    (sound : (name : Bytes) (iface : Interface)
      → IsNamed m.interfaces name iface
      → IsSound look iface) where
  set_forwarding-read :
      (a : Applier) (k k1 : K) (value : Bool)
      → a.read_write_proc ≡ true
      → s.ip_forward k ≡ (some value, k1)
      → set_forwarding s a m k ≡ (
          if value == m.forwards_ipv4
          then (ok true, k1)
          else checked (s.set_ip_forward m.forwards_ipv4 k1))
  unfolding set_forwarding
  set_forwarding-read a k k1 value e p =
      rw (e, set_forwarding)
        (ap
          (λ (r : Option Bool × K). elim r.0 as (λ _. Outcome Bool × K) [
            | none ↦ (failed, r.1)
            | some b ↦
                if b == m.forwards_ipv4
                then (ok true, r.1)
                else checked (s.set_ip_forward m.forwards_ipv4 r.1)
          ])
          p)

  forwarded :
      (a : Applier) (k : K)
      → (k2 : K) × (set_forwarding s a m k ≡ (ok true, k2))
        × (a.read_write_proc ≡ true → forwards k2 ≡ m.forwards_ipv4)
        × Unchanged s v forwards look k k2
  unfolding set_forwarding
  forwarded a k = elim (Bool-cases a.read_write_proc) [
    | inr e ↦ (k, rw (e, set_forwarding) refl, λ h. absurd (ground arith), λ x. refl)
    | inl e ↦
        let (k1, p1, f1, u1) = sys.reads k in
        let (k2, p2, f2, u2) = sys.writes m.forwards_ipv4 k1 in
        let read = set_forwarding-read a k k1 (forwards k) e p1 in
        elim (Bool-cases (forwards k == m.forwards_ipv4)) [
          | inl q ↦ (k1, read ∙ rw q refl, λ h. f1 ∙ (==_iff (forwards k) m.forwards_ipv4).0 q, u1)
          | inr q ↦ (k2, read ∙ rw q (ap checked p2), λ h. f2, λ x. u2 x ∙ u1 x)
        ]
  ]

  loops :
      (a : Applier) (managed devices : List Bytes) (now left : List Interface) (k k1 k2 k3 : K)
      → deleted_interfaces managed (map name_of m.interfaces) devices ≡ []
      → each_interface
          (unchanged (create_interface s))
          m.interfaces
          (set_difference (map name_of m.interfaces) devices)
          k
        ≡ ((ok true, k1), now)
      → each_interface (update_interface s) now (set_difference managed []) k1
        ≡ ((ok true, k2), left)
      → set_forwarding s a m k2 ≡ (ok true, k3)
      → m.forwards_ipv6 ≡ false
      → apply_interfaces s a managed m devices k ≡ ((ok true, k3), left)
  unfolding apply_interfaces each_interface
  loops a managed devices now left k k1 k2 k3 none_deleted p1 p2 p3 no_v6 =
      rw (none_deleted, p1, p2, p3, no_v6, apply_interfaces) refl

  -- On a system whose calls do what is documented, `ApplyMachine` succeeds if the machine asks for
  -- interfaces of different names of at most 15 bytes, which WireGuard devices have or which are free,
  -- each with no address and no route twice and endpoints that resolve, and for no IPv6 forwarding,
  -- and if each managed interface, listed once, is one of them. Then the device of each interface is
  -- there and up, with the configuration of the interface and exactly its addresses and the routes of
  -- its peers; devices of other names have not changed; and if the applier writes to /proc, IPv4
  -- forwarding is as the machine asks. The applier is left to manage the machine's interfaces and no
  -- others, and the machine is left with the addresses of each interface in order.
  pub apply_machine-IsBrought :
      (a : Applier) (k : K)
      → IsDistinct a.managed_interfaces
      → IsDistinct (map name_of m.interfaces)
      → IsManaged a m
      → m.forwards_ipv6 ≡ false
      → ((x : Bytes)
          → contains (map name_of m.interfaces) x ≡ true
          → (v k x).there ≡ false
          → (v k x).free ≡ true)
      → (k2 : K) × ((apply_machine s a m k).0 ≡ (ok true, k2))
        × ((name : Bytes) (iface : Interface)
            → IsNamed m.interfaces name iface
            → IsBrought look iface (v k2 name))
        × ((name : Bytes) → contains (map name_of m.interfaces) name ≡ false → v k2 name ≡ v k name)
        × (a.read_write_proc ≡ true → forwards k2 ≡ m.forwards_ipv4)
        × ((x : Bytes)
            → contains (apply_machine s a m k).1.managed_interfaces x
              ≡ contains (map name_of m.interfaces) x)
        × ((name : Bytes) (iface : Interface)
            → IsNamed m.interfaces name iface
            → IsNamed (apply_machine s a m k).2.interfaces name (sorted iface))
  apply_machine-IsBrought a k d g known no_v6 free =
      let names = map name_of m.interfaces in
      let (devices, k0, p0, there0, u0) = sys.lists k in
      let (k1, now, p1, there1, other1, finds1) =
        all_created s v forwards look sys m sound devices k0 g
          (λ x. ap (λ (d : Device). d.there) (u0 x) ∙ sym (there0 x))
          (λ x h t.
            ap (λ (d : Device). d.free) (u0 x)
            ∙ free x h (sym (ap (λ (d : Device). d.there) (u0 x)) ∙ t)) in
      let (k2, left, p2, brought2, other2, named2) =
        all_updated s v forwards look sys m sound a now k1 d g known finds1 there1 in
      let (k3, p3, f3, u3) = forwarded a k2 in
      let run =
        loops a (manage a names) devices now left k0 k1 k2 k3 (deleted_empty a names known devices)
          p1 p2 p3 no_v6 in
      let listed = apply_machine-listed s m a k k0 devices p0 in
      (
        k3,
        ap (λ r. r.0) listed ∙ ap (λ r. r.0) run,
        λ name iface at.
            subst (λ (d : Device). IsBrought look iface d) (sym (u3 name))
              (brought2 name (named_there m.interfaces name iface at) iface at),
        λ name h. u3 name ∙ (other2 name h ∙ (other1 name h ∙ u0 name)),
        f3,
        λ x.
            ap (λ (r : (Outcome Bool × K) × Applier × Machine). contains r.1.managed_interfaces x)
              listed
            ∙ contains-manage a names known x,
        λ name iface at.
            subst (λ is. IsNamed is name (sorted iface))
              (sym (
                ap (λ (r : (Outcome Bool × K) × Applier × Machine). r.2.interfaces) listed
                ∙ ap (λ r. r.1) run))
              (named2 name iface at),
      )
