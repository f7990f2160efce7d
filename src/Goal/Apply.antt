-- ===== src/Goal/Apply.antt =====
-- goal/apply_linux.go: `ApplyMachine`, `deleteInterface`, `createInterface` and `updateInterface`.
-- The calls of netlink, wgctrl and /proc are a record, over a state `K` of the system. The source
-- sorts the slices of names in place; the managed interfaces, which it keeps, are sorted here too.
pub mod Laws
pub mod Loop
pub mod Passed
pub mod Names
pub mod Applied
pub mod Updated
pub mod Devices
use qrystal.Prelude.{
  ℕ, Bool, true, false, not, ◌&&◌, Option, none, some, List, [], ◌∷◌, ◌++◌, map, if◌then◌else◌,
  ◌==◌, list_eq, nat_eq, bool_eq, ltb, length, index_func, at_index, sort, Outcome, ok, failed,
  panicked, ◌||◌, modify,
}
use qrystal.Text.{Bytes, bytes_less}
use qrystal.Goal.Machine.{Interface, Machine}
use qrystal.Goal.Sets.{set_difference, set_intersection}
use qrystal.Goal.Wireguard.{Calls, configure_wireguard}
use qrystal.Goal.Applier.{Link, update_interface_addresses, apply_interface_routes}

-- The device of a name, and calls with a test that is true if there is no error. `ip_forward` reads
-- whether /proc/sys/net/ipv4/ip_forward is 1.
pub record System (K : Type 0) : Type 0 where
  pub devices : K → Option (List Bytes) × K
  pub link_by_name : Bytes → K → Bool × K
  pub link_del : Bytes → K → Bool × K
  pub link_add : Bytes → K → Bool × K
  pub link_set_up : Bytes → K → Bool × K
  pub wireguard : Calls K
  pub addresses : Bytes → Link K
  pub routes : Bytes → Link K
  pub ip_forward : K → Option Bool × K
  pub set_ip_forward : Bool → K → Bool × K

pub record Applier : Type 0 where
  pub managed_interfaces : List Bytes
  pub read_write_proc : Bool

-- `NewApplierLinux`: a client or a handle that is not given is opened, which may fail.
unfoldable pub new_applier_linux :
    (has_client has_handle opens_client opens_handle : Bool) → List Bytes → Bool → Outcome Applier
new_applier_linux has_client has_handle opens_client opens_handle managed_interfaces
      read_write_proc =
    if has_client || opens_client
    then (if has_handle || opens_handle
        then ok
            (record { managed_interfaces = managed_interfaces; read_write_proc = read_write_proc })
        else failed)
    else failed

-- `NewApplier`
unfoldable pub new_applier : Bool → Bool → Bool → Outcome Applier
unfolding new_applier_linux
new_applier opens_client opens_handle read_write_proc =
    new_applier_linux false false opens_client opens_handle [] read_write_proc

-- The next call, if there was no error.
abbrev pub and_then : {K : Type 0} → Bool × K → (K → Bool × K) → Bool × K
and_then (true, k) f = f k
and_then (false, k) f = (false, k)

-- The rest of the work on an interface, if there was no error.
abbrev pub and_on :
    {K : Type 0} → Bool × K → Interface → (K → (Bool × K) × Interface) → (Bool × K) × Interface
and_on (true, k) iface f = f k
and_on (false, k) iface f = ((false, k), iface)

abbrev pub name_of : Interface → Bytes
name_of iface = iface.name

-- A call that leaves the interface as it is.
abbrev pub unchanged :
    {K : Type 0} → (Interface → K → Bool × K) → Interface → K → (Bool × K) × Interface
unchanged f iface k = (f iface k, iface)

-- The interfaces of the machine, where the one at an index is left as a call leaves it.
abbrev pub put_interface : List Interface → Option ℕ → Interface → List Interface
put_interface interfaces none left = interfaces
put_interface interfaces (some i) left = modify interfaces i (λ iface. left)

-- What the loops share: each name is looked up in the machine, where -1 is a panic, and the first
-- error ends the loop.
unfoldable pub each_interface :
    {K : Type 0}
    → (Interface → K → (Bool × K) × Interface)
    → List Interface
    → List Bytes
    → K
    → (Outcome Bool × K) × List Interface
each_interface f interfaces [] k = ((ok true, k), interfaces)
each_interface f interfaces (name ∷ names) k =
    let i = index_func (λ iface. iface.name == name) interfaces in
    elim (at_index interfaces i) [
      | none ↦ ((panicked, k), interfaces)
      | some iface ↦
          let ((done, k2), left) = f iface k in
          elim done [
            | true ↦ each_interface f (put_interface interfaces i left) names k2
            | false ↦ ((failed, k2), put_interface interfaces i left)
          ]
    ]

-- The next loop, if the last one came to its end.
abbrev pub after :
    {K : Type 0}
    → (Outcome Bool × K) × List Interface
    → (K → List Interface → (Outcome Bool × K) × List Interface)
    → (Outcome Bool × K) × List Interface
after ((ok b, k), interfaces) f = f k interfaces
after ((failed, k), interfaces) f = ((failed, k), interfaces)
after ((panicked, k), interfaces) f = ((panicked, k), interfaces)

abbrev pub checked : {K : Type 0} → Bool × K → Outcome Bool × K
checked (true, k) = (ok true, k)
checked (false, k) = (failed, k)

-- The managed interfaces, with those of the machine.
abbrev pub manage : Applier → List Bytes → List Bytes
manage a names = sort (a.managed_interfaces ++ set_difference names a.managed_interfaces)

abbrev pub deleted_interfaces : List Bytes → List Bytes → List Bytes → List Bytes
deleted_interfaces managed names devices = set_intersection (set_difference managed names) devices

module _ {K : Type 0} (s : System K) where
  unfoldable pub delete_interface : Interface → K → Bool × K
  delete_interface iface k = and_then (s.link_by_name iface.name k) (λ k2. s.link_del iface.name k2)

  -- A name has at most 15 bytes.
  unfoldable pub create_interface : Interface → K → Bool × K
  create_interface iface k =
      if ltb 15 (length iface.name) then (false, k) else s.link_add iface.name k

  -- With the interface as it is left.
  unfoldable pub update_interface : Interface → K → (Bool × K) × Interface
  update_interface iface k =
      and_on
        (and_then (s.link_by_name iface.name k) (λ k2. configure_wireguard s.wireguard iface k2))
        iface
        (λ k3.
          let (brought, left) = update_interface_addresses (s.addresses iface.name) iface k3 in
          (
            and_then brought (λ k4.
                and_then (s.link_set_up iface.name k4)
                  (λ k5. apply_interface_routes (s.routes iface.name) left k5)),
            left,
          ))

  -- The part that reads and writes /proc.
  unfoldable pub set_forwarding : Applier → Machine → K → Outcome Bool × K
  set_forwarding a m k =
      if a.read_write_proc
      then (let (old, k2) = s.ip_forward k in
          elim old [
            | none ↦ (failed, k2)
            | some value ↦
                if value == m.forwards_ipv4
                then (ok true, k2)
                else checked (s.set_ip_forward m.forwards_ipv4 k2)
          ])
      else (ok true, k)

  -- IPv6 forwarding is a panic.
  unfoldable pub apply_interfaces :
      Applier → List Bytes → Machine → List Bytes → K → (Outcome Bool × K) × List Interface
  unfolding each_interface delete_interface create_interface update_interface set_forwarding
  apply_interfaces a managed m devices k =
      let names = map name_of m.interfaces in
      let deleted = deleted_interfaces managed names devices in
      after (each_interface (unchanged delete_interface) m.interfaces deleted k) (λ k2 is2.
        after (each_interface (unchanged create_interface) is2 (set_difference names devices) k2)
          (λ k3 is3.
            after (each_interface update_interface is3 (set_difference managed deleted) k3)
              (λ k4 is4.
                after (set_forwarding a m k4, is4)
                  (λ k5 is5. (if m.forwards_ipv6 then (panicked, k5) else (ok true, k5), is5)))))

  -- `ApplyMachine`, with the applier and the machine that it leaves: the addresses of interfaces are
  -- sorted in place.
  unfoldable pub apply_machine : Applier → Machine → K → (Outcome Bool × K) × Applier × Machine
  unfolding apply_interfaces
  apply_machine a m k =
      let (found, k2) = s.devices k in
      elim found [
        | none ↦ ((failed, k2), a, m)
        | some devices ↦
            let managed = manage a (map name_of m.interfaces) in
            let (result, left) = apply_interfaces a managed m devices k2 in
            (result, record a { managed_interfaces = managed }, record m { interfaces = left })
      ]
