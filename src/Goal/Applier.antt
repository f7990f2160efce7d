-- ===== src/Goal/Applier.antt =====
-- goal/apply_linux.go: `updateInterfaceAddresses` and `applyInterfaceRoutes`, which bring the
-- addresses and the routes of a link to what an interface wants. The link is fixed; the calls of the
-- netlink library on it are a record, over a state `K` of the kernel. `lessIPNet` is of goal/util.go.
pub mod Laws
pub mod Kept
use qrystal.Prelude.{
  Bool, true, false, ◌&&◌, ◌||◌, ◌≡◌, Option, none, some, List, [], ◌∷◌, ◌++◌, map, arith, Less,
  list_eq, nat_eq, Eq, ◌==◌, ==_iff, ◌↔◌, compare, Ordering,
}
use qrystal.Text.{
  Bytes, bytes_less, compare_bytes, compare_bytes_self, compare_bytes-eq, compare_bytes-gt,
  compare_bytes_trans, is_lt, is_eq,
}
use qrystal.Net.{IpNet}
use qrystal.Goal.Machine.{Interface, InterfacePeer}
use qrystal.Goal.Sets.{set_difference, set_difference_in_place}

abbrev pub less_ip_net : IpNet → IpNet → Bool
less_ip_net x y =
    is_lt (compare_bytes x.ip y.ip)
    || (is_eq (compare_bytes x.ip y.ip) && is_lt (compare_bytes x.mask y.mask))

pub less_ip_net_irrefl : (x : IpNet) → less_ip_net x x ≡ false
less_ip_net_irrefl x = ground (arith, compare_bytes_self x.ip, compare_bytes_self x.mask)

pub less_ip_net_trans :
    (x y z : IpNet) → less_ip_net x y ≡ true → less_ip_net y z ≡ true → less_ip_net x z ≡ true
less_ip_net_trans x y z h k = ground (
  arith,
  compare_bytes_trans x.ip y.ip z.ip,
  compare_bytes_trans x.mask y.mask z.mask,
  compare_bytes-eq x.ip y.ip,
  compare_bytes-eq y.ip z.ip,
  compare_bytes_self y.ip,
)

pub less_ip_net_total : (x y : IpNet) → less_ip_net x y ≡ false → less_ip_net y x ≡ false → x ≡ y
less_ip_net_total x y h k = ground (
  arith,
  compare_bytes-eq x.ip y.ip,
  compare_bytes-gt x.ip y.ip,
  compare_bytes_self y.ip,
  compare_bytes-eq x.mask y.mask,
  compare_bytes-gt x.mask y.mask,
)

instance abbrev pub ip_net_less : Less IpNet
ip_net_less = record {
  less = less_ip_net;
  irrefl = less_ip_net_irrefl;
  trans = less_ip_net_trans;
  total = less_ip_net_total;
}

abbrev pub ip_net_same : IpNet → IpNet → Bool
ip_net_same x y = x.ip == y.ip && x.mask == y.mask

pub ip_net_same_iff : (x y : IpNet) → (ip_net_same x y ≡ true) ↔ (x ≡ y)
ip_net_same_iff x y = ground (arith, ==_iff x.ip y.ip, ==_iff x.mask y.mask)

instance abbrev pub ip_net_eq : Eq IpNet
ip_net_eq = record { equal = ip_net_same; equal_iff = ip_net_same_iff }

pub record AddressTask : Type 0 where
  pub add : Bool
  pub ip : IpNet

-- `AddrList`, `AddrAdd` and `AddrDel` on the link, or `RouteList`, `RouteAdd` and `RouteDel`: the
-- addresses, with `none` for an error, and whether there is no error. The source dereferences the
-- destination of each route that is listed, which is taken to be there.
pub record Link (K : Type 0) : Type 0 where
  pub list : K → Option (List IpNet) × K
  pub add : IpNet → K → Bool × K
  pub del : IpNet → K → Bool × K

abbrev pub to_remove : IpNet → AddressTask
to_remove ip = record { add = false; ip = ip }

abbrev pub to_add : IpNet → AddressTask
to_add ip = record { add = true; ip = ip }

-- The removals first, then the additions.
unfoldable pub tasks_for : List IpNet → List IpNet → List AddressTask
tasks_for present wanted =
    map to_remove (set_difference present wanted) ++ map to_add (set_difference wanted present)

abbrev pub allowed_ips : List InterfacePeer → List IpNet
allowed_ips [] = []
allowed_ips (peer ∷ peers) = peer.allowed_ips ++ allowed_ips peers

module _ {K : Type 0} (link : Link K) where
  abbrev pub run_task : AddressTask → K → Bool × K
  run_task task k = elim task.add [ true ↦ link.add task.ip k | false ↦ link.del task.ip k ]

  -- The loop over the tasks, which ends at the first error.
  unfoldable pub run_tasks : List AddressTask → K → Bool × K
  run_tasks [] k = (true, k)
  run_tasks (task ∷ tasks) k =
      let (done, k2) = run_task task k in
      elim done [ true ↦ run_tasks tasks k2 | false ↦ (false, k2) ]

  -- What the two functions share, for the addresses that are wanted.
  unfoldable pub bring_to : List IpNet → K → Bool × K
  unfolding run_tasks tasks_for
  bring_to wanted k =
      let (found, k2) = link.list k in
      elim found [ none ↦ (false, k2) | some present ↦ run_tasks (tasks_for present wanted) k2 ]

  -- The slice of the addresses that are wanted, as `setDifference` leaves it.
  unfoldable pub slice_left : List IpNet → K → List IpNet
  unfolding set_difference_in_place
  slice_left wanted k = elim (link.list k).0 [
    | none ↦ wanted
    | some present ↦ (set_difference_in_place present wanted).2
  ]

  -- With the interface as it is left: its addresses are sorted in place.
  unfoldable pub update_interface_addresses : Interface → K → (Bool × K) × Interface
  unfolding bring_to slice_left
  update_interface_addresses iface k =
      (bring_to iface.addresses k, record iface { addresses = slice_left iface.addresses k })

  unfoldable pub apply_interface_routes : Interface → K → Bool × K
  unfolding bring_to
  apply_interface_routes iface k = bring_to (allowed_ips iface.peers) k
