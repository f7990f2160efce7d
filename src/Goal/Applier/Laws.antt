-- ===== src/Goal/Applier/Laws.antt =====
-- `updateInterfaceAddresses` and `applyInterfaceRoutes` of goal/apply_linux.go, on a link whose
-- calls do what netlink documents.
use qrystal.Prelude.{
  ◌≡◌, refl, ap, ◌∙◌, Bool, true, false, not, ◌&&◌, ◌||◌, none, some, List, [], ◌∷◌, ◌++◌, map,
  arith, ◌==◌, ==_iff, list_eq, nat_eq, contains, IsDistinct, bool_eq, sort, ap₂, Option,
}
use qrystal.Text.{bytes_less}
use qrystal.Net.{IpNet}
use qrystal.Goal.Machine.{Interface}
use qrystal.Goal.Sets.{set_difference, set_difference_in_place}
use qrystal.Goal.Sets.Laws.{contains-set_difference, set_difference-IsDistinct}
use qrystal.Goal.Applier.{
  ip_net_less, ip_net_eq, AddressTask, Link, to_remove, to_add, tasks_for, allowed_ips, run_task,
  run_tasks, bring_to, update_interface_addresses, apply_interface_routes, slice_left,
}

-- A link that holds a set of addresses. While it is open, which no call ends, it lists them, a call
-- without an error adds or removes one address, and there is an error only if the address is held
-- already, or is not held.
pub record IsLink {K : Type 0} (link : Link K) (open_at : K → Bool) (holds : K → IpNet → Bool)
    : Type 0 where
  pub lists :
      (k : K)
      → open_at k ≡ true
      → (present : List IpNet) × (k2 : K) × (link.list k ≡ (some present, k2))
        × (open_at k2 ≡ true)
        × IsDistinct present
        × ((ip : IpNet) → contains present ip ≡ holds k ip)
        × ((ip : IpNet) → holds k2 ip ≡ holds k ip)
  pub adds :
      (ip : IpNet) (k : K)
      → open_at k ≡ true
      → holds k ip ≡ false
      → (k2 : K) × (link.add ip k ≡ (true, k2))
        × (open_at k2 ≡ true)
        × ((x : IpNet) → holds k2 x ≡ (holds k x || ip == x))
  pub dels :
      (ip : IpNet) (k : K)
      → open_at k ≡ true
      → holds k ip ≡ true
      → (k2 : K) × (link.del ip k ≡ (true, k2))
        × (open_at k2 ≡ true)
        × ((x : IpNet) → holds k2 x ≡ (holds k x && not (ip == x)))

module _ {K : Type 0} (link : Link K) (open_at : K → Bool) (holds : K → IpNet → Bool)
    (is_link : IsLink link open_at holds) where
  run_tasks-cons :
      (task : AddressTask) (tasks : List AddressTask) (k k2 : K)
      → run_task link task k ≡ (true, k2)
      → run_tasks link (task ∷ tasks) k ≡ run_tasks link tasks k2
  unfolding run_tasks
  run_tasks-cons task tasks k k2 h =
      ap (λ r. elim r.0 [ true ↦ run_tasks link tasks r.1 | false ↦ (false, r.1) ]) h

  run_tasks-add :
      (ips : List IpNet) (k : K)
      → open_at k ≡ true
      → IsDistinct ips
      → ((ip : IpNet) → (contains ips ip && holds k ip) ≡ false)
      → (k2 : K) × (run_tasks link (map to_add ips) k ≡ (true, k2))
        × (open_at k2 ≡ true)
        × ((x : IpNet) → holds k2 x ≡ (holds k x || contains ips x))
  unfolding run_tasks
  run_tasks-add [] k o d h = (k, refl, o, λ x. ground arith)
  run_tasks-add (ip ∷ ips) k o d h =
      let (k1, p, o1, q) = is_link.adds ip k o (ground (arith, h ip, ==_iff ip ip)) in
      let (k2, r, o2, t) =
        run_tasks-add ips k1 o1 d.1 (λ x. ground (arith, h x, q x, d.0, ==_iff ip x)) in
      (
        k2,
        run_tasks-cons (to_add ip) (map to_add ips) k k1 p ∙ r,
        o2,
        λ x. ground (arith, t x, q x),
      )

  -- The addresses that are still to be removed are held still.
  kept :
      (ip : IpNet) (ips : List IpNet) (k k1 : K)
      → contains ips ip ≡ false
      → ((x : IpNet) → contains (ip ∷ ips) x ≡ true → holds k x ≡ true)
      → ((x : IpNet) → holds k1 x ≡ (holds k x && not (ip == x)))
      → (x : IpNet) → contains ips x ≡ true
      → holds k1 x ≡ true
  kept ip ips k k1 d h q x g = ground (arith, h x, q x, ==_iff ip x)

  run_tasks-remove :
      (ips : List IpNet) (rest : List AddressTask) (k : K)
      → open_at k ≡ true
      → IsDistinct ips
      → ((ip : IpNet) → contains ips ip ≡ true → holds k ip ≡ true)
      → (k2 : K) × (run_tasks link (map to_remove ips ++ rest) k ≡ run_tasks link rest k2)
        × (open_at k2 ≡ true)
        × ((x : IpNet) → holds k2 x ≡ (holds k x && not (contains ips x)))
  unfolding run_tasks
  run_tasks-remove [] rest k o d h = (k, refl, o, λ x. ground arith)
  run_tasks-remove (ip ∷ ips) rest k o d h =
      let (k1, p, o1, q) = is_link.dels ip k o (h ip (ground (arith, ==_iff ip ip))) in
      let (k2, r, o2, t) =
        run_tasks-remove ips rest k1 o1 d.1 (λ x g. kept ip ips k k1 d.0 h q x g) in
      (
        k2,
        run_tasks-cons (to_remove ip) (map to_remove ips ++ rest) k k1 p ∙ r,
        o2,
        λ x. ground (arith, t x, q x),
      )

  bring_to-listed :
      (wanted present : List IpNet) (k k1 : K)
      → link.list k ≡ (some present, k1)
      → bring_to link wanted k
        ≡ run_tasks link
            (map to_remove (set_difference present wanted)
              ++ map to_add (set_difference wanted present))
            k1
  unfolding bring_to tasks_for
  bring_to-listed wanted present k k1 h =
      ap
        (λ r. elim r.0 [ none ↦ (false, r.1) | some xs ↦ run_tasks link (tasks_for xs wanted) r.1 ])
        h

  bring_to-holds :
      (wanted : List IpNet) (k : K)
      → open_at k ≡ true
      → IsDistinct wanted
      → (k2 : K) × (bring_to link wanted k ≡ (true, k2))
        × (open_at k2 ≡ true)
        × ((x : IpNet) → holds k2 x ≡ contains wanted x)
  bring_to-holds wanted k o d =
      let (present, k1, p, o1, dp, hp, same) = is_link.lists k o in
      let (k2, q, o2, h2) =
        run_tasks-remove (set_difference present wanted)
          (map to_add (set_difference wanted present)) k1 o1
          (set_difference-IsDistinct present wanted dp)
          (λ x g. ground (arith, contains-set_difference present wanted x, hp x, same x)) in
      let (k3, r, o3, h3) =
        run_tasks-add (set_difference wanted present) k2 o2
          (set_difference-IsDistinct wanted present d)
          (λ x. ground (
            arith,
            contains-set_difference wanted present x,
            contains-set_difference present wanted x,
            h2 x,
            hp x,
            same x,
          )) in
      (
        k3,
        bring_to-listed wanted present k k1 p ∙ (q ∙ r),
        o3,
        λ x. ground (
          arith,
          contains-set_difference wanted present x,
          contains-set_difference present wanted x,
          h2 x,
          h3 x,
          hp x,
          same x,
        ),
      )

  slice_left-sort :
      (wanted present : List IpNet) (k k1 : K)
      → link.list k ≡ (some present, k1)
      → slice_left link wanted k ≡ sort wanted
  unfolding slice_left set_difference_in_place
  slice_left-sort wanted present k k1 h =
      ap
        (λ (r : Option (List IpNet) × K). elim r.0 as (λ _. List IpNet) [
          | none ↦ wanted
          | some xs ↦ sort wanted
        ])
        h

  -- On a link that does what netlink documents, and is open, `updateInterfaceAddresses` succeeds for
  -- an interface that lists no address twice, and then the link is open and holds exactly the
  -- addresses of the interface, whose slice is sorted.
  pub update_interface_addresses-holds :
      (iface : Interface) (k : K)
      → open_at k ≡ true
      → IsDistinct iface.addresses
      → (k2 : K) × (update_interface_addresses link iface k
          ≡ ((true, k2), record iface { addresses = sort iface.addresses }))
        × (open_at k2 ≡ true)
        × ((x : IpNet) → holds k2 x ≡ contains iface.addresses x)
  unfolding update_interface_addresses
  update_interface_addresses-holds iface k o d =
      let (k2, p, o2, held) = bring_to-holds iface.addresses k o d in
      let (present, k1, q, o1, d1, h1, s1) = is_link.lists k o in
      (
        k2,
        ap₂ (λ r xs. (r, record iface { addresses = xs })) p
            (slice_left-sort iface.addresses present k k1 q),
        o2,
        held,
      )

  pub apply_interface_routes-holds :
      (iface : Interface) (k : K)
      → open_at k ≡ true
      → IsDistinct (allowed_ips iface.peers)
      → (k2 : K) × (apply_interface_routes link iface k ≡ (true, k2))
        × (open_at k2 ≡ true)
        × ((x : IpNet) → holds k2 x ≡ contains (allowed_ips iface.peers) x)
  unfolding apply_interface_routes
  apply_interface_routes-holds iface k o d = bring_to-holds (allowed_ips iface.peers) k o d
