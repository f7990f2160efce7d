-- ===== src/Goal/Apply/Updated.antt =====
-- goal/apply_linux.go: `updateInterface` and `createInterface`, on a system whose calls do what is
-- documented of them.
use qrystal.Prelude.{
  ◌≡◌, ap, sym, ◌∙◌, inl, inr, Bool, true, false, Option, some, ltb, length, contains, IsDistinct,
  list_eq, nat_eq, sort,
}
use qrystal.Text.{Bytes}
use qrystal.Net.{IpNet}
use qrystal.Goal.Machine.{Interface}
use qrystal.Goal.Wireguard.{configure_wireguard}
use qrystal.Goal.Wireguard.Laws.{HasUnresolved, asked_config, configure_wireguard-cases}
use qrystal.Goal.Applier.{
  ip_net_eq, allowed_ips, update_interface_addresses, apply_interface_routes, ip_net_less,
}
use qrystal.Goal.Applier.Laws.{update_interface_addresses-holds, apply_interface_routes-holds}
use qrystal.Goal.Applier.Kept.{update_interface_addresses-keeps, apply_interface_routes-keeps}
use qrystal.Goal.Apply.{System, create_interface, update_interface}
use qrystal.Goal.Apply.Devices.{Device, Elsewhere, under_addresses, under_routes, IsSystem}

-- What an interface may ask for: a name that a device can have, no address and no route twice, and
-- endpoints that resolve.
pub record IsSound (look : Bytes → Option Bytes) (iface : Interface) : Type 0 where
  pub short_name : ltb 15 (length iface.name) ≡ false
  pub own_addresses : IsDistinct iface.addresses
  pub own_routes : IsDistinct (allowed_ips iface.peers)
  pub own_endpoints : HasUnresolved look iface.peers → ⊥

-- The device is there and up, with the configuration of the interface, and with its addresses and
-- the routes of its peers and no others.
pub record IsBrought (look : Bytes → Option Bytes) (iface : Interface) (d : Device) : Type 0 where
  pub is_there : d.there ≡ true
  pub is_up : d.up ≡ true
  pub is_set : d.settings ≡ some (asked_config look iface)
  pub has_addresses : (x : IpNet) → d.addresses x ≡ contains iface.addresses x
  pub has_routes : (x : IpNet) → d.routes x ≡ contains (allowed_ips iface.peers) x

-- The interface, with its addresses in the order of `lessIPNet`.
abbrev pub sorted : Interface → Interface
sorted iface = record iface { addresses = sort iface.addresses }

-- An observation that a call keeps, at the state that it leaves.
left_by :
    {K V : Type 0} (obs : K → V) (r : Bool × K) (k k2 : K)
    → r ≡ (true, k2)
    → obs r.1 ≡ obs k
    → obs k2 ≡ obs k
left_by obs r k k2 h e = sym (ap (λ x. obs x.1) h) ∙ e

module _ {K : Type 0} (s : System K) (v : K → Bytes → Device) (forwards : K → Bool)
    (look : Bytes → Option Bytes) (sys : IsSystem s v forwards look) where
  configured :
      (iface : Interface) (k : K)
      → IsSound look iface
      → (v k iface.name).there ≡ true
      → (k2 : K) × (configure_wireguard s.wireguard iface k ≡ (true, k2))
        × ((v k2 iface.name).there ≡ true)
        × ((v k2 iface.name).settings ≡ some (asked_config look iface))
        × Elsewhere s v forwards look iface.name k k2
  configured iface k sound t =
      elim (configure_wireguard-cases s.wireguard look sys.resolves iface k) [
        | inl (n, h) ↦
            let (k2, p, there, set, other) =
              sys.configures iface.name (asked_config look iface) k t in
            (k2, h ∙ p, there, set, other)
        | inr (u, h) ↦ absurd (sound.own_endpoints u)
      ]

  addressed :
      (iface : Interface) (k : K)
      → IsSound look iface
      → (v k iface.name).there ≡ true
      → (k2 : K) × (update_interface_addresses (s.addresses iface.name) iface k
          ≡ ((true, k2), sorted iface))
        × (under_addresses s v forwards look iface.name k2
            ≡ under_addresses s v forwards look iface.name k)
        × ((x : IpNet) → (v k2 iface.name).addresses x ≡ contains iface.addresses x)
        × Elsewhere s v forwards look iface.name k k2
  addressed iface k sound t =
      let link = s.addresses iface.name in
      let call = (update_interface_addresses link iface k).0 in
      let (k2, p, there, holds) =
        update_interface_addresses-holds link (λ (x : K). (v x iface.name).there)
          (λ (x : K). (v x iface.name).addresses) (sys.holds_addresses iface.name) iface k t
          sound.own_addresses in
      let under = under_addresses s v forwards look iface.name in
      (
        k2,
        p,
        left_by under call k k2 (ap (λ r. r.0) p)
            (update_interface_addresses-keeps link under (sys.addresses_keep iface.name) iface k),
        holds,
        λ x h.
            left_by (λ w. v w x) call k k2 (ap (λ r. r.0) p)
              (update_interface_addresses-keeps link (λ w. v w x)
                (sys.addresses_elsewhere iface.name x h) iface k),
      )

  routed :
      (iface : Interface) (k : K)
      → IsSound look iface
      → (v k iface.name).up ≡ true
      → (k2 : K) × (apply_interface_routes (s.routes iface.name) iface k ≡ (true, k2))
        × ((v k2 iface.name).up ≡ true)
        × (under_routes s v forwards look iface.name k2
            ≡ under_routes s v forwards look iface.name k)
        × ((x : IpNet) → (v k2 iface.name).routes x ≡ contains (allowed_ips iface.peers) x)
        × Elsewhere s v forwards look iface.name k k2
  routed iface k sound t =
      let link = s.routes iface.name in
      let call = apply_interface_routes link iface k in
      let (k2, p, up, holds) =
        apply_interface_routes-holds link (λ (x : K). (v x iface.name).up)
          (λ (x : K). (v x iface.name).routes) (sys.holds_routes iface.name) iface k t
          sound.own_routes in
      let under = under_routes s v forwards look iface.name in
      (
        k2,
        p,
        up,
        left_by under call k k2 p
            (apply_interface_routes-keeps link under (sys.routes_keep iface.name) iface k),
        holds,
        λ x h.
            left_by (λ w. v w x) call k k2 p
              (apply_interface_routes-keeps link (λ w. v w x) (sys.routes_elsewhere iface.name x h)
                iface k),
      )

  -- `updateInterface`, for the interface of a device that is there: the device is brought to what
  -- the interface asks for, and no other device changes.
  pub update_interface-IsBrought :
      (iface : Interface) (k : K)
      → IsSound look iface
      → (v k iface.name).there ≡ true
      → (k2 : K) × (update_interface s iface k ≡ ((true, k2), sorted iface))
        × IsBrought look iface (v k2 iface.name)
        × Elsewhere s v forwards look iface.name k k2
  unfolding update_interface apply_interface_routes
  update_interface-IsBrought iface k sound t =
      let (k1, p1, same1) = sys.finds iface.name k t in
      let (k2, p2, t2, set2, other2) =
        configured iface k1 sound (ap (λ (d : Device). d.there) (same1 iface.name) ∙ t) in
      let (k3, p3, under3, addresses3, other3) = addressed iface k2 sound t2 in
      let t3 = ap (λ o. o.0) under3 ∙ t2 in
      let (k4, p4, up4, under4, other4) = sys.sets_up iface.name k3 t3 in
      let (k5, p5, up5, under5, routes5, other5) = routed iface k4 sound up4 in
      let under = under5 ∙ under4 in
      (
        k5,
        calls iface k k1 k2 k3 k4 k5 p1 p2 p3 p4 p5,
        record {
          is_there = ap (λ o. o.0) under ∙ t3;
          is_up = up5;
          is_set = ap (λ o. o.1) under ∙ (ap (λ o. o.1) under3 ∙ set2);
          has_addresses = λ x. ap (λ o. o.2 x) under ∙ addresses3 x;
          has_routes = routes5;
        },
        λ x h. other5 x h ∙ (other4 x h ∙ (other3 x h ∙ (other2 x h ∙ same1 x))),
      )
    where
      calls :
          (iface : Interface) (k k1 k2 k3 k4 k5 : K)
          → s.link_by_name iface.name k ≡ (true, k1)
          → configure_wireguard s.wireguard iface k1 ≡ (true, k2)
          → update_interface_addresses (s.addresses iface.name) iface k2
            ≡ ((true, k3), sorted iface)
          → s.link_set_up iface.name k3 ≡ (true, k4)
          → apply_interface_routes (s.routes iface.name) iface k4 ≡ (true, k5)
          → update_interface s iface k ≡ ((true, k5), sorted iface)
      calls iface k k1 k2 k3 k4 k5 p1 p2 p3 p4 p5 =
          rw (p1, p2, p3, p4) (ap (λ r. (r, sorted iface)) p5)

  -- `createInterface`, for a name that no device has.
  pub create_interface-there :
      (iface : Interface) (k : K)
      → IsSound look iface
      → (v k iface.name).there ≡ false
      → (v k iface.name).free ≡ true
      → (k2 : K) × (create_interface s iface k ≡ (true, k2))
        × ((v k2 iface.name).there ≡ true)
        × Elsewhere s v forwards look iface.name k k2
  unfolding create_interface
  create_interface-there iface k sound t free =
      let (k2, p, there, other) = sys.creates iface.name k sound.short_name t free in
      (k2, rw (sound.short_name, create_interface) p, there, other)
