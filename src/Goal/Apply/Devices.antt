-- ===== src/Goal/Apply/Devices.antt =====
-- goal/apply_linux.go: what netlink, wgctrl and /proc document of the calls that `ApplyMachine`
-- makes, for a view `v` of the devices that a state of the system has.
use qrystal.Prelude.{
  ◌≡◌, Bool, true, false, Option, some, List, ltb, ◌==◌, list_eq, nat_eq, length, contains,
}
use qrystal.Text.{Bytes}
use qrystal.Net.{IpNet}
use qrystal.Goal.Wireguard.{Config}
use qrystal.Goal.Applier.Laws.{IsLink}
use qrystal.Goal.Applier.Kept.{Keeps}
use qrystal.Goal.Apply.{System}

-- The WireGuard device of a name: whether there is one, whether the name is free, so that no link of
-- any kind has it and a link may have it, whether the device is up, the last configuration that
-- WireGuard was given, and which addresses and which routes it has.
pub record Device : Type 0 where
  pub there : Bool
  pub free : Bool
  pub up : Bool
  pub settings : Option Config
  pub addresses : IpNet → Bool
  pub routes : IpNet → Bool

module _ {K : Type 0} (s : System K) (v : K → Bytes → Device) (forwards : K → Bool)
    (look : Bytes → Option Bytes) where
  abbrev pub Unchanged : K → K → Type 0
  Unchanged k k2 = (x : Bytes) → v k2 x ≡ v k x

  -- At most the device of the name has changed.
  abbrev pub Elsewhere : Bytes → K → K → Type 0
  Elsewhere name k k2 = (x : Bytes) → (name == x) ≡ false → v k2 x ≡ v k x

  -- What the calls on the addresses of a device leave alone, and those on its routes.
  abbrev pub under_addresses : Bytes → K → Bool × Option Config
  under_addresses name k = ((v k name).there, (v k name).settings)

  abbrev pub under_routes : Bytes → K → Bool × Option Config × (IpNet → Bool)
  under_routes name k = ((v k name).there, (v k name).settings, (v k name).addresses)

  -- A device is found, configured, set up and given addresses while it is there, and is given routes
  -- while it is up. Names resolve to the same addresses throughout. Setting a device up, like its
  -- addresses, may give it routes.
  pub record IsSystem : Type 0 where
    pub lists :
        (k : K)
        → (names : List Bytes) × (k2 : K) × (s.devices k ≡ (some names, k2))
          × ((x : Bytes) → contains names x ≡ (v k x).there)
          × Unchanged k k2
    pub finds :
        (name : Bytes) (k : K)
        → (v k name).there ≡ true
        → (k2 : K) × (s.link_by_name name k ≡ (true, k2)) × Unchanged k k2
    pub creates :
        (name : Bytes) (k : K)
        → ltb 15 (length name) ≡ false
        → (v k name).there ≡ false
        → (v k name).free ≡ true
        → (k2 : K) × (s.link_add name k ≡ (true, k2))
          × ((v k2 name).there ≡ true)
          × Elsewhere name k k2
    pub resolves : (endpoint : Bytes) (k : K) → s.wireguard.resolve endpoint k ≡ (look endpoint, k)
    pub configures :
        (name : Bytes) (c : Config) (k : K)
        → (v k name).there ≡ true
        → (k2 : K) × (s.wireguard.configure_device name c k ≡ (true, k2))
          × ((v k2 name).there ≡ true)
          × ((v k2 name).settings ≡ some c)
          × Elsewhere name k k2
    pub holds_addresses :
        (name : Bytes)
        → IsLink (s.addresses name) (λ k. (v k name).there) (λ k. (v k name).addresses)
    pub addresses_keep : (name : Bytes) → Keeps (s.addresses name) (under_addresses name)
    pub addresses_elsewhere :
        (name x : Bytes) → (name == x) ≡ false → Keeps (s.addresses name) (λ k. v k x)
    pub sets_up :
        (name : Bytes) (k : K)
        → (v k name).there ≡ true
        → (k2 : K) × (s.link_set_up name k ≡ (true, k2))
          × ((v k2 name).up ≡ true)
          × (under_routes name k2 ≡ under_routes name k)
          × Elsewhere name k k2
    pub holds_routes :
        (name : Bytes) → IsLink (s.routes name) (λ k. (v k name).up) (λ k. (v k name).routes)
    pub routes_keep : (name : Bytes) → Keeps (s.routes name) (under_routes name)
    pub routes_elsewhere :
        (name x : Bytes) → (name == x) ≡ false → Keeps (s.routes name) (λ k. v k x)
    pub reads :
        (k : K)
        → (k2 : K) × (s.ip_forward k ≡ (some (forwards k), k2))
          × (forwards k2 ≡ forwards k)
          × Unchanged k k2
    pub writes :
        (value : Bool) (k : K)
        → (k2 : K) × (s.set_ip_forward value k ≡ (true, k2))
          × (forwards k2 ≡ value)
          × Unchanged k k2
