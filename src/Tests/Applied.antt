-- ===== src/Tests/Applied.antt =====
-- A system of devices, on which an applier (goal/apply_linux.go) brings a machine about.
use qrystal.Prelude.{
  ◌≡◌, refl, ap, ◌∙◌, pos, Bool, true, false, not, ◌&&◌, ◌||◌, Option, some, none, List, [], ◌∷◌,
  map, arith, if◌then◌else◌, ◌==◌, ==_iff, list_eq, nat_eq, contains, filter_by, contains-filter_by,
  ok, replicate, inl, inr, Bool-cases, subst, ℕ,
}
use qrystal.Text.{Bytes, bytes}
use qrystal.Net.{IpNet}
use qrystal.Goal.Machine.{Machine, Interface, InterfacePeer}
use qrystal.Goal.Wireguard.{Config}
use qrystal.Goal.Applier.{ip_net_eq, Link, ip_net_less}
use qrystal.Goal.Applier.Laws.{IsLink}
use qrystal.Goal.Applier.Kept.{Keeps}
use qrystal.Goal.Apply.{System, Applier, apply_machine, name_of}
use qrystal.Goal.Apply.Devices.{Device, IsSystem}
use qrystal.Goal.Apply.Loop.{IsNamed}
use qrystal.Goal.Apply.Updated.{IsSound, IsBrought, sorted}
use qrystal.Goal.Apply.Passed.{IsManaged}
use qrystal.Goal.Apply.Applied.{apply_machine-IsBrought}
use qrystal.Goal.Wireguard.Laws.{HasUnresolved}
use qrystal.Tests.Goal.{once, contains-once, once-IsDistinct}

record Parts : Type 0 where
  free : Bool
  up : Bool
  settings : Option Config
  addresses : List IpNet
  routes : List IpNet

record State : Type 0 where
  names : List Bytes
  parts : Bytes → Parts
  forwards : Bool

abbrev view_of : Bool → Parts → Device
view_of there p = record {
  free = p.free;
  there = there;
  up = p.up;
  settings = p.settings;
  addresses = contains p.addresses;
  routes = contains p.routes;
}

abbrev view : State → Bytes → Device
view k x = view_of (contains k.names x) (k.parts x)

abbrev changed : Bytes → (Parts → Parts) → State → State
changed name f k = record k { parts = λ x. if name == x then f (k.parts x) else k.parts x }

changed_self :
    (name : Bytes) (f : Parts → Parts) (k : State)
    → (changed name f k).parts name ≡ f (k.parts name)
changed_self name f k = let same : (name == name) ≡ true = (==_iff name name).1 refl in rw same refl

changed_other :
    (name : Bytes) (f : Parts → Parts) (k : State) (x : Bytes)
    → (name == x) ≡ false
    → (changed name f k).parts x ≡ k.parts x
changed_other name f k x h = rw h refl

-- The addresses or the routes of a device, behind a gate.
module _ (name : Bytes) (gate : State → Bool) (get : Parts → List IpNet)
    (set : List IpNet → Parts → Parts) where
  abbrev link_of : Link State
  link_of = record {
    list = λ k. (if gate k then some (once (get (k.parts name))) else none, k);
    add = λ ip k. (
      gate k && not (contains (get (k.parts name)) ip),
      changed name (set (ip ∷ get (k.parts name))) k,
    );
    del = λ ip k. (
      gate k && contains (get (k.parts name)) ip,
      changed name (set (filter_by (λ x. not (ip == x)) (get (k.parts name)))) k,
    );
  }

  link_of-IsLink :
      ((xs : List IpNet) (p : Parts) → get (set xs p) ≡ xs)
      → ((xs : List IpNet) (k : State) → gate (changed name (set xs) k) ≡ gate k)
      → IsLink link_of gate (λ k. contains (get (k.parts name)))
  link_of-IsLink got kept = record {
    lists = λ k o. (
      once (get (k.parts name)),
      k,
      rw o refl,
      o,
      once-IsDistinct (get (k.parts name)),
      contains-once (get (k.parts name)),
      λ ip. refl,
    );
    adds = λ ip k o h.
        let xs = ip ∷ get (k.parts name) in
        (
          changed name (set xs) k,
          ap (λ b. (b, changed name (set xs) k)) (ground arith),
          kept xs k ∙ o,
          λ x.
              ap (λ ys. contains ys x)
                (ap get (changed_self name (set xs) k) ∙ got xs (k.parts name))
              ∙ ground arith,
        );
    dels = λ ip k o h.
        let xs = filter_by (λ x. not (ip == x)) (get (k.parts name)) in
        (
          changed name (set xs) k,
          ap (λ b. (b, changed name (set xs) k)) (ground arith),
          kept xs k ∙ o,
          λ x.
              ap (λ ys. contains ys x)
                (ap get (changed_self name (set xs) k) ∙ got xs (k.parts name))
              ∙ contains-filter_by (λ y. not (ip == y)) (get (k.parts name)) x,
        );
  }

  link_of-Keeps :
      {V : Type 0} (obs : State → V)
      → ((xs : List IpNet) (k : State) → obs (changed name (set xs) k) ≡ obs k)
      → Keeps link_of obs
  link_of-Keeps obs h = record {
    listing = λ k. refl;
    adding = λ ip k. h (ip ∷ get (k.parts name)) k;
    deleting = λ ip k. h (filter_by (λ x. not (ip == x)) (get (k.parts name))) k;
  }

abbrev set_addresses : List IpNet → Parts → Parts
set_addresses xs p = record p { addresses = xs }

abbrev set_routes : List IpNet → Parts → Parts
set_routes xs p = record p { routes = xs }

abbrev fresh : Parts → Parts
fresh p = record { free = false; up = false; settings = none; addresses = []; routes = [] }

abbrev look : Bytes → Option Bytes
look endpoint = if endpoint == bytes "nowhere" then none else some (0 ∷ endpoint)

abbrev addresses_of : Bytes → Link State
addresses_of name = link_of name (λ k. contains k.names name) (λ p. p.addresses) set_addresses

abbrev routes_of : Bytes → Link State
routes_of name = link_of name (λ k. (k.parts name).up) (λ p. p.routes) set_routes

abbrev system : System State
system = record {
  devices = λ k. (some k.names, k);
  link_by_name = λ name k. (contains k.names name, k);
  link_del = λ name k.
      (contains k.names name, record k { names = filter_by (λ x. not (name == x)) k.names });
  link_add = λ name k.
      (not (contains k.names name), record (changed name fresh k) { names = name ∷ k.names });
  link_set_up = λ name k. (contains k.names name, changed name (λ p. record p { up = true }) k);
  wireguard = record {
    resolve = λ endpoint k. (look endpoint, k);
    configure_device =
        λ name c k. (contains k.names name, changed name (λ p. record p { settings = some c }) k);
  };
  addresses = addresses_of;
  routes = routes_of;
  ip_forward = λ k. (some k.forwards, k);
  set_ip_forward = λ value k. (true, record k { forwards = value });
}

-- A changed device leaves the others.
view_other :
    (name : Bytes) (f : Parts → Parts) (k : State) (x : Bytes)
    → (name == x) ≡ false
    → view (changed name f k) x ≡ view k x
view_other name f k x h = ap (view_of (contains k.names x)) (changed_other name f k x h)

-- Every call does what is documented.
system-IsSystem : IsSystem system view (λ k. k.forwards) look
system-IsSystem = record {
  lists = λ k. (k.names, k, refl, λ x. refl, λ x. refl);
  finds = λ name k t. (k, ap (λ b. (b, k)) t, λ x. refl);
  creates = λ name k l t free.
      let k2 = (system.link_add name k).1 in
      (
        k2,
        ap (λ b. (not b, k2)) t,
        ground (arith, ==_iff name name),
        λ x h.
            ap (λ b. view_of (b || contains k.names x) (k2.parts x)) h
            ∙ ap (view_of (contains k.names x)) (changed_other name fresh k x h),
      );
  resolves = λ endpoint k. refl;
  configures = λ name c k t.
      let f = λ (p : Parts). record p { settings = some c } in
      (
        changed name f k,
        ap (λ b. (b, changed name f k)) t,
        t,
        ap (λ (p : Parts). p.settings) (changed_self name f k),
        λ x h. view_other name f k x h,
      );
  holds_addresses = λ name.
      link_of-IsLink name (λ k. contains k.names name) (λ p. p.addresses) set_addresses
        (λ xs p. refl) (λ xs k. refl);
  addresses_keep = λ name.
      link_of-Keeps name (λ k. contains k.names name) (λ p. p.addresses) set_addresses
        (λ k. (contains k.names name, (k.parts name).settings))
        (λ xs k.
          ap (λ (p : Parts). (contains k.names name, p.settings))
            (changed_self name (set_addresses xs) k));
  addresses_elsewhere = λ name x h.
      link_of-Keeps name (λ k. contains k.names name) (λ p. p.addresses) set_addresses
        (λ k. view k x) (λ xs k. view_other name (set_addresses xs) k x h);
  sets_up = λ name k t.
      let f = λ (p : Parts). record p { up = true } in
      (
        changed name f k,
        ap (λ b. (b, changed name f k)) t,
        ap (λ (p : Parts). p.up) (changed_self name f k),
        ap (λ (p : Parts). (contains k.names name, p.settings, contains p.addresses))
            (changed_self name f k),
        λ x h. view_other name f k x h,
      );
  holds_routes = λ name.
      link_of-IsLink name (λ k. (k.parts name).up) (λ p. p.routes) set_routes (λ xs p. refl)
        (λ xs k. ap (λ (p : Parts). p.up) (changed_self name (set_routes xs) k));
  routes_keep = λ name.
      link_of-Keeps name (λ k. (k.parts name).up) (λ p. p.routes) set_routes
        (λ k. (contains k.names name, (k.parts name).settings, contains (k.parts name).addresses))
        (λ xs k.
          ap (λ (p : Parts). (contains k.names name, p.settings, contains p.addresses))
            (changed_self name (set_routes xs) k));
  routes_elsewhere = λ name x h.
      link_of-Keeps name (λ k. (k.parts name).up) (λ p. p.routes) set_routes (λ k. view k x)
        (λ xs k. view_other name (set_routes xs) k x h);
  reads = λ k. (k, refl, refl, λ x. refl);
  writes = λ value k. (record k { forwards = value }, refl, refl, λ x. refl);
}

abbrev address : ℕ → IpNet
address n = record { ip = 10 ∷ 0 ∷ 0 ∷ n ∷ []; mask = replicate 4 255 }

abbrev peer : InterfacePeer
peer = record {
  name = bytes "b";
  public_key = 1 ∷ [];
  preshared_key = none;
  endpoint = bytes "host:1";
  persistent_keepalive = pos 25;
  allowed_ips = address 3 ∷ address 4 ∷ [];
}

abbrev old : Interface
old = record {
  name = bytes "wg0";
  private_key = 2 ∷ [];
  listen_port = pos 0;
  addresses = [];
  peers = [];
  broken = false;
}

abbrev new : Interface
new = record old {
  name = bytes "wg1";
  listen_port = pos 51820;
  addresses = address 1 ∷ [];
  peers = peer ∷ [];
}

abbrev two : Machine
two = record { interfaces = new ∷ old ∷ []; forwards_ipv4 = true; forwards_ipv6 = false }

abbrev applier : Applier
applier = record { managed_interfaces = bytes "wg0" ∷ []; read_write_proc = true }

-- Devices of wg0 and wg9 and another link, eth0; wg0 has an address and a route that nothing asks for.
abbrev start : State
start = record {
  names = bytes "wg0" ∷ bytes "wg9" ∷ [];
  parts = λ x. record {
    free = not (bytes "eth0" == x) && not (bytes "wg0" == x) && not (bytes "wg9" == x);
    up = true;
    settings = none;
    addresses = address 9 ∷ [];
    routes = address 9 ∷ [];
  };
  forwards = false;
}

new-IsSound : IsSound look new
new-IsSound = record {
  short_name = refl;
  own_addresses = (refl, tt);
  own_routes = (refl, (refl, tt));
  own_endpoints = unresolved;
}
  where
    unresolved : HasUnresolved look (peer ∷ []) → ⊥
    unresolved (inl (f, g)) = cc
    unresolved (inr u) = u

old-IsSound : IsSound look old
old-IsSound = record {
  short_name = refl;
  own_addresses = tt;
  own_routes = tt;
  own_endpoints = λ u. u;
}

one_of_two :
    (x y iface : Interface) (name : Bytes)
    → IsNamed (x ∷ y ∷ []) name iface
    → IsSound look x
    → IsSound look y
    → IsSound look iface
one_of_two x y iface name h sx sy = elim (Bool-cases (x.name == name)) [
  | inl e ↦ let same : x ≡ iface = ground arith in subst (λ i. IsSound look i) same sx
  | inr e ↦ elim (Bool-cases (y.name == name)) [
    | inl q ↦ let same : y ≡ iface = ground arith in subst (λ i. IsSound look i) same sy
    | inr q ↦ absurd (ground arith)
  ]
]

two-IsManaged : IsManaged applier two
two-IsManaged x h = ground arith

two_free :
    (x : Bytes)
    → contains (map name_of two.interfaces) x ≡ true
    → (view start x).there ≡ false
    → (view start x).free ≡ true
two_free x h t = ground arith

apply_machine-IsBrought_example :
    (k : State) × ((apply_machine system applier two start).0 ≡ (ok true, k))
    × ((name : Bytes) (iface : Interface)
        → IsNamed two.interfaces name iface
        → IsBrought look iface (view k name))
    × ((name : Bytes)
        → contains (map name_of two.interfaces) name ≡ false
        → view k name ≡ view start name)
    × (applier.read_write_proc ≡ true → k.forwards ≡ two.forwards_ipv4)
    × ((x : Bytes)
        → contains (apply_machine system applier two start).1.managed_interfaces x
          ≡ contains (map name_of two.interfaces) x)
    × ((name : Bytes) (iface : Interface)
        → IsNamed two.interfaces name iface
        → IsNamed (apply_machine system applier two start).2.interfaces name (sorted iface))
apply_machine-IsBrought_example =
    apply_machine-IsBrought system view (λ k. k.forwards) look system-IsSystem two
      (λ name iface h. one_of_two new old iface name h new-IsSound old-IsSound) applier start
      (refl, tt) (refl, (refl, tt)) two-IsManaged refl two_free
