-- ===== src/Tests/Apply.antt =====
-- An applier (goal/apply_linux.go) that manages an interface which the machine no longer has.
use qrystal.Goal.Wireguard.Laws.{HasUnresolved, asked_config, configure_wireguard-cases}
use qrystal.Goal.Wireguard.{Calls, configure_wireguard}
use qrystal.Prelude.{
  pos, Bool, true, false, ◌≡◌, refl, some, [], ◌∷◌, ok, panicked, list_eq, nat_eq, Option, none,
  map, ◌⊎◌, if◌then◌else◌, ◌==◌,
}
use qrystal.Text.{bytes, Bytes}
use qrystal.Goal.Machine.{Machine, Interface, InterfacePeer}
use qrystal.Goal.Applier.{Link}
use qrystal.Goal.Apply.{System, Applier, apply_machine}
use qrystal.Goal.Apply.Laws.{apply_machine_panics}

abbrev no_addresses : Link Bool
no_addresses = record { list = λ k. (some [], k); add = λ ip k. (true, k); del = λ ip k. (true, k) }

abbrev look : Bytes → Option Bytes
look endpoint = if endpoint == bytes "nowhere" then none else some (0 ∷ endpoint)

abbrev calls : Calls Bool
calls = record { resolve = λ endpoint k. (look endpoint, k); configure_device = λ name c k. (k, k) }

-- The state tells whether the interface is there.
abbrev system : System Bool
system = record {
  devices = λ k. (some (bytes "wg0" ∷ []), k);
  link_by_name = λ name k. (k, k);
  link_del = λ name k. (true, false);
  link_add = λ name k. (true, true);
  link_set_up = λ name k. (true, k);
  wireguard = calls;
  addresses = λ name. no_addresses;
  routes = λ name. no_addresses;
  ip_forward = λ k. (some false, k);
  set_ip_forward = λ b k. (true, k);
}

abbrev applier : Applier
applier = record { managed_interfaces = bytes "wg0" ∷ []; read_write_proc = true }

abbrev no_interfaces : Machine
no_interfaces = record { interfaces = []; forwards_ipv4 = false; forwards_ipv6 = false }

apply_machine_panics_example :
    (apply_machine system applier no_interfaces true).0 ≡ (panicked, true)
apply_machine_panics_example =
    apply_machine_panics system no_interfaces applier true true (bytes "wg0" ∷ []) (bytes "wg0")
      refl refl refl refl

abbrev fresh : Applier
fresh = record { managed_interfaces = []; read_write_proc = true }

abbrev one_interface : Machine
one_interface = record no_interfaces {
  interfaces =
      record {
        name = bytes "wg0";
        private_key = [];
        listen_port = pos 0;
        addresses = [];
        peers = [];
        broken = false;
      }
      ∷ [];
}

one_is_applied : (apply_machine system fresh one_interface true).0 ≡ (ok true, true)
unfolding apply_machine qrystal.Goal.Sets.set_intersection qrystal.Prelude.sort
    qrystal.Goal.Sets.set_difference qrystal.Goal.Applier.update_interface_addresses
    qrystal.Goal.Applier.apply_interface_routes configure_wireguard
one_is_applied = refl

abbrev peer_at : Bytes → InterfacePeer
peer_at endpoint = record {
  name = bytes "b";
  public_key = [];
  preshared_key = none;
  endpoint = endpoint;
  persistent_keepalive = pos 25;
  allowed_ips = [];
}

abbrev with_peers : Interface
with_peers = record {
  name = bytes "wg0";
  private_key = [];
  listen_port = pos 0;
  addresses = [];
  peers = peer_at (bytes "host:1") ∷ peer_at [] ∷ [];
  broken = false;
}

configure_wireguard-cases_example :
    ((HasUnresolved look with_peers.peers → ⊥)
      × (configure_wireguard calls with_peers true
          ≡ calls.configure_device (bytes "wg0") (asked_config look with_peers) true))
    ⊎ (HasUnresolved look with_peers.peers
        × (configure_wireguard calls with_peers true ≡ (false, true)))
configure_wireguard-cases_example =
    configure_wireguard-cases calls look (λ endpoint k. refl) with_peers true

one_unresolved :
    configure_wireguard calls (record with_peers { peers = peer_at (bytes "nowhere") ∷ [] }) true
    ≡ (false, true)
unfolding configure_wireguard
one_unresolved = refl
