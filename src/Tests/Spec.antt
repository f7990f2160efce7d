-- ===== src/Tests/Spec.antt =====
-- A network of a hub, a device behind it, and a device without a key (spec/).
use qrystal.Prelude.{
  ℕ, ◌≡◌, ◌↔◌, refl, sym, subst, some-injective, true, false, Option, none, some, List, [], ◌∷◌, ℤ,
  pos, negsuc, ◌==◌, list_eq, nat_eq, contains, replicate, ok, panicked, if◌then◌else◌, map,
  get_elem?,
}
use qrystal.Text.{Bytes, bytes}
use qrystal.Net.{IpNet}
use qrystal.Goal.Key.{Key, zero_key}
use qrystal.Goal.Machine.{Machine, Interface, InterfacePeer}
use qrystal.Spec.{
  NetworkDeviceCensored, NetworkDevice, Network, NetworkCensored, SpecCensored, get_device,
  get_device_censored,
}
use qrystal.Spec.Equal.{network_equal, device_equal, canonical_network, network_equal_iff}
use qrystal.Spec.Clone.{clone_device_censored}
use qrystal.Spec.Clone.Laws.{device_equal-clone}
use qrystal.Spec.Censor.{can_access, censor_for_device}
use qrystal.Spec.Censor.Laws.{get_device-censor_for_device, shown}
use qrystal.Spec.Resolve.{choose_endpoint, get_forwarders_for}
use qrystal.Spec.Resolve.Best.{HasChosen, choose_endpoint-HasChosen}
use qrystal.Spec.Resolve.Forwarders.{forwards, contains-get_forwarders_for}
use qrystal.Spec.Compile.{compile_machine}
use qrystal.Spec.Compile.Expected.{AreKnown}
use qrystal.Spec.Compile.Laws.{AreCompilable, interfaces_of, compile_machine-interfaces_of}

abbrev mask_32 : Bytes
mask_32 = replicate 4 255

abbrev plain : Bytes → ℕ → Key → NetworkDeviceCensored
plain name last key = record {
  name = name;
  endpoints = bytes "192.0.2.1:51820" ∷ bytes "192.0.2.2:51820" ∷ [];
  forwarder_and_endpoint_chosen = false;
  uses_forwarder = false;
  endpoint_chosen_index = 0;
  forwarder_chosen_index = 0;
  addresses = record { ip = 10 ∷ 0 ∷ 0 ∷ last ∷ []; mask = mask_32 } ∷ [];
  listen_port = pos 51820;
  public_key = key;
  preshared_key = none;
  persistent_keepalive = pos 0;
  accessible = [];
}

-- The hub forwards for device b; its second endpoint is chosen.
abbrev hub : NetworkDeviceCensored
hub = record (plain (bytes "hub") 1 (replicate 32 7)) {
  forwarder_and_endpoint_chosen = true;
  endpoint_chosen_index = 1;
  accessible = bytes "b" ∷ [];
}

abbrev device_a : NetworkDeviceCensored
device_a = plain (bytes "a") 2 (replicate 32 8)

abbrev device_b : NetworkDeviceCensored
device_b = record (plain (bytes "b") 3 (replicate 32 9)) {
  forwarder_and_endpoint_chosen = true;
  uses_forwarder = true;
  forwarder_chosen_index = 1;
}

abbrev device_c : NetworkDeviceCensored
device_c = plain (bytes "c") 4 zero_key

abbrev pub network : NetworkCensored
network = record {
  name = bytes "wg";
  devices = device_a ∷ hub ∷ device_b ∷ device_c ∷ [];
  censored_for = bytes "a";
}

abbrev pub spec : SpecCensored
spec = record { networks = network ∷ [] }

-- Device a forwards for no device.
a_forwards_for_none : (d : NetworkDeviceCensored) → some device_a ≡ some d → d.accessible ≡ []
a_forwards_for_none d h =
    subst (λ (x : NetworkDeviceCensored). x.accessible ≡ [])
      (some-injective {a = device_a} {b = d} h) refl

compilable : AreCompilable (bytes "a") spec.networks
compilable = (
  (refl, (refl, (refl, (refl, tt)))),
  λ d h. subst (AreKnown network) (sym (a_forwards_for_none d h)) tt,
  tt,
)

compile_machine-interfaces_of_example :
    (gm : Machine) × (compile_machine spec (bytes "a") true ≡ ok gm)
    × (gm.interfaces ≡ interfaces_of (bytes "a") spec.networks)
compile_machine-interfaces_of_example = compile_machine-interfaces_of spec (bytes "a") compilable

abbrev peer_parts : InterfacePeer → Bytes × Bytes × List IpNet
peer_parts p = (p.name, p.endpoint, p.allowed_ips)

abbrev interface_peers : Interface → List (Bytes × Bytes × List IpNet)
interface_peers i = map peer_parts i.peers

-- The hub is the only peer, at its second endpoint, and is allowed the address of device b too.
one_peer :
    map interface_peers (interfaces_of (bytes "a") spec.networks)
    ≡ ((
      bytes "hub",
      bytes "192.0.2.2:51820",
      record { ip = 10 ∷ 0 ∷ 0 ∷ 1 ∷ []; mask = mask_32 }
          ∷ record { ip = 10 ∷ 0 ∷ 0 ∷ 3 ∷ []; mask = mask_32 }
          ∷ [],
    )
        ∷ [])
      ∷ []
one_peer = refl

-- The second endpoint answers faster.
abbrev score : Bytes → Option ℤ
score endpoint = if endpoint == bytes "192.0.2.2:51820" then some (pos 5) else some (pos 3)

choose_endpoint-HasChosen_example : HasChosen score device_a (choose_endpoint score device_a)
choose_endpoint-HasChosen_example = choose_endpoint-HasChosen score device_a

second_is_chosen :
    choose_endpoint score device_a
    ≡ ok (record device_a { endpoint_chosen_index = 1; forwarder_and_endpoint_chosen = true })
unfolding choose_endpoint
second_is_chosen = refl

all_negative : choose_endpoint (λ endpoint. some (negsuc 4)) device_a ≡ panicked
unfolding choose_endpoint
all_negative = refl

contains-get_forwarders_for_example :
    contains (get_forwarders_for network (bytes "b")) 1
    ≡ forwards (get_elem? network.devices 1) (bytes "b")
contains-get_forwarders_for_example = contains-get_forwarders_for network (bytes "b") 1

network_equal_iff_example :
    (network_equal network network ≡ true) ↔ (canonical_network network ≡ canonical_network network)
network_equal_iff_example = network_equal_iff network network

device_equal-clone_example : device_equal hub (clone_device_censored hub) ≡ (hub.accessible == [])
device_equal-clone_example = device_equal-clone hub

abbrev viewer : NetworkDevice
viewer = record {
  censored = device_a;
  access = record { access_all = false; access_only = some (bytes "a" ∷ []) };
}

abbrev full : Network
full = record {
  name = bytes "wg";
  devices =
      viewer
      ∷ record { censored = device_b; access = record { access_all = true; access_only = none } }
      ∷ [];
}

abbrev seen : NetworkCensored
seen = record { name = bytes "wg"; devices = device_a ∷ []; censored_for = bytes "a" }

viewer_found : get_device full (bytes "a") ≡ some viewer
unfolding get_device
viewer_found = refl

a_sees : censor_for_device full (bytes "a") ≡ some seen
unfolding censor_for_device get_device
a_sees = refl

get_device-censor_for_device_example :
    get_device_censored seen (bytes "b")
    ≡ shown (can_access viewer.access (bytes "b")) (get_device full (bytes "b"))
get_device-censor_for_device_example =
    get_device-censor_for_device full (bytes "a") viewer seen (bytes "b") viewer_found a_sees
