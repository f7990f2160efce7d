-- ===== src/Spec/Clone/Laws.antt =====
-- The `Clone` methods of spec/spec.go under `Equal` and the lookups.
use qrystal.Prelude.{
  ◌≡◌, refl, ap, none, some, [], arith, ◌==◌, ==_refl, list_eq, nat_eq, index_func-map, at_index,
  at_index-map, int_eq, option_eq, ◌∙◌,
}
use qrystal.Text.{Bytes}
use qrystal.Spec.{
  NetworkDeviceCensored, AccessControl, Network, Spec, get_network_index, get_network,
  get_device_index, get_device,
}
use qrystal.Spec.Equal.{device_equal, addresses_equal_refl}
use qrystal.Spec.Clone.{
  clone_device_censored, clone_access, clone_device, clone_network, clone_spec,
}

pub clone_access-eq : (a : AccessControl) → clone_access a ≡ a
unfolding clone_access
clone_access-eq a = ground arith

-- A clone equals its original, by `Equal`, exactly if the original lists no accessible device.
pub device_equal-clone :
    (d : NetworkDeviceCensored) → device_equal d (clone_device_censored d) ≡ (d.accessible == [])
unfolding device_equal clone_device_censored
device_equal-clone d = ground (
  arith,
  ==_refl d.name,
  ==_refl d.endpoints,
  addresses_equal_refl d.addresses,
  ==_refl d.listen_port,
  ==_refl d.public_key,
  ==_refl d.preshared_key,
  ==_refl d.persistent_keepalive,
)

pub get_network_index-clone :
    (s : Spec) (name : Bytes) → get_network_index (clone_spec s) name ≡ get_network_index s name
unfolding get_network_index clone_spec
get_network_index-clone s name = index_func-map _ _ clone_network s.networks (λ n. refl)

pub get_device_index-clone :
    (n : Network) (name : Bytes) → get_device_index (clone_network n) name ≡ get_device_index n name
unfolding get_device_index clone_network
get_device_index-clone n name = index_func-map _ _ clone_device n.devices (λ n. refl)

pub get_network-clone :
    (s : Spec) (name : Bytes)
    → get_network (clone_spec s) name
      ≡ elim (get_network s name) [ none ↦ none | some n ↦ some (clone_network n) ]
unfolding get_network
get_network-clone s name =
    ap (at_index (clone_spec s).networks) (get_network_index-clone s name)
    ∙ (unfold clone_spec in at_index-map clone_network s.networks (get_network_index s name))

pub get_device-clone :
    (n : Network) (name : Bytes)
    → get_device (clone_network n) name
      ≡ elim (get_device n name) [ none ↦ none | some d ↦ some (clone_device d) ]
unfolding get_device
get_device-clone n name =
    ap (at_index (clone_network n).devices) (get_device_index-clone n name)
    ∙ (unfold clone_network in at_index-map clone_device n.devices (get_device_index n name))
