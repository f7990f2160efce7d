-- ===== src/Spec/Clone.antt =====
-- The `Clone` methods of spec/spec.go. A copy of a slice or of a key has the value of the original;
-- a field that the source leaves out of the new struct has its zero value.
pub mod Laws
use qrystal.Prelude.{Option, none, some, [], map, false}
use qrystal.Spec.{NetworkDeviceCensored, AccessControl, NetworkDevice, Network, Spec}

unfoldable pub clone_device_censored : NetworkDeviceCensored → NetworkDeviceCensored
clone_device_censored ndc = record {
  name = ndc.name;
  endpoints = ndc.endpoints;
  forwarder_and_endpoint_chosen = ndc.forwarder_and_endpoint_chosen;
  uses_forwarder = false;
  endpoint_chosen_index = ndc.endpoint_chosen_index;
  forwarder_chosen_index = ndc.forwarder_chosen_index;
  addresses = ndc.addresses;
  listen_port = ndc.listen_port;
  public_key = ndc.public_key;
  preshared_key = ndc.preshared_key;
  persistent_keepalive = ndc.persistent_keepalive;
  accessible = [];
}

unfoldable pub clone_access : AccessControl → AccessControl
clone_access a = record {
  access_all = a.access_all;
  access_only = elim a.access_only [ none ↦ none | some names ↦ some names ];
}

unfoldable pub clone_device : NetworkDevice → NetworkDevice
unfolding clone_device_censored clone_access
clone_device nd = record {
  censored = clone_device_censored nd.censored;
  access = clone_access nd.access;
}

unfoldable pub clone_network : Network → Network
unfolding clone_device
clone_network n = record { name = n.name; devices = map clone_device n.devices }

unfoldable pub clone_spec : Spec → Spec
unfolding clone_network
clone_spec s = record { networks = map clone_network s.networks }
