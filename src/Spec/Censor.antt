-- ===== src/Spec/Censor.antt =====
-- `CensorForDevice` of spec/spec.go: the view of a network that one of its devices is given.
pub mod Laws
use qrystal.Prelude.{Bool, ◌||◌, Option, none, some, map, list_eq, nat_eq, contains, filter_by}
use qrystal.Text.{Bytes}
use qrystal.Spec.{AccessControl, NetworkDevice, Network, NetworkCensored, get_device, or_empty}

-- `censorForDevice.AccessAll || slices.Contains(censorForDevice.AccessOnly, name)`
unfoldable pub can_access : AccessControl → Bytes → Bool
can_access a name = a.access_all || contains (or_empty a.access_only) name

-- The loop over `n.Devices`.
unfoldable pub view_for : Network → NetworkDevice → Bytes → NetworkCensored
unfolding can_access
view_for n viewer name = record {
  name = n.name;
  devices = map (λ nd. nd.censored) (filter_by (λ nd. can_access viewer.access nd.name) n.devices);
  censored_for = name;
}

-- `none` is the panic on a device that the network does not have.
unfoldable pub censor_for_device : Network → Bytes → Option NetworkCensored
unfolding view_for
censor_for_device n name = elim (get_device n name) [
  | none ↦ none
  | some viewer ↦ some (view_for n viewer name)
]
