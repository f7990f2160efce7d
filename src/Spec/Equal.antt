-- ===== src/Spec/Equal.antt =====
-- The `Equal` methods of spec/spec.go: what they compare, and what they leave out.
use qrystal.Prelude.{
  ◌≡◌, ap, refl, sym, ◌∙◌, ◌↔◌, Bool, true, false, ◌&&◌, List, map, arith, ◌==◌, ==_iff, nat_eq,
  list_eq, option_eq, int_eq, bool_eq, equal_func, equal_func_iff,
}
use qrystal.Net.{IpNet, ip_equal, canonical_ip, ip_equal_iff}
use qrystal.Spec.{
  NetworkDeviceCensored, AccessControl, NetworkDevice, NetworkCensored, SpecCensored, or_empty,
}

unfoldable pub ip_net_equal : IpNet → IpNet → Bool
ip_net_equal a b = ip_equal a.ip b.ip && a.mask == b.mask

unfoldable pub device_equal : NetworkDeviceCensored → NetworkDeviceCensored → Bool
device_equal a b =
    a.name == b.name
    && a.endpoints == b.endpoints
    && equal_func ip_net_equal a.addresses b.addresses
    && a.listen_port == b.listen_port
    && a.public_key == b.public_key
    && a.preshared_key == b.preshared_key
    && a.persistent_keepalive == b.persistent_keepalive
    && a.accessible == b.accessible

unfoldable pub network_equal : NetworkCensored → NetworkCensored → Bool
network_equal a b =
    a.name == b.name
    && equal_func device_equal a.devices b.devices
    && a.censored_for == b.censored_for

unfoldable pub spec_equal : SpecCensored → SpecCensored → Bool
spec_equal a b = equal_func network_equal a.networks b.networks

unfoldable pub access_equal : AccessControl → AccessControl → Bool
access_equal a b = a.access_all == b.access_all && or_empty a.access_only == or_empty b.access_only

unfoldable pub full_device_equal : NetworkDevice → NetworkDevice → Bool
full_device_equal a b = device_equal a.censored b.censored && access_equal a.access b.access

-- What `Equal` sees of a value: addresses in their 16-byte form, and no chosen endpoint or forwarder.
unfoldable pub canonical_net : IpNet → IpNet
canonical_net n = record { ip = canonical_ip n.ip; mask = n.mask }

unfoldable pub canonical_device : NetworkDeviceCensored → NetworkDeviceCensored
canonical_device d = record d {
  addresses = map canonical_net d.addresses;
  forwarder_and_endpoint_chosen = false;
  uses_forwarder = false;
  endpoint_chosen_index = 0;
  forwarder_chosen_index = 0;
}

unfoldable pub canonical_network : NetworkCensored → NetworkCensored
canonical_network n = record n { devices = map canonical_device n.devices }

-- The canonical form sees the devices by their canonical forms.
pub canonical_network-devices :
    (n : NetworkCensored) (ds : List NetworkDeviceCensored)
    → map canonical_device ds ≡ map canonical_device n.devices
    → canonical_network (record n { devices = ds }) ≡ canonical_network n
unfolding canonical_network
canonical_network-devices n ds h = ap (λ x. record n { devices = x }) h

ip_net_equal_iff : (a b : IpNet) → (ip_net_equal a b ≡ true) ↔ (canonical_net a ≡ canonical_net b)
unfolding ip_net_equal canonical_net
ip_net_equal_iff a b = ground (arith, ip_equal_iff a.ip b.ip, ==_iff a.mask b.mask)

pub addresses_equal_refl : (xs : List IpNet) → equal_func ip_net_equal xs xs ≡ true
addresses_equal_refl xs = (equal_func_iff ip_net_equal canonical_net ip_net_equal_iff xs xs).1 refl

pub device_equal_iff :
    (a b : NetworkDeviceCensored)
    → (device_equal a b ≡ true) ↔ (canonical_device a ≡ canonical_device b)
unfolding device_equal canonical_device
device_equal_iff a b = ground (
  arith,
  ==_iff a.name b.name,
  ==_iff a.endpoints b.endpoints,
  equal_func_iff ip_net_equal canonical_net ip_net_equal_iff a.addresses b.addresses,
  ==_iff a.listen_port b.listen_port,
  ==_iff a.public_key b.public_key,
  ==_iff a.preshared_key b.preshared_key,
  ==_iff a.persistent_keepalive b.persistent_keepalive,
  ==_iff a.accessible b.accessible,
)

-- `NetworkCensored.Equal` answers true exactly for views of one canonical form.
pub network_equal_iff :
    (a b : NetworkCensored)
    → (network_equal a b ≡ true) ↔ (canonical_network a ≡ canonical_network b)
unfolding network_equal canonical_network
network_equal_iff a b = ground (
  arith,
  ==_iff a.name b.name,
  equal_func_iff device_equal canonical_device device_equal_iff a.devices b.devices,
  ==_iff a.censored_for b.censored_for,
)

pub network_equal_refl : (a : NetworkCensored) → network_equal a a ≡ true
network_equal_refl a = (network_equal_iff a a).1 refl

pub network_equal_sym :
    (a b : NetworkCensored) → network_equal a b ≡ true → network_equal b a ≡ true
network_equal_sym a b h = (network_equal_iff b a).1 (sym ((network_equal_iff a b).0 h))

pub network_equal_trans :
    (a b c : NetworkCensored)
    → network_equal a b ≡ true
    → network_equal b c ≡ true
    → network_equal a c ≡ true
network_equal_trans a b c h k =
    (network_equal_iff a c).1 ((network_equal_iff a b).0 h ∙ (network_equal_iff b c).0 k)
