-- ===== src/Spec.antt =====
-- spec/spec.go: the specification of the networks, and the view of it that one device is given.
-- A nil slice and an empty one are told apart in `AccessOnly` only, where the source does so.
pub mod Equal
pub mod Clone
pub mod Censor
pub mod Resolve
pub mod Json
pub mod Compile
use qrystal.Prelude.{
  ℕ, ◌≡◌, Bool, false, Option, none, some, List, [], ℤ, pos, ◌==◌, nat_eq, list_eq, index_func,
  find_func, at_index,
}
use qrystal.Text.{Bytes}
use qrystal.Net.{IpNet}
use qrystal.Goal.Key.{Key}

pub record NetworkDeviceCensored : Type 0 where
  pub name : Bytes
  pub endpoints : List Bytes
  pub forwarder_and_endpoint_chosen : Bool
  pub uses_forwarder : Bool
  pub endpoint_chosen_index : ℕ
  pub forwarder_chosen_index : ℕ
  pub addresses : List IpNet
  pub listen_port : ℤ
  pub public_key : Key
  pub preshared_key : Option Key
  pub persistent_keepalive : ℤ
  pub accessible : List Bytes

pub record AccessControl : Type 0 where
  pub access_all : Bool
  pub access_only : Option (List Bytes)

pub record NetworkDevice : Type 0 where
  pub censored : NetworkDeviceCensored
  pub open censored use *
  pub access : AccessControl
  pub open access use *

pub record Network : Type 0 where
  pub name : Bytes
  pub devices : List NetworkDevice

pub record Spec : Type 0 where
  pub networks : List Network

pub record NetworkCensored : Type 0 where
  pub name : Bytes
  pub devices : List NetworkDeviceCensored
  pub censored_for : Bytes

pub record SpecCensored : Type 0 where
  pub networks : List NetworkCensored

-- The zero value of `NetworkCensored`.
abbrev pub empty_network : NetworkCensored
empty_network = record { name = []; devices = []; censored_for = [] }

-- `slices.Equal` takes a nil slice for an empty one.
abbrev pub or_empty {ℓ} : {A : Type ℓ} → Option (List A) → List A
or_empty none = []
or_empty (some xs) = xs

unfoldable pub get_network_index : Spec → Bytes → Option ℕ
get_network_index s name = index_func (λ n. n.name == name) s.networks

unfoldable pub get_network : Spec → Bytes → Option Network
unfolding get_network_index
get_network s name = at_index s.networks (get_network_index s name)

unfoldable pub get_device_index : Network → Bytes → Option ℕ
get_device_index n name = index_func (λ d. d.name == name) n.devices

unfoldable pub get_device : Network → Bytes → Option NetworkDevice
unfolding get_device_index
get_device n name = at_index n.devices (get_device_index n name)

unfoldable pub get_network_censored_index : SpecCensored → Bytes → Option ℕ
get_network_censored_index s name = index_func (λ n. n.name == name) s.networks

unfoldable pub get_network_censored : SpecCensored → Bytes → Option NetworkCensored
unfolding get_network_censored_index
get_network_censored s name = at_index s.networks (get_network_censored_index s name)

unfoldable pub get_device_censored_index : NetworkCensored → Bytes → Option ℕ
get_device_censored_index n name = index_func (λ d. d.name == name) n.devices

unfoldable pub get_device_censored : NetworkCensored → Bytes → Option NetworkDeviceCensored
unfolding get_device_censored_index
get_device_censored n name = at_index n.devices (get_device_censored_index n name)
