-- ===== src/Spec/Json.antt =====
-- spec/spec.go: the `UnmarshalJSON` methods, behind the decoder of Go's package encoding/json, whose
-- answers are arguments, and `Validate`.
pub mod Laws
use qrystal.Prelude.{
  Bool, true, false, ◌&&◌, Option, none, some, List, [], ◌∷◌, if◌then◌else◌, ◌==◌, list_eq, nat_eq,
  is_some, ℤ, pos, Outcome, ok, failed, ◌>>=◌,
}
use qrystal.Text.{Bytes}
use qrystal.Net.{IpNet}
use qrystal.Goal.Key.{Key, zero_key}
use qrystal.Spec.{NetworkDeviceCensored, AccessControl, NetworkDevice, NetworkCensored}

pub record NetworkDeviceCensoredJson : Type 0 where
  pub name : Bytes
  pub endpoints : List Bytes
  pub addresses : List IpNet
  pub listen_port : ℤ
  pub public_key : Key
  pub preshared_key : Option Key
  pub preshared_key_path : Bytes
  pub persistent_keepalive : ℤ
  pub accessible : List Bytes

-- An error of a call that gives a value or an error.
abbrev pub or_failed {ℓ} : {A : Type ℓ} → Option A → Outcome A
or_failed none = failed
or_failed (some a) = ok a

-- What the file system and the parser of keys answer, the same for the whole of a call.
pub record KeyFiles : Type 0 where
  pub read_file : Bytes → Option Bytes
  pub parse_key : Bytes → Option Key

-- The key of `PresharedKeyPath`, if the path is set, in place of the key of the text.
unfoldable pub load_preshared_key : KeyFiles → NetworkDeviceCensoredJson → Outcome (Option Key)
load_preshared_key files ndcj = if ndcj.preshared_key_path == [] then ok ndcj.preshared_key else (do
  text ← or_failed (files.read_file ndcj.preshared_key_path)
  key ← or_failed (files.parse_key text)
  ok (some key))

-- The fields that are written; the others of the receiver stay.
unfoldable pub write_fields :
    NetworkDeviceCensoredJson → Option Key → NetworkDeviceCensored → NetworkDeviceCensored
write_fields ndcj preshared_key ndc = record ndc {
  name = ndcj.name;
  endpoints = ndcj.endpoints;
  addresses = ndcj.addresses;
  listen_port = ndcj.listen_port;
  public_key = ndcj.public_key;
  preshared_key = preshared_key;
  persistent_keepalive = ndcj.persistent_keepalive;
  accessible = ndcj.accessible;
}

-- `NetworkDeviceCensored.UnmarshalJSON` on a receiver; `none` is an error of the decoder. An error
-- leaves the receiver as it is.
unfoldable pub unmarshal_censored :
    KeyFiles
    → Option NetworkDeviceCensoredJson
    → NetworkDeviceCensored
    → Outcome NetworkDeviceCensored
unfolding load_preshared_key write_fields
unmarshal_censored files json ndc = do
  ndcj ← or_failed json
  preshared_key ← load_preshared_key files ndcj
  ok (write_fields ndcj preshared_key ndc)

-- `NetworkDevice.UnmarshalJSON`: the same text is decoded twice, the second time into the access.
unfoldable pub unmarshal_device :
    KeyFiles
    → Option NetworkDeviceCensoredJson
    → (AccessControl → Option AccessControl)
    → NetworkDevice
    → Outcome NetworkDevice
unfolding unmarshal_censored
unmarshal_device files json decode_access nd = do
  censored ← unmarshal_censored files json nd.censored
  access ← or_failed (decode_access nd.access)
  ok (record { censored = censored; access = access })

-- `AccessControl.Validate`, true where it gives no error.
unfoldable pub validate : AccessControl → Bool
validate a = if a.access_all && is_some a.access_only then false else true

abbrev pub zero_device : NetworkDeviceCensored
zero_device = record {
  name = [];
  endpoints = [];
  forwarder_and_endpoint_chosen = false;
  uses_forwarder = false;
  endpoint_chosen_index = 0;
  forwarder_chosen_index = 0;
  addresses = [];
  listen_port = pos 0;
  public_key = zero_key;
  preshared_key = none;
  persistent_keepalive = pos 0;
  accessible = [];
}

-- The elements of a list of devices, each decoded into a new one: the first error ends it.
unfoldable pub unmarshal_devices :
    KeyFiles → List (Option NetworkDeviceCensoredJson) → Outcome (List NetworkDeviceCensored)
unfolding unmarshal_censored
unmarshal_devices files [] = ok []
unmarshal_devices files (json ∷ jsons) = do
  ndc ← unmarshal_censored files json zero_device
  rest ← unmarshal_devices files jsons
  ok (ndc ∷ rest)
