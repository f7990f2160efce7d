-- ===== src/Spec/Compile/Expected.antt =====
-- The machine that `CompileMachine` of spec/compile.go is to return, and the specifications whose
-- names and indices lead somewhere.
use qrystal.Prelude.{
  ℕ, suc, ◌≡◌, Bool, true, not, ◌&&◌, ◌||◌, Option, none, some, List, [], ◌∷◌, ◌++◌, if◌then◌else◌,
  list_eq, nat_eq, nat_beq, ltb, get_elem?, length, is_some,
}
use qrystal.Text.{Bytes}
use qrystal.Net.{IpNet}
use qrystal.Goal.Machine.{InterfacePeer}
use qrystal.Spec.{NetworkDeviceCensored, NetworkCensored, get_device_censored}
use qrystal.Spec.Compile.{is_unset, is_forwarded}

-- The chosen index of a chosen device is in range, where the network has `n` devices.
abbrev pub is_indexed : ℕ → NetworkDeviceCensored → Bool
is_indexed n d =
    not d.forwarder_and_endpoint_chosen
    || (if d.uses_forwarder
        then ltb d.forwarder_chosen_index n
        else ltb d.endpoint_chosen_index (length d.endpoints))

abbrev pub AreIndexed : ℕ → List NetworkDeviceCensored → Type 0
AreIndexed n [] = Unit
AreIndexed n (d ∷ ds) = (is_indexed n d ≡ true) × AreIndexed n ds

abbrev pub AreKnown : NetworkCensored → List Bytes → Type 0
AreKnown sn [] = Unit
AreKnown sn (name ∷ names) = (is_some (get_device_censored sn name) ≡ true) × AreKnown sn names

abbrev pub is_forwarded_by : ℕ → ℕ → ℕ → NetworkDeviceCensored → Bool
is_forwarded_by snd_i j i d = is_forwarded snd_i i d && nat_beq d.forwarder_chosen_index j

-- The devices, from index `i` on, that the one at `j` forwards for: their indices and addresses.
abbrev pub forwarded_to : ℕ → ℕ → ℕ → List NetworkDeviceCensored → List ℕ
forwarded_to snd_i j i [] = []
forwarded_to snd_i j i (d ∷ ds) =
    if is_forwarded_by snd_i j i d
    then i ∷ forwarded_to snd_i j (suc i) ds
    else forwarded_to snd_i j (suc i) ds

abbrev pub forwarded_addresses : ℕ → ℕ → ℕ → List NetworkDeviceCensored → List IpNet
forwarded_addresses snd_i j i [] = []
forwarded_addresses snd_i j i (d ∷ ds) =
    if is_forwarded_by snd_i j i d
    then d.addresses ++ forwarded_addresses snd_i j (suc i) ds
    else forwarded_addresses snd_i j (suc i) ds

-- A peer: another device with a key that is not reached through a forwarder.
abbrev pub is_peer : ℕ → ℕ → NetworkDeviceCensored → Bool
is_peer snd_i i d =
    (not (nat_beq i snd_i) && not (is_unset d))
    && not (d.forwarder_and_endpoint_chosen && d.uses_forwarder)

abbrev or_blank : Option Bytes → Bytes
or_blank none = []
or_blank (some s) = s

abbrev pub endpoint_of : NetworkDeviceCensored → Bytes
endpoint_of d =
    if d.forwarder_and_endpoint_chosen
    then or_blank (get_elem? d.endpoints d.endpoint_chosen_index)
    else []

-- The peer that a device becomes: it is allowed its own addresses, and those of the devices that
-- are reached through it.
abbrev pub peer_of : List NetworkDeviceCensored → ℕ → ℕ → NetworkDeviceCensored → InterfacePeer
peer_of devices snd_i i d = record {
  name = d.name;
  public_key = d.public_key;
  preshared_key = d.preshared_key;
  endpoint = endpoint_of d;
  persistent_keepalive = d.persistent_keepalive;
  allowed_ips = d.addresses ++ forwarded_addresses snd_i i 0 devices;
}

abbrev pub peers_of :
    List NetworkDeviceCensored → ℕ → ℕ → List NetworkDeviceCensored → List InterfacePeer
peers_of devices snd_i i [] = []
peers_of devices snd_i i (d ∷ ds) =
    if is_peer snd_i i d
    then peer_of devices snd_i i d ∷ peers_of devices snd_i (suc i) ds
    else peers_of devices snd_i (suc i) ds
