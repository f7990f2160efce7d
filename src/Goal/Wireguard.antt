-- ===== src/Goal/Wireguard.antt =====
-- goal/apply_linux.go: `configureWireguard`. A UDP address is a text; resolving one and handing the
-- configuration to WireGuard are calls over a state `K` of the system.
pub mod Laws
use qrystal.Prelude.{
  Bool, true, false, Option, none, some, List, [], ◌∷◌, if◌then◌else◌, ◌==◌, list_eq, nat_eq,
  int_eq, ℤ, pos,
}
use qrystal.Text.{Bytes}
use qrystal.Net.{IpNet}
use qrystal.Goal.Key.{Key}
use qrystal.Goal.Machine.{Interface, InterfacePeer}
use qrystal.Goal.Json.{ip_net_util_to_std}

-- `wgtypes.PeerConfig` and `wgtypes.Config`: the fields that the source sets, and the interval of
-- the keepalive, which it leaves nil.
pub record PeerConfig : Type 0 where
  pub public_key : Key
  pub preshared_key : Option Key
  pub endpoint : Option Bytes
  pub persistent_keepalive_interval : Option ℤ
  pub replace_allowed_ips : Bool
  pub allowed_ips : List IpNet

pub record Config : Type 0 where
  pub private_key : Key
  pub listen_port : Option ℤ
  pub replace_peers : Bool
  pub peers : List PeerConfig

-- `ResolveUDPAddr`, and `ConfigureDevice` with a test that is true if there is no error.
pub record Calls (K : Type 0) : Type 0 where
  pub resolve : Bytes → K → Option Bytes × K
  pub configure_device : Bytes → Config → K → Bool × K

abbrev pub peer_config : InterfacePeer → Option Bytes → PeerConfig
peer_config peer endpoint = record {
  public_key = peer.public_key;
  preshared_key = peer.preshared_key;
  endpoint = endpoint;
  persistent_keepalive_interval = none;
  replace_allowed_ips = true;
  allowed_ips = ip_net_util_to_std peer.allowed_ips;
}

abbrev pub config : Interface → List PeerConfig → Config
config iface peers = record {
  private_key = iface.private_key;
  listen_port = if iface.listen_port == pos 0 then none else some iface.listen_port;
  replace_peers = true;
  peers = peers;
}

-- A peer's configuration before the others'; an error ends the loop.
abbrev pub put_config :
    {K : Type 0} → PeerConfig → Option (List PeerConfig) × K → Option (List PeerConfig) × K
put_config peer (none, k) = (none, k)
put_config peer (some peers, k) = (some (peer ∷ peers), k)

module _ {K : Type 0} (s : Calls K) where
  -- An empty endpoint is nil, and is not resolved.
  unfoldable pub peer_configs : List InterfacePeer → K → Option (List PeerConfig) × K
  peer_configs [] k = (some [], k)
  peer_configs (peer ∷ peers) k = elim (peer.endpoint == []) [
    | true ↦ put_config (peer_config peer none) (peer_configs peers k)
    | false ↦
        let (address, k2) = s.resolve peer.endpoint k in
        elim address [
          | none ↦ (none, k2)
          | some a ↦ put_config (peer_config peer (some a)) (peer_configs peers k2)
        ]
  ]

  unfoldable pub configure_wireguard : Interface → K → Bool × K
  unfolding peer_configs
  configure_wireguard iface k =
      let (peers, k2) = peer_configs iface.peers k in
      elim peers [
        | none ↦ (false, k2)
        | some ps ↦ s.configure_device iface.name (config iface ps) k2
      ]
