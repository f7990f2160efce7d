-- ===== src/Goal/Wireguard/Laws.antt =====
-- goal/apply_linux.go: what `configureWireguard` hands to WireGuard.
use qrystal.Prelude.{
  ◌≡◌, refl, ap, ◌∙◌, ◌⊎◌, inl, inr, Bool, true, false, Option, none, some, List, [], ◌∷◌, map,
  arith, if◌then◌else◌, ◌==◌, list_eq, nat_eq, Option-cases, Bool-cases, pos, int_eq, ap₂,
}
use qrystal.Text.{Bytes}
use qrystal.Goal.Json.{ip_net_util_to_std}
use qrystal.Net.{IpNet}
use qrystal.Goal.Machine.{Interface, InterfacePeer}
use qrystal.Goal.Wireguard.{
  PeerConfig, Calls, peer_config, config, put_config, peer_configs, configure_wireguard, Config,
}

-- A peer with an endpoint that has no address.
abbrev pub IsUnresolved : (Bytes → Option Bytes) → InterfacePeer → Type 0
IsUnresolved look peer = ((peer.endpoint == []) ≡ false) × (look peer.endpoint ≡ none)

abbrev pub HasUnresolved : (Bytes → Option Bytes) → List InterfacePeer → Type 0
HasUnresolved look [] = ⊥
HasUnresolved look (peer ∷ peers) = IsUnresolved look peer ⊎ HasUnresolved look peers

abbrev resolved : (Bytes → Option Bytes) → InterfacePeer → PeerConfig
resolved look peer = peer_config peer (if peer.endpoint == [] then none else look peer.endpoint)

-- What a peer asks for: its keys, the address of its endpoint, if it has one, no keepalive, and its
-- allowed networks in place of all there were.
abbrev pub asked_peer : (Bytes → Option Bytes) → InterfacePeer → PeerConfig
asked_peer look peer = record {
  public_key = peer.public_key;
  preshared_key = peer.preshared_key;
  endpoint = if peer.endpoint == [] then none else look peer.endpoint;
  persistent_keepalive_interval = none;
  replace_allowed_ips = true;
  allowed_ips = peer.allowed_ips;
}

-- What an interface asks for: its private key, its port unless it is 0, and its peers in place of all
-- there were.
abbrev pub asked_config : (Bytes → Option Bytes) → Interface → Config
asked_config look iface = record {
  private_key = iface.private_key;
  listen_port = if iface.listen_port == pos 0 then none else some iface.listen_port;
  replace_peers = true;
  peers = map (asked_peer look) iface.peers;
}

asked_peers :
    (look : Bytes → Option Bytes) (peers : List InterfacePeer)
    → map (resolved look) peers ≡ map (asked_peer look) peers
unfolding ip_net_util_to_std
asked_peers look [] = refl
asked_peers look (peer ∷ peers) =
    ap₂ (◌∷◌)
      (ap (λ ns. record (asked_peer look peer) { allowed_ips = ns }) (same_nets peer.allowed_ips))
      (asked_peers look peers)
  where
    same_nets : (ns : List IpNet) → map (λ (n : IpNet). record { ip = n.ip; mask = n.mask }) ns ≡ ns
    same_nets [] = refl
    same_nets (n ∷ ns) = ap (◌∷◌ n) (same_nets ns)

module _ {K : Type 0} (s : Calls K) (look : Bytes → Option Bytes)
    (looks : (endpoint : Bytes) (k : K) → s.resolve endpoint k ≡ (look endpoint, k)) where
  peer_configs-empty :
      (peer : InterfacePeer) (peers : List InterfacePeer) (k : K)
      → (peer.endpoint == []) ≡ true
      → peer_configs s (peer ∷ peers) k
        ≡ put_config (peer_config peer none) (peer_configs s peers k)
  unfolding peer_configs
  peer_configs-empty peer peers k e = rw (e, peer_configs) refl

  peer_configs-none :
      (peer : InterfacePeer) (peers : List InterfacePeer) (k : K)
      → IsUnresolved look peer
      → peer_configs s (peer ∷ peers) k ≡ (none, k)
  unfolding peer_configs
  peer_configs-none peer peers k (e, h) =
      let answer : (s.resolve peer.endpoint k).0 ≡ none =
        ap (λ r. r.0) (looks peer.endpoint k) ∙ h in
      rw (e, peer_configs, answer) (ap (λ r. (none, r.1)) (looks peer.endpoint k))

  peer_configs-some :
      (peer : InterfacePeer) (peers : List InterfacePeer) (k : K) (a : Bytes)
      → (peer.endpoint == []) ≡ false
      → look peer.endpoint ≡ some a
      → peer_configs s (peer ∷ peers) k
        ≡ put_config (peer_config peer (some a)) (peer_configs s peers k)
  unfolding peer_configs
  peer_configs-some peer peers k a e h =
      let answer : (s.resolve peer.endpoint k).0 ≡ some a =
        ap (λ r. r.0) (looks peer.endpoint k) ∙ h in
      rw (e, peer_configs, answer)
        (ap (λ r. put_config (peer_config peer (some a)) (peer_configs s peers r.1))
          (looks peer.endpoint k))

  peer_configs-cases :
      (peers : List InterfacePeer) (k : K)
      → ((HasUnresolved look peers → ⊥)
          × (peer_configs s peers k ≡ (some (map (resolved look) peers), k)))
        ⊎ (HasUnresolved look peers × (peer_configs s peers k ≡ (none, k)))
  unfolding peer_configs
  peer_configs-cases [] k = inl (λ u. u, refl)
  peer_configs-cases (peer ∷ peers) k = elim (Bool-cases (peer.endpoint == [])) [
    | inl e ↦ elim (peer_configs-cases peers k) [
      | inl (n, h) ↦ inl (none_of e n, peer_configs-empty peer peers k e ∙ rw (h, e) refl)
      | inr (u, h) ↦ inr (inr u, peer_configs-empty peer peers k e ∙ rw h refl)
    ]
    | inr e ↦ elim (Option-cases (look peer.endpoint)) [
      | inl h ↦ inr (inl (e, h), peer_configs-none peer peers k (e, h))
      | inr (a, h) ↦ elim (peer_configs-cases peers k) [
        | inl (n, q) ↦ inl (found a h n, peer_configs-some peer peers k a e h ∙ rw (q, e, h) refl)
        | inr (u, q) ↦ inr (inr u, peer_configs-some peer peers k a e h ∙ rw q refl)
      ]
    ]
  ]
    where
      none_of :
          (peer.endpoint == []) ≡ true
          → (HasUnresolved look peers → ⊥)
          → HasUnresolved look (peer ∷ peers)
          → ⊥
      none_of e n (inl (f, g)) = ground arith
      none_of e n (inr u) = n u

      found :
          (a : Bytes)
          → look peer.endpoint ≡ some a
          → (HasUnresolved look peers → ⊥)
          → HasUnresolved look (peer ∷ peers)
          → ⊥
      found a h n (inl (f, g)) = ground arith
      found a h n (inr u) = n u

  configure_wireguard-given :
      (iface : Interface) (k : K) (peers : Option (List PeerConfig))
      → peer_configs s iface.peers k ≡ (peers, k)
      → configure_wireguard s iface k ≡ elim peers [
        | none ↦ (false, k)
        | some ps ↦ s.configure_device iface.name (config iface ps) k
      ]
  unfolding configure_wireguard
  configure_wireguard-given iface k peers h =
      ap
        (λ (r : Option (List PeerConfig) × K). elim r.0 as (λ _. Bool × K) [
          | none ↦ (false, r.1)
          | some ps ↦ s.configure_device iface.name (config iface ps) r.1
        ])
        h

  -- While names resolve to the same addresses: if the endpoint of each peer that has one resolves,
  -- the device of the interface's name is given, in place of all it had, the private key, the port
  -- if it is set, and the peers in order, each with its keys, its address and its allowed networks,
  -- and without a keepalive; and if one does not resolve, nothing is given, and the call fails.
  pub configure_wireguard-cases :
      (iface : Interface) (k : K)
      → ((HasUnresolved look iface.peers → ⊥)
          × (configure_wireguard s iface k
              ≡ s.configure_device iface.name (asked_config look iface) k))
        ⊎ (HasUnresolved look iface.peers × (configure_wireguard s iface k ≡ (false, k)))
  configure_wireguard-cases iface k = elim (peer_configs-cases iface.peers k) [
    | inl (n, h) ↦ inl (
      n,
      configure_wireguard-given iface k (some (map (resolved look) iface.peers)) h
          ∙ ap (λ ps. s.configure_device iface.name (config iface ps) k)
              (asked_peers look iface.peers),
    )
    | inr (u, h) ↦ inr (u, configure_wireguard-given iface k none h)
  ]
