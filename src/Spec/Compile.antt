-- ===== src/Spec/Compile.antt =====
-- spec/compile.go: `CompileMachine`. An index is read with a panic out of range; `failed` is an
-- error about an incomplete specification.
pub mod Expected
pub mod Forwards
pub mod Networks
pub mod Laws
use qrystal.Prelude.{
  ℕ, suc, ◌≡◌, Bool, true, false, not, ◌&&◌, ◌||◌, Option, none, some, List, [], ◌∷◌, ◌++◌, map,
  if◌then◌else◌, ◌==◌, list_eq, nat_eq, nat_beq, get_elem?, modify, replicate, length, is_some,
  index_func, Outcome, ok, failed, panicked, or_panic, ◌>>=◌,
}
use qrystal.Text.{Bytes}
use qrystal.Net.{IpNet, to_4}
use qrystal.Goal.Key.{zero_key}
use qrystal.Goal.Machine.{InterfacePeer, Interface, Machine}
use qrystal.Spec.{NetworkDeviceCensored, NetworkCensored, SpecCensored, get_device_censored}

-- `snd.PublicKey == (goal.Key{})`
abbrev pub is_unset : NetworkDeviceCensored → Bool
is_unset snd = snd.public_key == zero_key

-- Whether some address has, and whether some address has not, an IPv4 form.
abbrev pub any_v4 : List IpNet → Bool
any_v4 [] = false
any_v4 (addr ∷ addrs) = is_some (to_4 addr.ip) || any_v4 addrs

abbrev pub any_v6 : List IpNet → Bool
any_v6 [] = false
any_v6 (addr ∷ addrs) = not (is_some (to_4 addr.ip)) || any_v6 addrs

-- The loop over `snd.Accessible`, from the two flags of the machine on.
unfoldable pub forward_flags : NetworkCensored → List Bytes → Bool × Bool → Outcome (Bool × Bool)
forward_flags sn [] flags = ok flags
forward_flags sn (name ∷ names) (v4, v6) = or_panic (get_device_censored sn name) >>= (λ forwardee.
    forward_flags sn names (v4 || any_v4 forwardee.addresses, v6 || any_v6 forwardee.addresses))

-- `xs[j] = append(xs[j], i)`
abbrev pub append_at : List (List ℕ) → ℕ → ℕ → Outcome (List (List ℕ))
append_at xs j i = elim (get_elem? xs j) [
  | none ↦ panicked
  | some is ↦ ok (modify xs j (λ old. old ++ i ∷ []))
]

-- Whether the device at `i` is one that another device forwards for.
abbrev pub is_forwarded : ℕ → ℕ → NetworkDeviceCensored → Bool
is_forwarded snd_i i snd =
    (not (nat_beq i snd_i) && not (is_unset snd))
    && (snd.forwarder_and_endpoint_chosen && snd.uses_forwarder)

-- The loop that fills `forwardsFor`, from index `i` on.
unfoldable pub forwards_loop :
    ℕ → ℕ → List NetworkDeviceCensored → List (List ℕ) → Outcome (List (List ℕ))
forwards_loop snd_i i [] forwards_for = ok forwards_for
forwards_loop snd_i i (snd ∷ rest) forwards_for = elim (is_forwarded snd_i i snd) [
  | true ↦
      append_at forwards_for snd.forwarder_chosen_index i
      >>= (λ more. forwards_loop snd_i (suc i) rest more)
  | false ↦ forwards_loop snd_i (suc i) rest forwards_for
]

-- The endpoint of a peer: `ok none` goes on with the next device.
unfoldable pub peer_endpoint :
    Bool → List NetworkDeviceCensored → NetworkDeviceCensored → Outcome (Option Bytes)
peer_endpoint ignore_incomplete devices snd =
    if not snd.forwarder_and_endpoint_chosen
    then ok (some [])
    else if not snd.uses_forwarder
    then (or_panic (get_elem? snd.endpoints snd.endpoint_chosen_index)
        >>= (λ endpoint. ok (some endpoint)))
    else (or_panic (get_elem? devices snd.forwarder_chosen_index) >>= (λ forwarder.
        if not forwarder.forwarder_and_endpoint_chosen && not ignore_incomplete
        then failed
        else ok none))

-- The loop over `thisForwardsFor`.
unfoldable pub allowed_loop :
    Bool → List NetworkDeviceCensored → List ℕ → List IpNet → Outcome (List IpNet)
allowed_loop ignore_incomplete devices [] allowed_ips = ok allowed_ips
allowed_loop ignore_incomplete devices (j ∷ js) allowed_ips =
    or_panic (get_elem? devices j) >>= (λ forwardee. elim (is_unset forwardee) [
      | true ↦
          if ignore_incomplete
          then allowed_loop ignore_incomplete devices js allowed_ips
          else failed
      | false ↦ allowed_loop ignore_incomplete devices js (allowed_ips ++ forwardee.addresses)
    ])

-- The device at `i` as a peer: `ok none` goes on without one.
unfoldable pub compile_peer :
    Bool
    → List NetworkDeviceCensored
    → List (List ℕ)
    → ℕ
    → ℕ
    → NetworkDeviceCensored
    → Outcome (Option InterfacePeer)
unfolding peer_endpoint allowed_loop
compile_peer ignore_incomplete devices forwards_for snd_i i snd =
    if nat_beq i snd_i
    then ok none
    else if is_unset snd
    then (if ignore_incomplete then ok none else failed)
    else (peer_endpoint ignore_incomplete devices snd >>= (λ chosen. elim chosen [
      | none ↦ ok none
      | some endpoint ↦ or_panic (get_elem? forwards_for i) >>= (λ this_forwards_for.
          allowed_loop ignore_incomplete devices this_forwards_for snd.addresses >>= (λ allowed_ips.
            ok (
              some (record {
                name = snd.name;
                public_key = snd.public_key;
                preshared_key = snd.preshared_key;
                endpoint = endpoint;
                persistent_keepalive = snd.persistent_keepalive;
                allowed_ips = allowed_ips;
              }))))
    ]))

abbrev pub put_peer : Option InterfacePeer → List InterfacePeer → List InterfacePeer
put_peer none peers = peers
put_peer (some peer) peers = peer ∷ peers

unfoldable pub peers_loop :
    Bool
    → List NetworkDeviceCensored
    → List (List ℕ)
    → ℕ
    → ℕ
    → List NetworkDeviceCensored
    → Outcome (List InterfacePeer)
unfolding compile_peer
peers_loop ignore_incomplete devices forwards_for snd_i i [] = ok []
peers_loop ignore_incomplete devices forwards_for snd_i i (snd ∷ rest) =
    compile_peer ignore_incomplete devices forwards_for snd_i i snd >>= (λ peer.
      peers_loop ignore_incomplete devices forwards_for snd_i (suc i) rest
      >>= (λ peers. ok (put_peer peer peers)))

-- The body of the loop over the networks, for a network where the device stands at `snd_i`.
unfoldable pub compile_network :
    Bool → NetworkCensored → ℕ → NetworkDeviceCensored → Machine → Outcome Machine
unfolding forward_flags forwards_loop peers_loop
compile_network ignore_incomplete sn snd_i snd gm =
    forward_flags sn snd.accessible (gm.forwards_ipv4, gm.forwards_ipv6) >>= (λ flags.
      forwards_loop snd_i 0 sn.devices (replicate (length sn.devices) []) >>= (λ forwards_for.
        peers_loop ignore_incomplete sn.devices forwards_for snd_i 0 sn.devices >>= (λ peers.
          ok (record {
            interfaces =
                gm.interfaces
                ++ record {
                  name = sn.name;
                  private_key = zero_key;
                  listen_port = snd.listen_port;
                  addresses = snd.addresses;
                  peers = peers;
                  broken = false;
                }
                  ∷ [];
            forwards_ipv4 = flags.0;
            forwards_ipv6 = flags.1;
          }))))

unfoldable pub compile_loop : Bytes → Bool → List NetworkCensored → Machine → Outcome Machine
unfolding compile_network
compile_loop name ignore_incomplete [] gm = ok gm
compile_loop name ignore_incomplete (sn ∷ rest) gm =
    elim (index_func (λ snd. snd.name == name) sn.devices) [
      | none ↦ compile_loop name ignore_incomplete rest gm
      | some snd_i ↦ or_panic (get_elem? sn.devices snd_i) >>= (λ snd.
          compile_network ignore_incomplete sn snd_i snd gm
          >>= (λ more. compile_loop name ignore_incomplete rest more))
    ]

unfoldable pub compile_machine : SpecCensored → Bytes → Bool → Outcome Machine
unfolding compile_loop
compile_machine sc name ignore_incomplete =
    compile_loop name ignore_incomplete sc.networks
      (record { interfaces = []; forwards_ipv4 = false; forwards_ipv6 = false })
