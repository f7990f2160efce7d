-- ===== src/Spec/Compile/Networks.antt =====
-- The interface that spec/compile.go makes of one network.
use qrystal.Prelude.{
  subst, ℕ, suc, zero, ◌+◌, ◌≡◌, ◌<◌, refl, ap, Bool, true, false, ◌&&◌, ◌||◌, none, some, List, [],
  ◌∷◌, ◌++◌, if◌then◌else◌, list_eq, nat_eq, arith, get_elem?, replicate, length, ok, inl, inr,
  Option-cases,
}
use qrystal.Text.{Bytes}
use qrystal.Goal.Key.{zero_key}
use qrystal.Goal.Machine.{Interface, Machine}
use qrystal.Spec.{NetworkDeviceCensored, NetworkCensored, get_device_censored}
use qrystal.Spec.Compile.{
  any_v4, any_v6, forward_flags, peer_endpoint, compile_peer, peers_loop, compile_network,
}
use qrystal.Spec.Compile.Expected.{
  is_indexed, AreIndexed, AreKnown, forwarded_to, is_peer, peer_of, peers_of, endpoint_of,
}
use qrystal.Spec.Compile.Forwards.{get_elem?_below, forwards_loop-Filled, allowed_loop-forwarded}

chosen_endpoint :
    (devices : List NetworkDeviceCensored) (d : NetworkDeviceCensored)
    → is_indexed (length devices) d ≡ true
    → peer_endpoint true devices d
      ≡ ok (
          if d.forwarder_and_endpoint_chosen && d.uses_forwarder
          then none
          else some (endpoint_of d))
unfolding peer_endpoint
chosen_endpoint devices d h = ground (
  arith,
  get_elem?_below devices d.forwarder_chosen_index,
  get_elem?_below d.endpoints d.endpoint_chosen_index,
)

compile_peer-peer_of :
    (devices : List NetworkDeviceCensored) (forwards_for : List (List ℕ)) (snd_i i : ℕ)
    (d : NetworkDeviceCensored)
    → is_indexed (length devices) d ≡ true
    → get_elem? forwards_for i ≡ some (forwarded_to snd_i i 0 devices)
    → compile_peer true devices forwards_for snd_i i d
      ≡ ok (if is_peer snd_i i d then some (peer_of devices snd_i i d) else none)
unfolding compile_peer
compile_peer-peer_of devices forwards_for snd_i i d h k = ground (
  arith,
  chosen_endpoint devices d h,
  allowed_loop-forwarded true devices snd_i i 0 devices d.addresses
      (λ k. ap (get_elem? devices) (omega arith)),
)

peers_loop-peers_of :
    (devices : List NetworkDeviceCensored) (forwards_for : List (List ℕ)) (snd_i i : ℕ)
    (ds : List NetworkDeviceCensored)
    → AreIndexed (length devices) ds
    → ((k : ℕ)
        → k < length ds
        → get_elem? forwards_for (i + k) ≡ some (forwarded_to snd_i (i + k) 0 devices))
    → peers_loop true devices forwards_for snd_i i ds ≡ ok (peers_of devices snd_i i ds)
unfolding peers_loop
peers_loop-peers_of devices forwards_for snd_i i [] h k = refl
peers_loop-peers_of devices forwards_for snd_i i (d ∷ ds) h k = ground (
  arith,
  compile_peer-peer_of devices forwards_for snd_i i d h.0 here,
  peers_loop-peers_of devices forwards_for snd_i (suc i) ds h.1 later,
)
  where
    moved :
        (j l : ℕ)
        → j ≡ l
        → get_elem? forwards_for j ≡ some (forwarded_to snd_i j 0 devices)
        → get_elem? forwards_for l ≡ some (forwarded_to snd_i l 0 devices)
    moved j l e g =
        subst (λ m. get_elem? forwards_for m ≡ some (forwarded_to snd_i m 0 devices)) e g

    here : get_elem? forwards_for i ≡ some (forwarded_to snd_i i 0 devices)
    here = moved (i + 0) i (omega arith) (k 0 (omega arith))

    later :
        (j : ℕ)
        → j < length ds
        → get_elem? forwards_for (suc i + j) ≡ some (forwarded_to snd_i (suc i + j) 0 devices)
    later j l = moved (i + suc j) (suc i + j) (omega arith) (k (suc j) (omega arith))

get_elem?-replicate : (n j : ℕ) → j < n → get_elem? (replicate {A = List ℕ} n []) j ≡ some []
get_elem?-replicate zero j h = absurd (not_below j h)
  where
    not_below : (j : ℕ) → j < 0 → ⊥
    not_below j h = omega arith
get_elem?-replicate (suc n) zero h = refl
get_elem?-replicate (suc n) (suc j) h = get_elem?-replicate n j (omega arith)

length-replicate : (n : ℕ) → length (replicate {A = List ℕ} n []) ≡ n
length-replicate zero = refl
length-replicate (suc n) = ap suc (length-replicate n)

forward_flags-AreKnown :
    (sn : NetworkCensored) (names : List Bytes) (v4 v6 : Bool)
    → AreKnown sn names
    → (flags : Bool × Bool) × (forward_flags sn names (v4, v6) ≡ ok flags)
unfolding forward_flags
forward_flags-AreKnown sn [] v4 v6 h = ((v4, v6), refl)
forward_flags-AreKnown sn (name ∷ names) v4 v6 h =
    elim (Option-cases (get_device_censored sn name)) [
      | inl e ↦ absurd (ground arith)
      | inr e ↦
          let (d, q) = e in
          let (flags, p) =
            forward_flags-AreKnown sn names (v4 || any_v4 d.addresses) (v6 || any_v6 d.addresses)
              h.1 in
          (flags, rw q p)
    ]

-- The interface of a network where the device `snd` stands at `snd_i`.
abbrev pub interface_of : NetworkCensored → ℕ → NetworkDeviceCensored → Interface
interface_of sn snd_i snd = record {
  name = sn.name;
  private_key = zero_key;
  listen_port = snd.listen_port;
  addresses = snd.addresses;
  peers = peers_of sn.devices snd_i 0 sn.devices;
  broken = false;
}

abbrev with_interface : Machine → Interface → Bool × Bool → Machine
with_interface gm interface (v4, v6) = record {
  interfaces = gm.interfaces ++ interface ∷ [];
  forwards_ipv4 = v4;
  forwards_ipv6 = v6;
}

pub compile_network-interface_of :
    (sn : NetworkCensored) (snd_i : ℕ) (snd : NetworkDeviceCensored) (gm : Machine)
    → AreIndexed (length sn.devices) sn.devices
    → AreKnown sn snd.accessible
    → (more : Machine) × (compile_network true sn snd_i snd gm ≡ ok more)
      × (more.interfaces ≡ gm.interfaces ++ interface_of sn snd_i snd ∷ [])
unfolding compile_network
compile_network-interface_of sn snd_i snd gm h k =
    let (flags, p) = forward_flags-AreKnown sn snd.accessible gm.forwards_ipv4 gm.forwards_ipv6 k in
    let (new, q, f) =
      forwards_loop-Filled snd_i 0 sn.devices (replicate (length sn.devices) [])
        (rw (length-replicate (length sn.devices)) h) in
    (
      with_interface gm (interface_of sn snd_i snd) flags,
      rw p (
          rw q (
            rw
              (peers_loop-peers_of sn.devices new snd_i 0 sn.devices h (λ j l.
                f (0 + j) [] (get_elem?-replicate (length sn.devices) (0 + j) (omega arith))))
              refl)),
      refl,
    )
