-- ===== src/Spec/Resolve/Forwarders.antt =====
-- `GetForwardersFor` of spec/spec.go as a set of indices.
use qrystal.Prelude.{
  ℕ, zero, suc, ◌+◌, ◌<◌, ◌≡◌, refl, Bool, false, Option, none, some, List, [], ◌∷◌, arith,
  contains, nat_eq, list_eq, get_elem?, ◌&&◌,
}
use qrystal.Text.{Bytes}
use qrystal.Spec.{NetworkDeviceCensored, NetworkCensored}
use qrystal.Spec.Resolve.{can_forward, forwarders_loop, get_forwarders_for}

-- Whether a device stands there that lists the name as accessible and is itself chosen.
abbrev pub forwards : Option NetworkDeviceCensored → Bytes → Bool
forwards none name = false
forwards (some d) name = d.forwarder_and_endpoint_chosen && contains d.accessible name

below_start :
    (ds : List NetworkDeviceCensored) (name : Bytes) (k i : ℕ)
    → i < k
    → contains (forwarders_loop ds name k) i ≡ false
unfolding forwarders_loop
below_start [] name k i h = refl
below_start (d ∷ ds) name k i h = ground (arith, below_start ds name (suc k) i)

contains-forwarders_loop :
    (ds : List NetworkDeviceCensored) (name : Bytes) (k j i : ℕ)
    → i ≡ k + j
    → contains (forwarders_loop ds name k) i ≡ forwards (get_elem? ds j) name
unfolding forwarders_loop can_forward
contains-forwarders_loop [] name k j i h = refl
contains-forwarders_loop (d ∷ ds) name k zero i h = ground (arith, below_start ds name (suc k) i)
contains-forwarders_loop (d ∷ ds) name k (suc j) i h =
    ground (arith, contains-forwarders_loop ds name (suc k) j i)

-- An index is returned exactly if a device stands there that lists the name as accessible and has a
-- chosen endpoint or forwarder.
pub contains-get_forwarders_for :
    (nc : NetworkCensored) (name : Bytes) (i : ℕ)
    → contains (get_forwarders_for nc name) i ≡ forwards (get_elem? nc.devices i) name
unfolding get_forwarders_for
contains-get_forwarders_for nc name i = contains-forwarders_loop nc.devices name 0 i i (omega arith)
