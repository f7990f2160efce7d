-- ===== src/Coord/Patch.antt =====
-- `patchReifySpec` of coord/server.go: what a PATCH does to the specification.
use qrystal.Prelude.{
  ℕ, zero, suc, ◌≡◌, ◌≢◌, refl, ap, ◌∙◌, ◌⊎◌, inl, inr, true, none, some, List, [], ◌∷◌, arith,
  if◌then◌else◌, ◌==◌, ==_iff, ==_refl, list_eq, nat_eq, contains, modify, Bool-cases, Option-cases,
}
use mathlib.Core.Path.{fun_ext}
use qrystal.Text.{Bytes}
use qrystal.Spec.{Spec, Network, NetworkDevice, get_network, get_device}
use qrystal.Spec.Clone.{clone_device, clone_spec}
use qrystal.Spec.Clone.Laws.{get_network-clone, get_device-clone}
use qrystal.Coord.{PatchReifySpecRequest}
use qrystal.Coord.Handlers.{verify_known, on_device, first_unknown}
use qrystal.Coord.Lookup.{find_device}

-- The device as the request wants it: each field that is flagged is the request's, and all else is
-- as before.
unfoldable pub apply_patch : PatchReifySpecRequest → NetworkDevice → NetworkDevice
apply_patch req nd = record {
  censored = record {
    name = nd.name;
    endpoints = nd.endpoints;
    forwarder_and_endpoint_chosen = nd.forwarder_and_endpoint_chosen;
    uses_forwarder = nd.uses_forwarder;
    endpoint_chosen_index = nd.endpoint_chosen_index;
    forwarder_chosen_index = nd.forwarder_chosen_index;
    addresses = nd.addresses;
    listen_port = if req.listen_port_set then req.listen_port else nd.listen_port;
    public_key = if req.public_key_set then req.public_key else nd.public_key;
    preshared_key = if req.preshared_key_set then req.preshared_key else nd.preshared_key;
    persistent_keepalive =
        if req.persistent_keepalive_set then req.persistent_keepalive else nd.persistent_keepalive;
    accessible = if req.accessible_set then req.accessible else nd.accessible;
  };
  access = nd.access;
}

pub find_device-clone :
    (s : Spec) (network device : Bytes)
    → find_device (clone_spec s) network device
      ≡ elim (find_device s network device) [ none ↦ none | some d ↦ some (clone_device d) ]
unfolding find_device
find_device-clone s network device = elim (Option-cases (get_network s network)) [
  | inl e ↦ ground (arith, get_network-clone s network)
  | inr (n, e) ↦ ground (arith, get_network-clone s network, get_device-clone n device)
]

modify-modify {ℓ} :
    {A : Type ℓ} (xs : List A) (i : ℕ) (f g : A → A)
    → modify (modify xs i f) i g ≡ modify xs i (λ x. g (f x))
modify-modify [] i f g = refl
modify-modify (x ∷ xs) zero f g = refl
modify-modify (x ∷ xs) (suc i) f g = ap (◌∷◌ x) (modify-modify xs i f g)

-- Two writes to one place are one.
pub on_device-on_device :
    (s : Spec) (i j : ℕ) (f g : NetworkDevice → NetworkDevice)
    → on_device (on_device s i j f) i j g ≡ on_device s i j (λ d. g (f d))
unfolding on_device
on_device-on_device s i j f g = ap with_networks (
    modify-modify s.networks i (on_network f) (on_network g)
    ∙ ap (modify s.networks i) (fun_ext (λ n. ap (with_devices n) (modify-modify n.devices j f g))))
  where
    with_networks : List Network → Spec
    with_networks ns = record { networks = ns }

    with_devices : Network → List NetworkDevice → Network
    with_devices n ds = record n { devices = ds }

    on_network : (NetworkDevice → NetworkDevice) → Network → Network
    on_network h n = record n { devices = modify n.devices j h }

pub verify_known-found :
    (s : Spec) (network device : Bytes)
    → verify_known s network device ≡ none
    → (n : Network) × (d : NetworkDevice) × (get_network s network ≡ some n)
      × (get_device n device ≡ some d)
unfolding verify_known
verify_known-found s network device h = elim (Option-cases (get_network s network)) [
  | inl e ↦ absurd (ground arith)
  | inr (n, e) ↦ elim (Option-cases (get_device n device)) [
    | inl k ↦ absurd (ground arith)
    | inr (d, k) ↦ (n, d, e, k)
  ]
]

-- A name that a network does not have is found in the list, if there is one.
pub first_unknown-cases :
    (n : Network) (names : List Bytes)
    → ((first_unknown n names ≡ none)
        × ((x : Bytes) → contains names x ≡ true → get_device n x ≢ none))
      ⊎ ((name : Bytes) × (first_unknown n names ≡ some name)
          × (contains names name ≡ true)
          × (get_device n name ≡ none))
unfolding first_unknown
first_unknown-cases n [] = inl (refl, λ x h. cc)
first_unknown-cases n (y ∷ names) = elim (Option-cases (get_device n y)) [
  | inl e ↦ inr (y, ground arith, ground (arith, ==_refl y), e)
  | inr (d, e) ↦ elim (first_unknown-cases n names) [
    | inl (k, h) ↦ inl (
      ground arith,
      λ x m. elim (Bool-cases (y == x)) [
        | inl q ↦ λ z. ground (arith, ap (get_device n) ((==_iff y x).0 q))
        | inr q ↦ h x (ground arith)
      ],
    )
    | inr (name, k, m, h) ↦ inr (name, ground arith, ground arith, h)
  ]
]
