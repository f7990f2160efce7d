-- ===== src/Coord/Installed.antt =====
-- `patchReifySpec` of coord/server.go: its two ends, for a decoded request of a known device.
use qrystal.Prelude.{
  ℕ, zero, suc, ◌≡◌, ◌≢◌, refl, ap, ◌∙◌, ◌⊎◌, inl, inr, true, false, ◌&&◌, none, some, List, [],
  ◌∷◌, arith, map, if◌then◌else◌, ◌==◌, list_eq, nat_eq, is_some, contains, get_elem?, modify,
  get_elem?-modify_self, Bool-cases, ok, Bool, all_of, all_of-map_keeps, all_of-modify,
}
use mathlib.Core.Path.{fun_ext}
use qrystal.Text.{Bytes}
use qrystal.Spec.{
  Spec, Network, NetworkDevice, get_network_index, get_network, get_device_index, get_device,
}
use qrystal.Spec.Clone.{clone_device, clone_network, clone_spec}
use qrystal.Spec.Clone.Laws.{get_network-clone, get_device-clone}
use qrystal.Coord.{Server, Request, PatchReifySpecRequest, status, http_error, no_such_accessible}
use qrystal.Coord.Update.{update_spec_no_lock}
use qrystal.Coord.Update.Latest.{update_spec_no_lock-ok, network_names}
use qrystal.Coord.Handlers.{
  verify_known, on_device, set_fields, set_accessible, first_unknown, install, patch_decoded,
}
use qrystal.Coord.Addresses.{spec_addresses, spec_addresses-clone, spec_addresses-on_device}
use qrystal.Coord.Lookup.{
  find_device, find_device-on_device, get_network-index, get_device-index, on_network,
  get_device-on_network,
}
use qrystal.Coord.Patch.{
  apply_patch, find_device-clone, on_device-on_device, verify_known-found, first_unknown-cases,
}

-- What a successful PATCH has done: the specification is a clone of the old one in which the
-- request is applied to the device of its path, its networks and all addresses are those of the
-- old one, the devices that it calls accessible are there, and the marks are those of
-- `updateSpecNoLock`.
pub record IsInstalled (s : Server) (r : Request) (req : PatchReifySpecRequest) (t : Server)
    : Type 0 where
  pub devices :
      (network device : Bytes)
      → find_device t.spec network device ≡ elim (find_device s.spec network device) [
        | none ↦ none
        | some d ↦ some (
            if r.network == network && r.device == device
            then apply_patch req (clone_device d)
            else clone_device d)
      ]
  pub names : network_names t.spec ≡ network_names s.spec
  pub addresses : spec_addresses t.spec ≡ spec_addresses s.spec
  pub keeps :
      (p : NetworkDevice → Bool) (q : Bytes → Bool)
      → ((d : NetworkDevice) → p d ≡ true → p (clone_device d) ≡ true)
      → ((d : NetworkDevice) → p d ≡ true → p (apply_patch req d) ≡ true)
      → all_of (λ (n : Network). q n.name && all_of p n.devices) s.spec.networks ≡ true
      → all_of (λ (n : Network). q n.name && all_of p n.devices) t.spec.networks ≡ true
  pub updated : update_spec_no_lock s t.spec ≡ ok t
  pub reachable :
      (name : Bytes)
      → (req.accessible_set && contains req.accessible name) ≡ true
      → find_device s.spec r.network name ≢ none

network_names-clone : (s : Spec) → network_names (clone_spec s) ≡ network_names s
unfolding network_names clone_spec
network_names-clone s = map_names s.networks
  where
    map_names :
        (ns : List Network)
        → map (λ (n : Network). n.name) (map clone_network ns) ≡ map (λ (n : Network). n.name) ns
    map_names [] = refl
    map_names (n ∷ ns) = ap (◌∷◌ n.name) (map_names ns)

network_names-on_device :
    (s : Spec) (i j : ℕ) (f : NetworkDevice → NetworkDevice)
    → network_names (on_device s i j f) ≡ network_names s
unfolding network_names on_device
network_names-on_device s i j f = modified_names s.networks i
  where
    modified_names :
        (ns : List Network) (k : ℕ)
        → map
            (λ (n : Network). n.name)
            (modify ns k (λ n. record n { devices = modify n.devices j f }))
          ≡ map (λ (n : Network). n.name) ns
    modified_names [] k = refl
    modified_names (n ∷ ns) zero = refl
    modified_names (n ∷ ns) (suc k) = ap (◌∷◌ n.name) (modified_names ns k)

apply_patch-name :
    (req : PatchReifySpecRequest) (d : NetworkDevice) → (apply_patch req d).name ≡ d.name
unfolding apply_patch
apply_patch-name req d = ground arith

apply_patch-addresses :
    (req : PatchReifySpecRequest) (d : NetworkDevice) → (apply_patch req d).addresses ≡ d.addresses
unfolding apply_patch
apply_patch-addresses req d = refl

set_fields-name :
    (req : PatchReifySpecRequest) (d : NetworkDevice) → (set_fields req d).name ≡ d.name
unfolding set_fields
set_fields-name req d = refl

-- A test of the devices and of the networks' names that cloning a device and `f` keep.
module _ (p : NetworkDevice → Bool) (q : Bytes → Bool) where
  abbrev holds_of : Network → Bool
  holds_of n = q n.name && all_of p n.devices

  clone_spec-keeps :
      (s : Spec)
      → ((d : NetworkDevice) → p d ≡ true → p (clone_device d) ≡ true)
      → all_of holds_of s.networks ≡ true
      → all_of holds_of (clone_spec s).networks ≡ true
  unfolding clone_spec clone_network
  clone_spec-keeps s h k =
      all_of-map_keeps holds_of holds_of clone_network s.networks
        (λ n t. ground (arith, all_of-map_keeps p p clone_device n.devices h)) k

  on_device-keeps :
      (s : Spec) (i j : ℕ) (f : NetworkDevice → NetworkDevice)
      → ((d : NetworkDevice) → p d ≡ true → p (f d) ≡ true)
      → all_of holds_of s.networks ≡ true
      → all_of holds_of (on_device s i j f).networks ≡ true
  unfolding on_device
  on_device-keeps s i j f h k =
      all_of-modify holds_of (λ n. record n { devices = modify n.devices j f }) s.networks i
        (λ n t. ground (arith, all_of-modify p f n.devices j h)) k

-- The indices and the network at which the handler writes to the clone.
module _ (s : Server) (r : Request) (req : PatchReifySpecRequest) (i j : ℕ) (cn : Network)
    (hi : get_network_index (clone_spec s.spec) r.network ≡ some i)
    (hn : get_network (clone_spec s.spec) r.network ≡ some cn)
    (he : get_elem? (clone_spec s.spec).networks i ≡ some cn)
    (hj : get_device_index cn r.device ≡ some j) where
  install-ok :
      (f : NetworkDevice → NetworkDevice)
      → f ≡ apply_patch req
      → ((name : Bytes)
          → (req.accessible_set && contains req.accessible name) ≡ true
          → find_device s.spec r.network name ≢ none)
      → (t : Server) × (install s (on_device (clone_spec s.spec) i j f) ≡ ok (t, status 204 ∷ []))
        × IsInstalled s r req t
  unfolding install
  install-ok f hf known =
      let new = on_device (clone_spec s.spec) i j f in
      let (t, p, q, _, _) = update_spec_no_lock-ok s new in
      (
        t,
        rw (p, install),
        record {
          devices = λ network device. ground (
            arith,
            ap (λ c. find_device c network device) q,
            find_device-on_device (clone_spec s.spec) r.network r.device network device i j cn f
                (λ d. ap (λ g. (g d).name) hf ∙ apply_patch-name req d) hi hn hj,
            find_device-clone s.spec network device,
            hf,
          );
          names =
              ap network_names q
              ∙ network_names-on_device (clone_spec s.spec) i j f
              ∙ network_names-clone s.spec;
          addresses =
              ap spec_addresses q
              ∙ spec_addresses-on_device (clone_spec s.spec) i j f
                  (λ d. ap (λ g. (g d).addresses) hf ∙ apply_patch-addresses req d)
              ∙ spec_addresses-clone s.spec;
          keeps = λ pd pn hc hp h.
              ap
                (λ (x : Spec).
                  all_of (λ (n : Network). pn n.name && all_of pd n.devices) x.networks)
                q
              ∙ on_device-keeps pd pn (clone_spec s.spec) i j f
                  (λ d k. ap (λ g. pd (g d)) hf ∙ hp d k) (clone_spec-keeps pd pn s.spec hc h);
          updated = rw q p;
          reachable = known;
        },
      )

  new_network : Network
  new_network = on_network j (set_fields req) cn

  get_elem?-new_network :
      get_elem? (on_device (clone_spec s.spec) i j (set_fields req)).networks i ≡ some new_network
  unfolding on_device new_network on_network
  get_elem?-new_network = get_elem?-modify_self (clone_spec s.spec).networks i _ cn he

  patch_decoded-plain :
      req.accessible_set ≡ false
      → patch_decoded s r req ≡ install s (on_device (clone_spec s.spec) i j (set_fields req))
  unfolding patch_decoded
  patch_decoded-plain h = ground arith

  patch_decoded-accessible :
      req.accessible_set ≡ true
      → patch_decoded s r req ≡ elim (first_unknown new_network req.accessible) [
        | some name ↦ ok (s, http_error 400 (no_such_accessible r.network name))
        | none ↦ install s (
            on_device
              (on_device (clone_spec s.spec) i j (set_fields req))
              i
              j
              (set_accessible req.accessible))
      ]
  unfolding patch_decoded
  patch_decoded-accessible h = ground (arith, get_elem?-new_network)

  is_some-new_network :
      (name : Bytes)
      → is_some (get_device new_network name) ≡ is_some (find_device s.spec r.network name)
  unfolding new_network find_device
  is_some-new_network name = ground (
    arith,
    find_device-clone s.spec r.network name,
    get_device-on_network cn r.device name j (set_fields req) (set_fields-name req) hj,
  )

  patch_decoded-ends :
      ((t : Server) × (patch_decoded s r req ≡ ok (t, status 204 ∷ [])) × IsInstalled s r req t)
      ⊎ ((name : Bytes) × ((req.accessible_set && contains req.accessible name) ≡ true)
          × (find_device s.spec r.network name ≡ none)
          × (patch_decoded s r req ≡ ok (s, http_error 400 (no_such_accessible r.network name))))
  unfolding apply_patch set_fields set_accessible
  patch_decoded-ends = elim (Bool-cases req.accessible_set) [
    | inl h ↦ elim (first_unknown-cases new_network req.accessible) [
      | inl (k, known) ↦
          let (t, p, q) =
            install-ok (λ d. set_accessible req.accessible (set_fields req d))
              (fun_ext (λ d. ground arith))
              (λ name m e. known name (ground arith) (ground (arith, is_some-new_network name))) in
          inl (
            t,
            ground (
              arith,
              patch_decoded-accessible h,
              on_device-on_device (clone_spec s.spec) i j (set_fields req)
                  (set_accessible req.accessible),
            ),
            q,
          )
      | inr (name, k, m, e) ↦ inr (
        name,
        ground arith,
        ground (arith, is_some-new_network name),
        ground (arith, patch_decoded-accessible h),
      )
    ]
    | inr h ↦
        let (t, p, q) =
          install-ok (set_fields req) (fun_ext (λ d. ground arith)) (λ name m. ground arith) in
        inl (t, patch_decoded-plain h ∙ p, q)
  ]

-- A decoded PATCH of a known device has two ends. Either it is answered 204, and the specification
-- is as `IsInstalled` says; or it is answered 400 for a name in `Accessible` that the network does
-- not have, and nothing has changed. It never panics.
pub patch_decoded-total :
    (s : Server) (r : Request) (req : PatchReifySpecRequest)
    → verify_known s.spec r.network r.device ≡ none
    → ((t : Server) × (patch_decoded s r req ≡ ok (t, status 204 ∷ [])) × IsInstalled s r req t)
      ⊎ ((name : Bytes) × ((req.accessible_set && contains req.accessible name) ≡ true)
          × (find_device s.spec r.network name ≡ none)
          × (patch_decoded s r req ≡ ok (s, http_error 400 (no_such_accessible r.network name))))
patch_decoded-total s r req h =
    let (n, d, hn, hd) = verify_known-found s.spec r.network r.device h in
    let found : get_network (clone_spec s.spec) r.network ≡ some (clone_network n) =
      ground (arith, get_network-clone s.spec r.network) in
    let device : get_device (clone_network n) r.device ≡ some (clone_device d) =
      ground (arith, get_device-clone n r.device) in
    let (i, hi, he) = get_network-index (clone_spec s.spec) r.network (clone_network n) found in
    let (j, hj, _) = get_device-index (clone_network n) r.device (clone_device d) device in
    patch_decoded-ends s r req i j (clone_network n) hi found he hj
