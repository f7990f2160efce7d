-- ===== src/System/Networks.antt =====
-- Specifications and views that JSON carries as they are, and whose addresses no sort moves: each
-- device lists one address at most, a network, and all texts are ASCII.
use qrystal.Device.Endpoints.{set_device}
use qrystal.Prelude.{
  ◌≡◌, refl, sym, ap, ◌∙◌, inl, inr, Bool, true, ◌&&◌, some, arith, all_of, all_of-map,
  all_of-find_func, all_of-filter_by, Option-cases, some-injective, ◌==◌, list_eq, nat_eq,
  filter_by, ℕ, ap₂, ltb, length-map, subst, &&-parts, ==_iff, find_func-test, all_of-modify,
}
use qrystal.Text.{Bytes, is_ascii}
use qrystal.Net.{IpNet, is_network, or_whole-canonical_ip}
use qrystal.Spec.{
  Spec, Network, NetworkDevice, NetworkDeviceCensored, NetworkCensored, get_network, get_device,
}
use qrystal.Spec.Equal.{canonical_net, canonical_device, canonical_network}
use qrystal.Spec.Censor.{can_access, view_for, censor_for_device}
use qrystal.Coord.Lookup.{get_network-find_func, get_device-find_func}
use qrystal.System.{is_plain}
use qrystal.Coord.{Server, Request, PatchReifySpecRequest}
use qrystal.Coord.Installed.{IsInstalled}
use qrystal.Coord.Patch.{apply_patch}
use qrystal.Spec.Clone.{clone_device}
use qrystal.Coord.Effect.{current_view}

abbrev pub view_is_plain : NetworkCensored → Bool
view_is_plain nc = is_ascii nc.name && is_ascii nc.censored_for && all_of is_plain nc.devices

abbrev pub full_is_plain : NetworkDevice → Bool
full_is_plain d = is_plain d.censored

abbrev pub network_is_plain : Network → Bool
network_is_plain n = is_ascii n.name && all_of full_is_plain n.devices

unfoldable pub spec_is_plain : Spec → Bool
spec_is_plain s = all_of network_is_plain s.networks

is_network-canonical : (n : IpNet) → is_network (canonical_net n) ≡ is_network n
unfolding is_network canonical_net
is_network-canonical n = rw (or_whole-canonical_ip n.ip) refl

is_plain-canonical : (d : NetworkDeviceCensored) → is_plain (canonical_device d) ≡ is_plain d
unfolding canonical_device
is_plain-canonical d =
    ap₂
      (λ k b.
        ltb k 2
        && b
        && is_ascii d.name
        && all_of is_ascii d.endpoints
        && all_of is_ascii d.accessible)
      (length-map d.addresses canonical_net)
      (all_of-map is_network is_network canonical_net d.addresses is_network-canonical)

view_is_plain-canonical :
    (nc : NetworkCensored) → view_is_plain (canonical_network nc) ≡ view_is_plain nc
unfolding canonical_network
view_is_plain-canonical nc =
    ap (λ b. is_ascii nc.name && is_ascii nc.censored_for && b)
      (all_of-map is_plain is_plain canonical_device nc.devices is_plain-canonical)

-- Views that are equal to `Equal` are alike in this.
pub view_is_plain-equal :
    (a b : NetworkCensored)
    → canonical_network a ≡ canonical_network b
    → view_is_plain a ≡ view_is_plain b
view_is_plain-equal a b h =
    sym (view_is_plain-canonical a) ∙ (ap view_is_plain h ∙ view_is_plain-canonical b)

clone_device-is_plain :
    (d : NetworkDevice) → full_is_plain d ≡ true → full_is_plain (clone_device d) ≡ true
unfolding clone_device
clone_device-is_plain d k = ground arith

apply_patch-is_plain :
    (req : PatchReifySpecRequest) (d : NetworkDevice)
    → all_of is_ascii req.accessible ≡ true
    → full_is_plain d ≡ true
    → full_is_plain (apply_patch req d) ≡ true
unfolding apply_patch
apply_patch-is_plain req d a k = ground arith

-- A PATCH keeps it, if it sends no other texts.
pub installed-is_plain :
    (s t : Server) (r : Request) (req : PatchReifySpecRequest)
    → all_of is_ascii req.accessible ≡ true
    → IsInstalled s r req t
    → spec_is_plain s.spec ≡ true
    → spec_is_plain t.spec ≡ true
unfolding spec_is_plain
installed-is_plain s t r req a installed h = installed.keeps full_is_plain is_ascii cloned patched h
  where
    cloned : (d : NetworkDevice) → full_is_plain d ≡ true → full_is_plain (clone_device d) ≡ true
    cloned d k = clone_device-is_plain d k

    patched :
        (d : NetworkDevice) → full_is_plain d ≡ true → full_is_plain (apply_patch req d) ≡ true
    patched d k = apply_patch-is_plain req d a k

view_for-is_plain :
    (n : Network) (viewer : NetworkDevice) (name : Bytes)
    → network_is_plain n ≡ true
    → is_ascii name ≡ true
    → view_is_plain (view_for n viewer name) ≡ true
unfolding view_for
view_for-is_plain n viewer name h k =
    let (named, devices) = &&-parts (is_ascii n.name) (all_of full_is_plain n.devices) h in
    let seen =
      all_of-map is_plain full_is_plain (λ (d : NetworkDevice). d.censored)
        (filter_by (λ d. can_access viewer.access d.name) n.devices) (λ d. refl)
      ∙ all_of-filter_by full_is_plain (λ d. can_access viewer.access d.name) n.devices devices in
    rw (named, k) seen

-- So is every view of such a specification.
pub current_view-is_plain :
    (s : Spec) (network device : Bytes) (view : NetworkCensored)
    → spec_is_plain s ≡ true
    → current_view s network device ≡ some view
    → view_is_plain view ≡ true
unfolding current_view censor_for_device spec_is_plain
current_view-is_plain s network device view h k = elim (Option-cases (get_network s network)) [
  | inl e ↦ absurd (ground arith)
  | inr (n, e) ↦ elim (Option-cases (get_device n device)) [
    | inl q ↦ absurd (ground arith)
    | inr (d, q) ↦
        let in_network =
          all_of-find_func network_is_plain (λ n. n.name == network) s.networks n h
            (sym (get_network-find_func s network) ∙ e) in
        sym (ap view_is_plain (some-injective (sym (viewed n d e q) ∙ k)))
        ∙ view_for-is_plain n d device in_network (device_text n d in_network q)
  ]
]
  where
    name_text : (d : NetworkDevice) → full_is_plain d ≡ true → is_ascii d.name ≡ true
    name_text d k = ground arith

    device_text :
        (n : Network) (d : NetworkDevice)
        → network_is_plain n ≡ true
        → get_device n device ≡ some d
        → is_ascii device ≡ true
    device_text n d k q =
        let found = sym (get_device-find_func n device) ∙ q in
        let plain : full_is_plain d ≡ true =
          all_of-find_func full_is_plain (λ (x : NetworkDevice). x.name == device) n.devices d
            (&&-parts (is_ascii n.name) (all_of full_is_plain n.devices) k).1 found in
        let same : d.name ≡ device =
          (==_iff d.name device).0
            (find_func-test (λ (x : NetworkDevice). x.name == device) n.devices d found) in
        subst (λ x. is_ascii x ≡ true) same (name_text d plain)

    viewed :
        (n : Network) (d : NetworkDevice)
        → get_network s network ≡ some n
        → get_device n device ≡ some d
        → current_view s network device ≡ some (view_for n d device)
    viewed n d e q = ground arith

pub set_device-is_plain :
    (nc : NetworkCensored) (i : ℕ) (f : NetworkDeviceCensored → NetworkDeviceCensored)
    → ((d : NetworkDeviceCensored) → is_plain d ≡ true → is_plain (f d) ≡ true)
    → view_is_plain nc ≡ true
    → view_is_plain (set_device nc i f) ≡ true
set_device-is_plain nc i f h k = ground (arith, all_of-modify is_plain f nc.devices i h)
