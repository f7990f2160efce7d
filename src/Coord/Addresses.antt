-- ===== src/Coord/Addresses.antt =====
-- The addresses of a specification, which `patchReifySpec` of coord/server.go does not change.
use qrystal.Prelude.{ℕ, ◌≡◌, refl, ap₂, List, [], ◌∷◌, map, modify, map-modify}
use qrystal.Net.{IpNet}
use qrystal.Spec.{Spec, Network, NetworkDevice}
use qrystal.Spec.Clone.{clone_device, clone_network, clone_spec}
use qrystal.Coord.Handlers.{on_device}

abbrev pub device_addresses : List NetworkDevice → List (List IpNet)
device_addresses ds = map (λ (d : NetworkDevice). d.addresses) ds

unfoldable pub spec_addresses : Spec → List (List (List IpNet))
spec_addresses s = map (λ (n : Network). device_addresses n.devices) s.networks

map-map {ℓ κ μ} :
    {A : Type ℓ} {B : Type κ} {C : Type μ} (f : A → B) (g : B → C) (h : A → C) (xs : List A)
    → ((x : A) → g (f x) ≡ h x)
    → map g (map f xs) ≡ map h xs
map-map f g h [] e = refl
map-map f g h (x ∷ xs) e = ap₂ (◌∷◌) (e x) (map-map f g h xs e)

pub spec_addresses-clone : (s : Spec) → spec_addresses (clone_spec s) ≡ spec_addresses s
unfolding spec_addresses clone_spec clone_network clone_device
spec_addresses-clone s =
    map-map clone_network (λ n. device_addresses n.devices) (λ n. device_addresses n.devices)
      s.networks
      (λ n. map-map clone_device (λ d. d.addresses) (λ d. d.addresses) n.devices (λ d. refl))

pub spec_addresses-on_device :
    (s : Spec) (i j : ℕ) (f : NetworkDevice → NetworkDevice)
    → ((d : NetworkDevice) → (f d).addresses ≡ d.addresses)
    → spec_addresses (on_device s i j f) ≡ spec_addresses s
unfolding spec_addresses on_device
spec_addresses-on_device s i j f h =
    map-modify (λ n. record n { devices = modify n.devices j f }) (λ n. device_addresses n.devices)
      s.networks i (λ n. map-modify f (λ d. d.addresses) n.devices j h)
