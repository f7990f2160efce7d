-- ===== src/Coord/Update/Kept.antt =====
-- `updateSpecNoLock` of coord/update.go: which devices stay marked as having applied the latest
-- specification.
use qrystal.Prelude.{
  ◌≡◌, ◌≢◌, refl, ap, ◌∙◌, inl, inr, Bool, true, false, ◌&&◌, Option, none, some, List, [], ◌∷◌,
  map, arith, if◌then◌else◌, ◌==◌, ==_iff, ==_refl, list_eq, nat_eq, contains, filter_by, is_some,
  find_func-contains, at_index-index_func, Bool-cases, Option-cases, ok, contains-filter_by,
}
use qrystal.Text.{Bytes, bytes_less}
use qrystal.Spec.{Spec, Network, NetworkDevice, get_network, get_device}
use qrystal.Spec.Equal.{network_equal}
use qrystal.Spec.Censor.{censor_for_device}
use qrystal.Coord.Update.{slice_union, set_latest, keep_devices, keep_networks}
use qrystal.Coord.Update.Union.{contains-slice_union}

-- Both networks have the device, and show it equal views.
unfoldable pub is_view_kept : Network → Network → Bytes → Bool
is_view_kept old new name = elim (censor_for_device old name) [
  | none ↦ false
  | some o ↦ elim (censor_for_device new name) [ none ↦ false | some n ↦ network_equal o n ]
]

-- Each device of the list is found in the network by its name.
abbrev Known : Network → List NetworkDevice → Type 0
Known n [] = Unit
Known n (d ∷ ds) = (get_device n d.name ≢ none) × Known n ds

keep_devices-filter_by :
    (old new : Network) (ds : List NetworkDevice)
    → Known new ds
    → keep_devices old new ds ≡ ok (filter_by (is_view_kept old new) (map (λ d. d.name) ds))
unfolding keep_devices is_view_kept censor_for_device
keep_devices-filter_by old new [] h = refl
keep_devices-filter_by old new (d ∷ ds) h = ground (arith, keep_devices-filter_by old new ds h.1)

unfoldable pub device_names : Network → List Bytes
device_names n = map (λ d. d.name) n.devices

-- The devices that `GetDevice` finds are those that the network names.
get_device-device_names :
    (n : Network) (name : Bytes) → is_some (get_device n name) ≡ contains (device_names n) name
unfolding get_device device_names
get_device-device_names n name =
    ap is_some (at_index-index_func _ n.devices)
    ∙ find_func-contains (λ (d : NetworkDevice). d.name) n.devices name

Known-sub :
    (n : Network) (ds : List NetworkDevice)
    → ((x : Bytes) → contains (map (λ d. d.name) ds) x ≡ true → contains (device_names n) x ≡ true)
    → Known n ds
Known-sub n [] h = tt
Known-sub n (d ∷ ds) h = (
  ground (arith, get_device-device_names n d.name, h d.name (ground (arith, ==_refl d.name))),
  Known-sub n ds (λ x k. h x (ground arith)),
)

Known-all : (n : Network) → Known n n.devices
unfolding device_names
Known-all n = Known-sub n n.devices (λ x k. k)

-- A kept view is of a device that the new network names.
is_view_kept-names :
    (old new : Network) (name : Bytes)
    → (contains (device_names new) name && is_view_kept old new name) ≡ is_view_kept old new name
unfolding is_view_kept censor_for_device
is_view_kept-names old new name = ground (arith, get_device-device_names new name)

-- The loop over one network never panics, and keeps the devices whose view is kept.
keep_devices-ok :
    (old new : Network)
    → (keep : List Bytes) × (keep_devices old new new.devices ≡ ok keep)
      × ((name : Bytes) → contains keep name ≡ is_view_kept old new name)
unfolding device_names
keep_devices-ok old new = (
  filter_by (is_view_kept old new) (device_names new),
  keep_devices-filter_by old new new.devices (Known-all new),
  λ name.
      contains-filter_by (is_view_kept old new) (device_names new) name
      ∙ is_view_kept-names old new name,
)

-- What the second loop asks of a marked device: each new network of the name that the old
-- specification has keeps its view.
abbrev pub kept_by : Option Network → Network → Bytes → Bool
kept_by none new device = true
kept_by (some old) new device = is_view_kept old new device

unfoldable pub is_kept : Spec → List Network → Bytes → Bytes → Bool
is_kept old [] name device = true
is_kept old (n ∷ ns) name device =
    (if n.name == name then kept_by (get_network old n.name) n device else true)
    && is_kept old ns name device

pub keep_networks-ok :
    (old : Spec) (ns : List Network) (latest : Bytes → List Bytes)
    → (l : Bytes → List Bytes) × (keep_networks old ns latest ≡ ok l)
      × ((name device : Bytes)
          → contains (l name) device
            ≡ (contains (latest name) device && is_kept old ns name device))
unfolding keep_networks is_kept
keep_networks-ok old [] latest = (latest, refl, λ name device. ground arith)
keep_networks-ok old (n ∷ ns) latest = elim (Option-cases (get_network old n.name)) [
  | inl e ↦
      let (l, p, q) = keep_networks-ok old ns latest in
      (l, rw (e, keep_networks) p, λ name device. ground (arith, q name device))
  | inr (o, e) ↦
      let (keep, pk, qk) = keep_devices-ok o n in
      let joined = slice_union keep (latest n.name) in
      let (l, p, q) = keep_networks-ok old ns (set_latest latest n.name joined) in
      (
        l,
        ground arith,
        λ name device. elim (Bool-cases (n.name == name)) [
          | inl h ↦ ground (
            arith,
            q name device,
            qk device,
            contains-slice_union keep (latest n.name) device,
            ap latest ((==_iff n.name name).0 h),
          )
          | inr h ↦ ground (arith, q name device)
        ],
      )
]
