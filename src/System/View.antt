-- ===== src/System/View.antt =====
-- A device in its own view of a network, and in the specification that the server holds.
use qrystal.Prelude.{
  ℕ, ◌≡◌, inl, inr, refl, sym, ap, ◌∙◌, Bool, true, false, some, arith, ◌==◌, list_eq, nat_eq,
  get_elem?, get_elem?-map, at_index, some-injective, index_func-map, Option-cases,
}
use qrystal.Text.{Bytes}
use qrystal.Spec.{
  Spec, Network, NetworkDevice, NetworkDeviceCensored, NetworkCensored, get_device_censored_index,
  get_device_censored, get_network, get_device,
}
use qrystal.Spec.Equal.{canonical_device, canonical_network}
use qrystal.Spec.Censor.{can_access, censor_for_device}
use qrystal.Spec.Censor.Laws.{shown, get_device-censor_for_device}
use qrystal.Coord.Lookup.{find_device}
use qrystal.Coord.Effect.{current_view}

-- Networks of one canonical form have a device at the same index.
index-canonical :
    (a b : NetworkCensored) (name : Bytes)
    → canonical_network a ≡ canonical_network b
    → get_device_censored_index a name ≡ get_device_censored_index b name
unfolding get_device_censored_index canonical_network canonical_device
index-canonical a b name h =
    sym (
      index_func-map (λ (d : NetworkDeviceCensored). d.name == name) (λ d. d.name == name)
        canonical_device a.devices (λ d. refl))
    ∙ (ap (λ (n : NetworkCensored). get_device_censored_index n name) h
        ∙ index_func-map (λ (d : NetworkDeviceCensored). d.name == name) (λ d. d.name == name)
            canonical_device b.devices (λ d. refl))

get_elem?-canonical :
    (a b : NetworkCensored) (i : ℕ) (d : NetworkDeviceCensored)
    → canonical_network a ≡ canonical_network b
    → get_elem? a.devices i ≡ some d
    → (e : NetworkDeviceCensored) × (get_elem? b.devices i ≡ some e)
      × (canonical_device d ≡ canonical_device e)
unfolding canonical_network
get_elem?-canonical a b i d h there =
    let same = ap (λ (n : NetworkCensored). get_elem? n.devices i) h in
    elim (Option-cases (get_elem? b.devices i)) [
      | inl none_there ↦ absurd (
          ground (
            arith,
            get_elem?-map canonical_device a.devices i,
            get_elem?-map canonical_device b.devices i,
          ))
      | inr (e, k) ↦ (
        e,
        k,
        some-injective (
            ground (
              arith,
              get_elem?-map canonical_device a.devices i,
              get_elem?-map canonical_device b.devices i,
            )),
      )
    ]

-- A view is of a network that has the viewer.
current_view-viewer :
    (spec : Spec) (network device : Bytes) (view : NetworkCensored)
    → current_view spec network device ≡ some view
    → (n : Network) × (d : NetworkDevice) × (get_device n device ≡ some d)
      × (find_device spec network device ≡ some d)
      × (censor_for_device n device ≡ some view)
unfolding current_view find_device censor_for_device
current_view-viewer spec network device view h = elim (Option-cases (get_network spec network)) [
  | inl e ↦ absurd (ground arith)
  | inr (n, e) ↦ elim (Option-cases (get_device n device)) [
    | inl k ↦ absurd (ground arith)
    | inr (d, k) ↦ (n, d, k, ground arith, ground arith)
  ]
]

shown-some :
    (b : Bool) (d : NetworkDevice) (e : NetworkDeviceCensored)
    → shown b (some d) ≡ some e
    → e ≡ d.censored
shown-some true d e h = sym (some-injective h)
shown-some false d e h = absurd (ground arith)

-- The entry of a device in its view is what the server holds of it, to `Equal`.
pub own_entry :
    (spec : Spec) (network device : Bytes) (view nc : NetworkCensored) (i : ℕ)
    (e : NetworkDeviceCensored)
    → current_view spec network device ≡ some view
    → canonical_network nc ≡ canonical_network view
    → get_device_censored_index nc device ≡ some i
    → get_elem? nc.devices i ≡ some e
    → (d : NetworkDevice) × (find_device spec network device ≡ some d)
      × (canonical_device e ≡ canonical_device d.censored)
unfolding get_device_censored
own_entry spec network device view nc i e current same at there =
    let (n, d, hd, found, hv) = current_view-viewer spec network device view current in
    let (x, k, q) = get_elem?-canonical nc view i e same there in
    let looked_up : get_device_censored view device ≡ some x =
      ap (at_index view.devices) (sym (index-canonical nc view device same) ∙ at) ∙ k in
    let shown_lem = get_device-censor_for_device n device d view device hd hv in
    (
      d,
      found,
      q
          ∙ ap canonical_device (
              shown-some (can_access d.access device) d x
                (sym (ap (shown (can_access d.access device)) hd) ∙ (sym shown_lem ∙ looked_up))),
    )
