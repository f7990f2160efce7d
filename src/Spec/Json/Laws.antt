-- ===== src/Spec/Json/Laws.antt =====
-- spec/spec.go: a view of a network that was sent as JSON, as its receiver reads it.
use qrystal.Prelude.{
  ◌≡◌, ==_refl, option_eq, int_eq, ap₂, refl, true, Option, some, List, [], ◌∷◌, map, arith,
  list_eq, nat_eq, equal_func, ok, all_of, Bool, &&-parts,
}
use qrystal.Spec.{NetworkDeviceCensored}
use qrystal.Spec.Equal.{ip_net_equal, canonical_device, device_equal, device_equal_iff}
use qrystal.Spec.Json.{
  NetworkDeviceCensoredJson, KeyFiles, load_preshared_key, write_fields, unmarshal_censored,
  zero_device, unmarshal_devices,
}

-- What decoding makes of the text that was encoded for a device: fields are matched by their names,
-- an address may come back in its other form, and there is no `PresharedKeyPath` in the text.
pub record IsReread (d : NetworkDeviceCensored) (ndcj : NetworkDeviceCensoredJson) : Type 0 where
  pub name : ndcj.name ≡ d.name
  pub endpoints : ndcj.endpoints ≡ d.endpoints
  pub addresses : equal_func ip_net_equal ndcj.addresses d.addresses ≡ true
  pub listen_port : ndcj.listen_port ≡ d.listen_port
  pub public_key : ndcj.public_key ≡ d.public_key
  pub preshared_key : ndcj.preshared_key ≡ d.preshared_key
  pub no_path : ndcj.preshared_key_path ≡ []
  pub persistent_keepalive : ndcj.persistent_keepalive ≡ d.persistent_keepalive
  pub accessible : ndcj.accessible ≡ d.accessible

-- What `UnmarshalJSON` writes for it, over a receiver.
written-equal :
    (d ndc : NetworkDeviceCensored) (ndcj : NetworkDeviceCensoredJson)
    → IsReread d ndcj
    → device_equal (write_fields ndcj ndcj.preshared_key ndc) d ≡ true
unfolding write_fields device_equal
written-equal d ndc ndcj h =
    rw
      (
        h.name, h.endpoints, h.addresses, h.listen_port, h.public_key, h.preshared_key,
        h.persistent_keepalive, h.accessible,
      )
      (ground (
        arith,
        ==_refl d.name,
        ==_refl d.endpoints,
        ==_refl d.listen_port,
        ==_refl d.public_key,
        ==_refl d.preshared_key,
        ==_refl d.persistent_keepalive,
        ==_refl d.accessible,
      ))

-- The choice of an endpoint and of a forwarder is the same in both.
abbrev pub IsChosenAs : NetworkDeviceCensored → NetworkDeviceCensored → Type 0
IsChosenAs d e =
    (e.forwarder_and_endpoint_chosen ≡ d.forwarder_and_endpoint_chosen)
    × (e.uses_forwarder ≡ d.uses_forwarder)
    × (e.endpoint_chosen_index ≡ d.endpoint_chosen_index)
    × (e.forwarder_chosen_index ≡ d.forwarder_chosen_index)

unmarshal_censored-reread :
    (files : KeyFiles) (d ndc : NetworkDeviceCensored) (ndcj : NetworkDeviceCensoredJson)
    → IsReread d ndcj
    → unmarshal_censored files (some ndcj) ndc ≡ ok (write_fields ndcj ndcj.preshared_key ndc)
unfolding unmarshal_censored load_preshared_key
unmarshal_censored-reread files d ndc ndcj h = rw h.no_path refl

-- A device that was sent as JSON is received: the result is equal to what was sent, to `Equal`, and
-- the choice of an endpoint and of a forwarder is the receiver's.
pub unmarshal_censored-equal :
    (files : KeyFiles) (d ndc : NetworkDeviceCensored) (ndcj : NetworkDeviceCensoredJson)
    → IsReread d ndcj
    → (e : NetworkDeviceCensored) × (unmarshal_censored files (some ndcj) ndc ≡ ok e)
      × (device_equal e d ≡ true)
      × IsChosenAs ndc e
unfolding write_fields
unmarshal_censored-equal files d ndc ndcj h = (
  write_fields ndcj ndcj.preshared_key ndc,
  unmarshal_censored-reread files d ndc ndcj h,
  written-equal d ndc ndcj h,
  (refl, refl, refl, refl),
)

abbrev pub rereads :
    (NetworkDeviceCensored → NetworkDeviceCensoredJson)
    → List NetworkDeviceCensored
    → List (Option NetworkDeviceCensoredJson)
rereads reread ds = map (λ d. some (reread d)) ds

module _ (files : KeyFiles) (reread : NetworkDeviceCensored → NetworkDeviceCensoredJson)
    (test : NetworkDeviceCensored → Bool)
    (law : (d : NetworkDeviceCensored) → test d ≡ true → IsReread d (reread d)) where
  pub unmarshal_devices-canonical :
      (ds : List NetworkDeviceCensored)
      → all_of test ds ≡ true
      → (es : List NetworkDeviceCensored) × (unmarshal_devices files (rereads reread ds) ≡ ok es)
        × (map canonical_device es ≡ map canonical_device ds)
  unfolding unmarshal_devices
  unmarshal_devices-canonical [] h = ([], refl, refl)
  unmarshal_devices-canonical (d ∷ ds) h =
      let (t, ts) = &&-parts (test d) (all_of test ds) h in
      let (e, p, q, _) = unmarshal_censored-equal files d zero_device (reread d) (law d t) in
      let (es, ps, qs) = unmarshal_devices-canonical ds ts in
      (e ∷ es, ground arith, ap₂ (◌∷◌) ((device_equal_iff e d).0 q) qs)
