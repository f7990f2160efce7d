-- ===== src/Device/Reify.antt =====
-- `ReifySpec` of device/client.go with `updateMyKeys`, `patchAccessible` and `updateDNS`, and `Step`
-- of device/continuous.go.
pub mod Laws
use qrystal.Prelude.{
  ℕ, Bool, true, false, Option, none, some, List, [], ◌∷◌, if◌then◌else◌, ◌==◌, list_eq, nat_eq,
  modify, get_elem?, Outcome, ok, failed, panicked, or_panic, pos, ◌>>=◌,
}
use qrystal.Text.{Bytes}
use qrystal.Goal.Key.{Key, zero_key}
use qrystal.Goal.Machine.{Interface, Machine}
use qrystal.Spec.{NetworkDeviceCensored, NetworkCensored, get_device_censored_index}
use qrystal.Spec.Compile.{compile_machine}
use qrystal.Coord.{PatchReifySpecRequest}
use qrystal.Device.{Client, Outside, Run, return, bind, ◌>>>=◌, succeed}
use qrystal.Device.Requests.{get_spec_of, patch_spec_of, post_reify_status_of, get_latest_of}
use qrystal.Device.Endpoints.{set_device, choose_endpoints}

-- A request that sets nothing.
abbrev pub empty_patch : PatchReifySpecRequest
empty_patch = record {
  listen_port = pos 0;
  listen_port_set = false;
  public_key = zero_key;
  public_key_set = false;
  preshared_key = none;
  preshared_key_set = false;
  persistent_keepalive = pos 0;
  persistent_keepalive_set = false;
  accessible = [];
  accessible_set = false;
}

abbrev pub key_patch : Key → PatchReifySpecRequest
key_patch key = record empty_patch { public_key = key; public_key_set = true }

abbrev pub accessible_patch : List Bytes → PatchReifySpecRequest
accessible_patch names = record empty_patch { accessible = names; accessible_set = true }

-- The names of the devices that have an endpoint or a forwarder.
unfoldable pub chosen_names : List NetworkDeviceCensored → List Bytes
chosen_names [] = []
chosen_names (ndc ∷ devices) =
    if ndc.forwarder_and_endpoint_chosen
    then ndc.name ∷ chosen_names devices
    else chosen_names devices

-- `gm.Interfaces[0].PrivateKey = …`
unfoldable pub set_private_key : Machine → Key → Outcome Machine
set_private_key gm key = elim gm.interfaces [
  | [] ↦ panicked
  | ◌∷◌ first others ↦ ok (record gm { interfaces = record first { private_key = key } ∷ others })
]

-- The device at the index with the addresses of the machine's interface.
abbrev pub put_first_addresses : NetworkCensored → ℕ → List Interface → NetworkCensored
put_first_addresses nc ndc_i [] = nc
put_first_addresses nc ndc_i (iface ∷ interfaces) =
    set_device nc ndc_i (λ d. record d { addresses = iface.addresses })

abbrev pub put_addresses : NetworkCensored → ℕ → Machine → NetworkCensored
put_addresses nc ndc_i gm = put_first_addresses nc ndc_i gm.interfaces

module _ {W : Type 0} (o : Outside W) where
  -- `c.privateKey = goal.Key(privateKey)`, where it is not set; a failure to make one panics.
  unfoldable pub ensure_private_key : Run W Bool
  ensure_private_key c w =
      if c.private_key == zero_key
      then (let (key, w) = o.generate_private_key w in
          elim key [
            | none ↦ (panicked, c, w)
            | some k ↦ (ok true, record c { private_key = k }, w)
          ])
      else (ok true, c, w)

  unfoldable pub update_public_key :
      NetworkCensored → ℕ → NetworkDeviceCensored → Run W NetworkCensored
  update_public_key nc ndc_i ndc c w =
      if ndc.public_key == o.public_key c.private_key
      then (ok nc, c, w)
      else bind (patch_spec_of o (key_patch (o.public_key c.private_key)) c w) (λ sent.
        return
          (ok (set_device nc ndc_i (λ d. record d { public_key = o.public_key c.private_key }))))

  unfoldable pub update_my_keys : NetworkCensored → Run W NetworkCensored
  unfolding ensure_private_key update_public_key
  update_my_keys nc c w = elim (get_device_censored_index nc c.device) [
    | none ↦ (panicked, c, w)
    | some ndc_i ↦
        (return (or_panic (get_elem? nc.devices ndc_i))
            >>>= (λ ndc. ensure_private_key >>>= (λ made. update_public_key nc ndc_i ndc)))
          c w
  ]

  unfoldable pub accessible_of : Client → NetworkCensored → List Bytes
  unfolding chosen_names
  accessible_of c nc = if c.can_forward then chosen_names nc.devices else []

  unfoldable pub patch_accessible_at :
      NetworkCensored → ℕ → NetworkDeviceCensored → Run W NetworkCensored
  unfolding accessible_of
  patch_accessible_at nc ndc_i ndc c w =
      if accessible_of c nc == ndc.accessible
      then (ok nc, c, w)
      else bind (patch_spec_of o (accessible_patch (accessible_of c nc)) c w) (λ sent.
        return (ok (set_device nc ndc_i (λ d. record d { accessible = accessible_of c nc }))))

  unfoldable pub patch_accessible : NetworkCensored → Run W NetworkCensored
  unfolding patch_accessible_at
  patch_accessible nc c w = elim (get_device_censored_index nc c.device) [
    | none ↦ (panicked, c, w)
    | some ndc_i ↦
        (return (or_panic (get_elem? nc.devices ndc_i))
            >>>= (λ ndc. patch_accessible_at nc ndc_i ndc))
          c w
  ]

  unfoldable pub update_dns_of : Run W Bool
  update_dns_of c w = if c.has_dns then succeed (o.update_dns c.spec w) c else (ok true, c, w)

  abbrev pub set_spec : NetworkCensored → Run W Bool
  set_spec nc c w = (ok true, record c { spec = record { networks = nc ∷ [] } }, w)

  -- Compiling the specification that the client holds, and setting its private key.
  unfoldable pub compile : Run W Machine
  unfolding set_private_key
  compile =
      (λ c w. (compile_machine c.spec c.device true, c, w))
      >>>= (λ gm c w. (set_private_key gm c.private_key, c, w))

  -- The machine's addresses are the slice of the device at the index, in the network and in the
  -- specification that the client holds: they are left as the applier leaves them, however it ends.
  unfoldable pub apply : NetworkCensored → ℕ → Machine → Run W NetworkCensored
  apply nc ndc_i gm c w =
      let (done, left, w) = o.apply_machine gm w in
      (
        done >>= (λ b. ok (put_addresses nc ndc_i left)),
        record c { spec = record { networks = put_addresses nc ndc_i left ∷ [] } },
        w,
      )

  -- What `ReifySpec` does with a network that is settled: a device that is not in it is a panic.
  unfoldable pub install : NetworkCensored → Run W Bool
  unfolding update_dns_of compile apply
  install nc c w = elim (get_device_censored_index nc c.device) [
    | none ↦ (panicked, c, w)
    | some ndc_i ↦
        (set_spec nc >>>= (λ set. update_dns_of >>>= (λ updated.
            compile >>>= (λ gm. apply nc ndc_i gm >>>= (λ nc. post_reify_status_of o nc)))))
          c w
  ]

  unfoldable pub reify_spec : Run W Bool
  unfolding update_my_keys patch_accessible install
  reify_spec = get_spec_of o >>>= (λ nc.
      update_my_keys nc
      >>>= (λ nc. choose_endpoints o nc >>>= (λ nc. patch_accessible nc >>>= (λ nc. install nc))))

-- `ContinousClient`
pub record ContinuousClient : Type 0 where
  pub client : Client
  pub latest : Bool

module _ {W : Type 0} (o : Outside W) where
  -- What `Step` stores: `latest` where its call gave no error, and nothing else.
  abbrev pub settle :
      Bool → Bool → Outcome Bool × Client × W → Outcome (Bool × Bool) × ContinuousClient × W
  settle old updated (ok latest, c, w) =
      (ok (latest, updated), record { client = c; latest = latest }, w)
  settle old updated (failed, c, w) = (failed, record { client = c; latest = old }, w)
  settle old updated (panicked, c, w) = (panicked, record { client = c; latest = old }, w)

  -- `ContinousClient.Step`: `latest` and `updated`, where there is no error.
  unfoldable pub step : ContinuousClient → W → Outcome (Bool × Bool) × ContinuousClient × W
  unfolding reify_spec
  step s w =
      if s.latest
      then settle true false (get_latest_of o s.client w)
      else settle false true (reify_spec o s.client w)
