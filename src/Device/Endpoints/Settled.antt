-- ===== src/Device/Endpoints/Settled.antt =====
-- `chooseEndpoints` of device/client.go as a whole.
use qrystal.Prelude.{
  ℕ, ◌≡◌, refl, ◌⊎◌, true, Option, none, some, List, get_elem?, ok, panicked, ℤ, list_eq, nat_eq,
  Bool, false, failed,
}
use qrystal.Text.{Bytes}
use qrystal.Spec.{NetworkDeviceCensored, NetworkCensored, get_device_censored_index}
use qrystal.Spec.Resolve.{choose_endpoint}
use qrystal.Spec.Resolve.Forwarders.{forwards}
use qrystal.Device.{Client, Outside, Run, bind}
use qrystal.Device.Endpoints.{choose_loop, with_forwarder, forward_loop, choose_endpoints}

-- The own device, and one that is chosen, is as it was. Another device has the endpoint that
-- `ChooseEndpoint` chooses. If there is none, it has got a forwarder, a device of the network `nc2`
-- that lists it as accessible and is itself chosen, or it is as it was and no device of the network
-- `nc` would forward for it.
abbrev pub IsSettled :
    (Bytes → Option ℤ)
    → Bool
    → NetworkCensored
    → NetworkCensored
    → NetworkDeviceCensored
    → NetworkDeviceCensored
    → Type 0
IsSettled score own nc nc2 d e =
    (((own ≡ true) ⊎ (d.forwarder_and_endpoint_chosen ≡ true)) × (e ≡ d))
    ⊎ ((own ≡ false) × (d.forwarder_and_endpoint_chosen ≡ false) × (choose_endpoint score d ≡ ok e))
    ⊎ ((own ≡ false)
        × (d.forwarder_and_endpoint_chosen ≡ false)
        × (choose_endpoint score d ≡ failed)
        × (((f : ℕ) × (e ≡ with_forwarder f d) × (forwards (get_elem? nc2.devices f) d.name ≡ true))
            ⊎ ((e ≡ d) × ((n : ℕ) → forwards (get_elem? nc.devices n) d.name ≡ false))))

module _ {W : Type 0} (o : Outside W) (nc : NetworkCensored) (c : Client) (w : W) where
  abbrev pub scores : Bytes → Option ℤ
  scores endpoint = o.score endpoint w

  abbrev pub go_on : List NetworkDeviceCensored × List ℕ → Run W NetworkCensored
  go_on loop = forward_loop o loop.1 (record nc { devices = loop.0 })

  pub choose_endpoints-missing :
      get_device_censored_index nc c.device ≡ none → choose_endpoints o nc c w ≡ (panicked, c, w)
  unfolding choose_endpoints
  choose_endpoints-missing e = rw (e, choose_endpoints) refl

  pub choose_endpoints-found :
      (i : ℕ)
      → get_device_censored_index nc c.device ≡ some i
      → choose_endpoints o nc c w ≡ bind (choose_loop scores i 0 nc.devices, c, w) go_on
  unfolding choose_endpoints
  choose_endpoints-found i e = rw (e, choose_endpoints) refl
