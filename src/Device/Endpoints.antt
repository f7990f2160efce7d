-- ===== src/Device/Endpoints.antt =====
-- `chooseEndpoints` of device/client.go: an endpoint or a forwarder for each other device.
pub mod Forwarders
pub mod Loop
pub mod Laws
pub mod First
pub mod Second
pub mod Settled
use qrystal.Prelude.{
  ℕ, suc, Bool, true, false, Option, none, some, List, [], ◌∷◌, if◌then◌else◌, nat_beq, get_elem?,
  modify, length, Outcome, ok, failed, panicked, or_panic, ℤ,
}
use qrystal.Text.{Bytes}
use qrystal.Spec.{NetworkDeviceCensored, NetworkCensored, get_device_censored_index}
use qrystal.Spec.Resolve.{choose_endpoint, get_forwarders_for}
use qrystal.Device.{Outside, Run, return, ◌>>>=◌}

-- A device, and whether it needs a forwarder. The text of the last log line reads the endpoint at
-- the index that the device had before.
unfoldable pub choose_one :
    (Bytes → Option ℤ) → NetworkDeviceCensored → Outcome (NetworkDeviceCensored × Bool)
choose_one score ndc =
    if ndc.forwarder_and_endpoint_chosen
    then ok (ndc, false)
    else elim (choose_endpoint score ndc) [
      | panicked ↦ panicked
      | failed ↦ ok (ndc, true)
      | ok chosen ↦ elim (get_elem? ndc.endpoints ndc.endpoint_chosen_index) [
        | none ↦ panicked
        | some endpoint ↦ ok (chosen, false)
      ]
    ]

abbrev pub put_one :
    ℕ
    → NetworkDeviceCensored × Bool
    → List NetworkDeviceCensored × List ℕ
    → List NetworkDeviceCensored × List ℕ
put_one i (ndc, true) (devices, needs_forwarders) = (ndc ∷ devices, i ∷ needs_forwarders)
put_one i (ndc, false) (devices, needs_forwarders) = (ndc ∷ devices, needs_forwarders)

-- One device before the others; neither ends in an error, and a panic of one is a panic of both.
abbrev pub join_one :
    ℕ
    → Outcome (NetworkDeviceCensored × Bool)
    → Outcome (List NetworkDeviceCensored × List ℕ)
    → Outcome (List NetworkDeviceCensored × List ℕ)
join_one i (ok one) (ok more) = ok (put_one i one more)
join_one i (ok one) failed = failed
join_one i (ok one) panicked = panicked
join_one i failed rest = failed
join_one i panicked rest = panicked

-- The first loop, over the devices from index `i` on: the devices as it leaves them, and
-- `needsForwarders`.
unfoldable pub choose_loop :
    (Bytes → Option ℤ)
    → ℕ
    → ℕ
    → List NetworkDeviceCensored
    → Outcome (List NetworkDeviceCensored × List ℕ)
unfolding choose_one
choose_loop score ndc_i i [] = ok ([], [])
choose_loop score ndc_i i (ndc ∷ devices) =
    join_one i (if nat_beq i ndc_i then ok (ndc, false) else choose_one score ndc)
      (choose_loop score ndc_i (suc i) devices)

abbrev pub without_forwarder : NetworkDeviceCensored → NetworkDeviceCensored
without_forwarder ndc = record ndc { forwarder_and_endpoint_chosen = false }

abbrev pub with_forwarder : ℕ → NetworkDeviceCensored → NetworkDeviceCensored
with_forwarder forwarder ndc = record ndc {
  forwarder_chosen_index = forwarder;
  uses_forwarder = true;
  forwarder_and_endpoint_chosen = true;
}

abbrev pub set_device :
    NetworkCensored → ℕ → (NetworkDeviceCensored → NetworkDeviceCensored) → NetworkCensored
set_device nc i f = record nc { devices = modify nc.devices i f }

module _ {W : Type 0} (o : Outside W) where
  -- One of `forwarders`, drawn by `rand.Intn`.
  unfoldable pub draw : List ℕ → Run W ℕ
  draw forwarders c w =
      let (j, w) = o.intn (length forwarders) w in (or_panic (get_elem? forwarders j), c, w)

  unfoldable pub forward_one : NetworkCensored → ℕ → NetworkDeviceCensored → Run W NetworkCensored
  unfolding draw
  forward_one nc i ndc = elim (get_forwarders_for nc ndc.name) [
    | [] ↦ return (ok (set_device nc i without_forwarder))
    | ◌∷◌ first others ↦
        draw (first ∷ others)
        >>>= (λ forwarder. return (ok (set_device nc i (with_forwarder forwarder))))
  ]

  -- The second loop, over `needsForwarders`.
  unfoldable pub forward_loop : List ℕ → NetworkCensored → Run W NetworkCensored
  unfolding forward_one
  forward_loop [] nc = return (ok nc)
  forward_loop (i ∷ is) nc =
      return (or_panic (get_elem? nc.devices i))
      >>>= (λ ndc. forward_one nc i ndc >>>= (λ more. forward_loop is more))

  unfoldable pub choose_endpoints : NetworkCensored → Run W NetworkCensored
  unfolding choose_loop forward_loop
  choose_endpoints nc c w = elim (get_device_censored_index nc c.device) [
    | none ↦ (panicked, c, w)
    | some ndc_i ↦
        (return (choose_loop (λ endpoint. o.score endpoint w) ndc_i 0 nc.devices)
            >>>= (λ loop. forward_loop loop.1 (record nc { devices = loop.0 })))
          c w
  ]
