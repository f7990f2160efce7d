-- ===== src/Tests/Device.antt =====
-- A client of a server outside that always answers (device/).
use qrystal.Device.Requests.{request}
use qrystal.Prelude.{
  none, map, get_elem?, ◌==◌, bool_eq, ◌&&◌, ℕ, suc, ◌≡◌, ◌⊎◌, refl, Bool, true, false, some, [],
  pos, replicate, Outcome, ok,
}
use qrystal.Text.{bytes}
use qrystal.Goal.Key.{zero_key}
use qrystal.Coord.{Action, get_latest, get_spec, patch_spec, post_status}
use qrystal.Device.{Client, Body, spec_body, latest_body, other_body, Outside}
use qrystal.Device.Endpoints.{choose_endpoints}
use qrystal.Device.Reify.{ContinuousClient, reify_spec, step}
use qrystal.Device.Reify.Laws.{IsApplied, reify_spec-IsApplied, step-cases}
use qrystal.Spec.{NetworkDeviceCensored, NetworkCensored, get_device_censored_index}
use qrystal.Tests.Spec.{network}

abbrev reply : Action → ℕ × Body
reply get_latest = (200, latest_body true)
reply get_spec = (200, spec_body network)
reply (patch_spec body) = (204, other_body)
reply (post_status body) = (200, latest_body true)

-- Outside is the number of requests so far.
abbrev outside : Outside ℕ
outside = record {
  http = λ r w. (some (reply r.action), suc w);
  update_dns = λ spec w. (true, w);
  apply_machine = λ gm w. (ok true, gm, w);
  generate_private_key = λ w. (some (replicate 32 5), w);
  public_key = λ key. replicate 32 6;
  score = λ endpoint w. some (pos 3);
  intn = λ n w. (0, w);
}

abbrev client : Client
client = record {
  can_forward = false;
  has_dns = true;
  spec = record { networks = [] };
  token = record { raw = [] };
  network = bytes "wg";
  device = bytes "a";
  private_key = zero_key;
}

abbrev behind : ContinuousClient
behind = record { client = client; latest = false }

reified : Outcome Bool × Client × ℕ
unfolding reify_spec
reified = reify_spec outside client 0

reified_ok : reify_spec outside client 0 ≡ (ok true, reified.1, reified.2)
unfolding reified qrystal.Device.Requests.get_spec_of qrystal.Spec.get_device_censored_index
    qrystal.Device.Requests.patch_spec_of qrystal.Device.Endpoints.choose_endpoints
    qrystal.Spec.Resolve.choose_endpoint qrystal.Spec.Compile.compile_machine
    qrystal.Device.Requests.post_reify_status_of
reified_ok = refl

reify_spec-IsApplied_example : IsApplied outside reified.1 reified.2 true
reify_spec-IsApplied_example =
    reify_spec-IsApplied outside client 0 true reified.1 reified.2 reified_ok

abbrev caught_up : ContinuousClient
caught_up = record { client = reified.1; latest = true }

stepped : step outside behind 0 ≡ (ok (true, true), caught_up, reified.2)
unfolding step reified qrystal.Device.Requests.get_spec_of qrystal.Spec.get_device_censored_index
    qrystal.Device.Requests.patch_spec_of qrystal.Device.Endpoints.choose_endpoints
    qrystal.Spec.Resolve.choose_endpoint qrystal.Spec.Compile.compile_machine
    qrystal.Device.Requests.post_reify_status_of
stepped = refl

step-cases_example :
    (caught_up.latest ≡ true)
    × (((true ≡ true) × (behind.latest ≡ false) × IsApplied outside caught_up.client reified.2 true)
        ⊎ ((true ≡ false)
            × (behind.latest ≡ true)
            × (caught_up.client ≡ behind.client)
            × (outside.http (request behind.client get_latest) 0
                ≡ (some (200, latest_body true), reified.2))))
step-cases_example = step-cases outside behind caught_up 0 reified.2 true true stepped

-- The key is registered, the status is reported, and then the client only asks for `latest`.
asks_next : (step outside caught_up 4).0 ≡ ok (true, false)
unfolding step qrystal.Device.Requests.get_latest_of
asks_next = refl

-- No ping is answered, so every device that is not chosen needs a forwarder.
abbrev lonely : Outside ℕ
lonely = record outside { score = λ endpoint w. none }

-- Device b has not been chosen yet, and the hub lists it.
abbrev unchosen : NetworkDeviceCensored → NetworkDeviceCensored
unchosen d = record d {
  forwarder_and_endpoint_chosen = d.uses_forwarder == false && d.forwarder_and_endpoint_chosen;
  uses_forwarder = false;
}

abbrev network_to_b : NetworkCensored
network_to_b = record network { devices = map unchosen network.devices }

abbrev network_of : Outcome NetworkCensored → NetworkCensored
network_of (ok nc) = nc
network_of _ = network

settled : Outcome NetworkCensored × Client × ℕ
unfolding choose_endpoints
settled = choose_endpoints lonely network_to_b client 0

abbrev settled_network : NetworkCensored
settled_network = network_of settled.0

-- Device b has got the hub, at index 1, as its forwarder.
b_behind_hub :
    elim (get_elem? settled_network.devices 2) [
      | none ↦ none
      | some d ↦ some d.forwarder_chosen_index
    ]
    ≡ some 1
unfolding settled qrystal.Spec.get_device_censored_index qrystal.Spec.Resolve.choose_endpoint
    qrystal.Spec.Resolve.get_forwarders_for choose_endpoints
b_behind_hub = refl
