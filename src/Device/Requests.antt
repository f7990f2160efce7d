-- ===== src/Device/Requests.antt =====
-- The requests of device/client.go and device/continuous.go, and what they make of the answers.
use qrystal.Prelude.{
  ℕ, Bool, true, false, ◌||◌, Option, none, some, ◌++◌, if◌then◌else◌, nat_beq, Outcome, ok, failed,
}
use qrystal.Spec.{NetworkCensored}
use qrystal.Util.Token.{token_string}
use qrystal.Coord.{
  Request, Action, PatchReifySpecRequest, decoded, get_latest, get_spec, patch_spec, post_status,
}
use qrystal.Coord.Handlers.{scheme}
use qrystal.Device.{Client, Body, spec_body, latest_body, Outside, Run}

-- A request with the header of `addAuthorizationHeader`.
unfoldable pub request : Client → Action → Request
request c action = record {
  network = c.network;
  device = c.device;
  authorization = scheme ++ token_string c.token;
  action = action;
}

-- `resp.StatusCode == 200 || resp.StatusCode == 204`
abbrev pub is_accepted : ℕ → Bool
is_accepted code = nat_beq code 200 || nat_beq code 204

abbrev pub read_spec : Option (ℕ × Body) → Outcome NetworkCensored
read_spec (some (code, spec_body nc)) = if is_accepted code then ok nc else failed
read_spec _ = failed

abbrev pub read_patch : Option (ℕ × Body) → Outcome Bool
read_patch (some (code, body)) = if is_accepted code then ok true else failed
read_patch none = failed

abbrev pub read_status : Option (ℕ × Body) → Outcome Bool
read_status (some (code, latest_body b)) = if is_accepted code then ok b else failed
read_status _ = failed

abbrev pub read_latest : Option (ℕ × Body) → Outcome Bool
read_latest (some (code, latest_body b)) = if nat_beq code 200 then ok b else failed
read_latest _ = failed

abbrev pub answer {ℓ} :
    {W : Type 0} {A : Type 0} {B : Type ℓ}
    → (B → Outcome A)
    → B × W
    → Client
    → Outcome A × Client × W
answer read (r, w) c = (read r, c, w)

module _ {W : Type 0} (o : Outside W) where
  unfoldable pub get_spec_of : Run W NetworkCensored
  unfolding request
  get_spec_of c w = answer read_spec (o.http (request c get_spec) w) c

  unfoldable pub patch_spec_of : PatchReifySpecRequest → Run W Bool
  unfolding request
  patch_spec_of body c w = answer read_patch (o.http (request c (patch_spec (decoded body))) w) c

  unfoldable pub post_reify_status_of : NetworkCensored → Run W Bool
  unfolding request
  post_reify_status_of nc c w =
      answer read_status
        (o.http (request c (post_status (record { reified = nc; has_error = false }))) w) c

  unfoldable pub get_latest_of : Run W Bool
  unfolding request
  get_latest_of c w = answer read_latest (o.http (request c get_latest) w) c
