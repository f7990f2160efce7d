-- ===== src/Tests/Coord.antt =====
-- A coordination server (coord/) with one network of two devices.
use qrystal.Prelude.{
  ℕ, ◌≡◌, ◌↔◌, ◌⊎◌, ◌&&◌, ◌≢◌, refl, sym, ◌∙◌, Bool, true, false, Option, none, some, List, [], ◌∷◌,
  ◌++◌, arith, ℤ, pos, ◌==◌, list_eq, nat_eq, if◌then◌else◌, contains, replicate, get_elem?,
  Outcome, ok,
}
use qrystal.Text.{Bytes, bytes}
use qrystal.Net.{ip_equal}
use qrystal.Goal.Key.{zero_key}
use qrystal.Spec.{NetworkDevice, Spec, NetworkCensored, get_network, get_device}
use qrystal.Spec.Clone.{clone_spec}
use qrystal.Spec.Equal.{network_equal, device_equal, ip_net_equal, network_equal_refl}
use qrystal.Spec.Censor.{censor_for_device}
use qrystal.Util.Token.{Token, TokenHash, parse_token, hash}
use qrystal.Coord.{
  Server, TokenInfo, new_server, Request, StatusBody, Action, get_latest, post_status, patch_spec,
  decoded, PatchReifySpecRequest, Response, status, latest_json, status_code, http_error,
  no_such_accessible,
}
use qrystal.Coord.Update.Latest.{network_names}
use qrystal.Coord.Handlers.{
  scheme, verify_identity, verify_known, serve, mark, handle, get_reify_latest, patch_reify_spec,
  patch_decoded, install, on_device, set_fields, set_accessible, first_unknown,
}
use qrystal.Coord.Effect.{current_view, serve_report}
use qrystal.Coord.Marks.{here, next, IsUpToDate}
use qrystal.Coord.Access.{IsEntitled, verify_identity_iff, serve_unentitled}
use qrystal.Coord.Effect.{HasEffect, serve-HasEffect}
use qrystal.Coord.Lookup.{find_device}
use qrystal.Coord.Update.{update_spec_no_lock}
use qrystal.Coord.Update.Latest.{stays, update_spec_no_lock-marks}
use qrystal.Coord.Installed.{IsInstalled, patch_decoded-total}
use qrystal.Coord.Faults.{patch_empties_accessible, rejected_report_marks}
use qrystal.Coord.Polling.{report_is_remembered, latest_is_reported}

abbrev pub network : Bytes
network = bytes "wg"

abbrev pub device_named : Bytes → List Bytes → NetworkDevice
device_named name accessible = record {
  censored = record {
    name = name;
    endpoints = bytes "192.0.2.1:51820" ∷ [];
    forwarder_and_endpoint_chosen = false;
    uses_forwarder = false;
    endpoint_chosen_index = 0;
    forwarder_chosen_index = 0;
    addresses = record { ip = 10 ∷ 0 ∷ 0 ∷ 1 ∷ []; mask = 255 ∷ 255 ∷ 255 ∷ 255 ∷ [] } ∷ [];
    listen_port = pos 51820;
    public_key = replicate 32 7;
    preshared_key = none;
    persistent_keepalive = pos 0;
    accessible = accessible;
  };
  access = record { access_all = true; access_only = none };
}

abbrev spec : Spec
spec = record {
  networks =
      record {
        name = network;
        devices = device_named (bytes "a") [] ∷ device_named (bytes "b") (bytes "a" ∷ []) ∷ [];
      }
      ∷ [];
}

abbrev pub token : Token
token = record { raw = 1 ∷ 2 ∷ 3 ∷ [] }

-- In place of SHA-256.
abbrev pub digest : Bytes → Bytes
digest raw = 0 ∷ raw

abbrev tokens : TokenHash → Option TokenInfo
tokens h =
    if h.raw == digest token.raw
    then some (record { identities = (network, bytes "a") ∷ [] })
    else none

abbrev pub start : Server
start = record { spec = spec; latest = λ n. []; tokens = tokens }

abbrev request : Action → Request
request action = record {
  network = network;
  device = bytes "a";
  authorization = scheme ++ bytes "qrystalct_AQID";
  action = action;
}

abbrev view : NetworkCensored
view = record {
  name = network;
  devices =
      (device_named (bytes "a") []).censored
      ∷ (device_named (bytes "b") (bytes "a" ∷ [])).censored
      ∷ [];
  censored_for = bytes "a";
}

abbrev report : StatusBody
report = record { reified = view; has_error = false }

granted : (action : Action) → verify_identity digest start (request action) ≡ none
unfolding verify_identity parse_token hash qrystal.Util.Base64.decode qrystal.Text.strip_prefix
granted action = refl

known : verify_known start.spec network (bytes "a") ≡ none
unfolding verify_known get_network get_device
known = refl

viewed : current_view start.spec network (bytes "a") ≡ some view
unfolding current_view censor_for_device get_network get_device
viewed = refl

abbrev reports : Request
reports = request (post_status report)

accepted :
    serve digest start reports
    ≡ ok (mark start network (bytes "a"), status 200 ∷ latest_json true ∷ [])
accepted =
    serve_report digest start reports report view (granted _) known refl viewed
      (network_equal_refl view)

report_is_remembered_example :
    (t : Server) × (serve digest start (request (post_status report))
      ≡ ok (t, status 200 ∷ latest_json true ∷ []))
    × (serve digest t (request get_latest) ≡ ok (t, status 200 ∷ latest_json true ∷ []))
report_is_remembered_example =
    report_is_remembered digest start (request (post_status report)) report view (granted _) known
      refl refl viewed (network_equal_refl view)

polled :
    serve digest (mark start network (bytes "a")) (request get_latest)
    ≡ ok (mark start network (bytes "a"), status 200 ∷ latest_json true ∷ [])
unfolding serve handle get_reify_latest verify_identity verify_known parse_token hash
    qrystal.Util.Base64.decode qrystal.Text.strip_prefix get_network get_device
polled = refl

latest_is_reported_example :
    IsUpToDate digest start (reports ∷ []) (mark start network (bytes "a")) network (bytes "a")
unfolding new_server network_names
latest_is_reported_example =
    latest_is_reported digest spec tokens start (mark start network (bytes "a"))
      (mark start network (bytes "a")) (reports ∷ []) (request get_latest) (refl, tt) refl
      (next reports _ here accepted) refl polled

-- A request that sets the port alone.
abbrev set_port : PatchReifySpecRequest
set_port = record {
  listen_port = pos 4000;
  listen_port_set = true;
  public_key = zero_key;
  public_key_set = false;
  preshared_key = none;
  preshared_key_set = false;
  persistent_keepalive = pos 0;
  persistent_keepalive_set = false;
  accessible = [];
  accessible_set = false;
}

abbrev patches : Request
patches = request (patch_spec (decoded set_port))

verify_identity_iff_example :
    (verify_identity digest start (request get_latest) ≡ none)
    ↔ IsEntitled digest start (request get_latest)
verify_identity_iff_example = verify_identity_iff digest start (request get_latest)

serve-HasEffect_example : HasEffect digest start patches (serve digest start patches)
serve-HasEffect_example = serve-HasEffect digest start patches

-- The token is registered for device a.
not-IsEntitled : ¬ IsEntitled digest start (record (request get_latest) { device = bytes "b" })
unfolding verify_identity parse_token hash qrystal.Util.Base64.decode qrystal.Text.strip_prefix
not-IsEntitled h =
    let e =
      (verify_identity_iff digest start (record (request get_latest) { device = bytes "b" })).1 h in
    cc

serve_unentitled_example :
    (w : Response) × (serve digest start (record (request get_latest) { device = bytes "b" })
      ≡ ok (start, w))
    × (status_code w ≡ 401)
serve_unentitled_example =
    serve_unentitled digest start (record (request get_latest) { device = bytes "b" })
      not-IsEntitled

patch_decoded-total_example :
    ((t : Server) × (patch_decoded start (request get_latest) set_port ≡ ok (t, status 204 ∷ []))
      × IsInstalled start (request get_latest) set_port t)
    ⊎ ((name : Bytes) × ((false && contains {A = Bytes} [] name) ≡ true)
        × (find_device start.spec network name ≡ none)
        × (patch_decoded start (request get_latest) set_port
            ≡ ok (start, http_error 400 (no_such_accessible network name))))
patch_decoded-total_example = patch_decoded-total start (request get_latest) set_port known

rejected_report_marks_example :
    (w : Response) × (serve digest start
        (request (post_status (record report { has_error = true })))
      ≡ ok (mark start network (bytes "a"), w))
    × (status_code w ≡ 400)
rejected_report_marks_example =
    rejected_report_marks digest start (request (post_status (record report { has_error = true })))
      (record report { has_error = true }) view (granted _) known refl refl viewed
      (network_equal_refl view)

-- The server that a result leaves.
abbrev server_of : Outcome (Server × Response) → Server
server_of (ok (t, w)) = t
server_of _ = start

patched_server : Server
unfolding serve handle patch_reify_spec patch_decoded install on_device set_fields set_accessible
    first_unknown verify_identity verify_known parse_token hash qrystal.Util.Base64.decode
    qrystal.Text.strip_prefix get_network get_device clone_spec update_spec_no_lock network_equal
    device_equal ip_net_equal ip_equal censor_for_device
patched_server = server_of (serve digest start patches)

patches_ok : serve digest start patches ≡ ok (patched_server, status 204 ∷ [])
unfolding patched_server
patches_ok = refl

patch_empties_accessible_example :
    (req : PatchReifySpecRequest) × (patches.action ≡ patch_spec (decoded req))
    × ((network' device : Bytes) (d : NetworkDevice)
        → find_device patched_server.spec network' device ≡ some d
        → (req.accessible_set && network == network' && bytes "a" == device) ≡ false
        → d.accessible ≡ [])
patch_empties_accessible_example =
    patch_empties_accessible digest start patches patched_server patches_ok

-- Device b listed device a as accessible, and a PATCH of the port of a forgets it.
forgets_b :
    elim (find_device patched_server.spec network (bytes "b")) [
      | none ↦ none
      | some d ↦ some d.accessible
    ]
    ≡ some []
unfolding patched_server find_device
forgets_b = refl

replaced_server : Server
unfolding patched_server
replaced_server = elim (update_spec_no_lock (mark start network (bytes "a")) spec) [
  | ok t ↦ t
  | _ ↦ start
]

replaced : update_spec_no_lock (mark start network (bytes "a")) spec ≡ ok replaced_server
unfolding replaced_server
replaced = refl

update_spec_no_lock-marks_example : contains (replaced_server.latest network) (bytes "a") ≡ (
    contains ((mark start network (bytes "a")).latest network) (bytes "a")
    && stays (get_network spec network) (get_network spec network) (bytes "a"))
unfolding network_names
update_spec_no_lock-marks_example =
    update_spec_no_lock-marks (mark start network (bytes "a")) replaced_server spec (refl, tt)
      replaced network (bytes "a")

-- The mark is kept where the view is.
mark_kept : contains (replaced_server.latest network) (bytes "a") ≡ true
unfolding replaced_server qrystal.Prelude.sort
mark_kept = refl
