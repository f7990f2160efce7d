-- ===== src/Tests/System.antt =====
-- The client of a device that talks to the coordination server of Tests/Coord.antt alone.
use qrystal.Net.{is_network, to_4}
use qrystal.System.Networks.{spec_is_plain}
use qrystal.Prelude.{
  ℕ, ◌≡◌, refl, inr, true, false, Bool, Option, none, some, [], ◌∷◌, replicate, pos, Outcome, ok,
  failed, panicked, ap, sym, some-injective, ◌==◌, list_eq, nat_eq, ◌∙◌, inl,
}
use qrystal.Text.{Bytes, bytes}
use qrystal.Goal.Key.{zero_key}
use qrystal.Spec.{NetworkDeviceCensored}
use qrystal.Spec.Equal.{addresses_equal_refl, device_equal}
use qrystal.Spec.Json.{NetworkDeviceCensoredJson, unmarshal_censored, zero_device}
use qrystal.Spec.Json.Laws.{IsChosenAs, unmarshal_censored-equal}
use qrystal.Coord.{Server, Request, Response, status_code}
use qrystal.Coord.Handlers.{serve}
use qrystal.Device.{Client, Body, Outside}
use qrystal.Device.Reify.{ContinuousClient, reify_spec, step, settle}
use qrystal.System.{Json, body_of, sent, Connection}
use qrystal.Commands.DeviceClient.{is_latest, tick, after_step}
use qrystal.System.Steps.{done, more, IsCaughtUp, two_steps-IsCaughtUp}
use qrystal.Tests.Coord.{start, digest, token, network, device_named}

abbrev reread : NetworkDeviceCensored → NetworkDeviceCensoredJson
reread d = record {
  name = d.name;
  endpoints = d.endpoints;
  addresses = d.addresses;
  listen_port = d.listen_port;
  public_key = d.public_key;
  preshared_key = d.preshared_key;
  preshared_key_path = [];
  persistent_keepalive = d.persistent_keepalive;
  accessible = d.accessible;
}

abbrev json : Json
json = record {
  text = λ s. s;
  text_lem = λ s h. refl;
  files = record { read_file = λ path. none; parse_key = λ text. none };
  reread = reread;
  reread_lem = λ d h. record {
    name = refl;
    endpoints = refl;
    addresses = addresses_equal_refl d.addresses;
    listen_port = refl;
    public_key = refl;
    preshared_key = refl;
    no_path = refl;
    persistent_keepalive = refl;
    accessible = refl;
  };
}

abbrev response_of : Server → Outcome (Server × Response) → Option (ℕ × Body) × Server
response_of s (ok answer) = (some (status_code answer.1, body_of json answer.1), answer.0)
response_of s failed = (none, s)
response_of s panicked = (none, s)

-- Outside is the server.
abbrev outside : Outside Server
outside = record {
  http = λ r s. response_of s (serve digest s (sent json r));
  update_dns = λ spec s. (true, s);
  apply_machine = λ gm s. (ok true, gm, s);
  generate_private_key = λ s. (some (replicate 32 5), s);
  public_key = λ key. replicate 32 6;
  score = λ endpoint s. some (pos 3);
  intn = λ n s. (0, s);
}

connection : Connection digest json outside
connection = record {
  server = λ s. s;
  delivers =
      λ r s t answer h. inr (ap (λ x. (response_of s x).0) h, ap (λ x. (response_of s x).1) h);
  keeps_dns = λ spec s. refl;
  keeps_machine = λ gm s. refl;
  sorts = λ gm s. inl refl;
  keeps_key = λ s. refl;
  keeps_draw = λ n s. refl;
  makes_key = λ s key h. ap (λ k. k == zero_key) (sym (some-injective h));
}

abbrev client : Client
client = record {
  can_forward = false;
  has_dns = false;
  spec = record { networks = [] };
  token = token;
  network = network;
  device = bytes "a";
  private_key = zero_key;
}

first : Outcome Bool × Client × Server
first = reify_spec outside client start

second : Outcome Bool × Client × Server
second = reify_spec outside first.1 first.2

first_lem : reify_spec outside client start ≡ (ok false, first.1, first.2)
unfolding first reify_spec qrystal.Device.Requests.get_spec_of
    qrystal.Spec.get_device_censored_index qrystal.Device.Requests.patch_spec_of
    qrystal.Device.Endpoints.choose_endpoints qrystal.Spec.Resolve.choose_endpoint
    qrystal.Spec.Compile.compile_machine qrystal.Device.Requests.post_reify_status_of serve
    qrystal.Coord.Handlers.handle qrystal.Coord.Handlers.verify_identity
    qrystal.Util.Token.parse_token qrystal.Util.Token.hash qrystal.Util.Token.token_string
    qrystal.Util.Base64.decode qrystal.Util.Base64.encode qrystal.Text.strip_prefix
    qrystal.Coord.Handlers.verify_known qrystal.Spec.get_network qrystal.Spec.get_device
    qrystal.Coord.Handlers.get_reify_spec qrystal.Spec.Censor.censor_for_device
    qrystal.Coord.Handlers.patch_reify_spec qrystal.Coord.Handlers.patch_decoded
    qrystal.Spec.Clone.clone_spec qrystal.Spec.get_network_index qrystal.Spec.get_device_index
    qrystal.Coord.Handlers.on_device qrystal.Coord.Handlers.set_fields
    qrystal.Coord.Handlers.set_accessible qrystal.Coord.Handlers.first_unknown
    qrystal.Coord.Handlers.install qrystal.Coord.Update.update_spec_no_lock
    qrystal.Spec.Equal.network_equal qrystal.Spec.Equal.device_equal qrystal.Spec.Equal.ip_net_equal
    qrystal.Net.ip_equal qrystal.Coord.Handlers.post_reify_status qrystal.System.receive
    qrystal.Spec.Json.unmarshal_devices
first_lem = refl

second_lem : reify_spec outside first.1 first.2 ≡ (ok true, second.1, second.2)
unfolding first second reify_spec qrystal.Device.Requests.get_spec_of
    qrystal.Spec.get_device_censored_index qrystal.Device.Requests.patch_spec_of
    qrystal.Device.Endpoints.choose_endpoints qrystal.Spec.Resolve.choose_endpoint
    qrystal.Spec.Compile.compile_machine qrystal.Device.Requests.post_reify_status_of serve
    qrystal.Coord.Handlers.handle qrystal.Coord.Handlers.verify_identity
    qrystal.Util.Token.parse_token qrystal.Util.Token.hash qrystal.Util.Token.token_string
    qrystal.Util.Base64.decode qrystal.Util.Base64.encode qrystal.Text.strip_prefix
    qrystal.Coord.Handlers.verify_known qrystal.Spec.get_network qrystal.Spec.get_device
    qrystal.Coord.Handlers.get_reify_spec qrystal.Spec.Censor.censor_for_device
    qrystal.Coord.Handlers.patch_reify_spec qrystal.Coord.Handlers.patch_decoded
    qrystal.Spec.Clone.clone_spec qrystal.Spec.get_network_index qrystal.Spec.get_device_index
    qrystal.Coord.Handlers.on_device qrystal.Coord.Handlers.set_fields
    qrystal.Coord.Handlers.set_accessible qrystal.Coord.Handlers.first_unknown
    qrystal.Coord.Handlers.install qrystal.Coord.Update.update_spec_no_lock
    qrystal.Spec.Equal.network_equal qrystal.Spec.Equal.device_equal qrystal.Spec.Equal.ip_net_equal
    qrystal.Net.ip_equal qrystal.Coord.Handlers.post_reify_status qrystal.System.receive
    qrystal.Spec.Json.unmarshal_devices
second_lem = refl

networks : spec_is_plain (connection.server start).spec ≡ true
unfolding connection spec_is_plain is_network to_4
networks = refl

abbrev behind : Client → ContinuousClient
behind c = record { client = c; latest = false }

-- The first report is not accepted: the PATCH of the key has emptied what the other device reaches.
step_first : step outside (behind client) start ≡ (ok (false, true), behind first.1, first.2)
unfolding step
step_first = ap (settle outside false true) first_lem

step_second :
    step outside (behind first.1) first.2
    ≡ (ok (true, true), record { client = second.1; latest = true }, second.2)
unfolding step
step_second = ap (settle outside false true) second_lem

two_steps-IsCaughtUp_example :
    IsCaughtUp digest json outside connection (record { client = second.1; latest = true }) second.2
two_steps-IsCaughtUp_example =
    two_steps-IsCaughtUp digest json outside connection 0 (behind client)
      (record { client = second.1; latest = true }) start second.2 refl refl networks
      (more false true step_first (more true true step_second done))

abbrev sent_device : NetworkDeviceCensored
sent_device = (device_named (bytes "b") (bytes "a" ∷ [])).censored

unmarshal_censored-equal_example :
    (e : NetworkDeviceCensored) × (unmarshal_censored json.files
        (some (reread sent_device))
        zero_device
      ≡ ok e)
    × (device_equal e sent_device ≡ true)
    × IsChosenAs zero_device e
unfolding is_network to_4
unmarshal_censored-equal_example =
    unmarshal_censored-equal json.files sent_device zero_device (reread sent_device)
      (json.reread_lem sent_device refl)

ticked :
    tick outside 2 (behind client) start
    ≡ some (is_latest, record { client = second.1; latest = true }, second.2)
unfolding tick
ticked =
    ap (λ r. after_step r (tick outside 1)) step_first
    ∙ ap (λ r. after_step r (tick outside 0)) step_second
