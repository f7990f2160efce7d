-- ===== src/Coord/Handlers.antt =====
-- The handlers of coord/server.go. What a handler returns is the server after it and what it wrote,
-- or a panic. Log lines are left out. SHA-256 is a parameter.
use qrystal.Prelude.{
  ℕ, true, false, Option, none, some, List, [], ◌∷◌, ◌++◌, if◌then◌else◌, list_eq, nat_eq, pair_eq,
  contains, get_elem?, modify, Outcome, ok, ◌>>=◌, or_panic,
}
use qrystal.Text.{Bytes, bytes, strip_prefix}
use qrystal.Spec.{
  Spec, Network, NetworkDevice, get_network, get_network_index, get_device, get_device_index,
}
use qrystal.Spec.Clone.{clone_spec}
use qrystal.Spec.Equal.{network_equal}
use qrystal.Spec.Censor.{censor_for_device}
use qrystal.Util.Token.{parse_token, hash}
use qrystal.Coord.{
  Server, PatchReifySpecRequest, PatchBody, unreadable, malformed, decoded, StatusBody, Action,
  get_latest, get_spec, patch_spec, post_status, Request, wrong_scheme, bad_token, not_authorized,
  network_not_found, device_not_found, body_unreadable, decode_failed, invalid_request,
  no_such_accessible, status, latest_json, view_json, Response, http_error,
}
use qrystal.Coord.Update.{set_latest, update_spec_no_lock}

abbrev pub scheme : Bytes
scheme = bytes "QrystalCoordIdentityToken "

-- `verifyIdentity`: what it writes before it returns false, or `none` where it returns true.
unfoldable pub verify_identity : (Bytes → Bytes) → Server → Request → Option Response
verify_identity sha_256 s r = elim (strip_prefix scheme r.authorization) [
  | none ↦ some (http_error 401 wrong_scheme)
  | some text ↦ elim (parse_token text) [
    | none ↦ some (http_error 401 bad_token)
    | some token ↦ elim (s.tokens (hash sha_256 token)) [
      | none ↦ some (http_error 401 not_authorized)
      | some info ↦
          if contains info.identities (r.network, r.device)
          then none
          else some (http_error 401 not_authorized)
    ]
  ]
]

-- The lookups of network and device that each handler begins with: what is written where one
-- fails.
unfoldable pub verify_known : Spec → Bytes → Bytes → Option Response
verify_known spec network device = elim (get_network spec network) [
  | none ↦ some (http_error 404 network_not_found)
  | some sn ↦ elim (get_device sn device) [
    | none ↦ some (http_error 404 device_not_found)
    | some _ ↦ none
  ]
]

-- `GetNetworkIndex` gives 0 where it finds nothing; the handlers do not look at its `ok`.
abbrev pub or_zero : Option ℕ → ℕ
or_zero none = 0
or_zero (some i) = i

abbrev pub Result : Type 0
Result = Outcome (Server × Response)

unfoldable pub get_reify_latest : Server → Request → Result
get_reify_latest s r =
    ok (s, status 200 ∷ latest_json (contains (s.latest r.network) r.device) ∷ [])

unfoldable pub get_reify_spec : Server → Request → Result
get_reify_spec s r = do
  sn ← or_panic (get_elem? s.spec.networks (or_zero (get_network_index s.spec r.network)))
  nc ← or_panic (censor_for_device sn r.device)
  ok (s, status 200 ∷ view_json nc ∷ [])

-- `newSpec.Networks[nI].Devices[sndI]` with `f` written to it.
unfoldable pub on_device : Spec → ℕ → ℕ → (NetworkDevice → NetworkDevice) → Spec
on_device s i j f = record {
  networks = modify s.networks i (λ n. record n { devices = modify n.devices j f });
}

-- The fields that the request sets, `Accessible` apart.
unfoldable pub set_fields : PatchReifySpecRequest → NetworkDevice → NetworkDevice
set_fields req nd = record nd {
  censored = record nd.censored {
    listen_port = if req.listen_port_set then req.listen_port else nd.listen_port;
    public_key = if req.public_key_set then req.public_key else nd.public_key;
    preshared_key = if req.preshared_key_set then req.preshared_key else nd.preshared_key;
    persistent_keepalive =
        if req.persistent_keepalive_set then req.persistent_keepalive else nd.persistent_keepalive;
  };
}

unfoldable pub set_accessible : List Bytes → NetworkDevice → NetworkDevice
set_accessible names nd = record nd { censored = record nd.censored { accessible = names } }

-- The first name that the network does not have.
unfoldable pub first_unknown : Network → List Bytes → Option Bytes
first_unknown n [] = none
first_unknown n (name ∷ names) = elim (get_device n name) [
  | none ↦ some name
  | some _ ↦ first_unknown n names
]

-- Installs the new specification, and answers 204.
unfoldable pub install : Server → Spec → Result
install s new_spec = do t ← update_spec_no_lock s new_spec; ok (t, status 204 ∷ [])

-- The part of `patchReifySpec` that the decoded request governs.
unfoldable pub patch_decoded : Server → Request → PatchReifySpecRequest → Result
patch_decoded s r req = do
  let copy = clone_spec s.spec
  let i = or_zero (get_network_index copy r.network)
  sn ← or_panic (get_elem? copy.networks i)
  j ← or_panic (get_device_index sn r.device)
  let new_spec = on_device copy i j (set_fields req)
  if req.accessible_set
      then (do
        new_sn ← or_panic (get_elem? new_spec.networks i)
        elim (first_unknown new_sn req.accessible) [
          | some name ↦ ok (s, http_error 400 (no_such_accessible r.network name))
          | none ↦ install s (on_device new_spec i j (set_accessible req.accessible))
        ])
      else install s new_spec

unfoldable pub patch_reify_spec : Server → Request → PatchBody → Result
patch_reify_spec s r unreadable = ok (s, http_error 500 body_unreadable)
patch_reify_spec s r malformed = ok (s, http_error 400 decode_failed)
patch_reify_spec s r (decoded req) = patch_decoded s r req

-- `s.latest[network] = append(s.latest[network], device)`
abbrev pub mark : Server → Bytes → Bytes → Server
mark s network device = record s {
  latest = set_latest s.latest network (s.latest network ++ device ∷ []);
}

-- After a decoding error the handler writes an error and goes on.
abbrev pub decode_error : StatusBody → Response
decode_error body = if body.has_error then http_error 400 decode_failed else []

unfoldable pub post_reify_status : Server → Request → StatusBody → Result
post_reify_status s r body = elim (get_network_index s.spec r.network) [
  | none ↦ ok (s, decode_error body ++ http_error 422 invalid_request)
  | some i ↦ do
    sn ← or_panic (get_elem? s.spec.networks i)
    nc ← or_panic (censor_for_device sn r.device)
    if network_equal body.reified nc
        then ok (mark s r.network r.device, decode_error body ++ status 200 ∷ latest_json true ∷ [])
        else ok (s, decode_error body ++ status 200 ∷ latest_json false ∷ [])
]

-- The routes of `setup`, behind the checks that every handler begins with.
unfoldable pub handle : Server → Request → Action → Result
handle s r get_latest = get_reify_latest s r
handle s r get_spec = get_reify_spec s r
handle s r (patch_spec body) = patch_reify_spec s r body
handle s r (post_status body) = post_reify_status s r body

unfoldable pub serve : (Bytes → Bytes) → Server → Request → Result
serve sha_256 s r = elim (verify_identity sha_256 s r) [
  | some w ↦ ok (s, w)
  | none ↦ elim (verify_known s.spec r.network r.device) [
    | some w ↦ ok (s, w)
    | none ↦ handle s r r.action
  ]
]
