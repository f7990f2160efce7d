-- ===== src/Coord.antt =====
-- coord/server.go: the state of the coordination server, its requests and its responses.
-- A handler holds `specLock` for as long as it runs (the two that write hold it alone), takes
-- `latestLock` only while it holds `specLock`, and `tokens` is never written, so that the handlers
-- of one server run one after the other as far as its state shows.
pub mod Update
pub mod Handlers
pub mod Access
pub mod Lookup
pub mod Addresses
pub mod Patch
pub mod Installed
pub mod Effect
pub mod Marks
pub mod Polling
pub mod Faults
use qrystal.Prelude.{ℕ, Bool, Option, none, some, List, [], ◌∷◌, ℤ, Outcome, ok, panicked}
use qrystal.Text.{Bytes}
use qrystal.Goal.Key.{Key}
use qrystal.Spec.{Spec, NetworkCensored}
use qrystal.Util.Token.{TokenHash}

pub record TokenInfo : Type 0 where
  pub identities : List (Bytes × Bytes)

-- A map is a function; the source reads `latest` by `latest[key]` alone, where a missing key reads
-- as an empty slice.
pub record Server : Type 0 where
  pub spec : Spec
  pub latest : Bytes → List Bytes
  pub tokens : TokenHash → Option TokenInfo

-- `NewServer`, where `none` is a nil map.
unfoldable pub new_server : Spec → Option (TokenHash → Option TokenInfo) → Outcome Server
new_server spec none = panicked
new_server spec (some tokens) = ok (record { spec = spec; latest = λ network. []; tokens = tokens })

pub record PatchReifySpecRequest : Type 0 where
  pub listen_port : ℤ
  pub listen_port_set : Bool
  pub public_key : Key
  pub public_key_set : Bool
  pub preshared_key : Option Key
  pub preshared_key_set : Bool
  pub persistent_keepalive : ℤ
  pub persistent_keepalive_set : Bool
  pub accessible : List Bytes
  pub accessible_set : Bool

-- What reading and decoding the body of a PATCH comes to.
pub data PatchBody : Type 0 where
  unreadable malformed : PatchBody
  decoded : PatchReifySpecRequest → PatchBody

-- What decoding the body of a status report comes to: the decoder fills what it can, and tells
-- whether it met an error.
pub record StatusBody : Type 0 where
  pub reified : NetworkCensored
  pub has_error : Bool

pub data Action : Type 0 where
  get_latest get_spec : Action
  patch_spec : PatchBody → Action
  post_status : StatusBody → Action

-- A request to `/v1/reify/{network}/{device}/…`; a missing header reads as an empty text.
pub record Request : Type 0 where
  pub network : Bytes
  pub device : Bytes
  pub authorization : Bytes
  pub action : Action

pub data Reason : Type 0 where
  wrong_scheme bad_token not_authorized network_not_found device_not_found : Reason
  body_unreadable decode_failed invalid_request : Reason
  no_such_accessible : Bytes → Bytes → Reason

-- What a handler writes, in order.
pub data Write : Type 0 where
  status : ℕ → Write
  error_text : Reason → Write
  latest_json : Bool → Write
  view_json : NetworkCensored → Write

abbrev pub Response : Type 0
Response = List Write

abbrev pub http_error : ℕ → Reason → Response
http_error code reason = status code ∷ error_text reason ∷ []

-- The status that the client sees: the first one, or 200 if none is written.
abbrev pub status_code : Response → ℕ
status_code [] = 200
status_code (status code ∷ rest) = code
status_code _ = 200
