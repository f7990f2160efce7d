-- ===== src/Commands/DeviceClient.antt =====
-- cmd/device-client/main.go: the configuration of the clients, and the loop that runs each of them.
-- Files are read once, and what is read does not depend on the moment; log lines are left out.
pub mod Ticks
use qrystal.Prelude.{
  ℕ, zero, suc, Bool, true, false, Option, none, some, List, [], ◌∷◌, if◌then◌else◌, ◌==◌, list_eq,
  nat_eq, ℤ, Outcome, ok, failed, panicked, ◌>>=◌,
}
use qrystal.Text.{Bytes}
use qrystal.Goal.Key.{Key}
use qrystal.Util.Token.{Token, parse_token}
use qrystal.Util.Token.Encoding.{or_error}
use qrystal.Device.{Client, Outside, new_client, set_can_forward, set_dns_client}
use qrystal.Device.Reify.{ContinuousClient, step}

pub record ClientConfig : Type 0 where
  pub base_url : Bytes
  pub token : Token
  pub token_path : Bytes
  pub network : Bytes
  pub device : Bytes
  pub private_key : Key
  pub private_key_path : Bytes
  pub minimum_interval : ℤ
  pub cert_path : Bytes
  -- Whether there is a transport with the certificate.
  pub has_transport : Bool

pub record Config : Type 0 where
  pub clients : List (Bytes × ClientConfig)
  pub can_forward : Bool
  pub assume_proc : Bool

-- `os.ReadFile`, `wgtypes.ParseKey`, and whether `AppendCertsFromPEM` finds a certificate.
pub record Files : Type 0 where
  pub read_file : Bytes → Option Bytes
  pub parse_key : Bytes → Option Key
  pub has_cert : Bytes → Bool

unfoldable pub load_private_key : Files → ClientConfig → Outcome ClientConfig
load_private_key files cc = if cc.private_key_path == [] then ok cc else (do
  text ← or_error (files.read_file cc.private_key_path)
  key ← or_error (files.parse_key text)
  ok (record cc { private_key = key }))

unfoldable pub load_token : Files → ClientConfig → Outcome ClientConfig
load_token files cc = if cc.token_path == [] then ok cc else (do
  text ← or_error (files.read_file cc.token_path)
  token ← or_error (parse_token text)
  ok (record cc { token = token }))

unfoldable pub load_cert : Files → ClientConfig → Outcome ClientConfig
load_cert files cc = if cc.cert_path == [] then ok cc else (do
  cert ← or_error (files.read_file cc.cert_path)
  if files.has_cert cert then ok (record cc { has_transport = true }) else failed)

-- One client of the configuration: an error ends the command.
unfoldable pub load_client : Files → ClientConfig → Outcome ClientConfig
unfolding load_private_key load_token load_cert
load_client files cc = do
  with_key ← load_private_key files cc
  with_token ← load_token files with_key
  load_cert files with_token

unfoldable pub load_clients :
    Files → List (Bytes × ClientConfig) → Outcome (List (Bytes × ClientConfig))
unfolding load_client
load_clients files [] = ok []
load_clients files (entry ∷ clients) = do
  cc ← load_client files entry.1
  rest ← load_clients files clients
  ok ((entry.0, cc) ∷ rest)

-- What `createGoroutines` runs for one client; an error of `NewClient` panics. `SetAssumeProc` makes
-- another applier, which is outside.
unfoldable pub create_client : Bool → Bool → Bool → Config → ClientConfig → Outcome ContinuousClient
create_client is_url has_applier has_dns config cc =
    elim (new_client is_url has_applier cc.token cc.network cc.device cc.private_key) [
      | ok c ↦ ok (record {
        client = set_dns_client (set_can_forward c config.can_forward) has_dns;
        latest = false;
      })
      | failed ↦ panicked
      | panicked ↦ panicked
    ]

-- How the inner loop ends: the client is up to date, a step had an error, or it panicked.
pub data Ending : Type 0 where
  is_latest had_error crashed : Ending

abbrev pub Ended : Type 0 → Type 0
Ended W = Option (Ending × ContinuousClient × W)

abbrev pub after_step :
    {W : Type 0}
    → Outcome (Bool × Bool) × ContinuousClient × W
    → (ContinuousClient → W → Ended W)
    → Ended W
after_step (ok (true, updated), s, w) again = some (is_latest, s, w)
after_step (ok (false, updated), s, w) again = again s w
after_step (failed, s, w) again = some (had_error, s, w)
after_step (panicked, s, w) again = some (crashed, s, w)

module _ {W : Type 0} (o : Outside W) where
  -- The inner loop of a tick, on fuel, and `none` where it is used up; it sleeps a second before
  -- each further step.
  unfoldable pub tick : ℕ → ContinuousClient → W → Ended W
  unfolding step
  tick zero s w = none
  tick (suc fuel) s w = after_step (step o s w) (tick fuel)
