-- ===== src/Device.antt =====
-- device/: the client that a device runs (device/client.go, device/continuous.go). Everything
-- outside the process is a state `W`, which the calls of `Outside` take along; a client's method is
-- a function of the client and `W`, both of which it leaves changed, errors and panics included.
pub mod Requests
pub mod Endpoints
pub mod Reify
use qrystal.Prelude.{
  ◌≡◌, refl, arith, ℕ, Bool, true, Option, none, some, Outcome, ok, failed, panicked, ℤ, ◌&&◌,
  if◌then◌else◌, false, [],
}
use qrystal.Text.{Bytes}
use qrystal.Goal.Key.{Key}
use qrystal.Goal.Machine.{Machine}
use qrystal.Spec.{NetworkCensored, SpecCensored}
use qrystal.Util.Token.{Token}
use qrystal.Coord.{Request}

pub record Client : Type 0 where
  pub can_forward : Bool
  -- Whether there is a DNS client.
  pub has_dns : Bool
  pub spec : SpecCensored
  pub token : Token
  pub network : Bytes
  pub device : Bytes
  pub private_key : Key

-- `NewClient`, over whether the URL is one and an applier can be made.
unfoldable pub new_client : Bool → Bool → Token → Bytes → Bytes → Key → Outcome Client
new_client is_url has_applier token network device private_key =
    if is_url && has_applier
    then ok (record {
      can_forward = false;
      has_dns = false;
      spec = record { networks = [] };
      token = token;
      network = network;
      device = device;
      private_key = private_key;
    })
    else failed

unfoldable pub set_can_forward : Client → Bool → Client
set_can_forward c can_forward = record c { can_forward = can_forward }

-- Whether there is a DNS client is all that is kept of it.
unfoldable pub set_dns_client : Client → Bool → Client
set_dns_client c has_dns = record c { has_dns = has_dns }

-- The decoded body of an answer.
pub data Body : Type 0 where
  spec_body : NetworkCensored → Body
  latest_body : Bool → Body
  other_body : Body

-- `http` is `http.Client.Do` with the body read and decoded, and `none` an error of it; a call that
-- answers with a test answers true if it has no error; the applier answers an error or a panic, too,
-- and the machine as it leaves it, since it sorts addresses in place. `score` is the ping command, `intn` is
-- `rand.Intn`.
pub record Outside (W : Type 0) : Type 0 where
  pub http : Request → W → Option (ℕ × Body) × W
  pub update_dns : SpecCensored → W → Bool × W
  pub apply_machine : Machine → W → Outcome Bool × Machine × W
  pub generate_private_key : W → Option Key × W
  pub public_key : Key → Key
  pub score : Bytes → W → Option ℤ
  pub intn : ℕ → W → ℕ × W

abbrev pub Run : Type 0 → Type 0 → Type 0
Run W A = Client → W → Outcome A × Client × W

module _ {W : Type 0} where
  abbrev pub return : {A : Type 0} → Outcome A → Run W A
  return a c w = (a, c, w)

  abbrev pub bind : {A B : Type 0} → Outcome A × Client × W → (A → Run W B) → Outcome B × Client × W
  bind (ok a, c, w) f = f a c w
  bind (failed, c, w) f = (failed, c, w)
  bind (panicked, c, w) f = (panicked, c, w)

  infixl 5 ◌>>>=◌
  abbrev pub ◌>>>=◌ : {A B : Type 0} → Run W A → (A → Run W B) → Run W B
  ◌>>>=◌ m f c w = bind (m c w) f

  -- A call outside that may fail.
  abbrev pub succeed : Bool × W → Client → Outcome Bool × Client × W
  succeed (b, w) c = (if_ok b, c, w)
    where
      if_ok : Bool → Outcome Bool
      if_ok true = ok true
      if_ok _ = failed

  -- A chain that succeeds has a first link that does.
  pub bind-ok :
      {A B : Type 0} (r : Outcome A × Client × W) (f : A → Run W B) (b : B) (c2 : Client) (w2 : W)
      → bind r f ≡ (ok b, c2, w2)
      → (a : A) × (c1 : Client) × (w1 : W) × (r ≡ (ok a, c1, w1)) × (f a c1 w1 ≡ (ok b, c2, w2))
  bind-ok (ok a, c1, w1) f b c2 w2 h = (a, c1, w1, refl, h)
  bind-ok (failed, c1, w1) f b c2 w2 h = absurd (ground arith)
  bind-ok (panicked, c1, w1) f b c2 w2 h = absurd (ground arith)
