-- ===== src/Goal/Json.antt =====
-- goal/util.go and goal/duration.go: the JSON forms of networks, keys and durations, over the texts
-- of Go's packages net and time and of the WireGuard package.
pub mod Laws
use qrystal.Prelude.{
  ◌≡◌, Bool, true, false, Option, none, some, List, [], map, ◌==◌, list_eq, nat_eq, if◌then◌else◌,
  length, ℤ, pos, Outcome, ok, ◌>>=◌, ◌⊎◌, ◌++◌, ◌∷◌,
}
use qrystal.Text.{Bytes, IsBytes, IsAscii}
use qrystal.Net.{IpNet, is_network, ip_equal}
use qrystal.Goal.Key.{Key}
use qrystal.Util.Token.Encoding.{JsonText, or_error}

-- `IPNet.String` and `ParseCIDR`, which answers the address and its network; `Key.String` and
-- `ParseKey`; `Duration.String` and `ParseDuration`. Texts are ASCII, but for the micro sign in the text
-- of a duration below a millisecond, and what is written is parsed to what it stands for, a network
-- in the same form or the other one.
pub record Texts : Type 0 where
  pub ip_net_string : IpNet → Bytes
  pub parse_cidr : Bytes → Option (Bytes × IpNet)
  pub key_string : Key → Bytes
  pub parse_key : Bytes → Option Key
  pub duration_string : ℤ → Bytes
  pub parse_duration : Bytes → Option ℤ
  pub ip_net_ascii : (n : IpNet) → IsAscii (ip_net_string n)
  pub key_ascii : (k : Key) → IsAscii (key_string k)
  pub duration_ascii :
      (d : ℤ)
      → IsAscii (duration_string d)
        ⊎ ((a : Bytes) × (b : Bytes) × IsAscii a
            × IsAscii b
            × (duration_string d ≡ a ++ 194 ∷ 181 ∷ b))
  pub cidr_lem :
      (n : IpNet)
      → is_network n ≡ true
      → (ip : Bytes) × (m : IpNet) × (parse_cidr (ip_net_string n) ≡ some (ip, m))
        × (ip_equal m.ip n.ip ≡ true)
        × (m.mask ≡ n.mask)
  pub key_text : (k : Key) → length k ≡ 32 → (key_string k == []) ≡ false
  pub key_lem : (k : Key) → length k ≡ 32 → IsBytes k → parse_key (key_string k) ≡ some k
  pub duration_lem : (d : ℤ) → parse_duration (duration_string d) ≡ some d

module _ (json : JsonText) (texts : Texts) where
  unfoldable pub marshal_ip_net : IpNet → Bytes
  marshal_ip_net n = json.marshal (texts.ip_net_string n)

  -- The receiver is the network; the address is dropped.
  unfoldable pub unmarshal_ip_net : Bytes → Outcome IpNet
  unmarshal_ip_net text = do
    s ← or_error (json.unmarshal text)
    parsed ← or_error (texts.parse_cidr s)
    ok (record { ip = parsed.1.ip; mask = parsed.1.mask })

  unfoldable pub marshal_key : Key → Bytes
  marshal_key k = json.marshal (texts.key_string k)

  -- The empty text leaves the receiver as it is.
  unfoldable pub unmarshal_key : Key → Bytes → Outcome Key
  unmarshal_key k text = do
    s ← or_error (json.unmarshal text)
    if s == [] then ok k else or_error (texts.parse_key s)

  unfoldable pub marshal_duration : ℤ → Bytes
  marshal_duration d = json.marshal (texts.duration_string d)

  -- The receiver, which a text that is not a duration sets to 0, and whether there is no error.
  unfoldable pub unmarshal_duration : ℤ → Bytes → ℤ × Bool
  unmarshal_duration d text = elim (json.unmarshal text) [
    | none ↦ (d, false)
    | some s ↦ elim (texts.parse_duration s) [ none ↦ (pos 0, false) | some e ↦ (e, true) ]
  ]

-- `ipNetUtilToStd`
unfoldable pub ip_net_util_to_std : List IpNet → List IpNet
ip_net_util_to_std s = map (λ n. record { ip = n.ip; mask = n.mask }) s
