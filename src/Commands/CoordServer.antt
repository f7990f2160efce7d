-- ===== src/Commands/CoordServer.antt =====
-- cmd/coord-server/main.go: from the flags and the configuration to the server. A map of the
-- configuration is a list of its entries, in the order in which Go ranges over it, which is not
-- fixed. `Fatalf` is a failure; listening is outside.
pub mod Laws
use qrystal.Prelude.{
  Bool, true, false, not, ◌&&◌, Option, none, some, List, [], ◌∷◌, if◌then◌else◌, ◌==◌, list_eq,
  nat_eq, bool_eq, Outcome, ok, failed, ◌>>=◌,
}
use qrystal.Text.{Bytes}
use qrystal.Spec.{Spec}
use qrystal.Util.Token.{TokenHash, parse_token_hash}
use qrystal.Util.Token.Encoding.{or_error}
use qrystal.Coord.{Server, TokenInfo, new_server}

pub record Config : Type 0 where
  pub spec : Spec
  pub tokens : List (Bytes × TokenInfo)
  pub addr : Bytes
  pub cert_path : Bytes
  pub key_path : Bytes

-- `loadConfig`, over the file system and the decoder of JSON.
unfoldable pub load_config :
    (Bytes → Option Bytes) → (Bytes → Option Config) → Bytes → Outcome Config
load_config read_file decode path = do text ← or_error (read_file path); or_error (decode text)

-- `tokens2[*tokenHash] = val`
abbrev pub put_token :
    (TokenHash → Option TokenInfo) → TokenHash → TokenInfo → TokenHash → Option TokenInfo
put_token tokens h info k = if h.raw == k.raw then some info else tokens k

-- The loop of `convertTokens`, over the map so far.
unfoldable pub convert_loop :
    (TokenHash → Option TokenInfo)
    → List (Bytes × TokenInfo)
    → Outcome (TokenHash → Option TokenInfo)
convert_loop tokens [] = ok tokens
convert_loop tokens (entry ∷ entries) = do
  h ← parse_token_hash entry.0
  convert_loop (put_token tokens h entry.1) entries

unfoldable pub convert_tokens : List (Bytes × TokenInfo) → Outcome (TokenHash → Option TokenInfo)
unfolding convert_loop
convert_tokens entries = convert_loop (λ h. none) entries

-- The command line, and what the command serves.
pub record Flags : Type 0 where
  pub addr : Bytes
  pub cert_path : Bytes
  pub key_path : Bytes

pub record Serving : Type 0 where
  pub addr : Bytes
  pub cert_path : Bytes
  pub key_path : Bytes
  pub is_https : Bool
  pub server : Server

-- The configuration overrides the command line where it is not empty.
abbrev pub override : Bytes → Bytes → Bytes
override flag configured = if configured == [] then flag else configured

-- `main`, behind `loadConfig` and up to listening.
unfoldable pub serving : Flags → Config → Outcome Serving
unfolding convert_tokens
serving flags c =
    let cert_path = override flags.cert_path c.cert_path in
    let key_path = override flags.key_path c.key_path in
    if (cert_path == []) == (key_path == [])
    then (do
      tokens ← convert_tokens c.tokens
      s ← new_server c.spec (some tokens)
      ok (record {
        addr = override flags.addr c.addr;
        cert_path = cert_path;
        key_path = key_path;
        is_https = not (cert_path == []) && not (key_path == []);
        server = s;
      }))
    else failed
