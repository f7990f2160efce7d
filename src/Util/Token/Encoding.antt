-- ===== src/Util/Token/Encoding.antt =====
-- util/token.go: `RandomToken`, `Empty`, and the methods for Go's packages encoding/json and
-- encoding/gob, with the JSON form of a string as an interface.
pub mod Laws
use qrystal.Prelude.{
  ℕ, ◌≡◌, ◌<◌, Bool, Option, none, some, [], ◌∷◌, nat_beq, length, Outcome, ok, failed, ◌>>=◌, ◌++◌,
}
use qrystal.Text.{Bytes, IsAscii}
use qrystal.Util.Token.{Token, TokenHash, token_string, parse_token, hash_string, parse_token_hash}

-- `json.Marshal` and `json.Unmarshal` of a string: an ASCII text is read as it was written, and so is
-- one with a micro sign, two bytes of UTF-8, in it.
pub record JsonText : Type 0 where
  pub marshal : Bytes → Bytes
  pub unmarshal : Bytes → Option Bytes
  pub unmarshal-marshal : (s : Bytes) → IsAscii s → unmarshal (marshal s) ≡ some s
  pub unmarshal-marshal_micro :
      (a b : Bytes)
      → IsAscii a
      → IsAscii b
      → unmarshal (marshal (a ++ 194 ∷ 181 ∷ b)) ≡ some (a ++ 194 ∷ 181 ∷ b)

abbrev pub or_error {ℓ} : {A : Type ℓ} → Option A → Outcome A
or_error none = failed
or_error (some a) = ok a

-- `RandomToken`, over what the system's randomness answers for a number of bytes.
unfoldable pub random_token : (ℕ → Option Bytes) → Outcome Token
random_token read = do raw ← or_error (read 64); ok (record { raw = raw })

unfoldable pub empty : Token → Bool
empty t = nat_beq (length t.raw) 0

-- The decoding methods give the new receiver; with an error it is as before.
module _ (json : JsonText) where
  unfoldable pub marshal_hash : TokenHash → Bytes
  marshal_hash h = json.marshal (hash_string h)

  unfoldable pub unmarshal_hash : Bytes → Outcome TokenHash
  unmarshal_hash text = do s ← or_error (json.unmarshal text); parse_token_hash s

  unfoldable pub marshal_token : Token → Bytes
  marshal_token t = json.marshal (token_string t)

  unfoldable pub unmarshal_token : Bytes → Outcome Token
  unmarshal_token text = do s ← or_error (json.unmarshal text); or_error (parse_token s)

unfoldable pub gob_encode_hash : TokenHash → Bytes
gob_encode_hash h = hash_string h

unfoldable pub gob_decode_hash : Bytes → Outcome TokenHash
gob_decode_hash text = parse_token_hash text

unfoldable pub gob_encode_token : Token → Bytes
gob_encode_token t = token_string t

unfoldable pub gob_decode_token : Bytes → Outcome Token
gob_decode_token text = or_error (parse_token text)
