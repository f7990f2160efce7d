-- ===== src/Util/Token/Encoding/Laws.antt =====
-- The JSON and gob forms of tokens and hashes of util/token.go, written and read.
use qrystal.Prelude.{◌≡◌, arith, length, ok, refl}
use qrystal.Text.{IsBytes, IsAscii, IsAscii-append}
use qrystal.Util.Base64
use qrystal.Util.Base64.Laws as Base64Laws
use qrystal.Util.Hex
use qrystal.Util.Hex.Laws as HexLaws
use qrystal.Util.Token.{Token, TokenHash, token_prefix, hash_prefix, token_string, hash_string}
use qrystal.Util.Token.Laws.{parse_token-token_string, parse_token_hash-hash_string}
use qrystal.Util.Token.Encoding.{
  JsonText, marshal_hash, unmarshal_hash, marshal_token, unmarshal_token, gob_encode_hash,
  gob_decode_hash, gob_encode_token, gob_decode_token,
}

token_prefix-IsAscii : IsAscii token_prefix
token_prefix-IsAscii = ground arith

hash_prefix-IsAscii : IsAscii hash_prefix
hash_prefix-IsAscii = ground arith

token_string-IsAscii : (t : Token) → IsAscii (token_string t)
unfolding token_string
token_string-IsAscii t =
    IsAscii-append token_prefix (Base64.encode t.raw) token_prefix-IsAscii
      (Base64Laws.encode-IsAscii t.raw)

hash_string-IsAscii : (h : TokenHash) → IsBytes h.raw → IsAscii (hash_string h)
unfolding hash_string
hash_string-IsAscii h b =
    IsAscii-append hash_prefix (Hex.encode h.raw) hash_prefix-IsAscii
      (HexLaws.encode-IsAscii h.raw b)

-- A token that is written as JSON or as gob is read back, for every token of bytes; and so is every
-- hash of 32 bytes.
pub encoding-round_trip :
    (json : JsonText) (t : Token) (h : TokenHash)
    → IsBytes t.raw
    → IsBytes h.raw
    → length h.raw ≡ 32
    → (unmarshal_token json (marshal_token json t) ≡ ok t)
      × (gob_decode_token (gob_encode_token t) ≡ ok t)
      × (unmarshal_hash json (marshal_hash json h) ≡ ok h)
      × (gob_decode_hash (gob_encode_hash h) ≡ ok h)
unfolding unmarshal_token marshal_token gob_decode_token gob_encode_token unmarshal_hash
    marshal_hash gob_decode_hash gob_encode_hash
encoding-round_trip json t h bt bh e = (
  rw
      (
        json.unmarshal-marshal (token_string t) (token_string-IsAscii t),
        parse_token-token_string t bt,
      )
      refl,
  rw (parse_token-token_string t bt) refl,
  rw
      (
        json.unmarshal-marshal (hash_string h) (hash_string-IsAscii h bh),
        parse_token_hash-hash_string h bh e,
      )
      refl,
  parse_token_hash-hash_string h bh e,
)
