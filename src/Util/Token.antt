-- ===== src/Util/Token.antt =====
-- util/token.go: tokens and their hashes, and the texts that they are written as. SHA-256 is a
-- parameter.
pub mod Laws
pub mod Encoding
use qrystal.Prelude.{
  Option, none, some, ◌++◌, Outcome, ok, failed, panicked, length, replicate, ◌-◌,
}
use qrystal.Text.{Bytes, bytes, strip_prefix}
use qrystal.Util.Base64
use qrystal.Util.Hex

abbrev pub token_prefix : Bytes
token_prefix = bytes "qrystalct_"

abbrev pub hash_prefix : Bytes
hash_prefix = bytes "qrystalcth_"

pub record Token : Type 0 where
  pub raw : Bytes

-- An array of 32 bytes.
pub record TokenHash : Type 0 where
  pub raw : Bytes

unfoldable pub token_string : Token → Bytes
token_string t = token_prefix ++ Base64.encode t.raw

unfoldable pub parse_token : Bytes → Option Token
parse_token s = elim (strip_prefix token_prefix s) [
  | none ↦ none
  | some text ↦ elim (Base64.decode text) [ none ↦ none | some raw ↦ some (record { raw = raw }) ]
]

unfoldable pub hash_string : TokenHash → Bytes
hash_string h = hash_prefix ++ Hex.encode h.raw

-- `raw` fills the start of an array of zeros.
fill_32 : Bytes → TokenHash
fill_32 raw = record { raw = raw ++ replicate (32 - length raw) 0 }

unfoldable pub parse_token_hash : Bytes → Outcome TokenHash
unfolding fill_32
parse_token_hash s = elim (strip_prefix hash_prefix s) [
  | none ↦ failed
  | some text ↦ elim (Hex.decode_into 32 text) [
    | ok raw ↦ ok (fill_32 raw)
    | failed ↦ failed
    | panicked ↦ panicked
  ]
]

unfoldable pub hash : (Bytes → Bytes) → Token → TokenHash
hash sha_256 t = record { raw = sha_256 t.raw }
