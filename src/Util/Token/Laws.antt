-- ===== src/Util/Token/Laws.antt =====
-- The texts of tokens and hashes of util/token.go, written and read.
use qrystal.Prelude.{◌<◌, ◌≡◌, ap, some, ◌++◌, arith, ok, panicked, length, append-nil}
use qrystal.Text.{Bytes, IsBytes, strip_prefix-append}
use qrystal.Util.Base64
use qrystal.Util.Base64.Laws.{decode-encode}
use qrystal.Util.Hex
use qrystal.Util.Hex.Laws.{decode_into-encode, decode_into_overflow}
use qrystal.Util.Token.{
  Token, TokenHash, token_prefix, hash_prefix, token_string, parse_token, hash_string, fill_32,
  parse_token_hash,
}

-- `ParseToken(t.String())` gives `t` back, for every token of bytes.
pub parse_token-token_string : (t : Token) → IsBytes t.raw → parse_token (token_string t) ≡ some t
unfolding parse_token token_string
parse_token-token_string t h =
    rw (strip_prefix-append token_prefix (Base64.encode t.raw), parse_token, decode-encode t.raw h)

fill_32_full : (h : TokenHash) → length h.raw ≡ 32 → fill_32 h.raw ≡ h
unfolding fill_32
fill_32_full h e = rw e (ground (arith, append-nil h.raw))

-- `ParseTokenHash(h.String())` gives `h` back, for every hash of 32 bytes.
pub parse_token_hash-hash_string :
    (h : TokenHash) → IsBytes h.raw → length h.raw ≡ 32 → parse_token_hash (hash_string h) ≡ ok h
unfolding parse_token_hash hash_string
parse_token_hash-hash_string h b e =
    rw
      (
        strip_prefix-append hash_prefix (Hex.encode h.raw),
        parse_token_hash,
        decode_into-encode 32 h.raw b (omega arith),
      )
      (ap ok (fill_32_full h e))

-- `ParseTokenHash` panics on the text of any more than 32 bytes.
pub parse_token_hash_overflow :
    (raw : Bytes)
    → IsBytes raw
    → 32 < length raw
    → parse_token_hash (hash_prefix ++ Hex.encode raw) ≡ panicked
unfolding parse_token_hash
parse_token_hash_overflow raw b h = rw (
  strip_prefix-append hash_prefix (Hex.encode raw),
  parse_token_hash,
  decode_into_overflow 32 raw b h,
)
