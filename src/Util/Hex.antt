-- ===== src/Util/Hex.antt =====
-- `hex.EncodeToString` and `hex.Decode` of Go's standard library, as util/token.go uses them.
pub mod Laws
use qrystal.Prelude.{
  ℕ, zero, suc, ◌+◌, ◌-◌, ◌*◌, ◌/◌, ◌%◌, ◌&&◌, Option, none, some, List, [], ◌∷◌, if◌then◌else◌,
  leb, Outcome, ok, failed, panicked,
}
use qrystal.Text.{Bytes}

encode_digit : ℕ → ℕ
encode_digit v = if leb v 9 then v + b'0' else v - 10 + b'a'

decode_digit : ℕ → Option ℕ
decode_digit c =
    if leb b'0' c && leb c b'9'
    then some (c - b'0')
    else if leb b'a' c && leb c b'f'
    then some (c - b'a' + 10)
    else if leb b'A' c && leb c b'F'
    then some (c - b'A' + 10)
    else none

unfoldable pub encode : Bytes → Bytes
unfolding encode_digit
encode [] = []
encode (x ∷ xs) = encode_digit (x / 16) ∷ encode_digit (x % 16) ∷ encode xs

-- A byte is put before the others, if they could be decoded.
prepend : ℕ → Outcome Bytes → Outcome Bytes
prepend x (ok xs) = ok (x ∷ xs)
prepend x failed = failed
prepend x panicked = panicked

decode_pair : Option ℕ → Option ℕ → Outcome Bytes → Outcome Bytes
unfolding prepend
decode_pair (some a) (some b) rest = prepend (a * 16 + b) rest
decode_pair _ _ rest = failed

-- `hex.Decode` into a slice with `room` bytes: the digits are checked before the byte is stored,
-- and a store past the end panics. A digit with no partner is an error.
unfoldable pub decode_into : ℕ → Bytes → Outcome Bytes
unfolding decode_digit decode_pair
decode_into room [] = ok []
decode_into room (p ∷ []) = failed
decode_into zero (p ∷ q ∷ rest) = decode_pair (decode_digit p) (decode_digit q) panicked
decode_into (suc room) (p ∷ q ∷ rest) =
    decode_pair (decode_digit p) (decode_digit q) (decode_into room rest)
