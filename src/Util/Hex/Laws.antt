-- ===== src/Util/Hex/Laws.antt =====
-- Hexadecimal text of Go's standard library, as util/token.go uses it.
use qrystal.Prelude.{
  ℕ, zero, suc, ◌/◌, ◌%◌, ◌<◌, ◌≤◌, ◌≡◌, some, [], ◌∷◌, arith, length, Outcome, ok, panicked,
}
use qrystal.Text.{Bytes, IsBytes, IsAscii}
use qrystal.Util.Hex.{encode_digit, decode_digit, encode, prepend, decode_pair, decode_into}

digit_back : (v : ℕ) → v < 16 → decode_digit (encode_digit v) ≡ some v
unfolding encode_digit decode_digit
digit_back v h = ground arith

pair_back :
    (x : ℕ) (rest : Outcome Bytes)
    → x < 256
    → decode_pair (decode_digit (encode_digit (x / 16))) (decode_digit (encode_digit (x % 16))) rest
      ≡ prepend x rest
unfolding decode_pair
pair_back x rest h = ground (arith, digit_back (x / 16), digit_back (x % 16))

pub decode_into-encode :
    (n : ℕ) (xs : Bytes) → IsBytes xs → length xs ≤ n → decode_into n (encode xs) ≡ ok xs
unfolding decode_into encode prepend
decode_into-encode n [] h k = ground arith
decode_into-encode zero (x ∷ xs) h k = elim k [ ]
decode_into-encode (suc n) (x ∷ xs) h k =
    ground (arith, pair_back x (decode_into n (encode xs)) h.0, decode_into-encode n xs h.1)

pub decode_into_overflow :
    (n : ℕ) (xs : Bytes) → IsBytes xs → n < length xs → decode_into n (encode xs) ≡ panicked
unfolding decode_into encode prepend
decode_into_overflow n [] h k = elim k [ ]
decode_into_overflow zero (x ∷ xs) h k = pair_back x panicked h.0
decode_into_overflow (suc n) (x ∷ xs) h k =
    ground (arith, pair_back x (decode_into n (encode xs)) h.0, decode_into_overflow n xs h.1)

digit_ascii : (v : ℕ) → v < 16 → encode_digit v < 128
unfolding encode_digit
digit_ascii v h = ground arith

pub encode-IsAscii : (xs : Bytes) → IsBytes xs → IsAscii (encode xs)
unfolding encode
encode-IsAscii [] h = tt
encode-IsAscii (x ∷ xs) h = (
  digit_ascii (x / 16) (omega (arith, h.0)),
  (digit_ascii (x % 16) (omega arith), encode-IsAscii xs h.1),
)
