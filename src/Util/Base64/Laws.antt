-- ===== src/Util/Base64/Laws.antt =====
-- Base64 of Go's standard library, as util/token.go uses it.
use qrystal.Prelude.{
  ℕ, ◌+◌, ◌*◌, ◌/◌, ◌%◌, ◌<◌, ◌≡◌, ◌≢◌, refl, ap, ◌∙◌, Bool, true, false, not, ◌||◌, Option, some,
  [], ◌∷◌, arith, nat_beq, filter_by,
}
use qrystal.Text.{Bytes, IsBytes, IsAscii}
use qrystal.Util.Base64.{
  encode_digit, decode_digit, encode, is_empty, decode_group, decode_groups, decode,
}

-- A digit is read back, and is neither padding nor a line break.
digit_back : (v : ℕ) → v < 64 → decode_digit (encode_digit v) ≡ some v
unfolding encode_digit decode_digit
digit_back v h = ground arith

digit_plain : (v : ℕ) → (encode_digit v ≢ b'=') × (encode_digit v ≢ 10) × (encode_digit v ≢ 13)
unfolding encode_digit
digit_plain v = ground arith

group_1 :
    (a : ℕ) (tail : Option Bytes)
    → a < 256
    → decode_group (encode_digit (a / 4)) (encode_digit (a % 4 * 16)) b'=' b'=' true tail
      ≡ some (a ∷ [])
unfolding decode_group
group_1 a tail h = ground (arith, digit_back (a / 4), digit_back (a % 4 * 16))

group_2 :
    (a b : ℕ) (tail : Option Bytes)
    → a < 256
    → b < 256
    → decode_group
        (encode_digit (a / 4))
        (encode_digit (a % 4 * 16 + b / 16))
        (encode_digit (b % 16 * 4))
        b'='
        true
        tail
      ≡ some (a ∷ b ∷ [])
unfolding decode_group
group_2 a b tail h k = ground (
  arith,
  digit_back (a / 4),
  digit_back (a % 4 * 16 + b / 16),
  digit_back (b % 16 * 4),
  digit_plain (b % 16 * 4),
)

-- Four digits without padding.
whole_group :
    (x y z w p q r t : ℕ) (last : Bool) (rest : Bytes)
    → decode_digit x ≡ some p
    → decode_digit y ≡ some q
    → decode_digit z ≡ some r
    → decode_digit w ≡ some t
    → z ≢ b'='
    → w ≢ b'='
    → decode_group x y z w last (some rest)
      ≡ some ((p * 4 + q / 16) ∷ (q % 16 * 16 + r / 4) ∷ (r % 4 * 64 + t) ∷ rest)
unfolding decode_group
whole_group x y z w p q r t last rest hx hy hz hw nz nw = ground arith

group_3 :
    (a b c : ℕ) (last : Bool) (rest : Bytes)
    → a < 256
    → b < 256
    → c < 256
    → decode_group
        (encode_digit (a / 4))
        (encode_digit (a % 4 * 16 + b / 16))
        (encode_digit (b % 16 * 4 + c / 64))
        (encode_digit (c % 64))
        last
        (some rest)
      ≡ some (a ∷ b ∷ c ∷ rest)
group_3 a b c last rest h k l =
    whole_group (encode_digit (a / 4)) (encode_digit (a % 4 * 16 + b / 16))
      (encode_digit (b % 16 * 4 + c / 64)) (encode_digit (c % 64)) (a / 4) (a % 4 * 16 + b / 16)
      (b % 16 * 4 + c / 64) (c % 64) last rest (digit_back _ (omega arith))
      (digit_back _ (omega arith)) (digit_back _ (omega arith)) (digit_back _ (omega arith))
      (digit_plain _).0 (digit_plain _).0
    ∙ ground arith

decode_groups-encode : (xs : Bytes) → IsBytes xs → decode_groups (encode xs) ≡ some xs
unfolding decode_groups encode is_empty
decode_groups-encode [] h = refl
decode_groups-encode (a ∷ []) h = group_1 a (some []) h.0
decode_groups-encode (a ∷ b ∷ []) h = group_2 a b (some []) h.0 h.1.0
decode_groups-encode (a ∷ b ∷ c ∷ rest) h =
    rw (decode_groups-encode rest h.1.1.1)
      (group_3 a b c (is_empty (encode rest)) rest h.0 h.1.0 h.1.1.0)

abbrev without_breaks : Bytes → Bytes
without_breaks = filter_by (λ c. not (nat_beq c 10 || nat_beq c 13))

abbrev IsPlain : Bytes → Type 0
IsPlain [] = Unit
IsPlain (c ∷ cs) = ((nat_beq c 10 || nat_beq c 13) ≡ false) × IsPlain cs

without_breaks_plain : (xs : Bytes) → IsPlain xs → without_breaks xs ≡ xs
without_breaks_plain [] h = refl
without_breaks_plain (c ∷ cs) h = ground (arith, without_breaks_plain cs h.1)

no_break : (v : ℕ) → (nat_beq (encode_digit v) 10 || nat_beq (encode_digit v) 13) ≡ false
no_break v = ground (arith, digit_plain v)

encode-IsPlain : (xs : Bytes) → IsPlain (encode xs)
unfolding encode
encode-IsPlain [] = tt
encode-IsPlain (a ∷ []) = (no_break (a / 4), (no_break (a % 4 * 16), (refl, (refl, tt))))
encode-IsPlain (a ∷ b ∷ []) =
    (no_break (a / 4), (no_break (a % 4 * 16 + b / 16), (no_break (b % 16 * 4), (refl, tt))))
encode-IsPlain (a ∷ b ∷ c ∷ rest) = (
  no_break (a / 4),
  (
    no_break (a % 4 * 16 + b / 16),
    (no_break (b % 16 * 4 + c / 64), (no_break (c % 64), encode-IsPlain rest)),
  ),
)

pub decode-encode : (xs : Bytes) → IsBytes xs → decode (encode xs) ≡ some xs
unfolding decode
decode-encode xs h =
    ap decode_groups (without_breaks_plain (encode xs) (encode-IsPlain xs))
    ∙ decode_groups-encode xs h

digit_ascii : (v : ℕ) → encode_digit v < 128
unfolding encode_digit
digit_ascii v = ground arith

pub encode-IsAscii : (xs : Bytes) → IsAscii (encode xs)
unfolding encode
encode-IsAscii [] = tt
encode-IsAscii (a ∷ []) =
    (digit_ascii (a / 4), (digit_ascii (a % 4 * 16), (omega arith, (omega arith, tt))))
encode-IsAscii (a ∷ b ∷ []) = (
  digit_ascii (a / 4),
  (digit_ascii (a % 4 * 16 + b / 16), (digit_ascii (b % 16 * 4), (omega arith, tt))),
)
encode-IsAscii (a ∷ b ∷ c ∷ rest) = (
  digit_ascii (a / 4),
  (
    digit_ascii (a % 4 * 16 + b / 16),
    (digit_ascii (b % 16 * 4 + c / 64), (digit_ascii (c % 64), encode-IsAscii rest)),
  ),
)
