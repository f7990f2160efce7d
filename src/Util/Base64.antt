-- ===== src/Util/Base64.antt =====
-- `base64.StdEncoding` of Go's standard library, as util/token.go uses it.
pub mod Laws
use qrystal.Prelude.{
  ℕ, ◌+◌, ◌-◌, ◌*◌, ◌/◌, ◌%◌, Bool, true, false, not, ◌&&◌, ◌||◌, Option, none, some, List, [], ◌∷◌,
  if◌then◌else◌, leb, nat_beq, filter_by,
}
use qrystal.Text.{Bytes}

encode_digit : ℕ → ℕ
encode_digit v =
    if leb v 25
    then v + b'A'
    else if leb v 51
    then v - 26 + b'a'
    else if leb v 61
    then v - 52 + b'0'
    else if nat_beq v 62
    then b'+'
    else b'/'

decode_digit : ℕ → Option ℕ
decode_digit c =
    if leb b'A' c && leb c b'Z'
    then some (c - b'A')
    else if leb b'a' c && leb c b'z'
    then some (c - b'a' + 26)
    else if leb b'0' c && leb c b'9'
    then some (c - b'0' + 52)
    else if nat_beq c b'+'
    then some 62
    else if nat_beq c b'/'
    then some 63
    else none

unfoldable pub encode : Bytes → Bytes
unfolding encode_digit
encode [] = []
encode (a ∷ []) = encode_digit (a / 4) ∷ encode_digit (a % 4 * 16) ∷ b'=' ∷ b'=' ∷ []
encode (a ∷ b ∷ []) =
    encode_digit (a / 4)
    ∷ encode_digit (a % 4 * 16 + b / 16)
    ∷ encode_digit (b % 16 * 4)
    ∷ b'='
    ∷ []
encode (a ∷ b ∷ c ∷ rest) =
    encode_digit (a / 4)
    ∷ encode_digit (a % 4 * 16 + b / 16)
    ∷ encode_digit (b % 16 * 4 + c / 64)
    ∷ encode_digit (c % 64)
    ∷ encode rest

infixl 5 ◌>>=◌
abbrev ◌>>=◌ : {A B : Type 0} → Option A → (A → Option B) → Option B
none >>= f = none
some a >>= f = f a

is_empty : Bytes → Bool
is_empty [] = true
is_empty (x ∷ xs) = false

-- A group of four digits, where `tail` is what the groups after it decode to.
decode_group : ℕ → ℕ → ℕ → ℕ → Bool → Option Bytes → Option Bytes
decode_group a b c d is_last tail = do
  p ← decode_digit a
  q ← decode_digit b
  let first = p * 4 + q / 16
  if nat_beq c b'=' then if nat_beq d b'=' && is_last then some (first ∷ []) else none else (do
    r ← decode_digit c
    let second = q % 16 * 16 + r / 4
    if nat_beq d b'='
        then if is_last then some (first ∷ second ∷ []) else none
        else (do s ← decode_digit d; rest ← tail; some (first ∷ second ∷ (r % 4 * 64 + s) ∷ rest)))

decode_groups : Bytes → Option Bytes
decode_groups [] = some []
decode_groups (a ∷ b ∷ c ∷ d ∷ rest) = decode_group a b c d (is_empty rest) (decode_groups rest)
decode_groups _ = none

-- `DecodeString` passes over line breaks. Padding ends the text.
unfoldable pub decode : Bytes → Option Bytes
unfolding decode_groups decode_group decode_digit is_empty
decode s = decode_groups (filter_by (λ c. not (nat_beq c 10 || nat_beq c 13)) s)
