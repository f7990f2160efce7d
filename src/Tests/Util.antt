-- ===== src/Tests/Util.antt =====
-- Tokens, and the times of a backoff (util/).
use qrystal.Prelude.{
  ℕ, zero, suc, ◌≡◌, ◌++◌, ◌^◌, refl, true, false, some, Outcome, List, [], ◌∷◌, arith, replicate,
  ok, panicked,
}
use qrystal.Util.Hex
use qrystal.Util.Token.{
  Token, token_string, parse_token, hash_string, parse_token_hash, hash_prefix,
}
use qrystal.Util.Token.Laws.{
  parse_token-token_string, parse_token_hash-hash_string, parse_token_hash_overflow,
}
use qrystal.Util.Backoff.{Round, succeeds, ends, backoff, running, cap_backoff}
use qrystal.Util.Backoff.Laws.{IsPaced, doubling, failure, backoff-IsPaced, backoff-doubling}
use qrystal.Util.Assign.{assign_address, next_ip}
use qrystal.Util.Assign.Next.{IsNext, next_ip-IsNext}
use qrystal.Util.Assign.Laws.{IsAssigned, assign_address-IsAssigned}
use qrystal.Net.{IpNet, net_contains, to_4}
use qrystal.Text.{Bytes, IsBytes}

abbrev token : Token
token = record { raw = 0 ∷ 255 ∷ 17 ∷ [] }

token-IsBytes : IsBytes token.raw
token-IsBytes = (omega arith, (omega arith, (omega arith, tt)))

parse_token-token_string_example : parse_token (token_string token) ≡ some token
parse_token-token_string_example = parse_token-token_string token token-IsBytes

sevens-IsBytes : (n : ℕ) → IsBytes (replicate n 7)
sevens-IsBytes zero = tt
sevens-IsBytes (suc n) = (omega arith, sevens-IsBytes n)

parse_token_hash-hash_string_example :
    parse_token_hash (hash_string (record { raw = replicate 32 7 }))
    ≡ ok (record { raw = replicate 32 7 })
parse_token_hash-hash_string_example =
    parse_token_hash-hash_string (record { raw = replicate 32 7 }) (sevens-IsBytes 32) refl

parse_token_hash_overflow_example :
    parse_token_hash (hash_prefix ++ Hex.encode (replicate 33 7)) ≡ panicked
parse_token_hash_overflow_example =
    parse_token_hash_overflow (replicate 33 7) (sevens-IsBytes 33) (omega arith)

abbrev rounds : List Round
rounds =
    failure
    ∷ failure
    ∷ record { reset_backoff = true; attempt = succeeds }
    ∷ failure
    ∷ record { reset_backoff = false; attempt = ends }
    ∷ []

backoff-IsPaced_example : IsPaced 1 (backoff rounds).0
backoff-IsPaced_example = backoff-IsPaced rounds

slept : (backoff rounds).0 ≡ 1 ∷ 2 ∷ 1 ∷ []
unfolding backoff
slept = refl

backoff-doubling_example :
    backoff (replicate 10 failure) ≡ (doubling 10 0, running (cap_backoff (2 ^ 10)))
backoff-doubling_example = backoff-doubling 10

capped : doubling 10 0 ≡ 1 ∷ 2 ∷ 4 ∷ 8 ∷ 16 ∷ 32 ∷ 64 ∷ 128 ∷ 256 ∷ 300 ∷ []
capped = refl

abbrev subnet : IpNet
subnet = record { ip = 10 ∷ 0 ∷ 0 ∷ 255 ∷ []; mask = 255 ∷ 255 ∷ 0 ∷ 0 ∷ [] }

subnet-IsBytes : IsBytes subnet.ip
subnet-IsBytes = (omega arith, (omega arith, (omega arith, (omega arith, tt))))

abbrev host : Bytes → IpNet
host a = record { ip = a; mask = 255 ∷ 255 ∷ 255 ∷ 255 ∷ [] }

assign_address-IsAssigned_example :
    (o : Outcome Bytes) × (assign_address subnet (host subnet.ip ∷ []) ≡ some o)
    × IsAssigned subnet (host subnet.ip ∷ []) o
assign_address-IsAssigned_example =
    assign_address-IsAssigned subnet (host subnet.ip ∷ []) subnet-IsBytes

assigned : assign_address subnet (host subnet.ip ∷ []) ≡ some (ok (10 ∷ 0 ∷ 1 ∷ 0 ∷ []))
unfolding assign_address net_contains to_4
assigned = refl

last_address : Bytes
last_address = 255 ∷ 255 ∷ 255 ∷ 255 ∷ []

past_last : assign_address (host last_address) (host last_address ∷ []) ≡ some panicked
unfolding assign_address last_address net_contains to_4
past_last = refl

next_ip-IsNext_example : IsNext subnet.ip (next_ip subnet.ip)
next_ip-IsNext_example = next_ip-IsNext subnet.ip subnet-IsBytes
