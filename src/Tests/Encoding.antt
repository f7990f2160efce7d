-- ===== src/Tests/Encoding.antt =====
-- Texts that stand in for those of Go's packages: a string between quotes, and numbers in unary.
use qrystal.Prelude.{
  ℕ, zero, suc, ◌+◌, ◌≡◌, refl, ap, ap₂, ◌∙◌, true, false, Option, none, some, List, [], ◌∷◌, ◌++◌,
  arith, replicate, length, if◌then◌else◌, nat_beq, ◌==◌, contains, list_eq, nat_eq, ℤ, pos, negsuc,
  ok, inl,
}
use qrystal.Text.{
  Bytes, IsBytes, IsAscii, IsAscii-append, but_last, but_last-append, split, split-append,
  split_whole,
}
use qrystal.Net.{IpNet, is_network, ip_equal, to_4, ip_equal_iff}
use qrystal.Goal.Key.{Key}
use qrystal.Goal.Json.{
  Texts, unmarshal_ip_net, marshal_ip_net, unmarshal_key, marshal_key, unmarshal_duration,
  marshal_duration,
}
use qrystal.Goal.Json.Laws.{json-round_trip}
use qrystal.Spec.Equal.{ip_net_equal}
use qrystal.Util.Token.{Token, TokenHash}
use qrystal.Util.Token.Encoding.{
  JsonText, marshal_hash, unmarshal_hash, marshal_token, unmarshal_token, gob_encode_hash,
  gob_decode_hash, gob_encode_token, gob_decode_token,
}
use qrystal.Util.Token.Encoding.Laws.{encoding-round_trip}

abbrev unquote : Bytes → Option Bytes
unquote [] = none
unquote (c ∷ s) = but_last s

abbrev json : JsonText
json = record {
  marshal = λ s. b'"' ∷ (s ++ b'"' ∷ []);
  unmarshal = unquote;
  unmarshal-marshal = λ s h. but_last-append s b'"';
  unmarshal-marshal_micro = λ s t h k. but_last-append (s ++ 194 ∷ 181 ∷ t) b'"';
}

abbrev unary : List ℕ → Bytes
unary [] = []
unary (n ∷ ns) = replicate n b'1' ++ b',' ∷ unary ns

abbrev count : ℕ → Bytes → List ℕ
count n [] = []
count n (c ∷ s) = if nat_beq c b'1' then count (suc n) s else n ∷ count 0 s

count-replicate :
    (k n : ℕ) (s : Bytes) → count n (replicate k b'1' ++ b',' ∷ s) ≡ (n + k) ∷ count 0 s
count-replicate zero n s = ap (λ m. m ∷ count 0 s) (omega arith)
count-replicate (suc k) n s = count-replicate k (suc n) s ∙ ap (λ m. m ∷ count 0 s) (omega arith)

count-unary : (ns : List ℕ) → count 0 (unary ns) ≡ ns
count-unary [] = refl
count-unary (n ∷ ns) = count-replicate n 0 (unary ns) ∙ ap₂ (◌∷◌) (omega arith) (count-unary ns)

ones-IsAscii : (k : ℕ) → IsAscii (replicate k b'1')
ones-IsAscii zero = tt
ones-IsAscii (suc k) = (omega arith, ones-IsAscii k)

unary-IsAscii : (ns : List ℕ) → IsAscii (unary ns)
unary-IsAscii [] = tt
unary-IsAscii (n ∷ ns) =
    IsAscii-append (replicate n b'1') (b',' ∷ unary ns) (ones-IsAscii n)
      (omega arith, unary-IsAscii ns)

ones-contains : (k : ℕ) (s : Bytes) → contains (replicate k b'1' ++ b',' ∷ s) b'/' ≡ contains s b'/'
ones-contains zero s = ground arith
ones-contains (suc k) s = ground (arith, ones-contains k s)

unary-contains : (ns : List ℕ) → contains (unary ns) b'/' ≡ false
unary-contains [] = refl
unary-contains (n ∷ ns) = ones-contains n (unary ns) ∙ unary-contains ns

abbrev two_parts : List Bytes → Option (Bytes × IpNet)
two_parts (ip ∷ mask ∷ []) = some (count 0 ip, record { ip = count 0 ip; mask = count 0 mask })
two_parts _ = none

cidr_split :
    (n : IpNet) → split b'/' (unary n.ip ++ b'/' ∷ unary n.mask) ≡ unary n.ip ∷ unary n.mask ∷ []
cidr_split n =
    split-append b'/' (unary n.ip) (unary n.mask) (unary-contains n.ip)
    ∙ ap (◌∷◌ (unary n.ip)) (split_whole b'/' (unary n.mask) (unary-contains n.mask))

abbrev duration_numbers : ℤ → List ℕ
duration_numbers (pos n) = 0 ∷ n ∷ []
duration_numbers (negsuc n) = 1 ∷ n ∷ []

abbrev number : List ℕ → Option ℤ
number (s ∷ n ∷ []) = if nat_beq s 0 then some (pos n) else some (negsuc n)
number _ = none

number-duration : (d : ℤ) → number (count 0 (unary (duration_numbers d))) ≡ some d
number-duration (pos n) = ap number (count-unary (0 ∷ n ∷ []))
number-duration (negsuc n) = ap number (count-unary (1 ∷ n ∷ []))

key_text : (k : Key) → length k ≡ 32 → (unary k == []) ≡ false
key_text [] h = absurd (omega arith)
key_text (zero ∷ k) h = refl
key_text (suc n ∷ k) h = refl

abbrev texts : Texts
texts = record {
  ip_net_string = λ n. unary n.ip ++ b'/' ∷ unary n.mask;
  parse_cidr = λ s. two_parts (split b'/' s);
  key_string = unary;
  parse_key = λ s. some (count 0 s);
  duration_string = λ d. unary (duration_numbers d);
  parse_duration = λ s. number (count 0 s);
  ip_net_ascii = λ n.
      IsAscii-append (unary n.ip) (b'/' ∷ unary n.mask) (unary-IsAscii n.ip)
        (omega arith, unary-IsAscii n.mask);
  key_ascii = unary-IsAscii;
  duration_ascii = λ d. inl (unary-IsAscii (duration_numbers d));
  cidr_lem = λ n h. (n.ip, n, parsed n, same n.ip, refl);
  key_text = key_text;
  key_lem = λ k e b. ap some (count-unary k);
  duration_lem = number-duration;
}
  where
    parsed :
        (n : IpNet) → two_parts (split b'/' (unary n.ip ++ b'/' ∷ unary n.mask)) ≡ some (n.ip, n)
    parsed n =
        ap two_parts (cidr_split n)
        ∙ ap₂ (λ ip mask. some (ip, record { ip = ip; mask = mask })) (count-unary n.ip)
            (count-unary n.mask)

    same : (ip : Bytes) → ip_equal ip ip ≡ true
    same ip = (ip_equal_iff ip ip).1 refl

abbrev subnet : IpNet
subnet = record { ip = 10 ∷ 1 ∷ 0 ∷ 0 ∷ []; mask = 255 ∷ 255 ∷ 0 ∷ 0 ∷ [] }

abbrev key : Key
key = replicate 32 7

sevens-IsBytes : (n : ℕ) → IsBytes (replicate n 7)
sevens-IsBytes zero = tt
sevens-IsBytes (suc n) = (omega arith, sevens-IsBytes n)

subnet-is_network : is_network subnet ≡ true
unfolding is_network to_4
subnet-is_network = refl

json-round_trip_example :
    ((m : IpNet) × (unmarshal_ip_net json texts (marshal_ip_net json texts subnet) ≡ ok m)
      × (ip_net_equal m subnet ≡ true))
    × (unmarshal_key json texts [] (marshal_key json texts key) ≡ ok key)
    × (unmarshal_duration json texts (pos 1) (marshal_duration json texts (negsuc 4))
        ≡ (negsuc 4, true))
json-round_trip_example =
    json-round_trip json texts subnet key [] (negsuc 4) (pos 1) subnet-is_network refl
      (sevens-IsBytes 32)

abbrev token : Token
token = record { raw = 0 ∷ 255 ∷ [] }

abbrev token_hash : TokenHash
token_hash = record { raw = key }

encoding-round_trip_example :
    (unmarshal_token json (marshal_token json token) ≡ ok token)
    × (gob_decode_token (gob_encode_token token) ≡ ok token)
    × (unmarshal_hash json (marshal_hash json token_hash) ≡ ok token_hash)
    × (gob_decode_hash (gob_encode_hash token_hash) ≡ ok token_hash)
encoding-round_trip_example =
    encoding-round_trip json token token_hash (omega arith, (omega arith, tt)) (sevens-IsBytes 32)
      refl
