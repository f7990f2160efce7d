-- ===== src/Goal/Json/Laws.antt =====
-- The JSON forms of goal/util.go and goal/duration.go, written and read.
use qrystal.Prelude.{
  ◌≡◌, refl, true, arith, length, ==_iff, list_eq, nat_eq, ℤ, ok, ◌⊎◌, inl, inr, ◌++◌, ◌∷◌, some,
}
use qrystal.Text.{IsBytes, Bytes, IsAscii}
use qrystal.Net.{IpNet, is_network}
use qrystal.Goal.Key.{Key}
use qrystal.Spec.Equal.{ip_net_equal}
use qrystal.Util.Token.Encoding.{JsonText}
use qrystal.Goal.Json.{
  Texts, marshal_ip_net, unmarshal_ip_net, marshal_key, unmarshal_key, marshal_duration,
  unmarshal_duration,
}

duration_back :
    (json : JsonText) (texts : Texts) (d d0 : ℤ)
    → unmarshal_duration json texts d0 (marshal_duration json texts d) ≡ (d, true)
unfolding unmarshal_duration marshal_duration
duration_back json texts d d0 =
    rw (read_back (texts.duration_ascii d), unmarshal_duration, texts.duration_lem d) refl
  where
    read_back :
        IsAscii (texts.duration_string d)
          ⊎ ((a : Bytes) × (b : Bytes) × IsAscii a
              × IsAscii b
              × (texts.duration_string d ≡ a ++ 194 ∷ 181 ∷ b))
        → json.unmarshal (json.marshal (texts.duration_string d)) ≡ some (texts.duration_string d)
    read_back (inl h) = json.unmarshal-marshal (texts.duration_string d) h
    read_back (inr (a, b, ha, hb, e)) = rw e (json.unmarshal-marshal_micro a b ha hb)

-- What is written as JSON is read back, whatever the receiver: a network as one that is equal, to
-- `ipNetEqual`, a key of 32 bytes, and a duration.
pub json-round_trip :
    (json : JsonText) (texts : Texts) (n : IpNet) (k k0 : Key) (d d0 : ℤ)
    → is_network n ≡ true
    → length k ≡ 32
    → IsBytes k
    → ((m : IpNet) × (unmarshal_ip_net json texts (marshal_ip_net json texts n) ≡ ok m)
        × (ip_net_equal m n ≡ true))
      × (unmarshal_key json texts k0 (marshal_key json texts k) ≡ ok k)
      × (unmarshal_duration json texts d0 (marshal_duration json texts d) ≡ (d, true))
unfolding unmarshal_ip_net marshal_ip_net unmarshal_key marshal_key ip_net_equal
json-round_trip json texts n k k0 d d0 hn hk bk =
    let (ip, m, p, q, e) = texts.cidr_lem n hn in
    (
      (
        m,
        rw (json.unmarshal-marshal (texts.ip_net_string n) (texts.ip_net_ascii n), p) refl,
        ground (arith, ==_iff m.mask n.mask),
      ),
      rw (json.unmarshal-marshal (texts.key_string k) (texts.key_ascii k), texts.key_lem k hk bk)
          (rw (texts.key_text k hk) refl),
      duration_back json texts d d0,
    )
