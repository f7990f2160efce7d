-- ===== src/Net.antt =====
-- What the source uses of Go's package net: `IP.To4`, `IP.Equal`, and IP networks.
use qrystal.Prelude.{
  ℕ, ◌+◌, ◌≡◌, ap, ◌↔◌, Bool, true, false, nat_eq, list_eq, ◌&&◌, ◌||◌, Option, none, some, [], ◌∷◌,
  ◌++◌, arith, length, take, drop, take-append-drop, if◌then◌else◌, nat_beq, ◌==◌, ==_iff, contains,
  all_of, Bool-cases, inl, inr,
}
use Prim.Native.Nat.{bit_and}
use qrystal.Text.{Bytes}

-- goal.IPNet, a net.IPNet: an address and a mask, each of 4 or 16 bytes.
pub record IpNet : Type 0 where
  pub ip : Bytes
  pub mask : Bytes

abbrev pub v4_in_v6_prefix : Bytes
v4_in_v6_prefix = 0 ∷ 0 ∷ 0 ∷ 0 ∷ 0 ∷ 0 ∷ 0 ∷ 0 ∷ 0 ∷ 0 ∷ 255 ∷ 255 ∷ []

-- `ip[0:12]` is the prefix, and `ip[12:]`.
has_v4_prefix : Bytes → Bool
has_v4_prefix ip = take 12 ip == v4_in_v6_prefix

last_bytes : Bytes → Bytes
last_bytes ip = drop 12 ip

-- `IP.To4`, with `none` for nil.
unfoldable pub to_4 : Bytes → Option Bytes
unfolding has_v4_prefix last_bytes
to_4 ip =
    if nat_beq (length ip) 4
    then some ip
    else if nat_beq (length ip) 16 && has_v4_prefix ip
    then some (last_bytes ip)
    else none

-- `IP.Equal`: an IPv4 address and its IPv6 form are one address.
unfoldable pub ip_equal : Bytes → Bytes → Bool
unfolding has_v4_prefix last_bytes
ip_equal a b =
    if nat_beq (length a) (length b)
    then a == b
    else if nat_beq (length a) 4 && nat_beq (length b) 16
    then has_v4_prefix b && a == last_bytes b
    else if nat_beq (length a) 16 && nat_beq (length b) 4
    then has_v4_prefix a && last_bytes a == b
    else false

-- An address in its 16-byte form.
unfoldable pub canonical_ip : Bytes → Bytes
canonical_ip ip = if nat_beq (length ip) 4 then v4_in_v6_prefix ++ ip else ip

prefix_split :
    (a b : Bytes) → ((has_v4_prefix b && a == last_bytes b) ≡ true) ↔ (v4_in_v6_prefix ++ a ≡ b)
unfolding has_v4_prefix last_bytes
prefix_split a b = (
  λ h.
      ground
        (arith, ==_iff (take 12 b) v4_in_v6_prefix, ==_iff a (drop 12 b), take-append-drop 12 b),
  λ h. rw (← h) (ground (arith, ==_iff v4_in_v6_prefix v4_in_v6_prefix, ==_iff a a)),
)

prefix_cancel : (a b : Bytes) → v4_in_v6_prefix ++ a ≡ v4_in_v6_prefix ++ b → a ≡ b
prefix_cancel a b h = ap (drop 12) h

prefix_length : (a b : Bytes) → v4_in_v6_prefix ++ a ≡ b → length b ≡ 12 + length a
prefix_length a b h = omega (arith, ap {A = Bytes} length h)

==_comm : (a b : Bytes) → (a == b) ≡ (b == a)
==_comm a b = ground (arith, ==_iff a b, ==_iff b a)

-- The three shapes that `ip_equal` compares, over the lengths `m` and `n` of the addresses.
equal_by_length : (m n : ℕ) (same left right : Bool) → Bool
equal_by_length m n same left right =
    if nat_beq m n
    then same
    else if nat_beq m 4 && nat_beq n 16
    then left
    else if nat_beq m 16 && nat_beq n 4
    then right
    else false

by_length :
    (m n : ℕ) (same left right : Bool) (a b pa pb : Bytes)
    → (same ≡ true) ↔ (a ≡ b)
    → (left ≡ true) ↔ (pa ≡ b)
    → (right ≡ true) ↔ (pb ≡ a)
    → (pa ≡ pb → a ≡ b)
    → (pa ≡ b → n ≡ 12 + m)
    → (pb ≡ a → m ≡ 12 + n)
    → (a ≡ b → m ≡ n)
    → (a ≡ b → pa ≡ pb)
    → (equal_by_length m n same left right ≡ true)
      ↔ ((if nat_beq m 4 then pa else a) ≡ (if nat_beq n 4 then pb else b))
unfolding equal_by_length
by_length m n same left right a b pa pb hs hl hr hc ll lr le lp = ground arith

-- `IP.Equal` compares the 16-byte forms.
pub ip_equal_iff : (a b : Bytes) → (ip_equal a b ≡ true) ↔ (canonical_ip a ≡ canonical_ip b)
unfolding ip_equal canonical_ip equal_by_length
ip_equal_iff a b =
    by_length (length a) (length b) (a == b) (has_v4_prefix b && a == last_bytes b)
      (has_v4_prefix a && last_bytes a == b) a b (v4_in_v6_prefix ++ a) (v4_in_v6_prefix ++ b)
      (==_iff a b) (prefix_split a b) (rw (==_comm (last_bytes a) b) (prefix_split b a))
      (prefix_cancel a b) (prefix_length a b) (prefix_length b a) (λ e. ap length e)
      (λ e. ap (◌++◌ v4_in_v6_prefix) e)

abbrev pub or_whole : Bytes → Option Bytes → Bytes
or_whole ip none = ip
or_whole ip (some short) = short

-- `networkNumberAndMask`: the address of 4 or 16 bytes with a mask of its length, or `none`.
unfoldable pub number_and_mask : IpNet → Option (Bytes × Bytes)
number_and_mask n =
    let ip = or_whole n.ip (to_4 n.ip) in
    if nat_beq (length n.mask) (length ip) && (nat_beq (length ip) 4 || nat_beq (length ip) 16)
    then some (ip, n.mask)
    else if nat_beq (length n.mask) 16 && nat_beq (length ip) 4
    then some (ip, drop 12 n.mask)
    else none

-- The bytes agree under the mask.
abbrev pub agree_under : Bytes → Bytes → Bytes → Bool
agree_under (a ∷ number) (m ∷ mask) (b ∷ ip) =
    nat_beq (bit_and a m) (bit_and b m) && agree_under number mask ip
agree_under [] [] [] = true
agree_under _ _ _ = false

-- `IPNet.Contains`
unfoldable pub net_contains : IpNet → Bytes → Bool
unfolding number_and_mask
net_contains n ip = elim (number_and_mask n) [
  | none ↦ nat_beq (length ip) 0
  | some (number, mask) ↦ agree_under number mask (or_whole ip (to_4 ip))
]

-- Ones, and zeros behind them.
abbrev pub is_mask : Bytes → Bool
is_mask [] = true
is_mask (m ∷ mask) =
    if nat_beq m 255
    then is_mask mask
    else contains (0 ∷ 128 ∷ 192 ∷ 224 ∷ 240 ∷ 248 ∷ 252 ∷ 254 ∷ []) m
      && all_of (λ b. nat_beq b 0) mask

-- An address has no bits outside of a mask of its length.
abbrev pub is_under : Bytes → Bytes → Bool
is_under [] [] = true
is_under (a ∷ ip) (m ∷ mask) = nat_beq (bit_and a m) a && is_under ip mask
is_under _ _ = false

-- A network in the form that `ParseCIDR` gives it, its address in 4 or 16 bytes: the form that its
-- text is parsed to again.
unfoldable pub is_network : IpNet → Bool
is_network n =
    (nat_beq (length n.mask) 4 || nat_beq (length n.mask) 16)
    && is_mask n.mask
    && is_under (or_whole n.ip (to_4 n.ip)) n.mask

whole_prefix : (ip : Bytes) → length ip ≡ 4 → to_4 (v4_in_v6_prefix ++ ip) ≡ some ip
unfolding to_4 has_v4_prefix last_bytes
whole_prefix ip h = ground arith

-- The 16-byte form of an address has the same shortest form.
pub or_whole-canonical_ip :
    (ip : Bytes) → or_whole (canonical_ip ip) (to_4 (canonical_ip ip)) ≡ or_whole ip (to_4 ip)
unfolding canonical_ip to_4
or_whole-canonical_ip ip = elim (Bool-cases (nat_beq (length ip) 4)) [
  | inl e ↦ ground (arith, whole_prefix ip (ground arith))
  | inr e ↦ ground arith
]
