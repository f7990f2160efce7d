-- ===== src/Util/Assign.antt =====
-- util/assign.go: `AssignAddress` and `nextIP`, with the big integers of Go's standard library as
-- natural numbers. The loop runs on fuel, with `none` where it is used up.
pub mod Next
pub mod Laws
use qrystal.Prelude.{
  ℕ, zero, suc, ◌+◌, ◌-◌, ◌*◌, ◌/◌, ◌%◌, ◌^◌, Bool, true, false, Option, none, some, List, [], ◌∷◌,
  ◌++◌, if◌then◌else◌, nat_beq, ltb, length, replicate, Outcome, ok, failed, panicked,
}
use qrystal.Text.{Bytes}
use qrystal.Net.{IpNet, net_contains}

-- `big.Int.SetBytes`, over the number that the bytes before make.
unfoldable pub big_set_bytes : ℕ → Bytes → ℕ
big_set_bytes n [] = n
big_set_bytes n (b ∷ bs) = big_set_bytes (n * 256 + b) bs

-- `big.Int.Bytes`, the bytes without leading zeros, of a number that has at most `count` of them.
unfoldable pub big_bytes : ℕ → ℕ → Bytes
big_bytes zero n = []
big_bytes (suc count) n =
    let rest = big_bytes count (n / 256) in if nat_beq n 0 then [] else rest ++ n % 256 ∷ []

-- `append(make([]byte, len(ip)-len(b)), b...)`: a length below 0 is a panic.
unfoldable pub pad : ℕ → Bytes → Outcome Bytes
pad size b = if ltb size (length b) then panicked else ok (replicate (size - length b) 0 ++ b)

-- The successor of an address of `n` bytes is at most 256^n, and has at most n + 1 bytes.
unfoldable pub next_ip : Bytes → Outcome Bytes
unfolding big_set_bytes big_bytes pad
next_ip ip = pad (length ip) (big_bytes (suc (length ip)) (big_set_bytes 0 ip + 1))

-- Whether one of the networks contains the address.
unfoldable pub is_used : List IpNet → Bytes → Bool
is_used [] cand = false
is_used (used_ip ∷ used_ips) cand =
    if net_contains used_ip cand then true else is_used used_ips cand

-- The loop from a candidate on; `failed` is `ErrAddressOverflow`.
unfoldable pub assign_loop : ℕ → IpNet → List IpNet → Bytes → Option (Outcome Bytes)
unfolding is_used next_ip
assign_loop zero ip_net used_ips cand = none
assign_loop (suc fuel) ip_net used_ips cand = elim (net_contains ip_net cand) [
  | false ↦ some failed
  | true ↦ elim (is_used used_ips cand) [
    | false ↦ some (ok cand)
    | true ↦ elim (next_ip cand) [
      | ok next ↦ assign_loop fuel ip_net used_ips next
      | failed ↦ some failed
      | panicked ↦ some panicked
    ]
  ]
]

-- There are 256^n addresses of n bytes.
unfoldable pub assign_address : IpNet → List IpNet → Option (Outcome Bytes)
unfolding assign_loop
assign_address ip_net used_ips = assign_loop (256 ^ length ip_net.ip) ip_net used_ips ip_net.ip
