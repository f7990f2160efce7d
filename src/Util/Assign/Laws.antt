-- ===== src/Util/Assign/Laws.antt =====
-- util/assign.go: which address `AssignAddress` chooses, and that its loop ends.
use qrystal.Prelude.{
  ℕ, zero, suc, ◌+◌, ◌^◌, ◌≤◌, ◌<◌, ◌≡◌, refl, inl, inr, true, false, some, List, arith, length,
  Outcome, ok, failed, panicked, Bool-cases, subst, ltb, sym, ap, ◌∙◌,
}
use qrystal.Text.{Bytes, IsBytes}
use qrystal.Net.{IpNet, net_contains}
use qrystal.Util.Assign.{is_used, next_ip, assign_loop, assign_address}
use qrystal.Util.Assign.Next.{value, value_bound, value-injective, next_ip-IsNext}

module _ (ip_net : IpNet) (used_ips : List IpNet) where
  -- An address from the network's own on.
  abbrev pub IsCandidate : Bytes → Type 0
  IsCandidate c = IsBytes c × (length c ≡ length ip_net.ip) × (value ip_net.ip ≤ value c)

  -- The candidates below a number are in the network and in use.
  abbrev pub AreTaken : ℕ → Type 0
  AreTaken bound =
      (c : Bytes)
      → IsCandidate c
      → value c < bound
      → (net_contains ip_net c ≡ true) × (is_used used_ips c ≡ true)

  -- The first candidate that is not taken is free, or outside of the network; or all are taken.
  abbrev pub IsAssigned : Outcome Bytes → Type 0
  IsAssigned (ok c) =
      IsCandidate c
      × (net_contains ip_net c ≡ true)
      × (is_used used_ips c ≡ false)
      × AreTaken (value c)
  IsAssigned failed =
      (c : Bytes) × IsCandidate c × (net_contains ip_net c ≡ false) × AreTaken (value c)
  IsAssigned panicked = AreTaken (256 ^ length ip_net.ip)

  AreTaken-extended :
      (c : Bytes)
      → IsCandidate c
      → net_contains ip_net c ≡ true
      → is_used used_ips c ≡ true
      → AreTaken (value c)
      → AreTaken (value c + 1)
  AreTaken-extended c hc inside used taken d hd below =
      elim (Bool-cases (ltb (value d) (value c))) [
        | inl less ↦ taken d hd (ground arith)
        | inr equal ↦
            let same : c ≡ d =
              value-injective c d hc.0 hd.0 (omega (arith, hc.1, hd.1)) (ground arith) in
            subst (λ x. (net_contains ip_net x ≡ true) × (is_used used_ips x ≡ true)) same
              (inside, used)
      ]

  abbrev Result : ℕ → Bytes → Type 0
  Result fuel c = (o : Outcome Bytes) × (assign_loop fuel ip_net used_ips c ≡ some o) × IsAssigned o

  loop_outside :
      (fuel : ℕ) (c : Bytes)
      → IsCandidate c
      → AreTaken (value c)
      → net_contains ip_net c ≡ false
      → Result (suc fuel) c
  unfolding assign_loop
  loop_outside fuel c hc taken out = (failed, ground arith, (c, hc, out, taken))

  loop_free :
      (fuel : ℕ) (c : Bytes)
      → IsCandidate c
      → AreTaken (value c)
      → net_contains ip_net c ≡ true
      → is_used used_ips c ≡ false
      → Result (suc fuel) c
  unfolding assign_loop
  loop_free fuel c hc taken inside free = (ok c, ground arith, (hc, inside, free, taken))

  loop_last :
      (fuel : ℕ) (c : Bytes)
      → net_contains ip_net c ≡ true
      → is_used used_ips c ≡ true
      → next_ip c ≡ panicked
      → assign_loop (suc fuel) ip_net used_ips c ≡ some panicked
  unfolding assign_loop
  loop_last fuel c inside used e = ground arith

  loop_next :
      (fuel : ℕ) (c next : Bytes)
      → net_contains ip_net c ≡ true
      → is_used used_ips c ≡ true
      → next_ip c ≡ ok next
      → assign_loop (suc fuel) ip_net used_ips c ≡ assign_loop fuel ip_net used_ips next
  unfolding assign_loop
  loop_next fuel c next inside used e = ground arith

  loop-IsAssigned :
      (fuel : ℕ) (c : Bytes)
      → IsCandidate c
      → AreTaken (value c)
      → 256 ^ length ip_net.ip ≤ value c + fuel
      → Result fuel c
  loop-IsAssigned zero c hc taken enough =
      absurd (omega (arith, value_bound c hc.0, ap (λ n. 256 ^ n) hc.1))
  loop-IsAssigned (suc fuel) c hc taken enough = elim (Bool-cases (net_contains ip_net c)) [
    | inr outside ↦ loop_outside fuel c hc taken outside
    | inl inside ↦ elim (Bool-cases (is_used used_ips c)) [
      | inr free ↦ loop_free fuel c hc taken inside free
      | inl used ↦
          let more : AreTaken (value c + 1) = AreTaken-extended c hc inside used taken in
          elim (next_ip-IsNext c hc.0) [
            | inl next ↦
                let rest : Result fuel next.1.0 =
                  loop-IsAssigned fuel next.1.0
                    (next.1.2, omega (arith, next.1.3, hc.1), omega (arith, next.1.4, hc.2))
                    (subst AreTaken (sym next.1.4) more) (omega (arith, next.1.4)) in
                (rest.0, loop_next fuel c next.1.0 inside used next.1.1 ∙ rest.1, rest.2)
            | inr last ↦ (
              panicked,
              loop_last fuel c inside used last.1,
              subst AreTaken (last.0 ∙ ap (λ n. 256 ^ n) hc.1) more,
            )
          ]
    ]
  ]

-- `AssignAddress` always ends. It returns the first address from the network's own on that is in
-- the network and in none of the used ones; it returns `ErrAddressOverflow` where the first
-- address that is not in use is outside of the network; it panics only where every address up to
-- the last one of that length is in the network and in use.
pub assign_address-IsAssigned :
    (ip_net : IpNet) (used_ips : List IpNet)
    → IsBytes ip_net.ip
    → (o : Outcome Bytes) × (assign_address ip_net used_ips ≡ some o) × IsAssigned ip_net used_ips o
unfolding assign_address
assign_address-IsAssigned ip_net used_ips h =
    loop-IsAssigned ip_net used_ips (256 ^ length ip_net.ip) ip_net.ip (h, refl, omega arith)
      (λ c hc below. absurd (omega (arith, hc.2))) (omega arith)
