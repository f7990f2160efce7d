-- ===== src/Util/Backoff/Laws.antt =====
-- `Backoff` of util/backoff.go: the times it sleeps.
use qrystal.Prelude.{
  ◌∙◌, ℕ, zero, suc, ◌+◌, ◌*◌, ◌^◌, ◌≡◌, ◌≤◌, ap, Bool, true, false, List, [], ◌∷◌, arith,
  replicate,
}
use qrystal.Util.Backoff.{
  Attempt, succeeds, ends, fails, Round, running, backoff_loop, backoff, reset, cap_backoff,
}

-- The times are at least a second and at most five minutes, and each is at most twice the one
-- before.
abbrev pub IsPaced : ℕ → List ℕ → Type 0
IsPaced limit [] = Unit
IsPaced limit (t ∷ ts) = (1 ≤ t) × (t ≤ limit) × (t ≤ 300) × IsPaced (2 * t) ts

IsPaced-weaken : (m n : ℕ) (ts : List ℕ) → m ≤ n → IsPaced m ts → IsPaced n ts
IsPaced-weaken m n [] h p = tt
IsPaced-weaken m n (t ∷ ts) h p = (p.0, omega (arith, p.1), p.2, p.3)

reset_bounds : (r : Bool) (b : ℕ) → 1 ≤ b → (1 ≤ reset r b) × (reset r b ≤ b)
reset_bounds r b h = ground arith

next_bounds :
    (r : Bool) (b : ℕ)
    → 1 ≤ b
    → (1 ≤ cap_backoff (reset r (b * 2)))
      × (cap_backoff (reset r (b * 2)) ≤ 300)
      × (cap_backoff (reset r (b * 2)) ≤ 2 * b)
next_bounds r b h = ground arith

round-IsPaced :
    (r : Bool) (a : Attempt) (rounds : List Round) (b : ℕ)
    → ((c : ℕ) → 1 ≤ c → c ≤ 300 → IsPaced c (backoff_loop c rounds).0)
    → 1 ≤ b
    → b ≤ 300
    → IsPaced b (backoff_loop b (record { reset_backoff = r; attempt = a } ∷ rounds)).0
unfolding backoff_loop
round-IsPaced r succeeds rounds b ih h k =
    IsPaced-weaken (reset r b) b (backoff_loop (reset r b) rounds).0 (reset_bounds r b h).1
      (ih (reset r b) (reset_bounds r b h).0 (omega (arith, (reset_bounds r b h).1)))
round-IsPaced r ends rounds b ih h k = tt
round-IsPaced r (fails true) rounds b ih h k = tt
round-IsPaced r (fails false) rounds b ih h k =
    let (low, high) = reset_bounds r b h in
    let (low2, top, high2) = next_bounds r (reset r b) low in
    (
      low,
      high,
      omega (arith, high),
      IsPaced-weaken (cap_backoff (reset r (reset r b * 2))) (2 * reset r b)
          (backoff_loop (cap_backoff (reset r (reset r b * 2))) rounds).0 high2
          (ih (cap_backoff (reset r (reset r b * 2))) low2 top),
    )

backoff_loop-IsPaced :
    (rounds : List Round) (b : ℕ) → 1 ≤ b → b ≤ 300 → IsPaced b (backoff_loop b rounds).0
unfolding backoff_loop
backoff_loop-IsPaced [] b h k = tt
backoff_loop-IsPaced (round ∷ rounds) b h k =
    round-IsPaced round.reset_backoff round.attempt rounds b (backoff_loop-IsPaced rounds) h k

-- 2^i, 2^(i + 1), … seconds, capped at five minutes.
abbrev pub doubling : ℕ → ℕ → List ℕ
doubling zero i = []
doubling (suc n) i = cap_backoff (2 ^ i) ∷ doubling n (suc i)

abbrev pub failure : Round
failure = record { reset_backoff = false; attempt = fails false }

cap_backoff-double : (i : ℕ) → cap_backoff (cap_backoff (2 ^ i) * 2) ≡ cap_backoff (2 ^ suc i)
cap_backoff-double i = ground arith

backoff_loop-doubling :
    (n i : ℕ)
    → backoff_loop (cap_backoff (2 ^ i)) (replicate n failure)
      ≡ (doubling n i, running (cap_backoff (2 ^ (i + n))))
unfolding backoff_loop
backoff_loop-doubling zero i = ground arith
backoff_loop-doubling (suc n) i =
    ground (arith, cap_backoff-double i, backoff_loop-doubling n (suc i))

-- `Backoff` sleeps at least a second and at most five minutes at a time, a second at first, and
-- never more than twice as long as the time before, whatever `once` and `singleError` answer.
pub backoff-IsPaced : (rounds : List Round) → IsPaced 1 (backoff rounds).0
unfolding backoff
backoff-IsPaced rounds = backoff_loop-IsPaced rounds 1 (omega arith) (omega arith)

-- While `once` fails without a reset and `singleError` passes nothing on, the times are 1, 2, 4, …
-- seconds, capped at five minutes, and the loop goes on.
pub backoff-doubling :
    (n : ℕ) → backoff (replicate n failure) ≡ (doubling n 0, running (cap_backoff (2 ^ n)))
unfolding backoff
backoff-doubling n =
    backoff_loop-doubling n 0
    ∙ ap (λ k. (doubling n 0, running (cap_backoff (2 ^ k)))) (omega arith)
