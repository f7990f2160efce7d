-- ===== src/Util/Backoff.antt =====
-- util/backoff.go: `Backoff`. What `once` and `singleError` answer comes from outside: the loop runs
-- over the list of these answers, and a list that ends early leaves it running. A time is a number
-- of seconds.
pub mod Laws
use qrystal.Prelude.{ℕ, ◌*◌, Bool, true, false, List, [], ◌∷◌, if◌then◌else◌, ltb}

-- What `once` returns.
pub data Attempt : Type 0 where
  succeeds : Attempt
  ends : Attempt
  -- An error, and whether `singleError` passes it on.
  fails : Bool → Attempt

pub record Round : Type 0 where
  pub reset_backoff : Bool
  pub attempt : Attempt

pub data Ending : Type 0 where
  done : Ending
  given_up : Ending
  running : ℕ → Ending

abbrev pub start_backoff : ℕ
start_backoff = 1

-- 5 minutes
abbrev pub backoff_max : ℕ
backoff_max = 300

-- `if resetBackoff { backoff = 1 * time.Second }`
abbrev pub reset : Bool → ℕ → ℕ
reset b backoff = if b then start_backoff else backoff

-- `if backoff > backoffMax { backoff = backoffMax }`
abbrev pub cap_backoff : ℕ → ℕ
cap_backoff backoff = if ltb backoff_max backoff then backoff_max else backoff

abbrev pub sleep_first : ℕ → List ℕ × Ending → List ℕ × Ending
sleep_first t (ts, ending) = (t ∷ ts, ending)

-- The loop from `backoff` on: the times that are slept, and how it ends.
unfoldable pub backoff_loop : ℕ → List Round → List ℕ × Ending
backoff_loop backoff [] = ([], running backoff)
backoff_loop backoff (round ∷ rounds) = elim round.attempt [
  | succeeds ↦ backoff_loop (reset round.reset_backoff backoff) rounds
  | ends ↦ ([], done)
  | fails passed_on ↦ elim passed_on [
    | true ↦ ([], given_up)
    | false ↦ sleep_first (reset round.reset_backoff backoff) (
        backoff_loop
          (cap_backoff (reset round.reset_backoff (reset round.reset_backoff backoff * 2))) rounds)
  ]
]

unfoldable pub backoff : List Round → List ℕ × Ending
unfolding backoff_loop
backoff rounds = backoff_loop start_backoff rounds
