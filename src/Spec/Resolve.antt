-- ===== src/Spec/Resolve.antt =====
-- spec/resolve.go: `ChooseEndpoint`; and `GetForwardersFor` of spec/spec.go. A scorer is a function
-- of the endpoint, with `none` for an error; its goroutines write to places of their own, and are
-- awaited together.
pub mod Best
pub mod Forwarders
use qrystal.Prelude.{
  ℕ, suc, Bool, true, false, ◌&&◌, Option, none, some, List, [], ◌∷◌, map, if◌then◌else◌, list_eq,
  nat_eq, contains, is_some, ℤ, negsuc, ltb_ℤ, Outcome, ok, failed, panicked,
}
use qrystal.Text.{Bytes}
use qrystal.Spec.{NetworkDeviceCensored, NetworkCensored}

-- `if err == nil { ok = true }`, over all errors.
unfoldable pub any_ok : List (Option ℤ) → Bool
any_ok [] = false
any_ok (none ∷ rest) = any_ok rest
any_ok (some score ∷ rest) = true

-- The loop for the best score: `i` is the index of the first of the scores that are left, and a
-- best index of -1 is `none`.
unfoldable pub best_loop : List (Option ℤ) → ℕ → Option ℕ → ℤ → Option ℕ
best_loop [] i max_i max_score = max_i
best_loop (none ∷ rest) i max_i max_score = best_loop rest (suc i) max_i max_score
best_loop (some score ∷ rest) i max_i max_score = elim (ltb_ℤ max_score score) [
  | true ↦ best_loop rest (suc i) (some i) score
  | false ↦ best_loop rest (suc i) max_i max_score
]

-- `failed` is `ErrAllEndpointsBad`; it leaves the device as it was.
unfoldable pub choose_endpoint :
    (Bytes → Option ℤ) → NetworkDeviceCensored → Outcome NetworkDeviceCensored
unfolding any_ok best_loop
choose_endpoint score ndc =
    let scores = map score ndc.endpoints in
    if any_ok scores
    then elim (best_loop scores 0 none (negsuc 0)) [
      | none ↦ panicked
      | some i ↦ ok (record ndc { endpoint_chosen_index = i; forwarder_and_endpoint_chosen = true })
    ]
    else failed

-- `slices.Contains(ndc.Accessible, name) && ndc.ForwarderAndEndpointChosen`
unfoldable pub can_forward : NetworkDeviceCensored → Bytes → Bool
can_forward ndc name = contains ndc.accessible name && ndc.forwarder_and_endpoint_chosen

unfoldable pub forwarders_loop : List NetworkDeviceCensored → Bytes → ℕ → List ℕ
unfolding can_forward
forwarders_loop [] name i = []
forwarders_loop (d ∷ ds) name i =
    if can_forward d name
    then i ∷ forwarders_loop ds name (suc i)
    else forwarders_loop ds name (suc i)

unfoldable pub get_forwarders_for : NetworkCensored → Bytes → List ℕ
unfolding forwarders_loop
get_forwarders_for nc name = forwarders_loop nc.devices name 0
