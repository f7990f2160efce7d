-- ===== src/Spec/Resolve/Best.antt =====
-- `ChooseEndpoint` of spec/resolve.go: which endpoint is chosen, and when none is.
use qrystal.Prelude.{
  some-injective, ℕ, ◌≢◌, sym, subst, zero, suc, ◌+◌, ◌<◌, ◌≡◌, refl, ap, ◌∙◌, ◌⊎◌, inl, inr, true,
  false, Option, none, some, List, [], ◌∷◌, map, arith, get_elem?, ℤ, pos, negsuc, ltb_ℤ,
  Bool-cases, Outcome, ok, failed, panicked,
}
use qrystal.Text.{Bytes}
use qrystal.Spec.{NetworkDeviceCensored}
use qrystal.Spec.Resolve.{any_ok, best_loop, choose_endpoint}

ltb_ℤ_trans : (a b c : ℤ) → ltb_ℤ a b ≡ true → ltb_ℤ b c ≡ true → ltb_ℤ a c ≡ true
ltb_ℤ_trans a b c h k = ground arith

ltb_ℤ_weaken : (a b c : ℤ) → ltb_ℤ a b ≡ true → ltb_ℤ a c ≡ false → ltb_ℤ c b ≡ true
ltb_ℤ_weaken a b c h k = ground arith

ltb_ℤ_asym : (a b : ℤ) → ltb_ℤ a b ≡ true → ltb_ℤ b a ≡ false
ltb_ℤ_asym a b h = ground arith

ltb_ℤ_self : (a : ℤ) → ltb_ℤ a a ≡ false
ltb_ℤ_self a = ground arith

ltb_ℤ_irrefl : (a b : ℤ) → a ≡ b → ltb_ℤ a b ≡ false
ltb_ℤ_irrefl a b h = subst (λ c. ltb_ℤ a c ≡ false) h (ltb_ℤ_self a)

ltb_ℤ_subst : (a v w : ℤ) → ltb_ℤ a v ≡ true → a ≡ w → ltb_ℤ w v ≡ true
ltb_ℤ_subst a v w l h = subst (λ c. ltb_ℤ c v ≡ true) h l

not_below_zero : (j : ℕ) → j < zero → ⊥
not_below_zero j h = omega arith

-- The first of the best scores, all of them at least `least`, stands at `k`.
pub record IsFirstBest (scores : List (Option ℤ)) (k : ℕ) (v : ℤ) : Type 0 where
  pub there : get_elem? scores k ≡ some (some v)
  pub best : (j : ℕ) (w : ℤ) → get_elem? scores j ≡ some (some w) → ltb_ℤ v w ≡ false
  pub first : (j : ℕ) (w : ℤ) → j < k → get_elem? scores j ≡ some (some w) → ltb_ℤ w v ≡ true

abbrev NoneAbove : ℤ → List (Option ℤ) → Type 0
NoneAbove least scores =
    (j : ℕ) (w : ℤ) → get_elem? scores j ≡ some (some w) → ltb_ℤ least w ≡ false

cons-NoneAbove :
    (o : Option ℤ) (rest : List (Option ℤ)) (least : ℤ)
    → ((w : ℤ) → o ≡ some w → ltb_ℤ least w ≡ false)
    → NoneAbove least rest
    → NoneAbove least (o ∷ rest)
cons-NoneAbove o rest least h k zero w q = h w (some-injective q)
cons-NoneAbove o rest least h k (suc j) w q = k j w q

-- Taking up an element at the front that is below the best.
IsFirstBest-suc :
    (o : Option ℤ) (rest : List (Option ℤ)) (k : ℕ) (v : ℤ)
    → IsFirstBest rest k v
    → ((w : ℤ) → o ≡ some w → ltb_ℤ w v ≡ true)
    → IsFirstBest (o ∷ rest) (suc k) v
IsFirstBest-suc o rest k v f h = record {
  there = f.there;
  best = cons-NoneAbove o rest v (λ w q. ltb_ℤ_asym w v (h w q)) f.best;
  first = first_suc;
}
  where
    first_suc :
        (j : ℕ) (w : ℤ) → j < suc k → get_elem? (o ∷ rest) j ≡ some (some w) → ltb_ℤ w v ≡ true
    first_suc zero w l q = h w (some-injective q)
    first_suc (suc j) w l q = f.first j w (omega arith) q

IsFirstBest-zero :
    (s : ℤ) (rest : List (Option ℤ)) → NoneAbove s rest → IsFirstBest (some s ∷ rest) zero s
IsFirstBest-zero s rest h = record {
  there = refl;
  best = cons-NoneAbove (some s) rest s (λ w q. ltb_ℤ_irrefl s w (some-injective q)) h;
  first = λ j w l q. absurd (not_below_zero j l);
}

abbrev BestFrom : List (Option ℤ) → ℕ → Option ℕ → ℤ → Type 0
BestFrom scores i max_i max_score =
    ((best_loop scores i max_i max_score ≡ max_i) × NoneAbove max_score scores)
    ⊎ ((k : ℕ) × (v : ℤ) × (best_loop scores i max_i max_score ≡ some (i + k))
        × (ltb_ℤ max_score v ≡ true)
        × IsFirstBest scores k v)

BestFrom-better :
    (s : ℤ) (rest : List (Option ℤ)) (i : ℕ) (max_i : Option ℕ) (max_score : ℤ)
    → ltb_ℤ max_score s ≡ true
    → BestFrom rest (suc i) (some i) s
    → BestFrom (some s ∷ rest) i max_i max_score
unfolding best_loop
BestFrom-better s rest i max_i max_score better (inl (q, n)) =
    inr (zero, s, ground (arith), better, IsFirstBest-zero s rest n)
BestFrom-better s rest i max_i max_score better (inr (k, v, q, l, f)) = inr (
  suc k,
  v,
  ground (arith),
  ltb_ℤ_trans max_score s v better l,
  IsFirstBest-suc (some s) rest k v f (λ w h. ltb_ℤ_subst s v w l (some-injective h)),
)

BestFrom-worse :
    (s : ℤ) (rest : List (Option ℤ)) (i : ℕ) (max_i : Option ℕ) (max_score : ℤ)
    → ltb_ℤ max_score s ≡ false
    → BestFrom rest (suc i) max_i max_score
    → BestFrom (some s ∷ rest) i max_i max_score
unfolding best_loop
BestFrom-worse s rest i max_i max_score worse (inl (q, n)) =
    inl (ground (arith), cons-NoneAbove (some s) rest max_score (λ w h. cc) n)
BestFrom-worse s rest i max_i max_score worse (inr (k, v, q, l, f)) = inr (
  suc k,
  v,
  ground (arith),
  l,
  IsFirstBest-suc (some s) rest k v f
      (λ w h. ltb_ℤ_subst s v w (ltb_ℤ_weaken max_score v s l worse) (some-injective h)),
)

best_loop-cases :
    (scores : List (Option ℤ)) (i : ℕ) (max_i : Option ℕ) (max_score : ℤ)
    → BestFrom scores i max_i max_score
unfolding best_loop
best_loop-cases [] i max_i max_score = inl (refl, λ j w h. cc)
best_loop-cases (none ∷ rest) i max_i max_score =
    elim (best_loop-cases rest (suc i) max_i max_score) [
      | inl q ↦ inl (q.0, cons-NoneAbove none rest max_score (λ w h. cc) (q.1))
      | inr (k, v, q, l, f) ↦
          inr (suc k, v, q ∙ ap some (omega arith), l, IsFirstBest-suc none rest k v f (λ w h. cc))
    ]
best_loop-cases (some s ∷ rest) i max_i max_score = elim (Bool-cases (ltb_ℤ max_score s)) [
  | inl better ↦
      BestFrom-better s rest i max_i max_score better (best_loop-cases rest (suc i) (some i) s)
  | inr worse ↦
      BestFrom-worse s rest i max_i max_score worse (best_loop-cases rest (suc i) max_i max_score)
]

any_ok-true :
    (scores : List (Option ℤ))
    → any_ok scores ≡ true
    → (j : ℕ) × (w : ℤ) × (get_elem? scores j ≡ some (some w))
unfolding any_ok
any_ok-true [] h = absurd (ground arith)
any_ok-true (none ∷ rest) h = let (j, w, q) = any_ok-true rest h in (suc j, w, q)
any_ok-true (some s ∷ rest) h = (zero, s, refl)

any_ok-false :
    (scores : List (Option ℤ)) (j : ℕ) (w : ℤ)
    → any_ok scores ≡ false
    → get_elem? scores j ≢ some (some w)
unfolding any_ok
any_ok-false [] j w h = ground arith
any_ok-false (none ∷ rest) zero w h = ground arith
any_ok-false (none ∷ rest) (suc j) w h = any_ok-false rest j w h
any_ok-false (some s ∷ rest) j w h = absurd (ground arith)

below_zero : (w : ℤ) → ltb_ℤ (negsuc 0) w ≡ false → ltb_ℤ w (pos 0) ≡ true
below_zero w h = ground arith

not_below_zero_ℤ : (w : ℤ) → ltb_ℤ (negsuc 0) w ≡ true → ltb_ℤ w (pos 0) ≡ false
not_below_zero_ℤ w h = ground arith

module _ (score : Bytes → Option ℤ) (ndc : NetworkDeviceCensored) where
  choose_endpoint_panics :
      any_ok (map score ndc.endpoints) ≡ true
      → best_loop (map score ndc.endpoints) 0 none (negsuc 0) ≡ none
      → choose_endpoint score ndc ≡ panicked
  unfolding choose_endpoint
  choose_endpoint_panics h q = ground arith

  choose_endpoint_chooses :
      (k : ℕ)
      → any_ok (map score ndc.endpoints) ≡ true
      → best_loop (map score ndc.endpoints) 0 none (negsuc 0) ≡ some k
      → choose_endpoint score ndc
        ≡ ok (record ndc { endpoint_chosen_index = k; forwarder_and_endpoint_chosen = true })
  unfolding choose_endpoint
  choose_endpoint_chooses k h q = ground arith

  choose_endpoint_fails :
      any_ok (map score ndc.endpoints) ≡ false → choose_endpoint score ndc ≡ failed
  unfolding choose_endpoint
  choose_endpoint_fails h = ground arith

-- What a result of `ChooseEndpoint` has to say of the scores of the endpoints.
abbrev pub HasChosen :
    (Bytes → Option ℤ) → NetworkDeviceCensored → Outcome NetworkDeviceCensored → Type 0
HasChosen score ndc (ok chosen) =
    (k : ℕ) × (v : ℤ) × IsFirstBest (map score ndc.endpoints) k v
    × (ltb_ℤ v (pos 0) ≡ false)
    × (chosen ≡ record ndc { endpoint_chosen_index = k; forwarder_and_endpoint_chosen = true })
HasChosen score ndc failed = (j : ℕ) (w : ℤ) → get_elem? (map score ndc.endpoints) j ≢ some (some w)
HasChosen score ndc panicked =
    ((j : ℕ) × (w : ℤ) × (get_elem? (map score ndc.endpoints) j ≡ some (some w)))
    × ((j : ℕ) (w : ℤ)
        → get_elem? (map score ndc.endpoints) j ≡ some (some w)
        → ltb_ℤ w (pos 0) ≡ true)

-- `ChooseEndpoint` of an endpoint list: if it succeeds, the device differs from what it was only in
-- the chosen index, which is that of the first of the best scores, which is not negative, and in
-- that it is chosen; if it returns an error, no endpoint has a score; and if it panics, some
-- endpoint has a score and all scores are negative.
pub choose_endpoint-HasChosen :
    (score : Bytes → Option ℤ) (ndc : NetworkDeviceCensored)
    → HasChosen score ndc (choose_endpoint score ndc)
choose_endpoint-HasChosen score ndc = elim (Bool-cases (any_ok (map score ndc.endpoints))) [
  | inl h ↦ elim (best_loop-cases (map score ndc.endpoints) 0 none (negsuc 0)) [
    | inl (q, n) ↦
        settled (choose_endpoint_panics score ndc h q)
          (any_ok-true (map score ndc.endpoints) h, λ j w e. below_zero w (n j w e))
    | inr (k, v, q, l, f) ↦
        settled (choose_endpoint_chooses score ndc k h (q ∙ ap some (omega arith)))
          (k, v, f, not_below_zero_ℤ v l, refl)
  ]
  | inr h ↦
      settled (choose_endpoint_fails score ndc h)
        (λ j w. any_ok-false (map score ndc.endpoints) j w h)
]
  where
    settled :
        {r : Outcome NetworkDeviceCensored}
        → choose_endpoint score ndc ≡ r
        → HasChosen score ndc r
        → HasChosen score ndc (choose_endpoint score ndc)
    settled q h = subst (HasChosen score ndc) (sym q) h
