-- ===== src/Device/Endpoints/Laws.antt =====
-- `chooseEndpoints` of device/client.go: what it makes of each device.
use qrystal.Prelude.{
  ℕ, suc, ◌+◌, ◌≤◌, ◌≡◌, refl, sym, ap, ◌∙◌, ◌⊎◌, inl, inr, subst, Bool, true, false, Option, none,
  some, List, [], ◌∷◌, arith, if◌then◌else◌, get_elem?, nat_eq, list_eq, nat_beq, Outcome, ok,
  failed, panicked, Bool-cases, Option-cases, ok-injective, ℤ,
}
use qrystal.Text.{Bytes}
use qrystal.Spec.{NetworkDeviceCensored}
use qrystal.Spec.Resolve.{choose_endpoint}
use qrystal.Device.Endpoints.{choose_one, put_one, join_one, choose_loop}
use qrystal.Device.Endpoints.Forwarders.{AreWaiting}

-- The device is as it was, or has got the endpoint that `ChooseEndpoint` chooses.
abbrev pub IsChosen : (Bytes → Option ℤ) → NetworkDeviceCensored → NetworkDeviceCensored → Type 0
IsChosen score d e = (e ≡ d) ⊎ (choose_endpoint score d ≡ ok e)

abbrev pub AreChosen :
    (Bytes → Option ℤ) → List NetworkDeviceCensored → List NetworkDeviceCensored → Type 0
AreChosen score [] [] = Unit
AreChosen score (d ∷ ds) (e ∷ es) = IsChosen score d e × AreChosen score ds es
AreChosen score _ _ = ⊥

-- A step of the first loop: the device, and whether it waits for a forwarder. The own device, and one
-- that is chosen, is left as it is.
abbrev pub IsTaken :
    (Bytes → Option ℤ) → Bool → NetworkDeviceCensored → NetworkDeviceCensored × Bool → Type 0
IsTaken score own d (e, b) =
    (((own ≡ true) ⊎ (d.forwarder_and_endpoint_chosen ≡ true)) × (e ≡ d) × (b ≡ false))
    ⊎ ((own ≡ false)
        × (d.forwarder_and_endpoint_chosen ≡ false)
        × (choose_endpoint score d ≡ ok e)
        × (b ≡ false))
    ⊎ ((own ≡ false)
        × (d.forwarder_and_endpoint_chosen ≡ false)
        × (choose_endpoint score d ≡ failed)
        × (e ≡ d)
        × (b ≡ true))

IsTaken-IsChosen :
    (score : Bytes → Option ℤ) (own : Bool) (d e : NetworkDeviceCensored) (b : Bool)
    → IsTaken score own d (e, b)
    → IsChosen score d e × (b ≡ true → e.forwarder_and_endpoint_chosen ≡ false)
IsTaken-IsChosen score own d e b (inl (o, same, n)) = (inl same, λ t. absurd (ground arith))
IsTaken-IsChosen score own d e b (inr (inl (o, f, q, n))) = (inr q, λ t. absurd (ground arith))
IsTaken-IsChosen score own d e b (inr (inr (o, f, q, same, t))) =
    (inl same, λ t. ap (λ (x : NetworkDeviceCensored). x.forwarder_and_endpoint_chosen) same ∙ f)

module _ (score : Bytes → Option ℤ) (d : NetworkDeviceCensored) where
  choose_one_kept : d.forwarder_and_endpoint_chosen ≡ true → choose_one score d ≡ ok (d, false)
  unfolding choose_one
  choose_one_kept e = ground arith

  choose_one_panics :
      d.forwarder_and_endpoint_chosen ≡ false
      → choose_endpoint score d ≡ panicked
      → choose_one score d ≡ panicked
  unfolding choose_one
  choose_one_panics e q = ground arith

  choose_one_waits :
      d.forwarder_and_endpoint_chosen ≡ false
      → choose_endpoint score d ≡ failed
      → choose_one score d ≡ ok (d, true)
  unfolding choose_one
  choose_one_waits e q = ground arith

  choose_one_stale :
      (chosen : NetworkDeviceCensored)
      → d.forwarder_and_endpoint_chosen ≡ false
      → choose_endpoint score d ≡ ok chosen
      → get_elem? d.endpoints d.endpoint_chosen_index ≡ none
      → choose_one score d ≡ panicked
  unfolding choose_one
  choose_one_stale chosen e q n = ground arith

  choose_one_chooses :
      (chosen : NetworkDeviceCensored) (x : Bytes)
      → d.forwarder_and_endpoint_chosen ≡ false
      → choose_endpoint score d ≡ ok chosen
      → get_elem? d.endpoints d.endpoint_chosen_index ≡ some x
      → choose_one score d ≡ ok (chosen, false)
  unfolding choose_one
  choose_one_chooses chosen x e q n = ground arith

choose_one-IsTaken :
    (score : Bytes → Option ℤ) (d : NetworkDeviceCensored) (r : NetworkDeviceCensored × Bool)
    → choose_one score d ≡ ok r
    → IsTaken score false d r
choose_one-IsTaken score d r h = elim (Bool-cases d.forwarder_and_endpoint_chosen) [
  | inl e ↦
      subst (IsTaken score false d)
        (ok-injective (d, false) r (sym (choose_one_kept score d e) ∙ h)) (inl (inr e, refl, refl))
  | inr e ↦ by_outcome e (choose_endpoint score d) refl
]
  where
    by_outcome :
        d.forwarder_and_endpoint_chosen ≡ false
        → (x : Outcome NetworkDeviceCensored) → choose_endpoint score d ≡ x
        → IsTaken score false d r
    by_outcome e panicked q = absurd (ground (arith, choose_one_panics score d e q))
    by_outcome e failed q =
        subst (IsTaken score false d)
          (ok-injective (d, true) r (sym (choose_one_waits score d e q) ∙ h))
          (inr (inr (refl, e, q, refl, refl)))
    by_outcome e (ok chosen) q =
        elim (Option-cases (get_elem? d.endpoints d.endpoint_chosen_index)) [
          | inl n ↦ absurd (ground (arith, choose_one_stale score d chosen e q n))
          | inr (x, n) ↦
              subst (IsTaken score false d)
                (ok-injective (chosen, false) r
                  (sym (choose_one_chooses score d chosen x e q n) ∙ h))
                (inr (inl (refl, e, q, refl)))
        ]

AreWaiting-weaken :
    (k m : ℕ) (base : List NetworkDeviceCensored) (is : List ℕ)
    → k ≤ m
    → AreWaiting m base is
    → AreWaiting k base is
AreWaiting-weaken k m base [] l h = tt
AreWaiting-weaken k m base (i ∷ is) l (low, there, rest) = (omega arith, there, rest)

module _ (score : Bytes → Option ℤ) (ndc_i : ℕ) where
  abbrev pub taken : ℕ → NetworkDeviceCensored → Outcome (NetworkDeviceCensored × Bool)
  taken i d = if nat_beq i ndc_i then ok (d, false) else choose_one score d

  pub choose_loop-cons :
      (i : ℕ) (d : NetworkDeviceCensored) (ds : List NetworkDeviceCensored)
      → choose_loop score ndc_i i (d ∷ ds)
        ≡ join_one i (taken i d) (choose_loop score ndc_i (suc i) ds)
  unfolding choose_loop
  choose_loop-cons i d ds = refl

  pub join_one-ok :
      (i : ℕ) (one : Outcome (NetworkDeviceCensored × Bool))
      (rest : Outcome (List NetworkDeviceCensored × List ℕ))
      (r : List NetworkDeviceCensored × List ℕ)
      → join_one i one rest ≡ ok r
      → (e : NetworkDeviceCensored) × (b : Bool) × (more : List NetworkDeviceCensored × List ℕ)
        × (one ≡ ok (e, b))
        × (rest ≡ ok more)
        × (put_one i (e, b) more ≡ r)
  join_one-ok i (ok (e, b)) (ok more) r h =
      (e, b, more, refl, refl, ok-injective (put_one i (e, b) more) r h)
  join_one-ok i (ok one) failed r h = absurd (ground arith)
  join_one-ok i (ok one) panicked r h = absurd (ground arith)
  join_one-ok i failed rest r h = absurd (ground arith)
  join_one-ok i panicked rest r h = absurd (ground arith)

  taken_own :
      (i : ℕ) (d : NetworkDeviceCensored) → nat_beq i ndc_i ≡ true → taken i d ≡ ok (d, false)
  taken_own i d e = ground arith

  taken_other :
      (i : ℕ) (d : NetworkDeviceCensored) → nat_beq i ndc_i ≡ false → taken i d ≡ choose_one score d
  taken_other i d e = ground arith

  pub taken-IsTaken :
      (i : ℕ) (d : NetworkDeviceCensored) (r : NetworkDeviceCensored × Bool)
      → taken i d ≡ ok r
      → IsTaken score (nat_beq i ndc_i) d r
  taken-IsTaken i d r h = elim (Bool-cases (nat_beq i ndc_i)) [
    | inl e ↦
        subst (IsTaken score (nat_beq i ndc_i) d)
          (ok-injective (d, false) r (sym (taken_own i d e) ∙ h)) (inl (inl e, refl, refl))
    | inr e ↦
        subst (λ own. IsTaken score own d r) (sym e)
          (choose_one-IsTaken score d r (sym (taken_other i d e) ∙ h))
  ]

  -- What the first loop has made of the devices from index `i` on, which end the list `base`.
  abbrev pub IsLooped :
      ℕ → List NetworkDeviceCensored → List NetworkDeviceCensored × List ℕ → Type 0
  IsLooped i ds (es, is) =
      AreChosen score ds es
      × ((base : List NetworkDeviceCensored)
          → ((k : ℕ) → get_elem? base (i + k) ≡ get_elem? es k)
          → AreWaiting i base is)

  put_one-IsLooped :
      (i : ℕ) (d : NetworkDeviceCensored) (ds : List NetworkDeviceCensored)
      (e : NetworkDeviceCensored) (b : Bool) (more : List NetworkDeviceCensored × List ℕ)
      → IsChosen score d e × (b ≡ true → e.forwarder_and_endpoint_chosen ≡ false)
      → IsLooped (suc i) ds more
      → IsLooped i (d ∷ ds) (put_one i (e, b) more)
  put_one-IsLooped i d ds e true (es, is) (t, waits) (chosen, waiting) = (
    (t, chosen),
    λ base h. (
      omega arith,
      (e, ap (get_elem? base) (omega arith) ∙ h 0, waits refl),
      waiting base (λ k. ap (get_elem? base) (omega arith) ∙ h (suc k)),
    ),
  )
  put_one-IsLooped i d ds e false (es, is) (t, waits) (chosen, waiting) = (
    (t, chosen),
    λ base h.
        AreWaiting-weaken i (suc i) base is (omega arith)
          (waiting base (λ k. ap (get_elem? base) (omega arith) ∙ h (suc k))),
  )

  pub choose_loop-IsLooped :
      (i : ℕ) (ds : List NetworkDeviceCensored) (r : List NetworkDeviceCensored × List ℕ)
      → choose_loop score ndc_i i ds ≡ ok r
      → IsLooped i ds r
  unfolding choose_loop
  choose_loop-IsLooped i [] r h =
      subst (IsLooped i []) (ok-injective ([], []) r h) (tt, λ base k. tt)
  choose_loop-IsLooped i (d ∷ ds) r h =
      let (e, b, more, p, q, t) =
        join_one-ok i (taken i d) (choose_loop score ndc_i (suc i) ds) r
          (sym (choose_loop-cons i d ds) ∙ h) in
      subst (IsLooped i (d ∷ ds)) t (
        put_one-IsLooped i d ds e b more
          (IsTaken-IsChosen score (nat_beq i ndc_i) d e b (taken-IsTaken i d (e, b) p))
          (choose_loop-IsLooped (suc i) ds more q))
