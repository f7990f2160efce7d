-- ===== src/Device/Endpoints/Forwarders.antt =====
-- Forwarders in `chooseEndpoints` of device/client.go, while its second loop writes to the devices.
use qrystal.Prelude.{
  ℕ, suc, ◌≤◌, ◌≡◌, ◌≢◌, sym, ap, ◌∙◌, ◌⊎◌, inl, inr, subst, true, false, some, List, [], ◌∷◌,
  arith, get_elem?, get_elem?-modify_self, get_elem?-modify_ne, nat_eq, list_eq, nat_beq,
  nat_beq_iff, Bool-cases, true_ne,
}
use qrystal.Text.{Bytes}
use qrystal.Spec.{NetworkDeviceCensored, NetworkCensored}
use qrystal.Spec.Resolve.{can_forward}
use qrystal.Spec.Resolve.Forwarders.{forwards}
use qrystal.Device.Endpoints.{without_forwarder, with_forwarder, set_device}

-- The device at `j` is as it was, or has got a forwarder: a device that lists it as accessible and
-- has an endpoint or a forwarder.
abbrev pub IsServed : List NetworkDeviceCensored → NetworkCensored → ℕ → Type 0
IsServed base nc j =
    (get_elem? nc.devices j ≡ get_elem? base j)
    ⊎ ((f : ℕ) × (d : NetworkDeviceCensored) × (get_elem? base j ≡ some d)
        × (d.forwarder_and_endpoint_chosen ≡ false)
        × (get_elem? nc.devices j ≡ some (with_forwarder f d))
        × (forwards (get_elem? nc.devices f) d.name ≡ true))

-- Ascending indices, from `k` on, of devices without an endpoint.
abbrev pub AreWaiting : ℕ → List NetworkDeviceCensored → List ℕ → Type 0
AreWaiting k base [] = Unit
AreWaiting k base (i ∷ is) =
    (k ≤ i)
    × ((d : NetworkDeviceCensored) × (get_elem? base i ≡ some d)
        × (d.forwarder_and_endpoint_chosen ≡ false))
    × AreWaiting (suc i) base is

pub record IsReached (k : ℕ) (base : List NetworkDeviceCensored) (nc : NetworkCensored)
    : Type 0 where
  pub served : (j : ℕ) → IsServed base nc j
  pub untouched : (j : ℕ) → k ≤ j → get_elem? nc.devices j ≡ get_elem? base j

pub forwards-chosen :
    (d : NetworkDeviceCensored) (name : Bytes)
    → d.forwarder_and_endpoint_chosen ≡ false
    → forwards (some d) name ≡ false
unfolding can_forward
forwards-chosen d name h = ground arith

-- A device that waits is nobody's forwarder.
forwarder_ne :
    (nc : NetworkCensored) (i f : ℕ) (d : NetworkDeviceCensored) (name : Bytes)
    → get_elem? nc.devices i ≡ some d
    → d.forwarder_and_endpoint_chosen ≡ false
    → forwards (get_elem? nc.devices f) name ≡ true
    → i ≢ f
forwarder_ne nc i f d name h k g e = true_ne (
    sym (subst (λ n. forwards (get_elem? nc.devices n) name ≡ true) (sym e) g)
    ∙ ap (λ o. forwards o name) h
    ∙ forwards-chosen d name k)

-- Writing to a device that waits disturbs no forwarder.
forwards-set_device :
    (nc : NetworkCensored) (i f : ℕ) (d : NetworkDeviceCensored) (name : Bytes)
    (g : NetworkDeviceCensored → NetworkDeviceCensored)
    → get_elem? nc.devices i ≡ some d
    → d.forwarder_and_endpoint_chosen ≡ false
    → forwards (get_elem? nc.devices f) name ≡ true
    → forwards (get_elem? (set_device nc i g).devices f) name ≡ true
forwards-set_device nc i f d name g h k p =
    ap (λ o. forwards o name)
      (get_elem?-modify_ne nc.devices i f g (forwarder_ne nc i f d name h k p))
    ∙ p

module _ (k i : ℕ) (base : List NetworkDeviceCensored) (nc : NetworkCensored)
    (d : NetworkDeviceCensored) (low : k ≤ i) (there : get_elem? base i ≡ some d)
    (waits : d.forwarder_and_endpoint_chosen ≡ false) (reached : IsReached k base nc) where
  pub now_there : get_elem? nc.devices i ≡ some d
  now_there = reached.untouched i low ∙ there

  later :
      (g : NetworkDeviceCensored → NetworkDeviceCensored) (j : ℕ)
      → suc i ≤ j
      → get_elem? (set_device nc i g).devices j ≡ get_elem? base j
  later g j l =
      get_elem?-modify_ne nc.devices i j g (λ e. apart j l e) ∙ reached.untouched j (omega arith)
    where
      apart : (j : ℕ) → suc i ≤ j → i ≡ j → ⊥
      apart j l e = omega arith

  others :
      (g : NetworkDeviceCensored → NetworkDeviceCensored) (j : ℕ)
      → i ≢ j
      → IsServed base (set_device nc i g) j
  others g j ne = elim (reached.served j) [
    | inl e ↦ inl (get_elem?-modify_ne nc.devices i j g ne ∙ e)
    | inr (f, x, b, w, p, q) ↦ inr (
      f,
      x,
      b,
      w,
      get_elem?-modify_ne nc.devices i j g ne ∙ p,
      forwards-set_device nc i f d x.name g now_there waits q,
    )
  ]

  own :
      (g : NetworkDeviceCensored → NetworkDeviceCensored)
      → get_elem? (set_device nc i g).devices i ≡ some (g d)
  own g = get_elem?-modify_self nc.devices i g d now_there

  own_without : IsServed base (set_device nc i without_forwarder) i
  own_without = inl (
      own without_forwarder
      ∙ ap (λ b. some (record d { forwarder_and_endpoint_chosen = b })) (sym waits)
      ∙ sym there)

  own_with :
      (f : ℕ)
      → forwards (get_elem? nc.devices f) d.name ≡ true
      → IsServed base (set_device nc i (with_forwarder f)) i
  own_with f h = inr (
    f,
    d,
    there,
    waits,
    own (with_forwarder f),
    forwards-set_device nc i f d d.name (with_forwarder f) now_there waits h,
  )

  pub without-IsReached : IsReached (suc i) base (set_device nc i without_forwarder)
  without-IsReached = record {
    served = λ j. elim (Bool-cases (nat_beq i j)) [
      | inl e ↦
          subst (IsServed base (set_device nc i without_forwarder)) ((nat_beq_iff i j).0 e)
            own_without
      | inr e ↦ others without_forwarder j (λ q. ground (arith, nat_beq_iff i j))
    ];
    untouched = later without_forwarder;
  }

  pub with-IsReached :
      (f : ℕ)
      → forwards (get_elem? nc.devices f) d.name ≡ true
      → IsReached (suc i) base (set_device nc i (with_forwarder f))
  with-IsReached f h = record {
    served = λ j. elim (Bool-cases (nat_beq i j)) [
      | inl e ↦
          subst (IsServed base (set_device nc i (with_forwarder f))) ((nat_beq_iff i j).0 e)
            (own_with f h)
      | inr e ↦ others (with_forwarder f) j (λ q. ground (arith, nat_beq_iff i j))
    ];
    untouched = later (with_forwarder f);
  }
