-- ===== src/Device/Endpoints/Loop.antt =====
-- The second loop of `chooseEndpoints` of device/client.go, over the devices without an endpoint.
use qrystal.Prelude.{
  ℕ, suc, zero, ◌≤◌, ◌≡◌, refl, sym, ap, ◌∙◌, ◌⊎◌, inl, inr, subst, true, false, some, List, [],
  ◌∷◌, arith, get_elem?, contains, nat_eq, list_eq, ==_iff, length, ok, or_panic, Option-cases,
  ok-injective, some-injective, panicked_ne,
}
use qrystal.Spec.{NetworkDeviceCensored, NetworkCensored}
use qrystal.Spec.Resolve.{get_forwarders_for}
use qrystal.Spec.Resolve.Forwarders.{forwards, contains-get_forwarders_for}
use qrystal.Device.{bind-ok, Client, Outside, Run, return, bind, ◌>>>=◌}
use qrystal.Device.Endpoints.{
  without_forwarder, with_forwarder, set_device, draw, forward_one, forward_loop,
}
use qrystal.Device.Endpoints.Forwarders.{
  IsServed, AreWaiting, IsReached, now_there, without-IsReached, with-IsReached,
}

-- Every index that can be drawn is of a forwarder.
get_elem?-contains : (xs : List ℕ) (j x : ℕ) → get_elem? xs j ≡ some x → contains xs x ≡ true
get_elem?-contains [] j x h = absurd (ground arith)
get_elem?-contains (y ∷ xs) zero x h = ground (arith, ==_iff y x, some-injective h)
get_elem?-contains (y ∷ xs) (suc j) x h = ground (arith, get_elem?-contains xs j x h)

module _ {W : Type 0} (o : Outside W) where
  draw-contains :
      (xs : List ℕ) (c : Client) (w : W) (x : ℕ) (c2 : Client) (w2 : W)
      → draw o xs c w ≡ (ok x, c2, w2)
      → (contains xs x ≡ true) × (c2 ≡ c)
  unfolding draw
  draw-contains xs c w x c2 w2 h = (
    elim (Option-cases (get_elem? xs (o.intn (length xs) w).0)) [
      | inl e ↦ absurd (panicked_ne (ap or_panic (sym e) ∙ ap (λ r. r.0) h))
      | inr (y, e) ↦
          get_elem?-contains xs (o.intn (length xs) w).0 x
            (e ∙ ap some (ok-injective y x (ap or_panic (sym e) ∙ ap (λ r. r.0) h)))
    ],
    sym (ap (λ r. r.1) h),
  )

  -- What one step of the loop makes of a device that waits: it stays so only if no device would
  -- forward for it.
  abbrev pub Forwarded : NetworkCensored → ℕ → NetworkDeviceCensored → NetworkCensored → Type 0
  Forwarded nc i d nc2 =
      (((n : ℕ) → forwards (get_elem? nc.devices n) d.name ≡ false)
        × (nc2 ≡ set_device nc i without_forwarder))
      ⊎ ((f : ℕ) × (forwards (get_elem? nc.devices f) d.name ≡ true)
          × (nc2 ≡ set_device nc i (with_forwarder f)))

  abbrev pub with_drawn : NetworkCensored → ℕ → ℕ → Run W NetworkCensored
  with_drawn nc i f = return (ok (set_device nc i (with_forwarder f)))

  module _ (nc : NetworkCensored) (i : ℕ) (d : NetworkDeviceCensored) (c : Client) (w : W) where
    pub forward_one_none :
        get_forwarders_for nc d.name ≡ []
        → forward_one o nc i d c w ≡ (ok (set_device nc i without_forwarder), c, w)
    unfolding forward_one
    forward_one_none e = rw (e, forward_one) refl

    pub forward_one_some :
        (f : ℕ) (fs : List ℕ)
        → get_forwarders_for nc d.name ≡ f ∷ fs
        → forward_one o nc i d c w ≡ bind (draw o (f ∷ fs) c w) (with_drawn nc i)
    unfolding forward_one
    forward_one_some f fs e = rw (e, forward_one) refl

  forward_one-Forwarded :
      (nc : NetworkCensored) (i : ℕ) (d : NetworkDeviceCensored) (c : Client) (w : W)
      (nc2 : NetworkCensored) (c2 : Client) (w2 : W)
      → forward_one o nc i d c w ≡ (ok nc2, c2, w2)
      → (c2 ≡ c) × Forwarded nc i d nc2
  forward_one-Forwarded nc i d c w nc2 c2 w2 h = from_list (get_forwarders_for nc d.name) refl
    where
      from_list :
          (fs : List ℕ) → get_forwarders_for nc d.name ≡ fs → (c2 ≡ c) × Forwarded nc i d nc2
      from_list [] e =
          let q = sym (forward_one_none nc i d c w e) ∙ h in
          (
            sym (ap (λ r. r.1) q),
            inl (
              λ n. sym (contains-get_forwarders_for nc d.name n) ∙ ap (λ l. contains l n) e,
              sym (ok-injective _ _ (ap (λ r. r.0) q)),
            ),
          )
      from_list (f ∷ fs) e =
          let (x, c1, w1, p, q) =
            bind-ok (draw o (f ∷ fs) c w) (with_drawn nc i) nc2 c2 w2
              (sym (forward_one_some nc i d c w f fs e) ∙ h) in
          let (m, same) = draw-contains (f ∷ fs) c w x c1 w1 p in
          (
            sym (ap (λ r. r.1) q) ∙ same,
            inr (
              x,
              sym (contains-get_forwarders_for nc d.name x) ∙ (ap (λ l. contains l x) e ∙ m),
              sym (ok-injective _ _ (ap (λ r. r.0) q)),
            ),
          )

  step-IsReached :
      (k i : ℕ) (base : List NetworkDeviceCensored) (nc : NetworkCensored)
      (d : NetworkDeviceCensored)
      → k ≤ i
      → get_elem? base i ≡ some d
      → d.forwarder_and_endpoint_chosen ≡ false
      → IsReached k base nc
      → (m : NetworkCensored) → Forwarded nc i d m
      → IsReached (suc i) base m
  step-IsReached k i base nc d low there waits reached m (inl (n, e)) =
      subst (IsReached (suc i) base) (sym e)
        (without-IsReached k i base nc d low there waits reached)
  step-IsReached k i base nc d low there waits reached m (inr (f, g, e)) =
      subst (IsReached (suc i) base) (sym e)
        (with-IsReached k i base nc d low there waits reached f g)

  -- One turn of the loop, and the turns that are left.
  pub forward_loop-step :
      (i : ℕ) (is : List ℕ) (k : ℕ) (base : List NetworkDeviceCensored) (nc : NetworkCensored)
      (c : Client) (w : W) (nc2 : NetworkCensored) (c2 : Client) (w2 : W)
      → AreWaiting k base (i ∷ is)
      → IsReached k base nc
      → forward_loop o (i ∷ is) nc c w ≡ (ok nc2, c2, w2)
      → (d : NetworkDeviceCensored) × (m : NetworkCensored) × (w3 : W) × (get_elem? base i ≡ some d)
        × (d.forwarder_and_endpoint_chosen ≡ false)
        × Forwarded nc i d m
        × IsReached (suc i) base m
        × (forward_loop o is m c w3 ≡ (ok nc2, c2, w2))
  unfolding forward_loop
  forward_loop-step i is k base nc c w nc2 c2 w2 (low, (d, there, waits), waiting) reached h =
      let (x, c1, w1, p, q) =
        bind-ok (or_panic (get_elem? nc.devices i), c, w)
          (λ ndc. forward_one o nc i ndc >>>= (λ more. forward_loop o is more)) nc2 c2 w2 h in
      let (m, c3, w3, p2, q2) =
        bind-ok (forward_one o nc i x c1 w1) (λ more. forward_loop o is more) nc2 c2 w2 q in
      let (same, step) = forward_one-Forwarded nc i x c1 w1 m c3 w3 p2 in
      let forwarded =
        subst (λ y. Forwarded nc i y m)
          (sym (
            ok-injective d x (
              ap or_panic (sym (now_there k i base nc d low there waits reached))
              ∙ ap (λ r. r.0) p)))
          step in
      (
        d,
        m,
        w3,
        there,
        waits,
        forwarded,
        step-IsReached k i base nc d low there waits reached m forwarded,
        subst (λ y. forward_loop o is m y w3 ≡ (ok nc2, c2, w2)) (same ∙ sym (ap (λ r. r.1) p)) q2,
      )

  pub forward_loop-IsServed :
      (is : List ℕ) (k : ℕ) (base : List NetworkDeviceCensored) (nc : NetworkCensored) (c : Client)
      (w : W) (nc2 : NetworkCensored) (c2 : Client) (w2 : W)
      → AreWaiting k base is
      → IsReached k base nc
      → forward_loop o is nc c w ≡ (ok nc2, c2, w2)
      → (c2 ≡ c) × ((j : ℕ) → IsServed base nc2 j)
  unfolding forward_loop
  forward_loop-IsServed [] k base nc c w nc2 c2 w2 waiting reached h = (
    sym (ap (λ r. r.1) h),
    λ j.
        subst (λ (n : NetworkCensored). IsServed base n j) (ok-injective nc nc2 (ap (λ r. r.0) h))
          (reached.served j),
  )
  forward_loop-IsServed (i ∷ is) k base nc c w nc2 c2 w2 waiting reached h =
      let (d, m, w3, there, waits, step, next, rest) =
        forward_loop-step i is k base nc c w nc2 c2 w2 waiting reached h in
      forward_loop-IsServed is (suc i) base m c w3 nc2 c2 w2 waiting.2 next rest
