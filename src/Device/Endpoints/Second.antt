-- ===== src/Device/Endpoints/Second.antt =====
-- The second loop of `chooseEndpoints` of device/client.go, device by device.
use qrystal.Prelude.{
  ℕ, suc, ◌<◌, ◌≡◌, ◌≢◌, refl, sym, ap, ◌∙◌, inl, inr, subst, true, false, some, List, [], ◌∷◌,
  arith, contains, get_elem?, get_elem?-modify_self, get_elem?-modify_ne, nat_eq, list_eq, nat_beq,
  nat_beq_iff, Bool-cases, ok, ok-injective, some-injective, true_ne,
}
use qrystal.Text.{Bytes}
use qrystal.Spec.{NetworkDeviceCensored, NetworkCensored}
use qrystal.Spec.Resolve.Forwarders.{forwards}
use qrystal.Device.{Client, Outside}
use qrystal.Device.Endpoints.{without_forwarder, with_forwarder, forward_loop, set_device}
use qrystal.Device.Endpoints.Forwarders.{AreWaiting, IsReached, forwards-chosen}
use qrystal.Device.Endpoints.Loop.{Forwarded, forward_loop-step}

AreWaiting-contains :
    (k m : ℕ) (base : List NetworkDeviceCensored) (is : List ℕ)
    → AreWaiting k base is
    → m < k
    → contains is m ≡ false
AreWaiting-contains k m base [] h l = refl
AreWaiting-contains k m base (i ∷ is) (low, there, rest) l =
    ground (arith, AreWaiting-contains (suc i) m base is rest)

-- The loop takes nobody's forwarder away.
still_forwards :
    (k n : ℕ) (base : List NetworkDeviceCensored) (nc : NetworkCensored) (name : Bytes)
    → IsReached k base nc
    → forwards (get_elem? nc.devices n) name ≡ false
    → forwards (get_elem? base n) name ≡ false
still_forwards k n base nc name reached h = elim (reached.served n) [
  | inl e ↦ ap (λ x. forwards x name) (sym e) ∙ h
  | inr (f, d, there, waits, p, q) ↦ ap (λ x. forwards x name) there ∙ forwards-chosen d name waits
]

module _ {W : Type 0} (o : Outside W) where
  Forwarded-ne :
      (nc m : NetworkCensored) (i j : ℕ) (d : NetworkDeviceCensored)
      → Forwarded o nc i d m
      → i ≢ j
      → get_elem? m.devices j ≡ get_elem? nc.devices j
  Forwarded-ne nc m i j d (inl (n, e)) ne =
      ap (λ (x : NetworkCensored). get_elem? x.devices j) e
      ∙ get_elem?-modify_ne nc.devices i j without_forwarder ne
  Forwarded-ne nc m i j d (inr (f, g, e)) ne =
      ap (λ (x : NetworkCensored). get_elem? x.devices j) e
      ∙ get_elem?-modify_ne nc.devices i j (with_forwarder f) ne

  -- A device that does not wait is not written to.
  pub forward_loop-untouched :
      (is : List ℕ) (j k : ℕ) (base : List NetworkDeviceCensored) (nc : NetworkCensored)
      (c : Client) (w : W) (nc2 : NetworkCensored) (c2 : Client) (w2 : W)
      → AreWaiting k base is
      → IsReached k base nc
      → forward_loop o is nc c w ≡ (ok nc2, c2, w2)
      → contains is j ≡ false
      → get_elem? nc2.devices j ≡ get_elem? nc.devices j
  unfolding forward_loop
  forward_loop-untouched [] j k base nc c w nc2 c2 w2 waiting reached h e =
      ap (λ (x : NetworkCensored). get_elem? x.devices j)
        (sym (ok-injective nc nc2 (ap (λ r. r.0) h)))
  forward_loop-untouched (i ∷ is) j k base nc c w nc2 c2 w2 waiting reached h e =
      let (d, m, w3, there, waits, step, next, rest) =
        forward_loop-step o i is k base nc c w nc2 c2 w2 waiting reached h in
      forward_loop-untouched is j (suc i) base m c w3 nc2 c2 w2 waiting.2 next rest (listed_later e)
      ∙ Forwarded-ne nc m i j d step (λ q. other e q)
    where
      listed_later : contains (i ∷ is) j ≡ false → contains is j ≡ false
      listed_later e = ground arith

      other : contains (i ∷ is) j ≡ false → i ≡ j → ⊥
      other e q = ground arith

  forwarded-at :
      (nc m : NetworkCensored) (i f : ℕ) (x : NetworkDeviceCensored)
      → get_elem? nc.devices i ≡ some x
      → m ≡ set_device nc i (with_forwarder f)
      → get_elem? m.devices i ≡ some (with_forwarder f x)
  forwarded-at nc m i f x there s =
      ap (λ (y : NetworkCensored). get_elem? y.devices i) s
      ∙ get_elem?-modify_self nc.devices i (with_forwarder f) x there

  -- A device that waits, and is as it was when the loop ends, has no forwarder before the loop.
  pub forward_loop-alone :
      (is : List ℕ) (j k : ℕ) (base : List NetworkDeviceCensored) (nc : NetworkCensored)
      (c : Client) (w : W) (nc2 : NetworkCensored) (c2 : Client) (w2 : W)
      (d : NetworkDeviceCensored)
      → AreWaiting k base is
      → IsReached k base nc
      → forward_loop o is nc c w ≡ (ok nc2, c2, w2)
      → contains is j ≡ true
      → get_elem? base j ≡ some d
      → get_elem? nc2.devices j ≡ some d
      → (n : ℕ) → forwards (get_elem? base n) d.name ≡ false
  forward_loop-alone [] j k base nc c w nc2 c2 w2 d waiting reached h e g g2 n =
      absurd (ground arith)
  forward_loop-alone (i ∷ is) j k base nc c w nc2 c2 w2 d waiting reached h e g g2 n =
      let (x, m, w3, there, waits, step, next, rest) =
        forward_loop-step o i is k base nc c w nc2 c2 w2 waiting reached h in
      elim (Bool-cases (nat_beq i j)) [
        | inr ne ↦
            forward_loop-alone is j (suc i) base m c w3 nc2 c2 w2 d waiting.2 next rest (later ne e)
              g g2 n
        | inl same ↦
            let q = (nat_beq_iff i j).0 same in
            let mine = some-injective (sym there ∙ (ap (get_elem? base) q ∙ g)) in
            elim step [
              | inl (none_forwards, p) ↦ still_forwards k n base nc d.name reached (
                  subst
                    (λ (y : NetworkDeviceCensored).
                      forwards (get_elem? nc.devices n) y.name ≡ false)
                    mine (none_forwards n))
              | inr (f, p, s) ↦
                  let gone =
                    forward_loop-untouched is i (suc i) base m c w3 nc2 c2 w2 waiting.2 next rest
                      (AreWaiting-contains (suc i) i base is waiting.2 (omega arith)) in
                  let given = some-injective (
                    sym (forwarded-at nc m i f x (reached.untouched i waiting.0 ∙ there) s)
                    ∙ (sym gone ∙ (ap (get_elem? nc2.devices) q ∙ g2))) in
                  absurd (
                    true_ne (
                      ap (λ (y : NetworkDeviceCensored). y.forwarder_and_endpoint_chosen)
                        (given ∙ sym mine)
                      ∙ waits))
            ]
      ]
    where
      later : nat_beq i j ≡ false → contains (i ∷ is) j ≡ true → contains is j ≡ true
      later ne e = ground arith
