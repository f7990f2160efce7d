-- ===== src/System/Choosing.antt =====
-- `chooseEndpoints` of device/client.go as the coordination server sees it: what it writes, `Equal`
-- does not compare.
use qrystal.Prelude.{
  ℕ, ◌≡◌, refl, sym, ap, ap₂, ◌∙◌, inl, inr, subst, Option, List, [], ◌∷◌, map, get_elem?, modify,
  length, ok, or_panic, ok-injective, Option-cases, ℤ, map-modify, panicked_ne,
}
use qrystal.Text.{Bytes}
use qrystal.Spec.{NetworkDeviceCensored, NetworkCensored, get_device_censored_index}
use qrystal.Spec.Equal.{canonical_device, canonical_network, canonical_network-devices}
use qrystal.Spec.Resolve.{get_forwarders_for}
use qrystal.Spec.Resolve.Best.{HasChosen, choose_endpoint-HasChosen}
use qrystal.Device.{bind-ok, Client, Outside, ◌>>>=◌}
use qrystal.Device.Endpoints.{
  without_forwarder, with_forwarder, set_device, draw, forward_one, forward_loop, choose_loop,
  choose_endpoints,
}
use qrystal.Device.Endpoints.Laws.{IsChosen, AreChosen, choose_loop-IsLooped}
use qrystal.Device.Endpoints.Loop.{with_drawn, forward_one_none, forward_one_some}
use qrystal.Device.Endpoints.Settled.{
  scores, go_on, choose_endpoints-missing, choose_endpoints-found,
}

chosen-canonical :
    (score : Bytes → Option ℤ) (d e : NetworkDeviceCensored)
    → IsChosen score d e
    → canonical_device e ≡ canonical_device d
unfolding canonical_device
chosen-canonical score d e (inl h) = ap canonical_device h
chosen-canonical score d e (inr h) =
    let (k, v, f, l, q) = subst (HasChosen score d) h (choose_endpoint-HasChosen score d) in
    ap canonical_device q

AreChosen-canonical :
    (score : Bytes → Option ℤ) (ds es : List NetworkDeviceCensored)
    → AreChosen score ds es
    → map canonical_device es ≡ map canonical_device ds
AreChosen-canonical score [] [] h = refl
AreChosen-canonical score [] (e ∷ es) h = absurd h
AreChosen-canonical score (d ∷ ds) [] h = absurd h
AreChosen-canonical score (d ∷ ds) (e ∷ es) (h, hs) =
    ap₂ (◌∷◌) (chosen-canonical score d e h) (AreChosen-canonical score ds es hs)

set_device-canonical :
    (nc : NetworkCensored) (i : ℕ) (f : NetworkDeviceCensored → NetworkDeviceCensored)
    → ((d : NetworkDeviceCensored) → canonical_device (f d) ≡ canonical_device d)
    → canonical_network (set_device nc i f) ≡ canonical_network nc
set_device-canonical nc i f h =
    canonical_network-devices nc (modify nc.devices i f)
      (map-modify f canonical_device nc.devices i h)

without_forwarder-canonical :
    (nc : NetworkCensored) (i : ℕ)
    → canonical_network (set_device nc i without_forwarder) ≡ canonical_network nc
unfolding canonical_device
without_forwarder-canonical nc i = set_device-canonical nc i without_forwarder (λ d. refl)

with_forwarder-canonical :
    (nc : NetworkCensored) (i f : ℕ)
    → canonical_network (set_device nc i (with_forwarder f)) ≡ canonical_network nc
unfolding canonical_device
with_forwarder-canonical nc i f = set_device-canonical nc i (with_forwarder f) (λ d. refl)

module _ {W S : Type 0} (o : Outside W) (observe : W → S)
    (keeps : (n : ℕ) (w : W) → observe (o.intn n w).1 ≡ observe w) where
  -- The client and what is observed outside are as before, and the network is, to `Equal`.
  abbrev pub IsKept : NetworkCensored → Client → W → NetworkCensored → Client → W → Type 0
  IsKept nc c w nc2 c2 w2 =
      (c2 ≡ c) × (observe w2 ≡ observe w) × (canonical_network nc2 ≡ canonical_network nc)

  draw-keeps :
      (fs : List ℕ) (c : Client) (w : W) (f : ℕ) (c2 : Client) (w2 : W)
      → draw o fs c w ≡ (ok f, c2, w2)
      → (c2 ≡ c) × (observe w2 ≡ observe w)
  unfolding draw
  draw-keeps fs c w f c2 w2 h =
      (sym (ap (λ r. r.1) h), ap observe (sym (ap (λ r. r.2) h)) ∙ keeps (length fs) w)

  forward_one-IsKept :
      (nc : NetworkCensored) (i : ℕ) (d : NetworkDeviceCensored) (c : Client) (w : W)
      (nc2 : NetworkCensored) (c2 : Client) (w2 : W)
      → forward_one o nc i d c w ≡ (ok nc2, c2, w2)
      → IsKept nc c w nc2 c2 w2
  forward_one-IsKept nc i d c w nc2 c2 w2 h = from_list (get_forwarders_for nc d.name) refl
    where
      from_list : (fs : List ℕ) → get_forwarders_for nc d.name ≡ fs → IsKept nc c w nc2 c2 w2
      from_list [] e =
          let q = sym (forward_one_none o nc i d c w e) ∙ h in
          (
            sym (ap (λ r. r.1) q),
            ap observe (sym (ap (λ r. r.2) q)),
            ap canonical_network (sym (ok-injective _ _ (ap (λ r. r.0) q)))
                ∙ without_forwarder-canonical nc i,
          )
      from_list (f ∷ fs) e =
          let (x, c1, w1, p, q) =
            bind-ok (draw o (f ∷ fs) c w) (with_drawn o nc i) nc2 c2 w2
              (sym (forward_one_some o nc i d c w f fs e) ∙ h) in
          let (same, seen) = draw-keeps (f ∷ fs) c w x c1 w1 p in
          (
            sym (ap (λ r. r.1) q) ∙ same,
            ap observe (sym (ap (λ r. r.2) q)) ∙ seen,
            ap canonical_network (sym (ok-injective _ _ (ap (λ r. r.0) q)))
                ∙ with_forwarder-canonical nc i x,
          )

  forward_loop-IsKept :
      (is : List ℕ) (nc : NetworkCensored) (c : Client) (w : W) (nc2 : NetworkCensored)
      (c2 : Client) (w2 : W)
      → forward_loop o is nc c w ≡ (ok nc2, c2, w2)
      → IsKept nc c w nc2 c2 w2
  unfolding forward_loop
  forward_loop-IsKept [] nc c w nc2 c2 w2 h = (
    sym (ap (λ r. r.1) h),
    ap observe (sym (ap (λ r. r.2) h)),
    ap canonical_network (sym (ok-injective nc nc2 (ap (λ r. r.0) h))),
  )
  forward_loop-IsKept (i ∷ is) nc c w nc2 c2 w2 h =
      let (x, c1, w1, p, q) =
        bind-ok (or_panic (get_elem? nc.devices i), c, w)
          (λ ndc. forward_one o nc i ndc >>>= (λ more. forward_loop o is more)) nc2 c2 w2 h in
      let (m, c3, w3, p2, q2) =
        bind-ok (forward_one o nc i x c1 w1) (λ more. forward_loop o is more) nc2 c2 w2 q in
      let (same, seen, canonical) = forward_one-IsKept nc i x c1 w1 m c3 w3 p2 in
      let (same2, seen2, canonical2) = forward_loop-IsKept is m c3 w3 nc2 c2 w2 q2 in
      (
        same2 ∙ (same ∙ sym (ap (λ r. r.1) p)),
        seen2 ∙ (seen ∙ ap observe (sym (ap (λ r. r.2) p))),
        canonical2 ∙ canonical,
      )

  pub choose_endpoints-IsKept :
      (nc : NetworkCensored) (c : Client) (w : W) (nc2 : NetworkCensored) (c2 : Client) (w2 : W)
      → choose_endpoints o nc c w ≡ (ok nc2, c2, w2)
      → IsKept nc c w nc2 c2 w2
  choose_endpoints-IsKept nc c w nc2 c2 w2 h =
      elim (Option-cases (get_device_censored_index nc c.device)) [
        | inl e ↦
            absurd (panicked_ne (ap (λ r. r.0) (sym (choose_endpoints-missing o nc c w e) ∙ h)))
        | inr (i, e) ↦
            let (loop, c1, w1, p, q) =
              bind-ok (choose_loop (scores o nc c w) i 0 nc.devices, c, w) (go_on o nc c w) nc2 c2
                w2 (sym (choose_endpoints-found o nc c w i e) ∙ h) in
            let (chosen, _) =
              choose_loop-IsLooped (scores o nc c w) i 0 nc.devices loop (ap (λ r. r.0) p) in
            let (same, seen, canonical) =
              forward_loop-IsKept loop.1 (record nc { devices = loop.0 }) c1 w1 nc2 c2 w2 q in
            (
              same ∙ sym (ap (λ r. r.1) p),
              seen ∙ ap observe (sym (ap (λ r. r.2) p)),
              canonical
                  ∙ canonical_network-devices nc loop.0
                      (AreChosen-canonical (scores o nc c w) nc.devices loop.0 chosen),
            )
      ]
