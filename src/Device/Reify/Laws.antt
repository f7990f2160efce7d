-- ===== src/Device/Reify/Laws.antt =====
-- `ReifySpec` of device/client.go and `Step` of device/continuous.go: what has happened when they
-- succeed.
use qrystal.Prelude.{
  ℕ, ◌≡◌, refl, ◌⊎◌, sym, ap, ◌∙◌, Bool, true, false, none, some, [], ◌∷◌, arith, Outcome, ok,
  failed, panicked, ok-injective, inl, inr, Bool-cases, Option-cases, panicked_ne, ap₂, ◌>>=◌,
  Option, nat_beq, nat_beq_iff,
}
use qrystal.Goal.Machine.{Machine}
use qrystal.Spec.{NetworkCensored, get_device_censored_index}
use qrystal.Spec.Compile.{compile_machine}
use qrystal.Device.{
  bind-ok, Client, Outside, bind, ◌>>>=◌, succeed, latest_body, Body, other_body, spec_body,
}
use qrystal.Coord.{get_latest}
use qrystal.Device.Requests.{post_reify_status_of, get_latest_of, get_spec_of, request, read_latest}
use qrystal.Device.Endpoints.{choose_endpoints}
use qrystal.Device.Reify.{
  set_private_key, update_dns_of, compile, apply, install, reify_spec, update_my_keys,
  patch_accessible, ContinuousClient, step, settle, put_addresses,
}

module _ {W : Type 0} (o : Outside W) where
  -- The client held a network `nc` alone, the machine compiled from it, with the private key of the
  -- client, was applied, and then the status was reported, with `nc`, and answered; but the device
  -- of the client has its addresses, in the report and in the network that the client `c2` holds, as
  -- the applier has left them.
  abbrev pub IsApplied : Client → W → Bool → Type 0
  IsApplied c2 w2 latest =
      (nc : NetworkCensored) × (i : ℕ) × (gm : Machine) × (keyed : Machine) × (left : Machine)
      × (b : Bool) × (w0 w1 : W) × (get_device_censored_index nc c2.device ≡ some i)
      × (compile_machine (record { networks = nc ∷ [] }) c2.device true ≡ ok gm)
      × (set_private_key gm c2.private_key ≡ ok keyed)
      × (o.apply_machine keyed w0 ≡ (ok b, left, w1))
      × (c2.spec ≡ record { networks = put_addresses nc i left ∷ [] })
      × (post_reify_status_of o (put_addresses nc i left) c2 w1 ≡ (ok latest, c2, w2))

  -- An application that succeeds.
  pub apply-ok :
      (nc : NetworkCensored) (i : ℕ) (gm : Machine) (c : Client) (w : W) (nc2 : NetworkCensored)
      (c2 : Client) (w2 : W)
      → apply o nc i gm c w ≡ (ok nc2, c2, w2)
      → (b : Bool) × (left : Machine) × (o.apply_machine gm w ≡ (ok b, left, w2))
        × (nc2 ≡ put_addresses nc i left)
        × (c2 ≡ record c { spec = record { networks = put_addresses nc i left ∷ [] } })
  unfolding apply
  apply-ok nc i gm c w nc2 c2 w2 h =
      by_outcome (o.apply_machine gm w).0 (o.apply_machine gm w).1 refl h
    where
      by_outcome :
          (done : Outcome Bool) (left : Machine)
          → o.apply_machine gm w ≡ (done, left, (o.apply_machine gm w).2)
          → ◌≡◌ {A = Outcome NetworkCensored × Client × W}
              (
                done >>= (λ b. ok (put_addresses nc i left)),
                record c { spec = record { networks = put_addresses nc i left ∷ [] } },
                (o.apply_machine gm w).2,
              )
              (ok nc2, c2, w2)
          → (b : Bool) × (left : Machine) × (o.apply_machine gm w ≡ (ok b, left, w2))
            × (nc2 ≡ put_addresses nc i left)
            × (c2 ≡ record c { spec = record { networks = put_addresses nc i left ∷ [] } })
      by_outcome (ok b) left e q = (
        b,
        left,
        e ∙ ap (λ x. (ok b, left, x)) (ap (λ r. r.2) q),
        sym (ok-injective (put_addresses nc i left) nc2 (ap (λ r. r.0) q)),
        sym (ap (λ r. r.1) q),
      )
      by_outcome failed left e q = absurd (ground arith)
      by_outcome panicked left e q = absurd (ground arith)

  pub succeed-ok :
      (r : Bool × W) (c : Client) (b : Bool) (c2 : Client) (w2 : W)
      → succeed r c ≡ (ok b, c2, w2)
      → (r ≡ (true, w2)) × (c2 ≡ c)
  succeed-ok (true, w) c b c2 w2 h = (ap (λ x. (true, x.2)) h, sym (ap (λ x. x.1) h))
  succeed-ok (false, w) c b c2 w2 h = absurd (ground arith)

  pub update_dns-keeps :
      (c : Client) (w : W) (b : Bool) (c2 : Client) (w2 : W)
      → update_dns_of o c w ≡ (ok b, c2, w2)
      → c2 ≡ c
  unfolding update_dns_of
  update_dns-keeps c w b c2 w2 h = sym (ap (λ x. x.1) h) ∙ same (Bool-cases c.has_dns)
    where
      same : (c.has_dns ≡ true) ⊎ (c.has_dns ≡ false) → (update_dns_of o c w).1 ≡ c
      same (inl e) = rw e refl
      same (inr e) = rw e refl

  post-keeps :
      (nc : NetworkCensored) (c : Client) (w : W) (b : Bool) (c2 : Client) (w2 : W)
      → post_reify_status_of o nc c w ≡ (ok b, c2, w2)
      → c2 ≡ c
  unfolding post_reify_status_of
  post-keeps nc c w b c2 w2 h = sym (ap (λ x. x.1) h)

  pub compile-ok :
      (c : Client) (w : W) (keyed : Machine) (c2 : Client) (w2 : W)
      → compile o c w ≡ (ok keyed, c2, w2)
      → (gm : Machine) × (compile_machine c.spec c.device true ≡ ok gm)
        × (set_private_key gm c.private_key ≡ ok keyed)
        × (c2 ≡ c)
  unfolding compile
  compile-ok c w keyed c2 w2 h =
      let (gm, c1, w1, p, q) =
        bind-ok (compile_machine c.spec c.device true, c, w)
          (λ gm c w. (set_private_key gm c.private_key, c, w)) keyed c2 w2 h in
      (
        gm,
        ap (λ x. x.0) p,
        ap (λ x. set_private_key gm x.1.private_key) p ∙ ap (λ x. x.0) q,
        sym (ap (λ x. x.1) q) ∙ sym (ap (λ x. x.1) p),
      )

  -- The steps of `install` behind the lookup of the device.
  installed :
      (nc : NetworkCensored) (i : ℕ) (c : Client) (w : W) (b : Bool) (c2 : Client) (w2 : W)
      → bind
          (update_dns_of o c w)
          (λ updated. compile o >>>= (λ gm. apply o nc i gm >>>= (λ nc. post_reify_status_of o nc)))
        ≡ (ok b, c2, w2)
      → c.spec ≡ record { networks = nc ∷ [] }
      → get_device_censored_index nc c.device ≡ some i
      → IsApplied c2 w2 b
  installed nc i c w b c2 w2 h e at =
      let (u, cu, wu, pu, qu) = bind-ok (update_dns_of o c w) _ b c2 w2 h in
      let (keyed, ck, wk, pk, qk) = bind-ok (compile o cu wu) _ b c2 w2 qu in
      let (nc2, ca, wa, pa, qa) = bind-ok (apply o nc i keyed ck wk) _ b c2 w2 qk in
      let (gm, r, t, same) = compile-ok cu wu keyed ck wk pk in
      let (done, left, ran, same_nc, same_a) = apply-ok nc i keyed ck wk nc2 ca wa pa in
      let same_2 = post-keeps nc2 ca wa b c2 w2 qa in
      let kept : cu ≡ c = update_dns-keeps c w u cu wu pu in
      let device : c2.device ≡ c.device =
        ap (λ (x : Client). x.device) (same_2 ∙ same_a)
        ∙ ap (λ (x : Client). x.device) (same ∙ kept) in
      let key : c2.private_key ≡ cu.private_key =
        ap (λ (x : Client). x.private_key) (same_2 ∙ same_a)
        ∙ ap (λ (x : Client). x.private_key) same in
      (
        nc,
        i,
        gm,
        keyed,
        left,
        done,
        wk,
        wa,
        ap (get_device_censored_index nc) device ∙ at,
        ap₂ (λ sc name. compile_machine sc name true) (sym (ap (λ (x : Client). x.spec) kept ∙ e))
              (device ∙ sym (ap (λ (x : Client). x.device) kept))
            ∙ r,
        ap (set_private_key gm) key ∙ t,
        ran,
        ap (λ (x : Client). x.spec) (same_2 ∙ same_a),
        ap (λ (n : NetworkCensored). post_reify_status_of o n c2 wa) (sym same_nc)
            ∙ (ap (λ (x : Client). post_reify_status_of o nc2 x wa) same_2 ∙ qa),
      )

  pub install-missing :
      (nc : NetworkCensored) (c : Client) (w : W)
      → get_device_censored_index nc c.device ≡ none
      → install o nc c w ≡ (panicked, c, w)
  unfolding install
  install-missing nc c w e = rw (e, install) refl

  abbrev pub holding : NetworkCensored → Client → Client
  holding nc c = record c { spec = record { networks = nc ∷ [] } }

  pub install-found :
      (nc : NetworkCensored) (c : Client) (w : W) (i : ℕ)
      → get_device_censored_index nc c.device ≡ some i
      → install o nc c w
        ≡ bind (update_dns_of o (holding nc c) w) (λ updated.
          compile o >>>= (λ gm. apply o nc i gm >>>= (λ nc. post_reify_status_of o nc)))
  unfolding install
  install-found nc c w i e = rw (e, install) refl

  install-IsApplied :
      (nc : NetworkCensored) (c : Client) (w : W) (b : Bool) (c2 : Client) (w2 : W)
      → install o nc c w ≡ (ok b, c2, w2)
      → IsApplied c2 w2 b
  install-IsApplied nc c w b c2 w2 h = elim (Option-cases (get_device_censored_index nc c.device)) [
    | inl e ↦ absurd (panicked_ne (ap (λ x. x.0) (sym (install-missing nc c w e) ∙ h)))
    | inr e ↦
        let (i, q) = e in
        installed nc i (holding nc c) w b c2 w2 (sym (install-found nc c w i q) ∙ h) refl q
  ]

  -- When `ReifySpec` succeeds, the machine compiled from one network was applied with the private key
  -- of the client, and then the server answered the report of that network with the result; in the
  -- report, and in the network that the client holds, its device has its addresses as the applier
  -- has left them.
  pub reify_spec-IsApplied :
      (c : Client) (w : W) (latest : Bool) (c2 : Client) (w2 : W)
      → reify_spec o c w ≡ (ok latest, c2, w2)
      → IsApplied c2 w2 latest
  unfolding reify_spec
  reify_spec-IsApplied c w latest c2 w2 h =
      let (nc0, c0, w0, p0, q0) = bind-ok (get_spec_of o c w) _ latest c2 w2 h in
      let (nc1, c1, w1, p1, q1) = bind-ok (update_my_keys o nc0 c0 w0) _ latest c2 w2 q0 in
      let (nc2, c3, w3, p2, q2) = bind-ok (choose_endpoints o nc1 c1 w1) _ latest c2 w2 q1 in
      let (nc3, c4, w4, p3, q3) = bind-ok (patch_accessible o nc2 c3 w3) _ latest c2 w2 q2 in
      install-IsApplied nc3 c4 w4 latest c2 w2 q3

  first_of : Outcome (Bool × Bool) → Outcome Bool
  first_of (ok (b, u)) = ok b
  first_of failed = failed
  first_of panicked = panicked

  pub settle-ok :
      (old upd : Bool) (r : Outcome Bool × Client × W) (latest updated : Bool)
      (t : ContinuousClient) (w2 : W)
      → settle o old upd r ≡ (ok (latest, updated), t, w2)
      → (r ≡ (ok latest, t.client, w2)) × (t.latest ≡ latest) × (updated ≡ upd)
  unfolding first_of
  settle-ok old upd (ok b, c, w) latest updated t w2 h =
      let e = ok-injective (b, upd) (latest, updated) (ap (λ x. x.0) h) in
      (
        ap (λ x. (first_of x.0, x.1.client, x.2)) h,
        sym (ap (λ x. x.1.latest) h) ∙ ap (λ p. p.0) e,
        sym (ap (λ p. p.1) e),
      )
  settle-ok old upd (failed, c, w) latest updated t w2 h = absurd (ground arith)
  settle-ok old upd (panicked, c, w) latest updated t w2 h = absurd (ground arith)

  pub step-asks :
      (s : ContinuousClient) (w : W)
      → s.latest ≡ true
      → settle o true false (get_latest_of o s.client w) ≡ step o s w
  unfolding step
  step-asks s w e = rw (e, step) refl

  pub step-reifies :
      (s : ContinuousClient) (w : W)
      → s.latest ≡ false
      → settle o false true (reify_spec o s.client w) ≡ step o s w
  unfolding step
  step-reifies s w e = rw (e, step) refl

  read_latest-ok :
      (r : Option (ℕ × Body)) (b : Bool) → read_latest r ≡ ok b → r ≡ some (200, latest_body b)
  read_latest-ok none b h = absurd (ground arith)
  read_latest-ok (some (code, spec_body nc)) b h = absurd (ground arith)
  read_latest-ok (some (code, other_body)) b h = absurd (ground arith)
  read_latest-ok (some (code, latest_body x)) b h = elim (Bool-cases (nat_beq code 200)) [
    | inl e ↦
        let same : x ≡ b = ok-injective x b (ground arith) in
        ap₂ (λ n y. some (n, latest_body y)) ((nat_beq_iff code 200).0 e) same
    | inr e ↦ absurd (ground arith)
  ]

  get_latest_of-asked :
      (c : Client) (w : W) (latest : Bool) (c2 : Client) (w2 : W)
      → get_latest_of o c w ≡ (ok latest, c2, w2)
      → o.http (request c get_latest) w ≡ (some (200, latest_body latest), w2)
  unfolding get_latest_of
  get_latest_of-asked c w latest c2 w2 h =
      ap₂ (λ r x. (r, x))
        (read_latest-ok (o.http (request c get_latest) w).0 latest (ap (λ r. r.0) h))
        (ap (λ r. r.2) h)

  -- `Step` asks the server while the client is up to date, and reifies the specification otherwise.
  -- If it succeeds with `updated`, the machine was applied and reported as above; if without, the
  -- client was up to date and is as it was, and the server has answered its `GET …/latest` with the
  -- result. In both cases the client is up to date afterwards exactly as the result says.
  pub step-cases :
      (s t : ContinuousClient) (w w2 : W) (latest updated : Bool)
      → step o s w ≡ (ok (latest, updated), t, w2)
      → (t.latest ≡ latest)
        × (((updated ≡ true) × (s.latest ≡ false) × IsApplied t.client w2 latest)
            ⊎ ((updated ≡ false)
                × (s.latest ≡ true)
                × (t.client ≡ s.client)
                × (o.http (request s.client get_latest) w ≡ (some (200, latest_body latest), w2))))
  unfolding get_latest_of
  step-cases s t w w2 latest updated h = elim (Bool-cases s.latest) [
    | inl e ↦
        let (r, l, u) =
          settle-ok true false (get_latest_of o s.client w) latest updated t w2
            (step-asks s w e ∙ h) in
        (l, inr (u, e, ap (λ x. x.1) (sym r), get_latest_of-asked s.client w latest t.client w2 r))
    | inr e ↦
        let (r, l, u) =
          settle-ok false true (reify_spec o s.client w) latest updated t w2
            (step-reifies s w e ∙ h) in
        (l, inl (u, e, reify_spec-IsApplied s.client w latest t.client w2 r))
  ]
