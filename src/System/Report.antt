-- ===== src/System/Report.antt =====
-- The end of `ReifySpec` against the coordination server: the machine is applied, which the server
-- does not see, and the network is reported.
use qrystal.Prelude.{
  ◌≡◌, ◌⊎◌, inl, inr, refl, sym, ap, ◌∙◌, Bool, true, false, ok, Option-cases, Bool-cases,
  panicked_ne, ap₂, subst, ℕ, ◌∷◌, [], some,
}
use qrystal.Text.{Bytes}
use qrystal.Spec.{NetworkCensored, get_device_censored_index}
use qrystal.Device.{bind-ok, Client, Outside, bind, ◌>>>=◌}
use qrystal.Device.Requests.{post_reify_status_of}
use qrystal.Device.Reify.{set_private_key, update_dns_of, compile, apply, install, put_addresses}
use qrystal.Device.Reify.Laws.{
  holding, compile-ok, update_dns-keeps, apply-ok, install-missing, install-found,
}
use qrystal.System.{Json, Connection, own_addresses, sorted_own}
use qrystal.Goal.Machine.{Machine}
use qrystal.Coord.{Server}
use qrystal.Spec.Compile.{compile_machine}
use qrystal.System.Keys.{IsSameDevice}
use qrystal.System.Applying.{put_addresses_same}
use qrystal.System.Networks.{view_is_plain}

module _ {W : Type 0} (sha_256 : Bytes → Bytes) (json : Json) (o : Outside W)
    (connection : Connection sha_256 json o) where
  abbrev server : W → Server
  server = connection.server

  -- The report of the network, by the client of the same device with the same key, before which the
  -- server was as at the start.
  abbrev pub IsReported : NetworkCensored → Client → W → Bool → Client → W → Type 0
  IsReported nc c w latest c2 w2 =
      (w1 : W) × (c1 : Client) × (server w1 ≡ server w)
      × IsSameDevice c c1
      × (c1.private_key ≡ c.private_key)
      × (post_reify_status_of o nc c1 w1 ≡ (ok latest, c2, w2))

  update_dns-server :
      (c : Client) (w : W) (b : Bool) (c2 : Client) (w2 : W)
      → update_dns_of o c w ≡ (ok b, c2, w2)
      → server w2 ≡ server w
  unfolding update_dns_of
  update_dns-server c w b c2 w2 h = ap server (sym (ap (λ r. r.2) h)) ∙ same (Bool-cases c.has_dns)
    where
      same : (c.has_dns ≡ true) ⊎ (c.has_dns ≡ false) → server (update_dns_of o c w).2 ≡ server w
      same (inl e) = rw e (connection.keeps_dns c.spec w)
      same (inr e) = rw e refl

  compile-server :
      (c : Client) (w : W) (gm : Machine) (c2 : Client) (w2 : W)
      → compile o c w ≡ (ok gm, c2, w2)
      → server w2 ≡ server w
  unfolding compile
  compile-server c w gm c2 w2 h =
      let (made, c1, w1, p, q) =
        bind-ok (compile_machine c.spec c.device true, c, w)
          (λ gm c w. (set_private_key gm c.private_key, c, w)) gm c2 w2 h in
      ap server (sym (ap (λ x. x.2) q) ∙ sym (ap (λ x. x.2) p))

  -- The steps of `install` behind the lookup of the device.
  applied :
      (nc : NetworkCensored) (i : ℕ) (c : Client) (w : W) (latest : Bool) (c2 : Client) (w2 : W)
      → bind
          (update_dns_of o (holding o nc c) w)
          (λ updated. compile o >>>= (λ gm. apply o nc i gm >>>= (λ nc. post_reify_status_of o nc)))
        ≡ (ok latest, c2, w2)
      → view_is_plain nc ≡ true
      → get_device_censored_index nc c.device ≡ some i
      → IsReported nc c w latest c2 w2
  unfolding apply
  applied nc i c w latest c2 w2 h plain at =
      let (u, cu, wu, pu, qu) = bind-ok (update_dns_of o (holding o nc c) w) _ latest c2 w2 h in
      let (keyed, ck, wk, pk, qk) = bind-ok (compile o cu wu) _ latest c2 w2 qu in
      let (nc2, ca, wa, pa, qa) = bind-ok (apply o nc i keyed ck wk) _ latest c2 w2 qk in
      let (gm, r, t, same_k) = compile-ok o cu wu keyed ck wk pk in
      let (done, left, ran, same_nc, same_a) = apply-ok o nc i keyed ck wk nc2 ca wa pa in
      let held : cu ≡ holding o nc c = update_dns-keeps o (holding o nc c) w u cu wu pu in
      let unsorted : put_addresses nc i left ≡ nc =
        put_addresses_same nc c.device gm keyed left cu.private_key i plain at
          (ap₂ (λ sc name. compile_machine sc name true) (sym (ap (λ (x : Client). x.spec) held))
              (sym (ap (λ (x : Client). x.device) held))
            ∙ r)
          t
          (subst
            (λ x. (own_addresses x ≡ own_addresses keyed) ⊎ (own_addresses x ≡ sorted_own keyed))
            (ap (λ x. x.1) ran) (connection.sorts keyed wk)) in
      let same : ca ≡ holding o nc c =
        same_a
        ∙ (ap₂ (λ (x : Client) n. record x { spec = record { networks = n ∷ [] } }) (same_k ∙ held)
            unsorted) in
      (
        wa,
        ca,
        ap server (sym (ap (λ x. x.2) ran))
            ∙ (connection.keeps_machine keyed wk
                ∙ (compile-server cu wu keyed ck wk pk
                    ∙ update_dns-server (holding o nc c) w u cu wu pu)),
        (ap (λ x. x.network) same, ap (λ x. x.device) same, ap (λ x. x.can_forward) same),
        ap (λ x. x.private_key) same,
        ap (λ n. post_reify_status_of o n ca wa) (sym (same_nc ∙ unsorted)) ∙ qa,
      )

  pub install-IsReported :
      (nc : NetworkCensored) (c : Client) (w : W) (latest : Bool) (c2 : Client) (w2 : W)
      → view_is_plain nc ≡ true
      → install o nc c w ≡ (ok latest, c2, w2)
      → IsReported nc c w latest c2 w2
  install-IsReported nc c w latest c2 w2 plain h =
      elim (Option-cases (get_device_censored_index nc c.device)) [
        | inl e ↦ absurd (panicked_ne (ap (λ x. x.0) (sym (install-missing o nc c w e) ∙ h)))
        | inr (i, e) ↦ applied nc i c w latest c2 w2 (sym (install-found o nc c w i e) ∙ h) plain e
      ]
