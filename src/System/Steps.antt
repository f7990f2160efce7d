-- ===== src/System/Steps.antt =====
-- `Step` of device/continuous.go, over and over, against the coordination server.
use qrystal.System.Networks.{spec_is_plain}
use qrystal.Prelude.{
  ℕ, zero, suc, ◌≡◌, inl, inr, ap₂, ◌∙◌, Bool, true, false, contains, list_eq, nat_eq, Bool-cases,
  ok,
}
use qrystal.Text.{Bytes}
use qrystal.Coord.{Server}
use qrystal.Device.{Client, Outside}
use qrystal.Device.Requests.{get_latest_of}
use qrystal.Device.Reify.{ContinuousClient, reify_spec, step}
use qrystal.Device.Reify.Laws.{settle-ok, step-asks, step-reifies}
use qrystal.System.{Json, Connection}
use qrystal.System.Exchange.{get_latest_of-ok}
use qrystal.System.Settled.{IsCurrent, reify_spec-IsCurrent, reify_spec-latest, reify_spec-marks}

-- So many steps in a row, all of which succeed.
pub data Steps {W : Type 0} (o : Outside W)
    : ℕ → ContinuousClient → W → ContinuousClient → W → Type 0 where
  done : {s : ContinuousClient} {w : W} → Steps o zero s w s w
  more :
      {n : ℕ} {s t u : ContinuousClient} {w w1 w2 : W} (latest updated : Bool)
      → step o s w ≡ (ok (latest, updated), t, w1)
      → Steps o n t w1 u w2
      → Steps o (suc n) s w u w2

module _ {W : Type 0} (sha_256 : Bytes → Bytes) (json : Json) (o : Outside W)
    (connection : Connection sha_256 json o) where
  abbrev server : W → Server
  server = connection.server

  -- The client holds itself to be up to date, and the server does.
  abbrev pub IsCaughtUp : ContinuousClient → W → Type 0
  IsCaughtUp s w =
      (s.latest ≡ true) × (contains ((server w).latest s.client.network) s.client.device ≡ true)

  polled :
      (s t : ContinuousClient) (w w2 : W) (latest updated : Bool)
      → IsCaughtUp s w
      → step o s w ≡ (ok (latest, updated), t, w2)
      → IsCaughtUp t w2
  polled s t w w2 latest updated (held, marked) h =
      let (r, l, _) =
        settle-ok o true false (get_latest_of o s.client w) latest updated t w2
          (step-asks o s w held ∙ h) in
      let (same, kept, answer) =
        get_latest_of-ok sha_256 json o connection s.client t.client w w2 latest r in
      (
        l ∙ (answer ∙ marked),
        ap₂ (λ (x : Server) (c : Client). contains (x.latest c.network) c.device) kept same
            ∙ marked,
      )

  pub reified :
      (s t : ContinuousClient) (w w2 : W) (latest updated : Bool)
      → s.latest ≡ false
      → step o s w ≡ (ok (latest, updated), t, w2)
      → (reify_spec o s.client w ≡ (ok latest, t.client, w2)) × (t.latest ≡ latest)
  reified s t w w2 latest updated behind h =
      let (r, l, _) =
        settle-ok o false true (reify_spec o s.client w) latest updated t w2
          (step-reifies o s w behind ∙ h) in
      (r, l)

  caught_up :
      (s t : ContinuousClient) (w w2 : W) (latest updated : Bool)
      → s.latest ≡ false
      → spec_is_plain (server w).spec ≡ true
      → latest ≡ true
      → step o s w ≡ (ok (latest, updated), t, w2)
      → IsCaughtUp t w2
  caught_up s t w w2 latest updated behind n accepted h =
      let (r, l) = reified s t w w2 latest updated behind h in
      (
        l ∙ accepted,
        reify_spec-marks sha_256 json o connection s.client w latest t.client w2 n r accepted,
      )

  Steps-IsCaughtUp :
      (n : ℕ) (s t : ContinuousClient) (w w2 : W)
      → IsCaughtUp s w
      → Steps o n s w t w2
      → IsCaughtUp t w2
  Steps-IsCaughtUp zero s t w w2 h done = h
  Steps-IsCaughtUp (suc n) s t w w2 h (more latest updated e steps) =
      Steps-IsCaughtUp n _ t _ w2 (polled s _ w _ latest updated h e) steps

  -- The second step of a client whose first was not accepted.
  step-IsCaughtUp :
      (s t : ContinuousClient) (w w2 : W) (latest updated : Bool)
      → s.latest ≡ false
      → IsCurrent sha_256 json o connection s.client w
      → step o s w ≡ (ok (latest, updated), t, w2)
      → IsCaughtUp t w2
  step-IsCaughtUp s t w w2 latest updated behind current h =
      caught_up s t w w2 latest updated behind current.2
        (reify_spec-latest sha_256 json o connection s.client w latest t.client w2 current
          (reified s t w w2 latest updated behind h).0)
        h

-- Let a client that does not forward, and does not hold itself to be up to date, be the only one
-- that asks the server, let each device of the specification list one address at most, which is a
-- network, and let all its texts be ASCII. Behind every number of steps, two or more, all of which
-- succeed, the client holds itself to be up to date, and the server holds it to be, too.
pub two_steps-IsCaughtUp :
    {W : Type 0} (sha_256 : Bytes → Bytes) (json : Json) (o : Outside W)
    (connection : Connection sha_256 json o) (n : ℕ) (s t : ContinuousClient) (w w2 : W)
    → s.client.can_forward ≡ false
    → s.latest ≡ false
    → spec_is_plain (connection.server w).spec ≡ true
    → Steps o (suc (suc n)) s w t w2
    → IsCaughtUp sha_256 json o connection t w2
two_steps-IsCaughtUp sha_256 json o connection n s t w w2 quiet behind n0
      (more first u1 e1 (more second u2 e2 steps)) =
    Steps-IsCaughtUp sha_256 json o connection n _ t _ w2
      (elim (Bool-cases first) [
        | inl accepted ↦
            polled sha_256 json o connection _ _ _ _ second u2
              (caught_up sha_256 json o connection s _ w _ first u1 behind n0 accepted e1) e2
        | inr refused ↦
            let (r, l) = reified sha_256 json o connection s _ w _ first u1 behind e1 in
            step-IsCaughtUp sha_256 json o connection _ _ _ _ second u2 (l ∙ refused)
              (reify_spec-IsCurrent sha_256 json o connection s.client w first _ _ quiet n0 r) e2
      ])
      steps
