-- ===== src/System/Settled.antt =====
-- `ReifySpec` of device/client.go against the coordination server: what it leaves, and when its
-- report is accepted.
use qrystal.System.Networks.{spec_is_plain}
use qrystal.Prelude.{
  ◌≡◌, inl, inr, sym, ap, ap₂, ◌∙◌, subst, subst₂, Bool, true, false, ◌==◌, list_eq, nat_eq, ok,
  some-injective, contains,
}
use qrystal.Text.{Bytes}
use qrystal.Goal.Key.{Key, zero_key}
use qrystal.Spec.{Spec, NetworkCensored}
use qrystal.Spec.Equal.{network_equal_iff, canonical_network}
use qrystal.Coord.{Server}
use qrystal.Coord.Lookup.{find_device}
use qrystal.Coord.Effect.{current_view}
use qrystal.Device.{Client, Outside}
use qrystal.Device.Reify.{reify_spec}
use qrystal.System.{Json, Connection}
use qrystal.System.Exchange.{post_reify_status_of-ok}
use qrystal.System.Keys.{IsSameDevice}
use qrystal.System.Held.{
  IsHeld, IsQuiet, IsViewed, IsKeyed-IsHeld, IsKeyed-unchanged, IsReaching-IsQuiet,
  IsReaching-unchanged,
}
use qrystal.System.Stages.{IsStaged, reify_spec-IsStaged}

module _ {W : Type 0} (sha_256 : Bytes → Bytes) (json : Json) (o : Outside W)
    (connection : Connection sha_256 json o) where
  abbrev server : W → Server
  server = connection.server

  abbrev spec_of : W → Spec
  spec_of w = (server w).spec

  IsViewed-same :
      (spec spec2 : Spec) (c c2 : Client) (nc nc2 : NetworkCensored)
      → spec2 ≡ spec
      → IsSameDevice c c2
      → canonical_network nc2 ≡ canonical_network nc
      → IsViewed spec c nc
      → IsViewed spec2 c2 nc2
  IsViewed-same spec spec2 c c2 nc nc2 e same canonical (view, current, equal) = (
    view,
    ap (λ s. current_view s c2.network c2.device) e
        ∙ (ap₂ (λ network device. current_view spec network device) same.0 same.1 ∙ current),
    canonical ∙ equal,
  )

  -- The client and the server behind it, where the client does not forward: the server holds the
  -- public key of the client's private key, and that the device reaches no other one.
  abbrev pub IsCurrent : Client → W → Type 0
  IsCurrent c w =
      ((c.private_key == zero_key) ≡ false)
      × (c.can_forward ≡ false)
      × (spec_is_plain (server w).spec ≡ true)
      × IsQuiet (server w).spec c (o.public_key c.private_key)

  IsQuiet-same :
      (spec spec2 : Spec) (c c2 : Client)
      → spec2 ≡ spec
      → IsSameDevice c c2
      → c2.private_key ≡ c.private_key
      → IsQuiet spec c (o.public_key c.private_key)
      → IsQuiet spec2 c2 (o.public_key c2.private_key)
  IsQuiet-same spec spec2 c c2 e same key (d, found, has, quiet) = (
    d,
    ap (λ s. find_device s c2.network c2.device) e
        ∙ (ap₂ (λ network device. find_device spec network device) same.0 same.1 ∙ found),
    has ∙ ap o.public_key (sym key),
    quiet,
  )

  -- The server behind the stages of a client that does not forward.
  IsStaged-IsQuiet :
      (c : Client) (w : W) (latest : Bool) (c2 : Client) (w2 : W)
      → c.can_forward ≡ false
      → (stages : IsStaged sha_256 json o connection c w latest c2 w2)
      → IsQuiet (spec_of stages.w_patched) stages.client (o.public_key stages.client.private_key)
  IsStaged-IsQuiet c w latest c2 w2 quiet stages =
      let same = stages.is_keyed.same in
      let key = o.public_key stages.client.private_key in
      let seen : spec_of stages.w_chosen ≡ spec_of stages.w_keyed =
        ap (λ (s : Server). s.spec) stages.chosen_server in
      IsReaching-IsQuiet sha_256 json o connection stages.chosen stages.client stages.w_chosen
        stages.patched stages.client stages.w_patched key (same.2 ∙ quiet)
        (elim (IsKeyed-IsHeld sha_256 json o connection stages.got c stages.w_got stages.keyed
          stages.client stages.w_keyed stages.is_viewed stages.is_keyed) [
            | inl (nc_lem, kept, held) ↦ inl (
              IsViewed-same (spec_of stages.w_got) (spec_of stages.w_chosen) c stages.client
                  stages.got stages.chosen (seen ∙ ap (λ (s : Server). s.spec) kept) same
                  (stages.chosen_canonical ∙ ap canonical_network nc_lem) stages.is_viewed,
              subst (λ s. IsHeld s stages.client key) (sym seen) held,
            )
            | inr q ↦ inr (subst (λ s. IsQuiet s stages.client key) (sym seen) q)
          ])
        stages.is_patched

  pub reify_spec-IsCurrent :
      (c : Client) (w : W) (latest : Bool) (c2 : Client) (w2 : W)
      → c.can_forward ≡ false
      → spec_is_plain (spec_of w) ≡ true
      → reify_spec o c w ≡ (ok latest, c2, w2)
      → IsCurrent c2 w2
  reify_spec-IsCurrent c w latest c2 w2 quiet n h =
      let stages = reify_spec-IsStaged sha_256 json o connection c w latest c2 w2 n h in
      let (w1, c1, kept, same, key, sent) = stages.is_reported in
      let (same2, spec_lem, _, _) =
        post_reify_status_of-ok sha_256 json o connection stages.patched c1 c2 w1 w2 latest
          stages.patched_plain sent in
      let same_key : c2.private_key ≡ stages.client.private_key =
        ap (λ (x : Client). x.private_key) same2 ∙ key in
      let same_device : IsSameDevice stages.client c2 =
        subst (IsSameDevice stages.client) (sym same2) same in
      (
        ap (λ (k : Key). k == zero_key) same_key ∙ stages.is_keyed.has_key,
        same_device.2 ∙ (stages.is_keyed.same.2 ∙ quiet),
        subst (λ x. spec_is_plain x ≡ true) (sym (spec_lem ∙ ap (λ (s : Server). s.spec) kept))
            stages.plain_spec,
        IsQuiet-same (spec_of stages.w_patched) (spec_of w2) stages.client c2
            (spec_lem ∙ ap (λ (s : Server). s.spec) kept) same_device same_key
            (IsStaged-IsQuiet c w latest c2 w2 quiet stages),
      )

  -- An accepted report is remembered.
  pub reify_spec-marks :
      (c : Client) (w : W) (latest : Bool) (c2 : Client) (w2 : W)
      → spec_is_plain (spec_of w) ≡ true
      → reify_spec o c w ≡ (ok latest, c2, w2)
      → latest ≡ true
      → contains ((server w2).latest c2.network) c2.device ≡ true
  reify_spec-marks c w latest c2 w2 n h accepted =
      let stages = reify_spec-IsStaged sha_256 json o connection c w latest c2 w2 n h in
      let (w1, c1, _, _, _, sent) = stages.is_reported in
      let (same, _, marked, _) =
        post_reify_status_of-ok sha_256 json o connection stages.patched c1 c2 w1 w2 latest
          stages.patched_plain sent in
      ap (λ (x : Client). contains ((server w2).latest x.network) x.device) same ∙ marked accepted

  pub reify_spec-latest :
      (c : Client) (w : W) (latest : Bool) (c2 : Client) (w2 : W)
      → IsCurrent c w
      → reify_spec o c w ≡ (ok latest, c2, w2)
      → latest ≡ true
  reify_spec-latest c w latest c2 w2 (has_key, quiet, n, held) h =
      let stages = reify_spec-IsStaged sha_256 json o connection c w latest c2 w2 n h in
      let before : spec_of stages.w_got ≡ spec_of w =
        ap (λ (s : Server). s.spec) stages.unchanged in
      let key = o.public_key c.private_key in
      let held_then : IsQuiet (spec_of stages.w_got) c key =
        subst (λ s. IsQuiet s c key) (sym before) held in
      let (nc_lem, same, kept) =
        IsKeyed-unchanged sha_256 json o connection stages.got c stages.w_got stages.keyed
          stages.client stages.w_keyed stages.is_viewed (held_then.0, held_then.1, held_then.2)
          has_key stages.is_keyed in
      let chosen_spec : spec_of stages.w_chosen ≡ spec_of stages.w_got =
        ap (λ (s : Server). s.spec) (stages.chosen_server ∙ kept) in
      let viewed : IsViewed (spec_of stages.w_chosen) stages.client stages.chosen =
        IsViewed-same (spec_of stages.w_got) (spec_of stages.w_chosen) c stages.client stages.got
          stages.chosen chosen_spec stages.is_keyed.same
          (stages.chosen_canonical ∙ ap canonical_network nc_lem) stages.is_viewed in
      let (patched_lem, patched_server) =
        IsReaching-unchanged sha_256 json o connection stages.chosen stages.client stages.w_chosen
          stages.patched stages.client stages.w_patched key (stages.is_keyed.same.2 ∙ quiet) viewed
          (subst₂ (λ s (x : Client). IsQuiet s x key) (sym chosen_spec) (sym same) held_then)
          stages.is_patched in
      let (w1, c1, at_report, same1, key1, sent) = stages.is_reported in
      let (same2, spec_lem, _, (view, current, answer)) =
        post_reify_status_of-ok sha_256 json o connection stages.patched c1 c2 w1 w2 latest
          stages.patched_plain sent in
      let (view0, current0, equal) =
        IsViewed-same (spec_of stages.w_chosen) (spec_of w1) stages.client c1 stages.chosen
          stages.patched (ap (λ (s : Server). s.spec) (at_report ∙ patched_server)) same1
          (ap canonical_network patched_lem) viewed in
      answer
      ∙ (network_equal_iff stages.patched view).1
          (equal ∙ ap canonical_network (some-injective (sym current0 ∙ current)))
