-- ===== src/System/Stages.antt =====
-- The stages of a `ReifySpec` of device/client.go that succeeds against the coordination server.
use qrystal.System.Networks.{
  view_is_plain, spec_is_plain, view_is_plain-equal, current_view-is_plain,
}
use qrystal.Prelude.{◌≡◌, ap, ◌∙◌, subst, subst₂, Bool, true, list_eq, nat_eq, ok}
use qrystal.Text.{Bytes}
use qrystal.Spec.{Spec, NetworkCensored}
use qrystal.Spec.Equal.{canonical_network}
use qrystal.Coord.{Server}
use qrystal.Coord.Effect.{current_view}
use qrystal.Device.{bind-ok, Client, Outside}
use qrystal.Device.Requests.{get_spec_of}
use qrystal.Device.Endpoints.{choose_endpoints}
use qrystal.Device.Reify.{update_my_keys, patch_accessible, reify_spec}
use qrystal.System.{Json, Connection}
use qrystal.System.Exchange.{get_spec_of-ok}
use qrystal.System.Choosing.{choose_endpoints-IsKept}
use qrystal.System.Keys.{IsKeyed, update_my_keys-IsKeyed, IsKeyed-networks}
use qrystal.System.Reaching.{IsReaching, patch_accessible-IsReaching, IsReaching-networks}
use qrystal.System.Held.{IsViewed}
use qrystal.System.Report.{IsReported, install-IsReported}

module _ {W : Type 0} (sha_256 : Bytes → Bytes) (json : Json) (o : Outside W)
    (connection : Connection sha_256 json o) where
  abbrev pub server : W → Server
  server = connection.server

  abbrev pub spec_of : W → Spec
  spec_of w = (server w).spec

  -- The stages of a `ReifySpec` that succeeds: the client is the same from its second stage on.
  pub record IsStaged (c : Client) (w : W) (latest : Bool) (c2 : Client) (w2 : W) : Type 0 where
    pub got : NetworkCensored
    pub keyed : NetworkCensored
    pub chosen : NetworkCensored
    pub patched : NetworkCensored
    pub client : Client
    pub w_got : W
    pub w_keyed : W
    pub w_chosen : W
    pub w_patched : W
    pub unchanged : server w_got ≡ server w
    pub is_viewed : IsViewed (spec_of w_got) c got
    pub is_keyed : IsKeyed sha_256 json o connection got c w_got keyed client w_keyed
    pub chosen_server : server w_chosen ≡ server w_keyed
    pub chosen_canonical : canonical_network chosen ≡ canonical_network keyed
    pub is_patched :
        IsReaching sha_256 json o connection chosen client w_chosen patched client w_patched
    pub plain_spec : spec_is_plain (spec_of w_patched) ≡ true
    pub patched_plain : view_is_plain patched ≡ true
    pub is_reported : IsReported sha_256 json o connection patched client w_patched latest c2 w2

  pub reify_spec-IsStaged :
      (c : Client) (w : W) (latest : Bool) (c2 : Client) (w2 : W)
      → spec_is_plain (spec_of w) ≡ true
      → reify_spec o c w ≡ (ok latest, c2, w2)
      → IsStaged c w latest c2 w2
  unfolding reify_spec
  reify_spec-IsStaged c w latest c2 w2 n h =
      let (nc0, c0, w0, p0, q0) = bind-ok (get_spec_of o c w) _ latest c2 w2 h in
      let (nc1, c1, w1, p1, q1) = bind-ok (update_my_keys o nc0 c0 w0) _ latest c2 w2 q0 in
      let (nc2, c3, w3, p2, q2) = bind-ok (choose_endpoints o nc1 c1 w1) _ latest c2 w2 q1 in
      let (nc3, c4, w4, p3, q3) = bind-ok (patch_accessible o nc2 c3 w3) _ latest c2 w2 q2 in
      let (same, kept, (view, current, canonical)) =
        get_spec_of-ok sha_256 json o connection c c0 w w0 nc0 n p0 in
      let (same3, seen, canonical3) =
        choose_endpoints-IsKept o server connection.keeps_draw nc1 c1 w1 nc2 c3 w3 p2 in
      let reaching = patch_accessible-IsReaching sha_256 json o connection nc2 c3 w3 nc3 c4 w4 p3 in
      let keys : IsKeyed sha_256 json o connection nc0 c w0 nc1 c1 w1 =
        update_my_keys-IsKeyed sha_256 json o connection nc0 c w0 nc1 c1 w1
          (subst (λ x. update_my_keys o nc0 x w0 ≡ (ok nc1, c1, w1)) same p1) in
      let view_plain : view_is_plain nc0 ≡ true =
        view_is_plain-equal nc0 view canonical
        ∙ current_view-is_plain (spec_of w) c.network c.device view n current in
      let (keyed_spec, keyed_view) =
        IsKeyed-networks sha_256 json o connection nc0 c w0 nc1 c1 w1 view_plain
          (ap (λ (s : Server). spec_is_plain s.spec) kept ∙ n) keys in
      let (networks, view_networks) =
        IsReaching-networks sha_256 json o connection nc2 c3 w3 nc3 c4 w4
          (view_is_plain-equal nc2 nc1 canonical3 ∙ keyed_view)
          (ap (λ (s : Server). spec_is_plain s.spec) seen ∙ keyed_spec) reaching in
      let same4 : c4 ≡ c1 = reaching.same ∙ same3 in
      record {
        got = nc0;
        keyed = nc1;
        chosen = nc2;
        patched = nc3;
        client = c1;
        w_got = w0;
        w_keyed = w1;
        w_chosen = w3;
        w_patched = w4;
        unchanged = kept;
        is_viewed = (
          view,
          ap (λ (s : Server). current_view s.spec c.network c.device) kept ∙ current,
          canonical,
        );
        is_keyed = keys;
        plain_spec = networks;
        patched_plain = view_networks;
        chosen_server = seen;
        chosen_canonical = canonical3;
        is_patched =
            subst₂ (λ x y. IsReaching sha_256 json o connection nc2 x w3 nc3 y w4) same3 same4
              reaching;
        is_reported =
            subst (λ x. IsReported sha_256 json o connection nc3 x w4 latest c2 w2) same4
              (install-IsReported sha_256 json o connection nc3 c4 w4 latest c2 w2 view_networks
                q3);
      }
