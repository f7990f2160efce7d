-- ===== src/System/Exchange.antt =====
-- One request of a client, and what the server has done when the client holds it to be accepted.
use qrystal.System.Networks.{view_is_plain, spec_is_plain, current_view-is_plain}
use qrystal.Prelude.{
  ℕ, ◌≡◌, ◌≢◌, inl, inr, refl, sym, ap, ◌∙◌, subst, Bool, true, false, none, some, arith, contains,
  list_eq, nat_eq, ok, ok-injective, eq_of_iff,
}
use qrystal.Text.{Bytes}
use qrystal.Spec.{NetworkCensored}
use qrystal.Spec.Equal.{network_equal, network_equal_iff, canonical_network}
use qrystal.Coord.{
  Server, PatchReifySpecRequest, StatusBody, decoded, get_latest, get_spec, patch_spec, post_status,
  Request, Response, status_code,
}
use qrystal.Coord.Handlers.{
  get_reify_latest, post_reify_status, verify_identity, verify_known, patch_reify_spec, handle,
  serve,
}
use qrystal.Coord.Effect.{current_view, serve-HasEffect}
use qrystal.Coord.Installed.{IsInstalled, patch_decoded-total}
use qrystal.Device.{Client, Body, spec_body, latest_body, Outside}
use qrystal.Device.Requests.{
  request, is_accepted, get_latest_of, get_spec_of, patch_spec_of, post_reify_status_of,
}
use qrystal.System.{Json, receive, view_body, body_of, sent, report_of, Connection}
use qrystal.System.Answers.{
  read_spec-ok, read_patch-ok, read_status-ok, read_latest-ok, get_reify_spec-view,
  post_reify_status-answer, answered, latest_body-injective, spec_body-injective, receive-canonical,
  entered,
}

module _ {W : Type 0} (sha_256 : Bytes → Bytes) (json : Json) (o : Outside W)
    (connection : Connection sha_256 json o) where
  abbrev server : W → Server
  server = connection.server

  -- An answer that the client accepts was written by the handler.
  pub record IsServed (r : Request) (w w2 : W) (code : ℕ) (body : Body) : Type 0 where
    pub after : Server
    pub response : Response
    pub granted : verify_identity sha_256 (server w) (sent json r) ≡ none
    pub known : verify_known (server w).spec r.network r.device ≡ none
    pub handled : handle (server w) (sent json r) (sent json r).action ≡ ok (after, response)
    pub served : serve sha_256 (server w) (sent json r) ≡ ok (after, response)
    pub code_lem : code ≡ status_code response
    pub body_lem : body ≡ body_of json response
    pub server_lem : server w2 ≡ after

  delivered :
      (r : Request) (w : W) (code : ℕ) (body : Body) (t : Server) (response : Response)
      → (o.http r w).0 ≡ some (code, body)
      → serve sha_256 (server w) (sent json r) ≡ ok (t, response)
      → (code ≡ status_code response) × (body ≡ body_of json response) × (server (o.http r w).1 ≡ t)
  delivered r w code body t response h e = elim (connection.delivers r w t response e) [
    | inl lost ↦ absurd (ground arith)
    | inr (d, k) ↦ (ground arith, ground arith, k)
  ]

  http-IsServed :
      (r : Request) (w : W) (code : ℕ) (body : Body)
      → (o.http r w).0 ≡ some (code, body)
      → is_accepted code ≡ true
      → IsServed r w (o.http r w).1 code body
  http-IsServed r w code body h accepted = elim (entered sha_256 (server w) (sent json r)) [
    | inr (resp, e, refusal) ↦
        let (p, q, k) = delivered r w code body (server w) resp h e in absurd (ground arith)
    | inl (granted, known, e) ↦
        let (t, resp, served, effect) = serve-HasEffect sha_256 (server w) (sent json r) in
        let (p, q, k) = delivered r w code body t resp h served in
        record {
          after = t;
          response = resp;
          granted = granted;
          known = known;
          handled = sym e ∙ served;
          served = served;
          code_lem = p;
          body_lem = q;
          server_lem = k;
        }
  ]

  -- A specification that the client got is its view of the server's, to `Equal`.
  pub get_spec_of-ok :
      (c c2 : Client) (w w2 : W) (nc : NetworkCensored)
      → spec_is_plain (server w).spec ≡ true
      → get_spec_of o c w ≡ (ok nc, c2, w2)
      → (c2 ≡ c)
        × (server w2 ≡ server w)
        × ((view : NetworkCensored) × (current_view (server w).spec c.network c.device ≡ some view)
            × (canonical_network nc ≡ canonical_network view))
  unfolding get_spec_of request handle
  get_spec_of-ok c c2 w w2 nc n h =
      let r : Request = request c get_spec in
      let (code, e, accepted) = read_spec-ok (o.http r w).0 nc (ap (λ x. x.0) h) in
      let served : IsServed r w (o.http r w).1 code (spec_body nc) =
        http-IsServed r w code (spec_body nc) e accepted in
      let (view, current, got) = get_reify_spec-view (server w) (sent json r) served.known in
      let (arrived, p, q) =
        receive-canonical json view
          (current_view-is_plain (server w).spec c.network c.device view n current) in
      let result = ok-injective _ _ (sym served.handled ∙ got) in
      let body : spec_body nc ≡ view_body json (receive json view) =
        served.body_lem ∙ ap (λ x. body_of json x.1) result in
      (
        sym (ap (λ x. x.1) h),
        ap server (sym (ap (λ x. x.2) h)) ∙ (served.server_lem ∙ ap (λ x. x.0) result),
        (
          view,
          current,
          ap canonical_network (spec_body-injective nc arrived (body ∙ ap (view_body json) p)) ∙ q,
        ),
      )

  -- A PATCH that the client holds to be accepted is installed.
  pub patch_spec_of-ok :
      (req : PatchReifySpecRequest) (c c2 : Client) (w w2 : W) (b : Bool)
      → patch_spec_of o req c w ≡ (ok b, c2, w2)
      → (c2 ≡ c) × IsInstalled (server w) (request c (patch_spec (decoded req))) req (server w2)
  unfolding patch_spec_of request handle patch_reify_spec
  patch_spec_of-ok req c c2 w w2 b h =
      let r : Request = request c (patch_spec (decoded req)) in
      let (code, body, e, accepted) = read_patch-ok (o.http r w).0 b (ap (λ x. x.0) h) in
      let served : IsServed r w (o.http r w).1 code body = http-IsServed r w code body e accepted in
      elim (patch_decoded-total (server w) (sent json r) req served.known) [
        | inl (t, p, q) ↦
            let result = ok-injective _ _ (sym served.handled ∙ p) in
            (
              sym (ap (λ x. x.1) h),
              subst (IsInstalled (server w) r req)
                  (sym (
                    ap server (sym (ap (λ x. x.2) h)) ∙ (served.server_lem ∙ ap (λ x. x.0) result)))
                  q,
            )
        | inr (name, _, _, p) ↦
            let result = ok-injective _ _ (sym served.handled ∙ p) in
            absurd (
              bad_request (
                sym accepted ∙ ap is_accepted (served.code_lem ∙ ap (λ x. status_code x.1) result)))
      ]
    where
      bad_request : true ≢ false
      bad_request = ground arith

  -- A report is answered by whether it equals the view of the server's specification.
  pub post_reify_status_of-ok :
      (nc : NetworkCensored) (c c2 : Client) (w w2 : W) (latest : Bool)
      → view_is_plain nc ≡ true
      → post_reify_status_of o nc c w ≡ (ok latest, c2, w2)
      → (c2 ≡ c)
        × ((server w2).spec ≡ (server w).spec)
        × (latest ≡ true → contains ((server w2).latest c.network) c.device ≡ true)
        × ((view : NetworkCensored) × (current_view (server w).spec c.network c.device ≡ some view)
            × (latest ≡ network_equal nc view))
  unfolding post_reify_status_of request handle
  post_reify_status_of-ok nc c c2 w w2 latest n h =
      let r : Request = request c (post_status (record { reified = nc; has_error = false })) in
      let (code, e, accepted) = read_status-ok (o.http r w).0 latest (ap (λ x. x.0) h) in
      let served : IsServed r w (o.http r w).1 code (latest_body latest) =
        http-IsServed r w code (latest_body latest) e accepted in
      let (arrived, p, q) = receive-canonical json nc n in
      let body : StatusBody = record { reified = arrived; has_error = false } in
      let (view, current, answer) =
        post_reify_status-answer (server w) (sent json r) body served.known refl in
      let same =
        ap
          (λ x.
            post_reify_status (server w) (sent json r)
              (report_of json (record { reified = nc; has_error = false }) x))
          p in
      let (kept, written, marked) =
        answered sha_256 (network_equal arrived view) (server w) served.after (sent json r)
          served.response (sym answer ∙ (sym same ∙ served.handled)) in
      let equal : latest ≡ network_equal arrived view =
        latest_body-injective latest (network_equal arrived view)
          (served.body_lem ∙ ap (body_of json) written) in
      let after : server w2 ≡ served.after =
        ap server (sym (ap (λ x. x.2) h)) ∙ served.server_lem in
      (
        sym (ap (λ x. x.1) h),
        ap (λ x. x.spec) after ∙ kept,
        λ k. ap (λ x. contains (x.latest c.network) c.device) after ∙ marked (sym equal ∙ k),
        (
          view,
          current,
          equal
              ∙ eq_of_iff (network_equal arrived view) (network_equal nc view)
                  (network_equal_iff arrived view) (network_equal_iff nc view)
                  (λ x. sym q ∙ x, λ x. q ∙ x),
        ),
      )

  -- The answer to a poll is the server's mark.
  pub get_latest_of-ok :
      (c c2 : Client) (w w2 : W) (latest : Bool)
      → get_latest_of o c w ≡ (ok latest, c2, w2)
      → (c2 ≡ c)
        × (server w2 ≡ server w)
        × (latest ≡ contains ((server w).latest c.network) c.device)
  unfolding get_latest_of request handle get_reify_latest
  get_latest_of-ok c c2 w w2 latest h =
      let r : Request = request c get_latest in
      let (code, e, accepted) = read_latest-ok (o.http r w).0 latest (ap (λ x. x.0) h) in
      let served : IsServed r w (o.http r w).1 code (latest_body latest) =
        http-IsServed r w code (latest_body latest) e accepted in
      let result = ok-injective _ _ (sym served.handled) in
      (
        sym (ap (λ x. x.1) h),
        ap server (sym (ap (λ x. x.2) h)) ∙ (served.server_lem ∙ ap (λ x. x.0) result),
        latest_body-injective latest (contains ((server w).latest c.network) c.device)
            (served.body_lem ∙ ap (λ x. body_of json x.1) result),
      )
