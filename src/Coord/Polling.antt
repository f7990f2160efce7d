-- ===== src/Coord/Polling.antt =====
-- The answers of coord/server.go that a device client acts on: `latest` and `status`.
use qrystal.Prelude.{
  ◌≡◌, refl, ◌∙◌, true, false, Option, none, some, List, [], ◌∷◌, arith, contains, contains-append,
  list_eq, nat_eq, ==_refl, IsDistinct, ok, ok-injective, subst,
}
use qrystal.Text.{Bytes}
use qrystal.Spec.{Spec, NetworkCensored}
use qrystal.Spec.Equal.{network_equal}
use qrystal.Util.Token.{TokenHash}
use qrystal.Coord.{
  Server, TokenInfo, new_server, Request, StatusBody, get_latest, post_status, status, latest_json,
}
use qrystal.Coord.Update.Latest.{network_names}
use qrystal.Coord.Handlers.{verify_identity, verify_known, get_reify_latest, handle, serve, mark}
use qrystal.Coord.Effect.{current_view, serve_report}
use qrystal.Coord.Marks.{Reach, IsUpToDate, IsSound, Reach-IsSound}

-- The request for `latest` of the same device.
abbrev pub poll : Request → Request
poll r = record r { action = get_latest }

module _ (sha_256 : Bytes → Bytes) where
  new_server-IsSound :
      (spec : Spec) (tokens : TokenHash → Option TokenInfo) (start : Server)
      → IsDistinct (network_names spec)
      → new_server spec (some tokens) ≡ ok start
      → IsSound sha_256 start [] start
  unfolding new_server
  new_server-IsSound spec tokens start d e =
      subst (λ u. IsSound sha_256 u [] u) (ok-injective _ _ e)
        (record { distinct = d; same_tokens = refl; honest = λ network device h. cc })

  -- `{"Latest":true}` is written only behind the lookup of the mark.
  serve-latest :
      (s t : Server) (r : Request)
      → r.action ≡ get_latest
      → serve sha_256 s r ≡ ok (t, status 200 ∷ latest_json true ∷ [])
      → contains (s.latest r.network) r.device ≡ true
  unfolding serve handle get_reify_latest verify_identity verify_known
  serve-latest s t r a e = ground arith

  -- Let a new server, with one network of each name, have answered any history of requests. If it
  -- answers a `GET …/latest` by true, then the device has reported, with its own token, a network
  -- that `Equal` holds to be the one that the server would give it now.
  pub latest_is_reported :
      (spec : Spec) (tokens : TokenHash → Option TokenInfo) (start s t : Server) (rs : List Request)
      (r : Request)
      → IsDistinct (network_names spec)
      → new_server spec (some tokens) ≡ ok start
      → Reach sha_256 start rs s
      → r.action ≡ get_latest
      → serve sha_256 s r ≡ ok (t, status 200 ∷ latest_json true ∷ [])
      → IsUpToDate sha_256 start rs s r.network r.device
  latest_is_reported spec tokens start s t rs r d e reach a h =
      (Reach-IsSound sha_256 start (new_server-IsSound spec tokens start d e) reach).honest
        r.network r.device (serve-latest s t r a h)

  serve-marked :
      (s : Server) (r : Request)
      → verify_identity sha_256 s r ≡ none
      → verify_known s.spec r.network r.device ≡ none
      → r.action ≡ get_latest
      → contains (s.latest r.network) r.device ≡ true
      → serve sha_256 s r ≡ ok (s, status 200 ∷ latest_json true ∷ [])
  unfolding serve handle get_reify_latest
  serve-marked s r granted known a h = ground arith

  verify_identity-poll :
      (s : Server) (r : Request)
      → verify_identity sha_256 (mark s r.network r.device) (poll r) ≡ verify_identity sha_256 s r
  unfolding verify_identity
  verify_identity-poll s r = refl

  pub contains-mark :
      (s : Server) (r : Request)
      → contains ((mark s r.network r.device).latest r.network) r.device ≡ true
  contains-mark s r = ground (
    arith,
    ==_refl r.network,
    contains-append (s.latest r.network) (r.device ∷ []) r.device,
    ==_refl r.device,
  )

  -- A report that decodes and equals the view of a known device is answered by true, and so is the
  -- device's next `GET …/latest`.
  pub report_is_remembered :
      (s : Server) (r : Request) (body : StatusBody) (view : NetworkCensored)
      → verify_identity sha_256 s r ≡ none
      → verify_known s.spec r.network r.device ≡ none
      → r.action ≡ post_status body
      → body.has_error ≡ false
      → current_view s.spec r.network r.device ≡ some view
      → network_equal body.reified view ≡ true
      → (t : Server) × (serve sha_256 s r ≡ ok (t, status 200 ∷ latest_json true ∷ []))
        × (serve sha_256 t (poll r) ≡ ok (t, status 200 ∷ latest_json true ∷ []))
  report_is_remembered s r body view granted known a h c m = (
    mark s r.network r.device,
    ground (arith, serve_report sha_256 s r body view granted known a c m),
    serve-marked (mark s r.network r.device) (poll r) (verify_identity-poll s r ∙ granted) known
        refl (contains-mark s r),
  )
