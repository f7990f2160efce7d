-- ===== src/System/Answers.antt =====
-- The answers of the coordination server, as its client reads them.
use qrystal.System.Networks.{view_is_plain}
use qrystal.Prelude.{
  ℕ, ◌≡◌, ◌⊎◌, inl, inr, refl, sym, ap, ◌∙◌, Bool, true, false, Option, none, some, [], ◌∷◌, arith,
  nat_beq, contains, list_eq, nat_eq, Outcome, ok, ok-injective, Option-cases, Bool-cases, all_of,
}
use qrystal.Text.{Bytes, is_ascii}
use qrystal.Spec.{NetworkCensored}
use qrystal.Spec.Equal.{network_equal, canonical_network, canonical_network-devices}
use qrystal.Spec.Json.Laws.{unmarshal_devices-canonical}
use qrystal.Coord.{
  Server, StatusBody, Request, Response, status, latest_json, view_json, status_code,
}
use qrystal.Coord.Handlers.{
  post_reify_status, verify_identity, verify_known, handle, get_reify_spec, serve, mark,
}
use qrystal.Coord.Polling.{contains-mark}
use qrystal.Coord.Effect.{current_view, current_view-found}
use qrystal.Device.{Body, spec_body, latest_body, other_body}
use qrystal.Device.Requests.{is_accepted, read_latest, read_spec, read_patch, read_status}
use qrystal.System.{is_plain, Json, receive}

devices_plain : (nc : NetworkCensored) → view_is_plain nc ≡ true → all_of is_plain nc.devices ≡ true
devices_plain nc h = ground arith

name_plain : (nc : NetworkCensored) → view_is_plain nc ≡ true → is_ascii nc.name ≡ true
name_plain nc h = ground arith

viewer_plain : (nc : NetworkCensored) → view_is_plain nc ≡ true → is_ascii nc.censored_for ≡ true
viewer_plain nc h = ground arith

-- A view arrives as one that is equal to it, to `Equal`.
pub receive-canonical :
    (json : Json) (nc : NetworkCensored)
    → view_is_plain nc ≡ true
    → (got : NetworkCensored) × (receive json nc ≡ ok got)
      × (canonical_network got ≡ canonical_network nc)
unfolding receive
receive-canonical json nc h =
    let (ds, p, q) =
      unmarshal_devices-canonical json.files json.reread is_plain json.reread_lem nc.devices
        (devices_plain nc h) in
    let name_lem = json.text_lem nc.name (name_plain nc h) in
    let viewer_lem = json.text_lem nc.censored_for (viewer_plain nc h) in
    (record nc { devices = ds }, ground arith, canonical_network-devices nc ds q)

pub refused :
    (sha_256 : Bytes → Bytes) (s : Server) (r : Request) (w : Response)
    → verify_identity sha_256 s r ≡ some w
    → is_accepted (status_code w) ≡ false
unfolding verify_identity
refused sha_256 s r w e = ground arith

pub unknown :
    (sha_256 : Bytes → Bytes) (s : Server) (r : Request) (w : Response)
    → verify_known s.spec r.network r.device ≡ some w
    → is_accepted (status_code w) ≡ false
unfolding verify_known
unknown sha_256 s r w e = ground arith

-- A request is let in and its device is known, or the answer is not accepted and nothing changes.
pub entered :
    (sha_256 : Bytes → Bytes) (s : Server) (r : Request)
    → ((verify_identity sha_256 s r ≡ none)
        × (verify_known s.spec r.network r.device ≡ none)
        × (serve sha_256 s r ≡ handle s r r.action))
      ⊎ ((w : Response) × (serve sha_256 s r ≡ ok (s, w)) × (is_accepted (status_code w) ≡ false))
unfolding serve
entered sha_256 s r = elim (Option-cases (verify_identity sha_256 s r)) [
  | inr (w, e) ↦ inr (w, ground arith, refused sha_256 s r w e)
  | inl e ↦ elim (Option-cases (verify_known s.spec r.network r.device)) [
    | inr (w, k) ↦ inr (w, ground arith, unknown sha_256 s r w k)
    | inl k ↦ inl (e, k, ground arith)
  ]
]

pub read_spec-ok :
    (x : Option (ℕ × Body)) (nc : NetworkCensored)
    → read_spec x ≡ ok nc
    → (code : ℕ) × (x ≡ some (code, spec_body nc)) × (is_accepted code ≡ true)
read_spec-ok none nc h = absurd (ground arith)
read_spec-ok (some (code, spec_body got)) nc h = elim (Bool-cases (is_accepted code)) [
  | inl e ↦ (code, ap (λ x. some (code, spec_body x)) (ok-injective got nc (ground arith)), e)
  | inr e ↦ absurd (ground arith)
]
read_spec-ok (some (code, latest_body b)) nc h = absurd (ground arith)
read_spec-ok (some (code, other_body)) nc h = absurd (ground arith)

pub read_patch-ok :
    (x : Option (ℕ × Body)) (b : Bool)
    → read_patch x ≡ ok b
    → (code : ℕ) × (body : Body) × (x ≡ some (code, body)) × (is_accepted code ≡ true)
read_patch-ok none b h = absurd (ground arith)
read_patch-ok (some (code, body)) b h = elim (Bool-cases (is_accepted code)) [
  | inl e ↦ (code, body, refl, e)
  | inr e ↦ absurd (ground arith)
]

pub read_status-ok :
    (x : Option (ℕ × Body)) (b : Bool)
    → read_status x ≡ ok b
    → (code : ℕ) × (x ≡ some (code, latest_body b)) × (is_accepted code ≡ true)
read_status-ok none b h = absurd (ground arith)
read_status-ok (some (code, latest_body got)) b h = elim (Bool-cases (is_accepted code)) [
  | inl e ↦ (code, ap (λ x. some (code, latest_body x)) (ok-injective got b (ground arith)), e)
  | inr e ↦ absurd (ground arith)
]
read_status-ok (some (code, spec_body nc)) b h = absurd (ground arith)
read_status-ok (some (code, other_body)) b h = absurd (ground arith)

pub read_latest-ok :
    (x : Option (ℕ × Body)) (b : Bool)
    → read_latest x ≡ ok b
    → (code : ℕ) × (x ≡ some (code, latest_body b)) × (is_accepted code ≡ true)
read_latest-ok none b h = absurd (ground arith)
read_latest-ok (some (code, latest_body got)) b h = elim (Bool-cases (nat_beq code 200)) [
  | inl e ↦
      (code, ap (λ x. some (code, latest_body x)) (ok-injective got b (ground arith)), ground arith)
  | inr e ↦ absurd (ground arith)
]
read_latest-ok (some (code, spec_body nc)) b h = absurd (ground arith)
read_latest-ok (some (code, other_body)) b h = absurd (ground arith)

pub get_reify_spec-view :
    (s : Server) (r : Request)
    → verify_known s.spec r.network r.device ≡ none
    → (view : NetworkCensored) × (current_view s.spec r.network r.device ≡ some view)
      × (get_reify_spec s r ≡ ok (s, status 200 ∷ view_json view ∷ []))
unfolding get_reify_spec
get_reify_spec-view s r known =
    let (i, n, view, hi, he, hv, hc) = current_view-found s.spec r.network r.device known in
    (view, hc, ground arith)

abbrev pub answer_of : Bool → Server → Request → Outcome (Server × Response)
answer_of true s r = ok (mark s r.network r.device, status 200 ∷ latest_json true ∷ [])
answer_of false s r = ok (s, status 200 ∷ latest_json false ∷ [])

pub post_reify_status-answer :
    (s : Server) (r : Request) (body : StatusBody)
    → verify_known s.spec r.network r.device ≡ none
    → body.has_error ≡ false
    → (view : NetworkCensored) × (current_view s.spec r.network r.device ≡ some view)
      × (post_reify_status s r body ≡ answer_of (network_equal body.reified view) s r)
unfolding post_reify_status
post_reify_status-answer s r body known e =
    let (i, n, view, hi, he, hv, hc) = current_view-found s.spec r.network r.device known in
    (view, hc, ground arith)

pub answered :
    (sha_256 : Bytes → Bytes) (b : Bool) (s t : Server) (r : Request) (response : Response)
    → answer_of b s r ≡ ok (t, response)
    → (t.spec ≡ s.spec)
      × (response ≡ status 200 ∷ latest_json b ∷ [])
      × (b ≡ true → contains (t.latest r.network) r.device ≡ true)
answered sha_256 true s t r response h =
    let e = ok-injective _ _ h in
    (
      sym (ap (λ x. x.0.spec) e),
      sym (ap (λ x. x.1) e),
      λ _. ap (λ x. contains (x.0.latest r.network) r.device) (sym e) ∙ contains-mark sha_256 s r,
    )
answered sha_256 false s t r response h =
    let e = ok-injective _ _ h in
    (sym (ap (λ x. x.0.spec) e), sym (ap (λ x. x.1) e), λ k. absurd (ground arith))

pub latest_body-injective : (a b : Bool) → latest_body a ≡ latest_body b → a ≡ b
latest_body-injective a b h = cc

pub spec_body-injective : (a b : NetworkCensored) → spec_body a ≡ spec_body b → a ≡ b
spec_body-injective a b h = cc
