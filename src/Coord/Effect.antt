-- ===== src/Coord/Effect.antt =====
-- `ServeHTTP` of coord/server.go: what one request can do to the server.
use qrystal.Prelude.{
  ℕ, ◌≡◌, ◌≢◌, refl, inl, inr, true, false, Option, none, some, [], ◌∷◌, ◌++◌, arith, list_eq,
  nat_eq, get_elem?, Bool-cases, Option-cases, Outcome, ok,
}
use qrystal.Text.{Bytes}
use qrystal.Spec.{Spec, Network, NetworkCensored, get_network_index, get_network}
use qrystal.Spec.Equal.{network_equal}
use qrystal.Spec.Censor.{view_for, censor_for_device}
use qrystal.Spec.Censor.Laws.{censor_for_device-eq}
use qrystal.Coord.{
  Server, Request, PatchReifySpecRequest, unreadable, malformed, decoded, StatusBody, Action,
  get_latest, get_spec, patch_spec, post_status, Response, status, latest_json, view_json,
  status_code,
}
use qrystal.Coord.Handlers.{
  verify_identity, verify_known, get_reify_latest, get_reify_spec, patch_reify_spec, decode_error,
  mark, post_reify_status, handle, serve,
}
use qrystal.Coord.Lookup.{get_network-index}
use qrystal.Coord.Patch.{verify_known-found}
use qrystal.Coord.Installed.{IsInstalled, patch_decoded-total}

-- The view that the specification gives the device now.
unfoldable pub current_view : Spec → Bytes → Bytes → Option NetworkCensored
current_view spec network device = elim (get_network spec network) [
  | none ↦ none
  | some n ↦ censor_for_device n device
]

-- A request leaves the server as it was and is not answered 204, or patches the specification, or
-- marks its device.
pub data Effect (sha_256 : Bytes → Bytes) (s : Server) (r : Request) (t : Server) (w : Response)
    : Type 0 where
  quiet : t ≡ s → status_code w ≢ 204 → Effect sha_256 s r t w
  patched :
      (req : PatchReifySpecRequest)
      → verify_identity sha_256 s r ≡ none
      → r.action ≡ patch_spec (decoded req)
      → IsInstalled s r req t
      → w ≡ status 204 ∷ []
      → Effect sha_256 s r t w
  marked :
      (body : StatusBody) (view : NetworkCensored)
      → verify_identity sha_256 s r ≡ none
      → r.action ≡ post_status body
      → current_view s.spec r.network r.device ≡ some view
      → network_equal body.reified view ≡ true
      → t ≡ mark s r.network r.device
      → w ≡ decode_error body ++ status 200 ∷ latest_json true ∷ []
      → Effect sha_256 s r t w

abbrev pub HasEffect : (Bytes → Bytes) → Server → Request → Outcome (Server × Response) → Type 0
HasEffect sha_256 s r result =
    (t : Server) × (w : Response) × (result ≡ ok (t, w)) × Effect sha_256 s r t w

pub current_view-found :
    (spec : Spec) (network device : Bytes)
    → verify_known spec network device ≡ none
    → (i : ℕ) × (n : Network) × (view : NetworkCensored) × (get_network_index spec network ≡ some i)
      × (get_elem? spec.networks i ≡ some n)
      × (censor_for_device n device ≡ some view)
      × (current_view spec network device ≡ some view)
unfolding current_view
current_view-found spec network device h =
    let (n, d, hn, hd) = verify_known-found spec network device h in
    let (i, hi, he) = get_network-index spec network n hn in
    let hv = censor_for_device-eq n device d hd in
    (i, n, view_for n d device, hi, he, hv, ground arith)

refused_status :
    (sha_256 : Bytes → Bytes) (s : Server) (r : Request) (w : Response)
    → verify_identity sha_256 s r ≡ some w
    → status_code w ≢ 204
unfolding verify_identity
refused_status sha_256 s r w e = ground arith

unknown_status :
    (spec : Spec) (network device : Bytes) (w : Response)
    → verify_known spec network device ≡ some w
    → status_code w ≢ 204
unfolding verify_known
unknown_status spec network device w e = ground arith

-- Behind the checks, each handler returns, and has one of the effects.
module _ (sha_256 : Bytes → Bytes) (s : Server) (r : Request)
    (granted : verify_identity sha_256 s r ≡ none)
    (known : verify_known s.spec r.network r.device ≡ none) where
  handle-HasEffect : (a : Action) → r.action ≡ a → HasEffect sha_256 s r (handle s r a)
  unfolding handle get_reify_latest get_reify_spec patch_reify_spec post_reify_status
  handle-HasEffect get_latest e = (s, _, refl, quiet refl (omega arith))
  handle-HasEffect get_spec e =
      let (i, n, view, hi, he, hv, _) = current_view-found s.spec r.network r.device known in
      (s, status 200 ∷ view_json view ∷ [], ground arith, quiet refl (omega arith))
  handle-HasEffect (patch_spec unreadable) e = (s, _, refl, quiet refl (omega arith))
  handle-HasEffect (patch_spec malformed) e = (s, _, refl, quiet refl (omega arith))
  handle-HasEffect (patch_spec (decoded req)) e = elim (patch_decoded-total s r req known) [
    | inl (t, p, q) ↦ (t, _, p, patched req granted e q refl)
    | inr (name, _, _, p) ↦ (s, _, p, quiet refl (omega arith))
  ]
  handle-HasEffect (post_status body) e =
      let (i, n, view, hi, he, hv, hc) = current_view-found s.spec r.network r.device known in
      elim (Bool-cases (network_equal body.reified view)) [
        | inl m ↦ (
          mark s r.network r.device,
          decode_error body ++ status 200 ∷ latest_json true ∷ [],
          ground arith,
          marked body view granted e hc m refl refl,
        )
        | inr m ↦ (
          s,
          decode_error body ++ status 200 ∷ latest_json false ∷ [],
          ground arith,
          quiet refl (ground arith),
        )
      ]

-- A report that equals the view of a known device is accepted.
pub serve_report :
    (sha_256 : Bytes → Bytes) (s : Server) (r : Request) (body : StatusBody)
    (view : NetworkCensored)
    → verify_identity sha_256 s r ≡ none
    → verify_known s.spec r.network r.device ≡ none
    → r.action ≡ post_status body
    → current_view s.spec r.network r.device ≡ some view
    → network_equal body.reified view ≡ true
    → serve sha_256 s r
      ≡ ok (mark s r.network r.device, decode_error body ++ status 200 ∷ latest_json true ∷ [])
unfolding serve handle post_reify_status
serve_report sha_256 s r body view granted known a c m =
    let (i, n, v, hi, he, hv, hc) = current_view-found s.spec r.network r.device known in
    ground arith

-- The server answers every request, and no handler panics. It is left as it was and the answer is
-- not 204; or the request is entitled, and patched the specification as it asks; or it is entitled,
-- and marked its device, whose view its report equals.
pub serve-HasEffect :
    (sha_256 : Bytes → Bytes) (s : Server) (r : Request) → HasEffect sha_256 s r (serve sha_256 s r)
unfolding serve
serve-HasEffect sha_256 s r = elim (Option-cases (verify_identity sha_256 s r)) [
  | inr (w, e) ↦ (s, w, ground arith, quiet refl (refused_status sha_256 s r w e))
  | inl e ↦ elim (Option-cases (verify_known s.spec r.network r.device)) [
    | inr (w, k) ↦ (s, w, ground arith, quiet refl (unknown_status s.spec r.network r.device w k))
    | inl k ↦
        let (t, w, p, q) = handle-HasEffect sha_256 s r e k r.action refl in (t, w, ground arith, q)
  ]
]
