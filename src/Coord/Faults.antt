-- ===== src/Coord/Faults.antt =====
-- Two places of coord/server.go: what a PATCH installs of devices that it does not name, and what
-- becomes of a status report that cannot be decoded.
use qrystal.Prelude.{
  ℕ, ◌≡◌, refl, subst, ap, sym, ◌∙◌, inl, inr, true, false, ◌&&◌, none, some, [], ◌∷◌, ◌++◌, arith,
  list_eq, nat_eq, ◌==◌, Option-cases, Outcome, ok,
}
use qrystal.Text.{Bytes}
use qrystal.Spec.{NetworkDevice, NetworkCensored}
use qrystal.Spec.Clone.{clone_device}
use qrystal.Spec.Equal.{network_equal}
use qrystal.Coord.{
  Server, Request, PatchReifySpecRequest, decoded, patch_spec, StatusBody, post_status, Response,
  status, latest_json, status_code,
}
use qrystal.Coord.Handlers.{verify_identity, verify_known, serve, mark, decode_error}
use qrystal.Coord.Lookup.{find_device}
use qrystal.Coord.Patch.{apply_patch}
use qrystal.Coord.Installed.{IsInstalled}
use qrystal.Coord.Effect.{
  HasEffect, quiet, patched, marked, current_view, serve-HasEffect, serve_report,
}

answer : Outcome (Server × Response) → ℕ
answer (ok (t, w)) = status_code w
answer _ = 0

module _ (sha_256 : Bytes → Bytes) (s : Server) (r : Request) where
  after : Outcome (Server × Response) → Server
  after (ok (t, w)) = t
  after _ = s

  -- A request that is answered 204 has patched the specification.
  serve-IsInstalled :
      (t : Server)
      → serve sha_256 s r ≡ ok (t, status 204 ∷ [])
      → (req : PatchReifySpecRequest) × (r.action ≡ patch_spec (decoded req))
        × IsInstalled s r req t
  unfolding answer after
  serve-IsInstalled t e = installed (serve-HasEffect sha_256 s r)
    where
      installed :
          HasEffect sha_256 s r (serve sha_256 s r)
          → (req : PatchReifySpecRequest) × (r.action ≡ patch_spec (decoded req))
            × IsInstalled s r req t
      installed (u, w, p, quiet q ne) = absurd (ne (ap answer (sym p ∙ e)))
      installed (u, w, p, patched req _ a i q) =
          (req, a, subst (IsInstalled s r req) (ap after (sym p ∙ e)) i)
      installed (u, w, p, marked body view _ a _ _ _ q) =
          absurd (ground (arith, ap answer (sym p ∙ e)))

  forgotten : (d : NetworkDevice) → (clone_device d).accessible ≡ []
  unfolding clone_device
  forgotten d = refl

  -- Every PATCH that succeeds empties the list `Accessible` of every device of every network, but
  -- for the patched device where the request sets that list.
  pub patch_empties_accessible :
      (t : Server)
      → serve sha_256 s r ≡ ok (t, status 204 ∷ [])
      → (req : PatchReifySpecRequest) × (r.action ≡ patch_spec (decoded req))
        × ((network device : Bytes) (d : NetworkDevice)
            → find_device t.spec network device ≡ some d
            → (req.accessible_set && r.network == network && r.device == device) ≡ false
            → d.accessible ≡ [])
  unfolding apply_patch
  patch_empties_accessible t e =
      let (req, a, i) = serve-IsInstalled t e in
      (
        req,
        a,
        λ network device d f h. elim (Option-cases (find_device s.spec network device)) [
          | inl k ↦ absurd (ground (arith, i.devices network device))
          | inr (old, k) ↦ ground (arith, i.devices network device, forgotten old)
        ],
      )

  -- A status report of an entitled request for a known device, which the decoder rejects but whose
  -- decoded network equals the view of the device, is answered 400, and marks the device all the
  -- same.
  pub rejected_report_marks :
      (body : StatusBody) (view : NetworkCensored)
      → verify_identity sha_256 s r ≡ none
      → verify_known s.spec r.network r.device ≡ none
      → r.action ≡ post_status body
      → body.has_error ≡ true
      → current_view s.spec r.network r.device ≡ some view
      → network_equal body.reified view ≡ true
      → (w : Response) × (serve sha_256 s r ≡ ok (mark s r.network r.device, w))
        × (status_code w ≡ 400)
  rejected_report_marks body view granted known a h c m = (
    decode_error body ++ status 200 ∷ latest_json true ∷ [],
    serve_report sha_256 s r body view granted known a c m,
    ground arith,
  )
