-- ===== src/Coord/Marks.antt =====
-- coord/server.go over a history of requests: what a mark in `latest` stands for.
use qrystal.Prelude.{
  ◌≡◌, refl, ap, ap₂, sym, ◌∙◌, inl, inr, true, false, ◌&&◌, none, some, List, [], ◌∷◌, arith,
  contains, contains-append, list_eq, nat_eq, ◌==◌, ==_iff, IsDistinct, Bool-cases, Option-cases,
  ok, subst, &&-parts,
}
use qrystal.Text.{Bytes}
use qrystal.Spec.{Spec, Network, NetworkCensored, get_network}
use qrystal.Spec.Equal.{network_equal, network_equal_trans}
use qrystal.Spec.Censor.{censor_for_device}
use qrystal.Util.Token.{TokenHash}
use qrystal.Coord.{Server, Request, StatusBody, post_status, Response}
use qrystal.Coord.Update.Kept.{is_view_kept}
use qrystal.Coord.Update.Latest.{
  network_names, stays, update_spec_no_lock-marks, update_spec_no_lock-ok,
}
use qrystal.Coord.Update.{update_spec_no_lock}
use qrystal.Coord.Handlers.{verify_identity, serve, mark}
use qrystal.Coord.Effect.{Effect, quiet, patched, marked, current_view, serve-HasEffect}

-- The servers that a history of requests leads to, the last request first.
pub data Reach (sha_256 : Bytes → Bytes) (start : Server) : List Request → Server → Type 0 where
  here : Reach sha_256 start [] start
  next :
      {rs : List Request} {s t : Server} (r : Request) (w : Response)
      → Reach sha_256 start rs s
      → serve sha_256 s r ≡ ok (t, w)
      → Reach sha_256 start (r ∷ rs) t

-- One request of the history was let in, and reported `view` for the device.
pub data Reported (sha_256 : Bytes → Bytes) (start : Server) (network device : Bytes)
    (view : NetworkCensored) : List Request → Type 0 where
  now :
      {r : Request} {rs : List Request} (body : StatusBody)
      → r.network ≡ network
      → r.device ≡ device
      → verify_identity sha_256 start r ≡ none
      → r.action ≡ post_status body
      → body.reified ≡ view
      → Reported sha_256 start network device view (r ∷ rs)
  before :
      {r : Request} {rs : List Request}
      → Reported sha_256 start network device view rs
      → Reported sha_256 start network device view (r ∷ rs)

-- The device has reported, with its own token, a view that equals the one it is given now.
abbrev pub IsUpToDate : (Bytes → Bytes) → Server → List Request → Server → Bytes → Bytes → Type 0
IsUpToDate sha_256 start rs s network device =
    (view current : NetworkCensored) × Reported sha_256 start network device view rs
    × (current_view s.spec network device ≡ some current)
    × (network_equal view current ≡ true)

pub record IsSound (sha_256 : Bytes → Bytes) (start : Server) (rs : List Request) (s : Server)
    : Type 0 where
  pub distinct : IsDistinct (network_names s.spec)
  pub same_tokens : s.tokens ≡ start.tokens
  pub honest :
      (network device : Bytes)
      → contains (s.latest network) device ≡ true
      → IsUpToDate sha_256 start rs s network device

kept-views :
    (old new : Network) (name : Bytes) (v : NetworkCensored)
    → is_view_kept old new name ≡ true
    → censor_for_device old name ≡ some v
    → (c : NetworkCensored) × (censor_for_device new name ≡ some c) × (network_equal v c ≡ true)
unfolding is_view_kept
kept-views old new name v h e = elim (Option-cases (censor_for_device new name)) [
  | inl k ↦ absurd (ground arith)
  | inr (c, k) ↦ (c, k, ground arith)
]

-- A view of the old specification is equal to one of the new, where the mark stays.
view-stays :
    (old new : Spec) (network device : Bytes) (v : NetworkCensored)
    → stays (get_network old network) (get_network new network) device ≡ true
    → current_view old network device ≡ some v
    → (c : NetworkCensored) × (current_view new network device ≡ some c)
      × (network_equal v c ≡ true)
unfolding stays current_view
view-stays old new network device v k q = elim (Option-cases (get_network old network)) [
  | inl e ↦ absurd (ground arith)
  | inr (o, e) ↦ elim (Option-cases (get_network new network)) [
    | inl f ↦ absurd (ground arith)
    | inr (n, f) ↦
        let (c, g, m) = kept-views o n device v (ground arith) (ground arith) in
        (c, ground arith, m)
  ]
]

-- Marking one device marks no other.
mark_other :
    (s : Server) (network device network' device' : Bytes)
    → (network == network' && device == device') ≡ false
    → contains ((mark s network device).latest network') device' ≡ true
    → contains (s.latest network') device' ≡ true
mark_other s network device network' device' e h = elim (Bool-cases (network == network')) [
  | inl k ↦ ground (
    arith,
    contains-append (s.latest network) (device ∷ []) device',
    ap s.latest ((==_iff network network').0 k),
  )
  | inr k ↦ ground arith
]

module _ (sha_256 : Bytes → Bytes) (start : Server) where
  -- Who is let in depends on the tokens alone.
  verify_identity_tokens :
      (s : Server) (r : Request)
      → s.tokens ≡ start.tokens
      → verify_identity sha_256 s r ≡ verify_identity sha_256 start r
  unfolding verify_identity
  verify_identity_tokens s r h = ground (arith, λ (k : TokenHash). ap (λ m. m k) h)

  IsUpToDate-later :
      (rs : List Request) (s : Server) (r : Request) (network device : Bytes)
      → IsUpToDate sha_256 start rs s network device
      → IsUpToDate sha_256 start (r ∷ rs) s network device
  IsUpToDate-later rs s r network device (view, current, p, q, h) = (view, current, before p, q, h)

  -- A mark that outlives a change of the specification stands for the same report.
  IsUpToDate-stays :
      (rs : List Request) (s t : Server) (network device : Bytes)
      → IsUpToDate sha_256 start rs s network device
      → stays (get_network s.spec network) (get_network t.spec network) device ≡ true
      → IsUpToDate sha_256 start rs t network device
  IsUpToDate-stays rs s t network device (view, current, p, q, h) k =
      let (c, e, m) = view-stays s.spec t.spec network device current k q in
      (view, c, p, e, network_equal_trans view current c h m)

  -- The invariant through each effect.
  mark-IsSound :
      (rs : List Request) (s : Server) (r : Request) (body : StatusBody) (view : NetworkCensored)
      → IsSound sha_256 start rs s
      → verify_identity sha_256 s r ≡ none
      → r.action ≡ post_status body
      → current_view s.spec r.network r.device ≡ some view
      → network_equal body.reified view ≡ true
      → IsSound sha_256 start (r ∷ rs) (mark s r.network r.device)
  mark-IsSound rs s r body view v granted a c m = record {
    distinct = v.distinct;
    same_tokens = v.same_tokens;
    honest = λ network device h. elim (Bool-cases (r.network == network && r.device == device)) [
      | inl e ↦
          let (en, ed) = &&-parts _ _ e in
          let pn = (==_iff r.network network).0 en in
          let pd = (==_iff r.device device).0 ed in
          let report =
            now body pn pd (sym (verify_identity_tokens s r v.same_tokens) ∙ granted) a refl in
          (body.reified, view, report, sym (ap₂ (current_view s.spec) pn pd) ∙ c, m)
      | inr e ↦
          IsUpToDate-later rs s r network device
            (v.honest network device (mark_other s r.network r.device network device e h))
    ];
  }

  patch-IsSound :
      (rs : List Request) (s t : Server) (r : Request)
      → IsSound sha_256 start rs s
      → network_names t.spec ≡ network_names s.spec
      → update_spec_no_lock s t.spec ≡ ok t
      → IsSound sha_256 start (r ∷ rs) t
  patch-IsSound rs s t r v names updated =
      let distinct = subst (λ ns. IsDistinct ns) (sym names) v.distinct in
      let (u, p, _, tokens, _) = update_spec_no_lock-ok s t.spec in
      let marks = update_spec_no_lock-marks s t t.spec distinct updated in
      record {
        distinct = distinct;
        same_tokens = ground (arith, sym updated ∙ p);
        honest = λ network device h.
            let (old, kept) = &&-parts _ _ (sym (marks network device) ∙ h) in
            IsUpToDate-later rs t r network device
              (IsUpToDate-stays rs s t network device (v.honest network device old) kept);
      }

  Effect-IsSound :
      (rs : List Request) (s t : Server) (r : Request) (w : Response)
      → IsSound sha_256 start rs s
      → Effect sha_256 s r t w
      → IsSound sha_256 start (r ∷ rs) t
  Effect-IsSound rs s t r w v (quiet e _) = subst (IsSound sha_256 start (r ∷ rs)) (sym e) (record {
    distinct = v.distinct;
    same_tokens = v.same_tokens;
    honest = λ network device h. IsUpToDate-later rs s r network device (v.honest network device h);
  })
  Effect-IsSound rs s t r w v (patched req granted a i _) =
      patch-IsSound rs s t r v i.names i.updated
  Effect-IsSound rs s t r w v (marked body view granted a c m e _) =
      subst (IsSound sha_256 start (r ∷ rs)) (sym e) (mark-IsSound rs s r body view v granted a c m)

  -- Whatever requests a new server has answered, each mark stands for a report of the device that
  -- equals the view it is given now.
  pub Reach-IsSound :
      {rs : List Request} {s : Server}
      → IsSound sha_256 start [] start
      → Reach sha_256 start rs s
      → IsSound sha_256 start rs s
  Reach-IsSound v here = v
  Reach-IsSound v (next {rs = rs} {s = s} {t = t} r w reach e) =
      let (u, w', p, effect) = serve-HasEffect sha_256 s r in
      let same : u ≡ t = ground (arith, sym p ∙ e) in
      subst (IsSound sha_256 start (r ∷ rs)) same
        (Effect-IsSound rs s u r w' (Reach-IsSound v reach) effect)
