-- ===== src/System/Patching.antt =====
-- The requests by which `updateMyKeys` and `patchAccessible` of device/client.go change the device
-- at the coordination server.
use qrystal.System.Networks.{view_is_plain, spec_is_plain, installed-is_plain}
use qrystal.Prelude.{
  if◌then◌else◌, ◌≡◌, ◌⊎◌, inl, inr, refl, sym, ap, ◌∙◌, subst, Bool, true, false, some, arith,
  ==_refl, list_eq, nat_eq, ok, ok-injective, all_of,
}
use qrystal.Text.{Bytes, is_ascii}
use qrystal.Spec.{NetworkDevice, NetworkCensored}
use qrystal.Spec.Clone.{clone_device}
use qrystal.Coord.{Server, PatchReifySpecRequest, Request, decoded, patch_spec}
use qrystal.Coord.Lookup.{find_device}
use qrystal.Coord.Patch.{apply_patch}
use qrystal.Coord.Installed.{IsInstalled}
use qrystal.Device.{bind-ok, Client, Outside, bind, Run, return}
use qrystal.Device.Requests.{request, patch_spec_of}
use qrystal.System.{Json, Connection}
use qrystal.System.Exchange.{patch_spec_of-ok}

-- What a patch leaves of the device that sent it.
pub installed-device :
    (s t : Server) (r : Request) (req : PatchReifySpecRequest) (d : NetworkDevice)
    → IsInstalled s r req t
    → find_device s.spec r.network r.device ≡ some d
    → find_device t.spec r.network r.device ≡ some (apply_patch req (clone_device d))
installed-device s t r req d h found =
    ground (arith, h.devices r.network r.device, ==_refl r.network, ==_refl r.device)

module _ {W : Type 0} (sha_256 : Bytes → Bytes) (json : Json) (o : Outside W)
    (connection : Connection sha_256 json o) where
  abbrev server : W → Server
  server = connection.server

  -- A request is sent unless a test holds.
  abbrev pub unless_sent :
      Bool → PatchReifySpecRequest → NetworkCensored → NetworkCensored → Run W NetworkCensored
  unless_sent test req nc changed c w =
      if test then (ok nc, c, w) else bind (patch_spec_of o req c w) (λ sent. return (ok changed))

  -- The server is as before, or the request is installed.
  abbrev pub IsPatched :
      Bool
      → Client
      → PatchReifySpecRequest
      → NetworkCensored
      → NetworkCensored
      → W
      → NetworkCensored
      → W
      → Type 0
  IsPatched test c req nc changed w nc2 w2 =
      ((test ≡ true) × (nc2 ≡ nc) × (server w2 ≡ server w))
      ⊎ ((test ≡ false)
          × (nc2 ≡ changed)
          × IsInstalled (server w) (request c (patch_spec (decoded req))) req (server w2))

  -- In both cases what is plain stays so.
  pub IsPatched-networks :
      (test : Bool) (c : Client) (req : PatchReifySpecRequest) (nc changed : NetworkCensored)
      (w : W) (nc2 : NetworkCensored) (w2 : W)
      → all_of is_ascii req.accessible ≡ true
      → view_is_plain changed ≡ true
      → view_is_plain nc ≡ true
      → spec_is_plain (server w).spec ≡ true
      → IsPatched test c req nc changed w nc2 w2
      → (spec_is_plain (server w2).spec ≡ true) × (view_is_plain nc2 ≡ true)
  IsPatched-networks test c req nc changed w nc2 w2 a e v n (inl (_, same, kept)) =
      (ap (λ s. spec_is_plain s.spec) kept ∙ n, ap view_is_plain same ∙ v)
  IsPatched-networks test c req nc changed w nc2 w2 a e v n (inr (_, same, installed)) = (
    installed-is_plain (server w) (server w2) (request c (patch_spec (decoded req))) req a installed
        n,
    ap view_is_plain same ∙ e,
  )

  pub unless_sent-IsPatched :
      (test : Bool) (req : PatchReifySpecRequest) (nc changed : NetworkCensored) (c : Client)
      (w : W) (nc2 : NetworkCensored) (c2 : Client) (w2 : W)
      → unless_sent test req nc changed c w ≡ (ok nc2, c2, w2)
      → (c2 ≡ c) × IsPatched test c req nc changed w nc2 w2
  unless_sent-IsPatched true req nc changed c w nc2 c2 w2 h = (
    sym (ap (λ r. r.1) h),
    inl (refl, sym (ok-injective nc nc2 (ap (λ r. r.0) h)), ap server (sym (ap (λ r. r.2) h))),
  )
  unless_sent-IsPatched false req nc changed c w nc2 c2 w2 h =
      let (b, c1, w1, p, q) =
        bind-ok (patch_spec_of o req c w) (λ sent. return (ok changed)) nc2 c2 w2 h in
      let (same, installed) = patch_spec_of-ok sha_256 json o connection req c c1 w w1 b p in
      (
        sym (ap (λ r. r.1) q) ∙ same,
        inr (
          refl,
          sym (ok-injective changed nc2 (ap (λ r. r.0) q)),
          subst (λ x. IsInstalled (server w) (request c (patch_spec (decoded req))) req (server x))
              (ap (λ r. r.2) q) installed,
        ),
      )
