-- ===== src/System/Held.antt =====
-- What the coordination server holds of a device behind the steps of its client's `ReifySpec`.
use qrystal.Prelude.{
  ◌≡◌, ◌⊎◌, inl, inr, refl, sym, ap, ap₂, ◌∙◌, subst, false, some, [], ◌==◌, ==_iff, list_eq,
  nat_eq, some-injective, true_ne,
}
use qrystal.Text.{Bytes}
use qrystal.Goal.Key.{Key, zero_key}
use qrystal.Spec.{Spec, NetworkDevice, NetworkDeviceCensored, NetworkCensored}
use qrystal.Spec.Equal.{canonical_device, canonical_network}
use qrystal.Spec.Clone.{clone_device}
use qrystal.Coord.{Server, decoded, patch_spec}
use qrystal.Coord.Lookup.{find_device}
use qrystal.Coord.Effect.{current_view}
use qrystal.Coord.Patch.{apply_patch}
use qrystal.Coord.Installed.{IsInstalled}
use qrystal.Device.{Client, Outside}
use qrystal.Device.Requests.{request}
use qrystal.Device.Reify.{key_patch, accessible_patch, accessible_of}
use qrystal.System.{Json, Connection}
use qrystal.System.View.{own_entry}
use qrystal.System.Keys.{IsSameDevice, IsKeyed}
use qrystal.System.Patching.{installed-device, IsPatched}
use qrystal.System.Reaching.{reaching, IsReaching}

-- The specification has the client's device, with this public key.
abbrev pub IsHeld : Spec → Client → Key → Type 0
IsHeld spec c key =
    (d : NetworkDevice) × (find_device spec c.network c.device ≡ some d) × (d.public_key ≡ key)

-- And it reaches no other device.
abbrev pub IsQuiet : Spec → Client → Key → Type 0
IsQuiet spec c key =
    (d : NetworkDevice) × (find_device spec c.network c.device ≡ some d)
    × (d.public_key ≡ key)
    × (d.accessible ≡ [])

-- The network is the view that the specification gives the client's device, to `Equal`.
abbrev pub IsViewed : Spec → Client → NetworkCensored → Type 0
IsViewed spec c nc =
    (view : NetworkCensored) × (current_view spec c.network c.device ≡ some view)
    × (canonical_network nc ≡ canonical_network view)

canonical-public_key :
    (e : NetworkDeviceCensored) (d : NetworkDevice)
    → canonical_device e ≡ canonical_device d.censored
    → (e.public_key ≡ d.public_key) × (e.accessible ≡ d.accessible)
unfolding canonical_device
canonical-public_key e d h = (ap (λ x. x.public_key) h, ap (λ x. x.accessible) h)

key_patch-left :
    (s t : Server) (c : Client) (key : Key) (d : NetworkDevice)
    → find_device s.spec c.network c.device ≡ some d
    → IsInstalled s (request c (patch_spec (decoded (key_patch key)))) (key_patch key) t
    → IsQuiet t.spec c key
unfolding request apply_patch clone_device
key_patch-left s t c key d found h = (
  apply_patch (key_patch key) (clone_device d),
  installed-device s t (request c (patch_spec (decoded (key_patch key)))) (key_patch key) d h found,
  refl,
  refl,
)

accessible_patch-left :
    (s t : Server) (c : Client) (key : Key)
    → IsHeld s.spec c key
    → IsInstalled s (request c (patch_spec (decoded (accessible_patch [])))) (accessible_patch []) t
    → IsQuiet t.spec c key
unfolding request apply_patch clone_device
accessible_patch-left s t c key (d, found, has) h = (
  apply_patch (accessible_patch []) (clone_device d),
  installed-device s t (request c (patch_spec (decoded (accessible_patch []))))
      (accessible_patch []) d h found,
  has,
  refl,
)

-- The specification seen for another client of the same device.
IsHeld-same :
    (spec : Spec) (c c2 : Client) (d : NetworkDevice)
    → IsSameDevice c c2
    → find_device spec c.network c.device ≡ some d
    → find_device spec c2.network c2.device ≡ some d
IsHeld-same spec c c2 d same found =
    ap₂ (λ network device. find_device spec network device) same.0 same.1 ∙ found

IsQuiet-IsHeld : (spec : Spec) (c : Client) (key : Key) → IsQuiet spec c key → IsHeld spec c key
IsQuiet-IsHeld spec c key (d, found, has, quiet) = (d, found, has)

module _ {W : Type 0} (sha_256 : Bytes → Bytes) (json : Json) (o : Outside W)
    (connection : Connection sha_256 json o) where
  abbrev pub spec_at : W → Spec
  spec_at w = (connection.server w).spec

  -- Behind `updateMyKeys` the server holds the key of the client: the network and the server are as
  -- they were, or the device reaches no other one.
  pub IsKeyed-IsHeld :
      (nc : NetworkCensored) (c : Client) (w : W) (nc2 : NetworkCensored) (c2 : Client) (w2 : W)
      → IsViewed (spec_at w) c nc
      → IsKeyed sha_256 json o connection nc c w nc2 c2 w2
      → ((nc2 ≡ nc)
          × (connection.server w2 ≡ connection.server w)
          × IsHeld (spec_at w2) c2 (o.public_key c2.private_key))
        ⊎ IsQuiet (spec_at w2) c2 (o.public_key c2.private_key)
  IsKeyed-IsHeld nc c w nc2 c2 w2 (view, current, canonical) h =
      let (d, found, same_entry) =
        own_entry (spec_at w) c.network c.device view nc h.index h.entry current canonical
          h.index_lem h.entry_lem in
      let found2 = IsHeld-same (spec_at w) c c2 d h.same found in
      let (w1, before, patched) = h.patched in
      let found1 : find_device (spec_at w1) c2.network c2.device ≡ some d =
        ap (λ s. find_device s.spec c2.network c2.device) before ∙ found2 in
      elim patched [
        | inl (t, nc_lem, kept) ↦ inl (
          nc_lem,
          kept ∙ before,
          (
            d,
            ap (λ s. find_device s.spec c2.network c2.device) kept ∙ found1,
            sym (canonical-public_key h.entry d same_entry).0
                ∙ (==_iff h.entry.public_key (o.public_key c2.private_key)).0 t,
          ),
        )
        | inr (t, nc_lem, installed) ↦ inr (
            key_patch-left (connection.server w1) (connection.server w2) c2
              (o.public_key c2.private_key) d found1 installed)
      ]

  -- Where the server holds the key already, nothing changes.
  pub IsKeyed-unchanged :
      (nc : NetworkCensored) (c : Client) (w : W) (nc2 : NetworkCensored) (c2 : Client) (w2 : W)
      → IsViewed (spec_at w) c nc
      → IsHeld (spec_at w) c (o.public_key c.private_key)
      → (c.private_key == zero_key) ≡ false
      → IsKeyed sha_256 json o connection nc c w nc2 c2 w2
      → (nc2 ≡ nc) × (c2 ≡ c) × (connection.server w2 ≡ connection.server w)
  IsKeyed-unchanged nc c w nc2 c2 w2 (view, current, canonical) (x, held, has) n h =
      let (d, found, same_entry) =
        own_entry (spec_at w) c.network c.device view nc h.index h.entry current canonical
          h.index_lem h.entry_lem in
      let same : c2 ≡ c = h.had_key n in
      let (w1, before, patched) = h.patched in
      let key_lem : h.entry.public_key ≡ o.public_key c2.private_key =
        (canonical-public_key h.entry d same_entry).0
        ∙ (ap (λ (y : NetworkDevice). y.public_key) (some-injective (sym found ∙ held))
            ∙ (has ∙ ap (λ (y : Client). o.public_key y.private_key) (sym same))) in
      elim patched [
        | inl (t, nc_lem, kept) ↦ (nc_lem, same, kept ∙ before)
        | inr (t, nc_lem, installed) ↦ absurd (
            true_ne (sym ((==_iff h.entry.public_key (o.public_key c2.private_key)).1 key_lem) ∙ t))
      ]

  no_names : (c : Client) (nc : NetworkCensored) → c.can_forward ≡ false → accessible_of o c nc ≡ []
  unfolding accessible_of
  no_names c nc e = rw (e, accessible_of) refl

  -- Behind `patchAccessible` of a client that does not forward, the device reaches no other one.
  pub IsReaching-IsQuiet :
      (nc : NetworkCensored) (c : Client) (w : W) (nc2 : NetworkCensored) (c2 : Client) (w2 : W)
      (key : Key)
      → c.can_forward ≡ false
      → (IsViewed (spec_at w) c nc × IsHeld (spec_at w) c key) ⊎ IsQuiet (spec_at w) c key
      → IsReaching sha_256 json o connection nc c w nc2 c2 w2
      → IsQuiet (spec_at w2) c key
  IsReaching-IsQuiet nc c w nc2 c2 w2 key quiet before h =
      let patched =
        subst
          (λ names.
            IsPatched sha_256 json o connection (names == h.entry.accessible) c
              (accessible_patch names) nc (reaching sha_256 json o connection nc h.index names) w
              nc2 w2)
          (no_names c nc quiet) h.patched in
      elim patched [
        | inl (t, nc_lem, kept) ↦
            subst (λ s. IsQuiet s.spec c key) (sym kept)
              (elim before [
                | inr q ↦ q
                | inl ((view, current, canonical), (x, held, has)) ↦
                    let (d, found, same_entry) =
                      own_entry (spec_at w) c.network c.device view nc h.index h.entry current
                        canonical h.index_lem h.entry_lem in
                    (
                      x,
                      held,
                      has,
                      ap (λ (y : NetworkDevice). y.accessible) (some-injective (sym held ∙ found))
                          ∙ (sym (canonical-public_key h.entry d same_entry).1
                              ∙ sym ((==_iff [] h.entry.accessible).0 t)),
                    )
              ])
        | inr (t, nc_lem, installed) ↦
            accessible_patch-left (connection.server w) (connection.server w2) c key
              (elim before [
                | inl (viewed, held) ↦ held
                | inr q ↦ IsQuiet-IsHeld (spec_at w) c key q
              ])
              installed
      ]

  -- Where the server holds that already, nothing changes.
  pub IsReaching-unchanged :
      (nc : NetworkCensored) (c : Client) (w : W) (nc2 : NetworkCensored) (c2 : Client) (w2 : W)
      (key : Key)
      → c.can_forward ≡ false
      → IsViewed (spec_at w) c nc
      → IsQuiet (spec_at w) c key
      → IsReaching sha_256 json o connection nc c w nc2 c2 w2
      → (nc2 ≡ nc) × (connection.server w2 ≡ connection.server w)
  IsReaching-unchanged nc c w nc2 c2 w2 key quiet (view, current, canonical)
        (x, held, has, none_reached) h =
      let (d, found, same_entry) =
        own_entry (spec_at w) c.network c.device view nc h.index h.entry current canonical
          h.index_lem h.entry_lem in
      let names_lem : accessible_of o c nc ≡ h.entry.accessible =
        no_names c nc quiet
        ∙ (sym none_reached
            ∙ (ap (λ (y : NetworkDevice). y.accessible) (some-injective (sym held ∙ found))
                ∙ sym (canonical-public_key h.entry d same_entry).1)) in
      elim h.patched [
        | inl (t, nc_lem, kept) ↦ (nc_lem, kept)
        | inr (t, nc_lem, installed) ↦
            absurd
              (true_ne (sym ((==_iff (accessible_of o c nc) h.entry.accessible).1 names_lem) ∙ t))
      ]
