-- ===== src/System/Reaching.antt =====
-- `patchAccessible` of device/client.go against the coordination server.
use qrystal.System.Networks.{view_is_plain, spec_is_plain, set_device-is_plain}
use qrystal.Prelude.{
  ℕ, ◌≡◌, inl, inr, refl, sym, ap, ◌∙◌, none, some, List, ◌==◌, list_eq, nat_eq, get_elem?, ok,
  panicked, or_panic, Option-cases, panicked_ne, or_panic-ok, all_of, true, arith, ◌∷◌, [],
}
use qrystal.Text.{Bytes, is_ascii}
use qrystal.Spec.{NetworkDeviceCensored, NetworkCensored, get_device_censored_index}
use qrystal.Device.{bind-ok, Client, Outside, bind}
use qrystal.Device.Endpoints.{set_device}
use qrystal.Device.Reify.{
  accessible_patch, accessible_of, patch_accessible_at, patch_accessible, chosen_names,
}
use qrystal.System.{Json, Connection, is_plain}
use qrystal.System.Patching.{IsPatched, unless_sent-IsPatched, IsPatched-networks}

module _ {W : Type 0} (sha_256 : Bytes → Bytes) (json : Json) (o : Outside W)
    (connection : Connection sha_256 json o) where
  abbrev pub reaching : NetworkCensored → ℕ → List Bytes → NetworkCensored
  reaching nc i names = set_device nc i (λ d. record d { accessible = names })

  -- What `patchAccessible` does to the server, where it finds the device's entry.
  pub record IsReaching (nc : NetworkCensored) (c : Client) (w : W) (nc2 : NetworkCensored)
      (c2 : Client) (w2 : W) : Type 0 where
    pub index : ℕ
    pub entry : NetworkDeviceCensored
    pub index_lem : get_device_censored_index nc c.device ≡ some index
    pub entry_lem : get_elem? nc.devices index ≡ some entry
    pub same : c2 ≡ c
    pub patched :
        IsPatched sha_256 json o connection
          (accessible_of o c nc == entry.accessible)
          c
          (accessible_patch (accessible_of o c nc))
          nc
          (reaching nc index (accessible_of o c nc))
          w
          nc2
          w2

  patch_accessible-missing :
      (nc : NetworkCensored) (c : Client) (w : W)
      → get_device_censored_index nc c.device ≡ none
      → patch_accessible o nc c w ≡ (panicked, c, w)
  unfolding patch_accessible
  patch_accessible-missing nc c w e = rw (e, patch_accessible) refl

  patch_accessible-found :
      (nc : NetworkCensored) (c : Client) (w : W) (i : ℕ)
      → get_device_censored_index nc c.device ≡ some i
      → patch_accessible o nc c w
        ≡ bind (or_panic (get_elem? nc.devices i), c, w) (patch_accessible_at o nc i)
  unfolding patch_accessible
  patch_accessible-found nc c w i e = rw (e, patch_accessible) refl

  pub patch_accessible-IsReaching :
      (nc : NetworkCensored) (c : Client) (w : W) (nc2 : NetworkCensored) (c2 : Client) (w2 : W)
      → patch_accessible o nc c w ≡ (ok nc2, c2, w2)
      → IsReaching nc c w nc2 c2 w2
  unfolding patch_accessible_at
  patch_accessible-IsReaching nc c w nc2 c2 w2 h =
      elim (Option-cases (get_device_censored_index nc c.device)) [
        | inl e ↦ absurd (panicked_ne (ap (λ r. r.0) (sym (patch_accessible-missing nc c w e) ∙ h)))
        | inr (i, e) ↦
            let (entry, c0, w0, p, q) =
              bind-ok (or_panic (get_elem? nc.devices i), c, w) (patch_accessible_at o nc i) nc2 c2
                w2 (sym (patch_accessible-found nc c w i e) ∙ h) in
            let names = accessible_of o c nc in
            let (kept, patched) =
              unless_sent-IsPatched sha_256 json o connection (names == entry.accessible)
                (accessible_patch names) nc (reaching nc i names) c w nc2 c2 w2
                (ap (λ r. patch_accessible_at o nc i entry r.1 r.2) p ∙ q) in
            record {
              index = i;
              entry = entry;
              index_lem = e;
              entry_lem = or_panic-ok (get_elem? nc.devices i) entry (ap (λ r. r.0) p);
              same = kept;
              patched = patched;
            }
      ]

  chosen_names-is_ascii :
      (ds : List NetworkDeviceCensored)
      → all_of is_plain ds ≡ true
      → all_of is_ascii (chosen_names ds) ≡ true
  unfolding chosen_names
  chosen_names-is_ascii [] h = refl
  chosen_names-is_ascii (d ∷ ds) h = ground (arith, chosen_names-is_ascii ds)

  accessible_of-is_ascii :
      (c : Client) (nc : NetworkCensored)
      → view_is_plain nc ≡ true
      → all_of is_ascii (accessible_of o c nc) ≡ true
  unfolding accessible_of
  accessible_of-is_ascii c nc v = ground (arith, chosen_names-is_ascii nc.devices)

  accessible-is_plain :
      (d : NetworkDeviceCensored) (names : List Bytes)
      → all_of is_ascii names ≡ true
      → is_plain d ≡ true
      → is_plain (record d { accessible = names }) ≡ true
  accessible-is_plain d names a k = ground arith

  pub IsReaching-networks :
      (nc : NetworkCensored) (c : Client) (w : W) (nc2 : NetworkCensored) (c2 : Client) (w2 : W)
      → view_is_plain nc ≡ true
      → spec_is_plain (connection.server w).spec ≡ true
      → IsReaching nc c w nc2 c2 w2
      → (spec_is_plain (connection.server w2).spec ≡ true) × (view_is_plain nc2 ≡ true)
  IsReaching-networks nc c w nc2 c2 w2 v n h =
      let names = accessible_of o c nc in
      IsPatched-networks sha_256 json o connection (names == h.entry.accessible) c
        (accessible_patch names) nc (reaching nc h.index names) w nc2 w2
        (accessible_of-is_ascii c nc v)
        (set_device-is_plain nc h.index (λ d. record d { accessible = names })
          (λ d k. accessible-is_plain d names (accessible_of-is_ascii c nc v) k) v)
        v n h.patched
