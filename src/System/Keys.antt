-- ===== src/System/Keys.antt =====
-- `updateMyKeys` of device/client.go against the coordination server: what the server holds of the
-- device when it succeeds.
use qrystal.System.Networks.{view_is_plain, set_device-is_plain, spec_is_plain}
use qrystal.Prelude.{
  ℕ, ◌≡◌, inl, inr, refl, sym, ap, ◌∙◌, subst, Bool, true, false, none, some, Option, ◌==◌, list_eq,
  nat_eq, get_elem?, Outcome, ok, panicked, or_panic, Option-cases, Bool-cases, panicked_ne,
  true_ne, or_panic-ok,
}
use qrystal.Text.{Bytes}
use qrystal.Goal.Key.{Key, zero_key}
use qrystal.Spec.{NetworkDeviceCensored, NetworkCensored, get_device_censored_index}
use qrystal.Coord.{Server}
use qrystal.Device.{bind-ok, Client, Outside, bind, Run, ◌>>>=◌}
use qrystal.Device.Endpoints.{set_device}
use qrystal.Device.Reify.{key_patch, ensure_private_key, update_public_key, update_my_keys}
use qrystal.System.{Json, Connection}
use qrystal.System.Patching.{IsPatched, unless_sent-IsPatched, IsPatched-networks}

-- The client is of the same device, and does or does not forward as before.
abbrev pub IsSameDevice : Client → Client → Type 0
IsSameDevice c c2 =
    (c2.network ≡ c.network) × (c2.device ≡ c.device) × (c2.can_forward ≡ c.can_forward)

module _ {W : Type 0} (sha_256 : Bytes → Bytes) (json : Json) (o : Outside W)
    (connection : Connection sha_256 json o) where
  abbrev server : W → Server
  server = connection.server

  -- What comes of the attempt to make a key.
  abbrev made_key : Client → Option Key × W → Outcome Bool × Client × W
  made_key c (none, w) = (panicked, c, w)
  made_key c (some key, w) = (ok true, record c { private_key = key }, w)

  ensure_private_key-set :
      (c : Client) (w : W)
      → (c.private_key == zero_key) ≡ false
      → ensure_private_key o c w ≡ (ok true, c, w)
  unfolding ensure_private_key
  ensure_private_key-set c w e = rw (e, ensure_private_key) refl

  ensure_private_key-unset :
      (c : Client) (w : W) (key : Option Key)
      → (c.private_key == zero_key) ≡ true
      → (o.generate_private_key w).0 ≡ key
      → ensure_private_key o c w ≡ made_key c (key, (o.generate_private_key w).1)
  unfolding ensure_private_key
  ensure_private_key-unset c w none e k = rw (e, k, ensure_private_key) refl
  ensure_private_key-unset c w (some key) e k = rw (e, k, ensure_private_key) refl

  -- The client has a private key, and had it before if it had one.
  ensure_private_key-ok :
      (c : Client) (w : W) (b : Bool) (c2 : Client) (w2 : W)
      → ensure_private_key o c w ≡ (ok b, c2, w2)
      → IsSameDevice c c2
        × ((c2.private_key == zero_key) ≡ false)
        × (server w2 ≡ server w)
        × ((c.private_key == zero_key) ≡ false → c2 ≡ c)
  ensure_private_key-ok c w b c2 w2 h = elim (Bool-cases (c.private_key == zero_key)) [
    | inr e ↦
        let q = sym (ensure_private_key-set c w e) ∙ h in
        let same : c ≡ c2 = ap (λ r. r.1) q in
        (
          subst (IsSameDevice c) same (refl, refl, refl),
          ap (λ (x : Client). x.private_key == zero_key) (sym same) ∙ e,
          ap server (sym (ap (λ r. r.2) q)),
          λ _. sym same,
        )
    | inl e ↦ elim (Option-cases (o.generate_private_key w).0) [
      | inl k ↦
          absurd (panicked_ne (ap (λ r. r.0) (sym (ensure_private_key-unset c w none e k) ∙ h)))
      | inr (key, k) ↦
          let q = sym (ensure_private_key-unset c w (some key) e k) ∙ h in
          let same : record c { private_key = key } ≡ c2 = ap (λ r. r.1) q in
          (
            subst (IsSameDevice c) same (refl, refl, refl),
            ap (λ (x : Client). x.private_key == zero_key) (sym same)
                ∙ connection.makes_key w key k,
            ap server (sym (ap (λ r. r.2) q)) ∙ connection.keeps_key w,
            λ n. absurd (true_ne (sym e ∙ n)),
          )
    ]
  ]

  abbrev pub keyed : NetworkCensored → ℕ → Key → NetworkCensored
  keyed nc i key = set_device nc i (λ d. record d { public_key = key })

  -- What `updateMyKeys` does to the server, where it finds the device's entry.
  pub record IsKeyed (nc : NetworkCensored) (c : Client) (w : W) (nc2 : NetworkCensored)
      (c2 : Client) (w2 : W) : Type 0 where
    pub index : ℕ
    pub entry : NetworkDeviceCensored
    pub index_lem : get_device_censored_index nc c.device ≡ some index
    pub entry_lem : get_elem? nc.devices index ≡ some entry
    pub same : IsSameDevice c c2
    pub has_key : (c2.private_key == zero_key) ≡ false
    pub had_key : (c.private_key == zero_key) ≡ false → c2 ≡ c
    pub patched :
        (w1 : W) × (server w1 ≡ server w)
        × IsPatched sha_256 json o connection
            (entry.public_key == o.public_key c2.private_key)
            c2
            (key_patch (o.public_key c2.private_key))
            nc
            (keyed nc index (o.public_key c2.private_key))
            w1
            nc2
            w2

  update_my_keys-missing :
      (nc : NetworkCensored) (c : Client) (w : W)
      → get_device_censored_index nc c.device ≡ none
      → update_my_keys o nc c w ≡ (panicked, c, w)
  unfolding update_my_keys
  update_my_keys-missing nc c w e = rw (e, update_my_keys) refl

  abbrev keys_step : NetworkCensored → ℕ → NetworkDeviceCensored → Run W NetworkCensored
  keys_step nc i ndc = ensure_private_key o >>>= (λ made. update_public_key o nc i ndc)

  update_my_keys-found :
      (nc : NetworkCensored) (c : Client) (w : W) (i : ℕ)
      → get_device_censored_index nc c.device ≡ some i
      → update_my_keys o nc c w ≡ bind (or_panic (get_elem? nc.devices i), c, w) (keys_step nc i)
  unfolding update_my_keys
  update_my_keys-found nc c w i e = rw (e, update_my_keys) refl

  pub update_my_keys-IsKeyed :
      (nc : NetworkCensored) (c : Client) (w : W) (nc2 : NetworkCensored) (c2 : Client) (w2 : W)
      → update_my_keys o nc c w ≡ (ok nc2, c2, w2)
      → IsKeyed nc c w nc2 c2 w2
  unfolding update_public_key
  update_my_keys-IsKeyed nc c w nc2 c2 w2 h =
      elim (Option-cases (get_device_censored_index nc c.device)) [
        | inl e ↦ absurd (panicked_ne (ap (λ r. r.0) (sym (update_my_keys-missing nc c w e) ∙ h)))
        | inr (i, e) ↦
            let (entry, c0, w0, p, q) =
              bind-ok (or_panic (get_elem? nc.devices i), c, w) (keys_step nc i) nc2 c2 w2
                (sym (update_my_keys-found nc c w i e) ∙ h) in
            let (b, c1, w1, p1, q1) =
              bind-ok (ensure_private_key o c0 w0) (λ made. update_public_key o nc i entry) nc2 c2
                w2 q in
            let key = o.public_key c1.private_key in
            let (kept, patched) =
              unless_sent-IsPatched sha_256 json o connection (entry.public_key == key)
                (key_patch key) nc (keyed nc i key) c1 w1 nc2 c2 w2 q1 in
            let ensured =
              ensure_private_key-ok c w b c1 w1 (ap (λ r. ensure_private_key o r.1 r.2) p ∙ p1) in
            record {
              index = i;
              entry = entry;
              index_lem = e;
              entry_lem = or_panic-ok (get_elem? nc.devices i) entry (ap (λ r. r.0) p);
              same = subst (IsSameDevice c) (sym kept) ensured.0;
              has_key =
                  subst (λ (x : Client). (x.private_key == zero_key) ≡ false) (sym kept) ensured.1;
              had_key = λ n. kept ∙ ensured.3 n;
              patched = (
                w1,
                ensured.2,
                subst
                    (λ (x : Client).
                      IsPatched sha_256 json o connection
                        (entry.public_key == o.public_key x.private_key) x
                        (key_patch (o.public_key x.private_key)) nc
                        (keyed nc i (o.public_key x.private_key)) w1 nc2 w2)
                    (sym kept) patched,
              );
            }
      ]

  pub IsKeyed-networks :
      (nc : NetworkCensored) (c : Client) (w : W) (nc2 : NetworkCensored) (c2 : Client) (w2 : W)
      → view_is_plain nc ≡ true
      → spec_is_plain (server w).spec ≡ true
      → IsKeyed nc c w nc2 c2 w2
      → (spec_is_plain (server w2).spec ≡ true) × (view_is_plain nc2 ≡ true)
  IsKeyed-networks nc c w nc2 c2 w2 v n h =
      let (w1, before, patched) = h.patched in
      let key = o.public_key c2.private_key in
      IsPatched-networks sha_256 json o connection (h.entry.public_key == key) c2 (key_patch key) nc
        (keyed nc h.index key) w1 nc2 w2 refl
        (set_device-is_plain nc h.index (λ d. record d { public_key = key }) (λ d k. k) v) v
        (ap (λ s. spec_is_plain s.spec) before ∙ n) patched
