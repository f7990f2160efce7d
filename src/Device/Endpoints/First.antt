-- ===== src/Device/Endpoints/First.antt =====
-- The first loop of `chooseEndpoints` of device/client.go, device by device.
use qrystal.Prelude.{
  ℕ, suc, zero, ◌+◌, ◌<◌, ◌≡◌, refl, sym, ap, ◌∙◌, subst, Bool, true, false, Option, some, List, [],
  ◌∷◌, arith, contains, get_elem?, nat_eq, list_eq, ok, ok-injective, some-injective, ℤ,
}
use qrystal.Text.{Bytes}
use qrystal.Spec.{NetworkDeviceCensored}
use qrystal.Device.Endpoints.{put_one, choose_loop}
use qrystal.Device.Endpoints.Laws.{taken, choose_loop-cons, join_one-ok}

module _ (score : Bytes → Option ℤ) (ndc_i : ℕ) where
  below_put_one :
      (i m : ℕ) (e : NetworkDeviceCensored) (b : Bool) (more : List NetworkDeviceCensored × List ℕ)
      → m < i
      → contains more.1 m ≡ false
      → contains (put_one i (e, b) more).1 m ≡ false
  below_put_one i m e true (es, is) l h = ground arith
  below_put_one i m e false (es, is) l h = h

  -- Only indices from `i` on are listed.
  below_loop :
      (i m : ℕ) (ds : List NetworkDeviceCensored) (r : List NetworkDeviceCensored × List ℕ)
      → choose_loop score ndc_i i ds ≡ ok r
      → m < i
      → contains r.1 m ≡ false
  unfolding choose_loop
  below_loop i m [] r h l =
      subst (λ (x : List NetworkDeviceCensored × List ℕ). contains x.1 m ≡ false)
        (ok-injective ([], []) r h) refl
  below_loop i m (d ∷ ds) r h l =
      let (e, b, more, p, q, t) =
        join_one-ok score ndc_i i (taken score ndc_i i d) (choose_loop score ndc_i (suc i) ds) r
          (sym (choose_loop-cons score ndc_i i d ds) ∙ h) in
      subst (λ (x : List NetworkDeviceCensored × List ℕ). contains x.1 m ≡ false) t
        (below_put_one i m e b more l (below_loop (suc i) m ds more q (omega arith)))

  -- What the loop makes of the device at `j`, and whether it lists the device's index `n`.
  abbrev pub IsAt : ℕ → ℕ → NetworkDeviceCensored → List NetworkDeviceCensored × List ℕ → Type 0
  IsAt n j d r =
      (e : NetworkDeviceCensored) × (b : Bool) × (get_elem? r.0 j ≡ some e)
      × (taken score ndc_i n d ≡ ok (e, b))
      × (contains r.1 n ≡ b)

  put_one-head :
      (i : ℕ) (d e : NetworkDeviceCensored) (b : Bool) (more : List NetworkDeviceCensored × List ℕ)
      → taken score ndc_i i d ≡ ok (e, b)
      → contains more.1 i ≡ false
      → IsAt i 0 d (put_one i (e, b) more)
  put_one-head i d e true (es, is) h m = (e, true, refl, h, ground arith)
  put_one-head i d e false (es, is) h m = (e, false, refl, h, m)

  put_one-tail :
      (i n j : ℕ) (d e : NetworkDeviceCensored) (b : Bool)
      (more : List NetworkDeviceCensored × List ℕ)
      → i < n
      → IsAt n j d more
      → IsAt n (suc j) d (put_one i (e, b) more)
  put_one-tail i n j d e true (es, is) l (x, c, g, h, m) = (x, c, g, h, ground arith)
  put_one-tail i n j d e false (es, is) l at = at

  pub choose_loop-IsAt :
      (i n j : ℕ) (ds : List NetworkDeviceCensored) (d : NetworkDeviceCensored)
      (r : List NetworkDeviceCensored × List ℕ)
      → n ≡ i + j
      → choose_loop score ndc_i i ds ≡ ok r
      → get_elem? ds j ≡ some d
      → IsAt n j d r
  choose_loop-IsAt i n j [] d r s h g = absurd (ground arith)
  choose_loop-IsAt i n zero (x ∷ ds) d r s h g =
      let (e, b, more, p, q, t) =
        join_one-ok score ndc_i i (taken score ndc_i i x) (choose_loop score ndc_i (suc i) ds) r
          (sym (choose_loop-cons score ndc_i i x ds) ∙ h) in
      subst (λ m. IsAt m 0 d r) (sym (s ∙ omega arith))
        (subst (IsAt i 0 d) t (
          put_one-head i d e b more (ap (taken score ndc_i i) (sym (some-injective g)) ∙ p)
            (below_loop (suc i) i ds more q (omega arith))))
  choose_loop-IsAt i n (suc j) (x ∷ ds) d r s h g =
      let (e, b, more, p, q, t) =
        join_one-ok score ndc_i i (taken score ndc_i i x) (choose_loop score ndc_i (suc i) ds) r
          (sym (choose_loop-cons score ndc_i i x ds) ∙ h) in
      subst (IsAt n (suc j) d) t (
        put_one-tail i n j d e b more (omega arith)
          (choose_loop-IsAt (suc i) n j ds d more (omega arith) q g))
