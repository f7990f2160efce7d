-- ===== src/Spec/Compile/Forwards.antt =====
-- The loops of spec/compile.go that fill `forwardsFor` and read it.
use qrystal.Prelude.{
  ℕ, suc, zero, ◌+◌, ◌≡◌, ◌<◌, refl, ap, ◌∙◌, sym, Bool, true, false, some, List, [], ◌∷◌, ◌++◌,
  if◌then◌else◌, list_eq, nat_eq, nat_beq, arith, nat_beq_iff, append-nil, get_elem?,
  get_elem?-modify_self, get_elem?-modify_ne, modify, length, is_some, Outcome, ok, inl, inr,
  Bool-cases,
}
use qrystal.Net.{IpNet}
use qrystal.Spec.{NetworkDeviceCensored}
use qrystal.Spec.Compile.{is_unset, append_at, is_forwarded, forwards_loop, allowed_loop}
use qrystal.Spec.Compile.Expected.{
  is_indexed, AreIndexed, is_forwarded_by, forwarded_to, forwarded_addresses,
}

below_zero : (i : ℕ) → i < 0 → ⊥
below_zero i h = omega arith

pub get_elem?_below {ℓ} :
    {A : Type ℓ} (xs : List A) (i : ℕ) → i < length xs → is_some (get_elem? xs i) ≡ true
get_elem?_below [] i h = absurd (below_zero i h)
get_elem?_below (x ∷ xs) zero h = refl
get_elem?_below (x ∷ xs) (suc i) h = get_elem?_below xs i (omega arith)

length-modify {ℓ} :
    {A : Type ℓ} (xs : List A) (i : ℕ) (f : A → A) → length (modify xs i f) ≡ length xs
length-modify [] i f = refl
length-modify (x ∷ xs) zero f = refl
length-modify (x ∷ xs) (suc i) f = ap suc (length-modify xs i f)

pub append_assoc {ℓ} : {A : Type ℓ} (xs ys zs : List A) → (xs ++ ys) ++ zs ≡ xs ++ (ys ++ zs)
append_assoc [] ys zs = refl
append_assoc (x ∷ xs) ys zs = ap (◌∷◌ x) (append_assoc xs ys zs)

-- What the loop over the forwarded devices makes of `old`.
abbrev pub Filled :
    ℕ → ℕ → List NetworkDeviceCensored → List (List ℕ) → Outcome (List (List ℕ)) → Type 0
Filled snd_i i ds old result =
    (new : List (List ℕ)) × (result ≡ ok new)
    × ((j : ℕ) (is : List ℕ)
        → get_elem? old j ≡ some is
        → get_elem? new j ≡ some (is ++ forwarded_to snd_i j i ds))

abbrev added : List (List ℕ) → ℕ → ℕ → List (List ℕ)
added old j i = modify old j (λ is. is ++ i ∷ [])

append_at-modify :
    (old : List (List ℕ)) (j i : ℕ)
    → j < length old
    → (is_some (get_elem? old j) ≡ true) × (append_at old j i ≡ ok (added old j i))
append_at-modify old j i h = (get_elem?_below old j h, ground (arith, get_elem?_below old j h))

forwarder-below :
    (snd_i i n : ℕ) (d : NetworkDeviceCensored)
    → is_forwarded snd_i i d ≡ true
    → is_indexed n d ≡ true
    → d.forwarder_chosen_index < n
forwarder-below snd_i i n d h k = ground arith

get_elem?-added :
    (old : List (List ℕ)) (j k i : ℕ) (is : List ℕ)
    → get_elem? old k ≡ some is
    → get_elem? (added old j i) k ≡ some (if nat_beq j k then is ++ i ∷ [] else is)
get_elem?-added old j k i is h = elim (Bool-cases (nat_beq j k)) [
  | inl e ↦ rw e (
      ap (get_elem? (added old j i)) (sym ((nat_beq_iff j k).0 e))
      ∙ get_elem?-modify_self old j (λ xs. xs ++ i ∷ []) is
          (ap (get_elem? old) ((nat_beq_iff j k).0 e) ∙ h))
  | inr e ↦
      rw e (
        get_elem?-modify_ne old j k (λ xs. xs ++ i ∷ []) (λ q. ground (arith, nat_beq_iff j k)) ∙ h)
]

pub forwards_loop-Filled :
    (snd_i i : ℕ) (ds : List NetworkDeviceCensored) (old : List (List ℕ))
    → AreIndexed (length old) ds
    → Filled snd_i i ds old (forwards_loop snd_i i ds old)
unfolding forwards_loop
forwards_loop-Filled snd_i i [] old h = (old, refl, λ j is q. ground (arith, append-nil is))
forwards_loop-Filled snd_i i (d ∷ ds) old h = elim (Bool-cases (is_forwarded snd_i i d)) [
  | inl e ↦
      let (there, q) =
        append_at-modify old d.forwarder_chosen_index i
          (forwarder-below snd_i i (length old) d e h.0) in
      let (new, p, f) =
        forwards_loop-Filled snd_i (suc i) ds (added old d.forwarder_chosen_index i)
          (rw (length-modify old d.forwarder_chosen_index (λ is. is ++ i ∷ [])) h.1) in
      (
        new,
        ground arith,
        λ j is g.
            f j (if nat_beq d.forwarder_chosen_index j then is ++ i ∷ [] else is)
              (get_elem?-added old d.forwarder_chosen_index j i is g)
            ∙ ground (arith, append_assoc is (i ∷ []) (forwarded_to snd_i j (suc i) ds)),
      )
  | inr e ↦
      let (new, p, f) = forwards_loop-Filled snd_i (suc i) ds old h.1 in
      (new, ground arith, λ j is q. ground (arith, f j is q))
]

allowed_loop-cons :
    (b : Bool) (devices : List NetworkDeviceCensored) (i : ℕ) (d : NetworkDeviceCensored)
    (js : List ℕ) (acc : List IpNet)
    → get_elem? devices i ≡ some d
    → is_unset d ≡ false
    → allowed_loop b devices (i ∷ js) acc ≡ allowed_loop b devices js (acc ++ d.addresses)
unfolding allowed_loop
allowed_loop-cons b devices i d js acc h u = ground arith

forwarded-set :
    (snd_i j i : ℕ) (d : NetworkDeviceCensored)
    → is_forwarded_by snd_i j i d ≡ true
    → is_unset d ≡ false
forwarded-set snd_i j i d h = ground arith

pub allowed_loop-forwarded :
    (b : Bool) (devices : List NetworkDeviceCensored) (snd_i j i : ℕ)
    (ds : List NetworkDeviceCensored) (acc : List IpNet)
    → ((k : ℕ) → get_elem? devices (i + k) ≡ get_elem? ds k)
    → allowed_loop b devices (forwarded_to snd_i j i ds) acc
      ≡ ok (acc ++ forwarded_addresses snd_i j i ds)
unfolding allowed_loop
allowed_loop-forwarded b devices snd_i j i [] acc h = ground (arith, append-nil acc)
allowed_loop-forwarded b devices snd_i j i (d ∷ ds) acc h =
    elim (Bool-cases (is_forwarded_by snd_i j i d)) [
      | inl e ↦ rw e (
          allowed_loop-cons b devices i d (forwarded_to snd_i j (suc i) ds) acc head_at
            (forwarded-set snd_i j i d e)
          ∙ allowed_loop-forwarded b devices snd_i j (suc i) ds (acc ++ d.addresses) tail_at
          ∙ ap ok (append_assoc acc d.addresses (forwarded_addresses snd_i j (suc i) ds)))
      | inr e ↦ rw e (allowed_loop-forwarded b devices snd_i j (suc i) ds acc tail_at)
    ]
  where
    head_at : get_elem? devices i ≡ some d
    head_at = ap (get_elem? devices) (omega arith) ∙ h 0

    tail_at : (k : ℕ) → get_elem? devices (suc i + k) ≡ get_elem? ds k
    tail_at k = ap (get_elem? devices) (omega arith) ∙ h (suc k)
