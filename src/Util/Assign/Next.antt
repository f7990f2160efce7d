-- ===== src/Util/Assign/Next.antt =====
-- util/assign.go: what `nextIP` makes of the bytes of an address.
use qrystal.Prelude.{
  subst, Outcome, ℕ, zero, suc, ◌+◌, ◌-◌, ◌*◌, ◌/◌, ◌%◌, ◌^◌, ◌≤◌, ◌<◌, ◌≡◌, ◌⊎◌, inl, inr, refl,
  ap, ◌∙◌, [], ◌∷◌, ◌++◌, arith, length, length-append, replicate, ok, panicked,
}
use native.Mathlib.Decide.{dec_lt}
use qrystal.Text.{Bytes, IsBytes}
use qrystal.Util.Assign.{big_set_bytes, big_bytes, pad, next_ip}

-- The number of an address.
abbrev pub value : Bytes → ℕ
value ip = big_set_bytes 0 ip

pow_suc : (n : ℕ) → 256 ^ suc n ≡ 256 * 256 ^ n
pow_suc n = grind arith

power_bound : (bound n : ℕ) → bound * 256 * 256 ^ n ≡ bound * 256 ^ suc n
power_bound bound n = rw (pow_suc n) (grind arith)

set_bytes_bound :
    (n bound : ℕ) (bs : Bytes)
    → IsBytes bs
    → n < bound
    → big_set_bytes n bs < bound * 256 ^ length bs
unfolding big_set_bytes
set_bytes_bound n bound [] h k = omega arith
set_bytes_bound n bound (b ∷ bs) h k =
    subst (λ p. big_set_bytes (n * 256 + b) bs < p) (power_bound bound (length bs))
      (set_bytes_bound (n * 256 + b) (bound * 256) bs h.1 (omega (arith, h.0)))

pub value_bound : (ip : Bytes) → IsBytes ip → value ip < 256 ^ length ip
value_bound ip h = omega (arith, set_bytes_bound 0 1 ip h (omega arith))

set_bytes_snoc :
    (n : ℕ) (bs : Bytes) (b : ℕ) → big_set_bytes n (bs ++ b ∷ []) ≡ big_set_bytes n bs * 256 + b
unfolding big_set_bytes
set_bytes_snoc n [] b = refl
set_bytes_snoc n (x ∷ bs) b = set_bytes_snoc (n * 256 + x) bs b

set_bytes_zeros : (k : ℕ) (bs : Bytes) → value (replicate k 0 ++ bs) ≡ value bs
unfolding big_set_bytes
set_bytes_zeros zero bs = refl
set_bytes_zeros (suc k) bs = set_bytes_zeros k bs

-- An address is given by its length and its number.
set_bytes_injective :
    (n m : ℕ) (a b : Bytes)
    → IsBytes a
    → IsBytes b
    → length a ≡ length b
    → big_set_bytes n a ≡ big_set_bytes m b
    → (n ≡ m) × (a ≡ b)
unfolding big_set_bytes
set_bytes_injective n m [] [] ha hb l e = (e, refl)
set_bytes_injective n m [] (y ∷ b) ha hb l e = absurd (omega arith)
set_bytes_injective n m (x ∷ a) [] ha hb l e = absurd (omega arith)
set_bytes_injective n m (x ∷ a) (y ∷ b) ha hb l e =
    let same = set_bytes_injective (n * 256 + x) (m * 256 + y) a b ha.1 hb.1 (omega arith) e in
    ground (arith, ha.0, hb.0, same)

pub value-injective :
    (a b : Bytes) → IsBytes a → IsBytes b → length a ≡ length b → value a ≡ value b → a ≡ b
value-injective a b ha hb l e = (set_bytes_injective 0 0 a b ha hb l e).1

value-big_bytes : (count n : ℕ) → n < 256 ^ count → value (big_bytes count n) ≡ n
unfolding big_set_bytes big_bytes
value-big_bytes zero n h = omega arith
value-big_bytes (suc count) n h = ground (
  arith,
  pow_suc count,
  value-big_bytes count (n / 256),
  set_bytes_snoc 0 (big_bytes count (n / 256)) (n % 256),
)

IsBytes-append : (a b : Bytes) → IsBytes a → IsBytes b → IsBytes (a ++ b)
IsBytes-append [] b ha hb = hb
IsBytes-append (x ∷ a) b ha hb = (ha.0, IsBytes-append a b ha.1 hb)

zeros-IsBytes : (k : ℕ) → IsBytes (replicate k 0)
zeros-IsBytes zero = tt
zeros-IsBytes (suc k) = (omega arith, zeros-IsBytes k)

big_bytes-IsBytes : (count n : ℕ) → IsBytes (big_bytes count n)
unfolding big_bytes
big_bytes-IsBytes zero n = tt
big_bytes-IsBytes (suc count) n = ground (
  arith,
  IsBytes-append (big_bytes count (n / 256)) (n % 256 ∷ []) (big_bytes-IsBytes count (n / 256))
      (omega arith, tt),
)

-- A number below 256^size has at most `size` bytes, and 256^size has one more.
length-big_bytes : (count n size : ℕ) → n < 256 ^ size → length (big_bytes count n) ≤ size
unfolding big_bytes
length-big_bytes zero n size h = omega arith
length-big_bytes (suc count) n zero h = ground arith
length-big_bytes (suc count) n (suc size) h = ground (
  arith,
  pow_suc size,
  length-big_bytes count (n / 256) size,
  length-append (big_bytes count (n / 256)) (n % 256 ∷ []),
)

length-big_bytes_power : (size n : ℕ) → n ≡ 256 ^ size → length (big_bytes (suc size) n) ≡ suc size
unfolding big_bytes
length-big_bytes_power zero n h = ground arith
length-big_bytes_power (suc size) n h = ground (
  arith,
  pow_suc size,
  length-big_bytes_power size (n / 256),
  length-append (big_bytes (suc size) (n / 256)) (n % 256 ∷ []),
)

length-replicate : (k n : ℕ) → length (replicate k n) ≡ k
length-replicate zero n = refl
length-replicate (suc k) n = ap suc (length-replicate k n)

pad_fits :
    (size : ℕ) (b : Bytes)
    → IsBytes b
    → length b ≤ size
    → (next : Bytes) × (pad size b ≡ ok next)
      × IsBytes next
      × (length next ≡ size)
      × (value next ≡ value b)
unfolding pad
pad_fits size b h k = (
  replicate (size - length b) 0 ++ b,
  ground arith,
  IsBytes-append (replicate (size - length b) 0) b (zeros-IsBytes (size - length b)) h,
  omega (
    arith,
    length-append (replicate (size - length b) 0) b,
    length-replicate (size - length b) 0,
  ),
  set_bytes_zeros (size - length b) b,
)

pad_overflow : (size : ℕ) (b : Bytes) → size < length b → pad size b ≡ panicked
unfolding pad
pad_overflow size b h = ground arith

abbrev pub IsNext : Bytes → Outcome Bytes → Type 0
IsNext ip o =
    ((value ip + 1 < 256 ^ length ip)
      × ((next : Bytes) × (o ≡ ok next)
          × IsBytes next
          × (length next ≡ length ip)
          × (value next ≡ value ip + 1)))
    ⊎ ((value ip + 1 ≡ 256 ^ length ip) × (o ≡ panicked))

-- The next address has the same length and a number that is higher by one; the last address of
-- its length has none, and the call panics.
pub next_ip-IsNext : (ip : Bytes) → IsBytes ip → IsNext ip (next_ip ip)
unfolding next_ip
next_ip-IsNext ip h = elim (dec_lt (value ip + 1) (256 ^ length ip)) [
  | yes below ↦
      let count = suc (length ip) in
      let fits =
        pad_fits (length ip) (big_bytes count (value ip + 1))
          (big_bytes-IsBytes count (value ip + 1))
          (length-big_bytes count (value ip + 1) (length ip) below) in
      inl (
        below,
        (
          fits.0,
          fits.1,
          fits.2,
          fits.3,
          fits.4 ∙ value-big_bytes count (value ip + 1) (omega (arith, pow_suc (length ip))),
        ),
      )
  | no last ↦
      let top : value ip + 1 ≡ 256 ^ length ip = omega (arith, value_bound ip h) in
      inr (
        top,
        pad_overflow (length ip) (big_bytes (suc (length ip)) (value ip + 1))
            (omega (arith, length-big_bytes_power (length ip) (value ip + 1) top)),
      )
]
