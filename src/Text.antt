-- ===== src/Text.antt =====
-- Go's strings and byte slices: lists of bytes, compared as `bytes.Compare` and `<` compare them.
use Prim.Native.Char.{code}
use Prim.Native.String.{String}
use qrystal.Prelude.{
  ℕ, ◌<◌, ◌++◌, Option, none, some, nat_beq, if◌then◌else◌, compare, Ordering, ◌≡◌, refl, Bool,
  true, false, List, [], ◌∷◌, arith, Less, ◌≢◌, suc, ap, leb, length, length-append, take, drop,
  take-append-drop, ◌-◌, ◌&&◌, ◌==◌, ==_iff, list_eq, nat_eq, contains, all_of, ltb,
}

abbrev pub Bytes : Type 0
Bytes = List ℕ

-- The bytes of an ASCII literal.
abbrev pub bytes : String → Bytes
bytes String.[] = []
bytes (String.◌∷◌ c s) = code c ∷ bytes s

-- `bytes.Compare`
abbrev pub compare_bytes : Bytes → Bytes → Ordering
compare_bytes [] [] = Ordering.eq
compare_bytes [] (y ∷ ys) = Ordering.lt
compare_bytes (x ∷ xs) [] = Ordering.gt
compare_bytes (x ∷ xs) (y ∷ ys) = elim (compare x y) [
  | Ordering.lt ↦ Ordering.lt
  | Ordering.eq ↦ compare_bytes xs ys
  | Ordering.gt ↦ Ordering.gt
]

abbrev pub is_lt : Ordering → Bool
is_lt Ordering.lt = true
is_lt _ = false

abbrev pub is_eq : Ordering → Bool
is_eq Ordering.eq = true
is_eq _ = false

-- `<` on strings
abbrev pub less_bytes : Bytes → Bytes → Bool
less_bytes a b = is_lt (compare_bytes a b)

pub compare_bytes_self : (a : Bytes) → compare_bytes a a ≡ Ordering.eq
compare_bytes_self [] = refl
compare_bytes_self (x ∷ xs) = ground (arith, compare_bytes_self xs)

pub compare_bytes-eq : (a b : Bytes) → compare_bytes a b ≡ Ordering.eq → a ≡ b
compare_bytes-eq [] [] h = refl
compare_bytes-eq [] (y ∷ ys) h = cc
compare_bytes-eq (x ∷ xs) [] h = cc
compare_bytes-eq (x ∷ xs) (y ∷ ys) h = ground (arith, compare_bytes-eq xs ys)

-- Swapping the arguments turns the answer round.
pub compare_bytes-gt :
    (a b : Bytes) → compare_bytes a b ≡ Ordering.gt → compare_bytes b a ≡ Ordering.lt
compare_bytes-gt [] [] h = cc
compare_bytes-gt [] (y ∷ ys) h = cc
compare_bytes-gt (x ∷ xs) [] h = refl
compare_bytes-gt (x ∷ xs) (y ∷ ys) h = ground (arith, compare_bytes-gt xs ys)

pub compare_bytes_trans :
    (a b c : Bytes)
    → compare_bytes a b ≡ Ordering.lt
    → compare_bytes b c ≡ Ordering.lt
    → compare_bytes a c ≡ Ordering.lt
compare_bytes_trans [] [] c h k = cc
compare_bytes_trans [] (y ∷ ys) [] h k = cc
compare_bytes_trans [] (y ∷ ys) (z ∷ zs) h k = refl
compare_bytes_trans (x ∷ xs) [] c h k = cc
compare_bytes_trans (x ∷ xs) (y ∷ ys) [] h k = cc
compare_bytes_trans (x ∷ xs) (y ∷ ys) (z ∷ zs) h k = ground (arith, compare_bytes_trans xs ys zs)

pub less_bytes_irrefl : (a : Bytes) → less_bytes a a ≡ false
less_bytes_irrefl a = ground (arith, compare_bytes_self a)

pub less_bytes_trans :
    (a b c : Bytes) → less_bytes a b ≡ true → less_bytes b c ≡ true → less_bytes a c ≡ true
less_bytes_trans a b c h k = ground (arith, compare_bytes_trans a b c)

pub less_bytes_total : (a b : Bytes) → less_bytes a b ≡ false → less_bytes b a ≡ false → a ≡ b
less_bytes_total a b h k = ground (arith, compare_bytes-eq a b, compare_bytes-gt a b)

instance abbrev pub bytes_less : Less Bytes
bytes_less = record {
  less = less_bytes;
  irrefl = less_bytes_irrefl;
  trans = less_bytes_trans;
  total = less_bytes_total;
}

-- Each byte fits into eight bits.
abbrev pub IsBytes : Bytes → Type 0
IsBytes [] = Unit
IsBytes (x ∷ xs) = (x < 256) × IsBytes xs

abbrev pub IsAscii : Bytes → Type 0
IsAscii [] = Unit
IsAscii (c ∷ s) = (c < 128) × IsAscii s

abbrev pub is_ascii : Bytes → Bool
is_ascii s = all_of (λ c. ltb c 128) s

pub IsAscii-append : (a b : Bytes) → IsAscii a → IsAscii b → IsAscii (a ++ b)
IsAscii-append [] b h k = k
IsAscii-append (c ∷ a) b h k = (h.0, IsAscii-append a b h.1 k)

-- `strings.HasPrefix(s, prefix)` and the text behind the prefix, in one: `none` if it has none.
unfoldable pub strip_prefix : Bytes → Bytes → Option Bytes
strip_prefix [] s = some s
strip_prefix (p ∷ ps) [] = none
strip_prefix (p ∷ ps) (c ∷ s) = if nat_beq p c then strip_prefix ps s else none

pub strip_prefix-append : (p s : Bytes) → strip_prefix p (p ++ s) ≡ some s
unfolding strip_prefix
strip_prefix-append [] s = refl
strip_prefix-append (x ∷ p) s = ground (arith, strip_prefix-append p s)

-- What is behind the prefix, put behind it again, is the whole.
pub strip_prefix-eq_some : (p s r : Bytes) → strip_prefix p s ≡ some r → s ≡ p ++ r
unfolding strip_prefix
strip_prefix-eq_some [] s r h = ground arith
strip_prefix-eq_some (x ∷ p) [] r h = cc
strip_prefix-eq_some (x ∷ p) (c ∷ s) r h = ground (arith, strip_prefix-eq_some p s r)

-- `strings.HasSuffix`
unfoldable pub has_suffix : Bytes → Bytes → Bool
has_suffix s suffix = leb (length suffix) (length s) && drop (length s - length suffix) s == suffix

-- `strings.TrimSuffix`
unfoldable pub trim_suffix : Bytes → Bytes → Bytes
trim_suffix s suffix = if has_suffix s suffix then take (length s - length suffix) s else s

-- `s[:len(s)-1]`, with `none` for the panic on an empty string.
unfoldable pub but_last : Bytes → Option Bytes
but_last [] = none
but_last (c ∷ s) = some (take (length s) (c ∷ s))

abbrev cons_head : ℕ → List Bytes → List Bytes
cons_head c [] = (c ∷ []) ∷ []
cons_head c (part ∷ parts) = (c ∷ part) ∷ parts

-- `strings.Split` at a separator of one byte.
unfoldable pub split : ℕ → Bytes → List Bytes
split sep [] = [] ∷ []
split sep (c ∷ s) =
    let parts = split sep s in if nat_beq c sep then [] ∷ parts else cons_head c parts

pub drop-length : (a b : Bytes) → drop (length a) (a ++ b) ≡ b
drop-length [] b = refl
drop-length (x ∷ a) b = drop-length a b

pub take-length : (a b : Bytes) → take (length a) (a ++ b) ≡ a
take-length [] b = refl
take-length (x ∷ a) b = ap (◌∷◌ x) (take-length a b)

length_before : (a b : Bytes) → length (a ++ b) - length b ≡ length a
length_before a b = omega (arith, length-append a b)

pub has_suffix-append : (a b : Bytes) → has_suffix (a ++ b) b ≡ true
unfolding has_suffix
has_suffix-append a b =
    rw (length_before a b) (ground (arith, length-append a b, drop-length a b, ==_iff b b))

pub trim_suffix-append : (a b : Bytes) → trim_suffix (a ++ b) b ≡ a
unfolding trim_suffix
trim_suffix-append a b =
    rw (length_before a b) (ground (arith, has_suffix-append a b, take-length a b))

-- A string with the suffix is what is trimmed to, and the suffix.
pub trim_suffix-has_suffix : (s b : Bytes) → has_suffix s b ≡ true → trim_suffix s b ++ b ≡ s
unfolding trim_suffix has_suffix
trim_suffix-has_suffix s b h =
    ground
      (arith, ==_iff (drop (length s - length b) s) b, take-append-drop (length s - length b) s)

length_snoc : (s : Bytes) (c : ℕ) → length (s ++ c ∷ []) ≡ suc (length s)
length_snoc s c = omega (arith, length-append s (c ∷ []))

pub but_last-append : (s : Bytes) (c : ℕ) → but_last (s ++ c ∷ []) ≡ some s
unfolding but_last
but_last-append [] c = refl
but_last-append (x ∷ s) c = rw (length_snoc s c) (ap (λ t. some (x ∷ t)) (take-length s (c ∷ [])))

-- A part without the separator is split off whole.
pub split-append :
    (sep : ℕ) (a b : Bytes) → contains a sep ≡ false → split sep (a ++ sep ∷ b) ≡ a ∷ split sep b
unfolding split
split-append sep [] b h = ground arith
split-append sep (x ∷ a) b h = ground (arith, split-append sep a b)

pub split_whole : (sep : ℕ) (a : Bytes) → contains a sep ≡ false → split sep a ≡ a ∷ []
unfolding split
split_whole sep [] h = refl
split_whole sep (x ∷ a) h = ground (arith, split_whole sep a)

cons_head_ne : (c : ℕ) (parts : List Bytes) → cons_head c parts ≢ [] ∷ []
cons_head_ne c [] = ground arith
cons_head_ne c (part ∷ parts) = ground arith

cons_head_ne_nil : (c : ℕ) (parts : List Bytes) → cons_head c parts ≢ []
cons_head_ne_nil c [] = ground arith
cons_head_ne_nil c (part ∷ parts) = ground arith

pub split_ne : (sep : ℕ) (s : Bytes) → split sep s ≢ []
unfolding split
split_ne sep [] = ground arith
split_ne sep (c ∷ s) = ground (arith, cons_head_ne_nil c (split sep s))

-- The parts of a string that is not empty are never the empty part alone.
pub split-empty : (sep : ℕ) (s : Bytes) → split sep s ≡ [] ∷ [] → s ≡ []
unfolding split
split-empty sep [] h = refl
split-empty sep (c ∷ s) h = ground (arith, split_ne sep s, cons_head_ne c (split sep s))
