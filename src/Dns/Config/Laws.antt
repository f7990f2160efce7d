-- ===== src/Dns/Config/Laws.antt =====
-- `NewServer` of dns/dns.go: which configurations it accepts.
use qrystal.Prelude.{
  ℕ, suc, ◌≡◌, ◌≢◌, ◌↔◌, true, false, none, List, [], ◌∷◌, map, arith, ==_iff, list_eq, nat_eq,
  bool_eq, contains, IsDistinct, inr,
}
use qrystal.Text.{Bytes}
use qrystal.Dns.{Parent}
use qrystal.Dns.Config.{
  is_empty, starts_with_dot, ends_with_dot, find_suffix, check_parent, check_parents, new_server,
}

-- A parent for one device of one network has a suffix that is a whole name; a parent for all of
-- them has a suffix that starts with a dot. No suffix is empty or ends with a period.
abbrev pub IsPlace : Parent → Type 0
IsPlace parent =
    (parent.suffix ≢ [])
    × (ends_with_dot parent.suffix ≡ false)
    × (is_empty parent.network ≡ is_empty parent.device)
    × (starts_with_dot parent.suffix ≡ is_empty parent.network)

abbrev pub ArePlaces : List Parent → Type 0
ArePlaces [] = Unit
ArePlaces (parent ∷ parents) = IsPlace parent × ArePlaces parents

abbrev suffix_of : Parent → Bytes
suffix_of parent = parent.suffix

is_empty_iff : (s : Bytes) → (is_empty s ≡ true) ↔ (s ≡ [])
is_empty_iff [] = ground arith
is_empty_iff (c ∷ s) = ground arith

check_parent-IsPlace : (i : ℕ) (parent : Parent) → (check_parent i parent ≡ none) ↔ IsPlace parent
unfolding check_parent
check_parent-IsPlace i parent =
    ground
      (arith, is_empty_iff parent.suffix, ==_iff (is_empty parent.network) (is_empty parent.device))

-- The suffixes of the parents are not among those seen, nor twice among each other, in the order of
-- the loop.
abbrev AreFresh : List Bytes → List Parent → Type 0
AreFresh seen [] = Unit
AreFresh seen (parent ∷ parents) =
    (contains seen parent.suffix ≡ false) × AreFresh (parent.suffix ∷ seen) parents

AreFresh-cons :
    (s : Bytes) (seen : List Bytes) (parents : List Parent)
    → AreFresh (s ∷ seen) parents
      ↔ (AreFresh seen parents × (contains (map suffix_of parents) s ≡ false))
AreFresh-cons s seen [] = ground arith
AreFresh-cons s seen (parent ∷ parents) = ground (
  arith,
  AreFresh-cons parent.suffix (s ∷ seen) parents,
  AreFresh-cons parent.suffix seen parents,
  AreFresh-cons s seen parents,
  ==_iff s parent.suffix,
  ==_iff parent.suffix s,
)

AreFresh-IsDistinct :
    (parents : List Parent) → AreFresh [] parents ↔ IsDistinct (map suffix_of parents)
AreFresh-IsDistinct [] = ground arith
AreFresh-IsDistinct (parent ∷ parents) =
    ground (arith, AreFresh-cons parent.suffix [] parents, AreFresh-IsDistinct parents)

abbrev seen_suffix : Bytes × ℕ → Bytes
seen_suffix (s, i) = s

find_suffix-contains :
    (suffixes : List (Bytes × ℕ)) (s : Bytes)
    → (find_suffix suffixes s ≡ none) ↔ (contains (map seen_suffix suffixes) s ≡ false)
unfolding find_suffix
find_suffix-contains [] s = ground arith
find_suffix-contains ((t, j) ∷ suffixes) s = ground (arith, find_suffix-contains suffixes s)

check_parents-none :
    (suffixes : List (Bytes × ℕ)) (i : ℕ) (parents : List Parent)
    → (check_parents suffixes i parents ≡ none)
      ↔ (ArePlaces parents × AreFresh (map seen_suffix suffixes) parents)
unfolding check_parents
check_parents-none suffixes i [] = ground arith
check_parents-none suffixes i (parent ∷ parents) = ground (
  arith,
  check_parent-IsPlace i parent,
  find_suffix-contains suffixes parent.suffix,
  check_parents-none ((parent.suffix, i) ∷ suffixes) (suc i) parents,
)

-- `NewServer` makes a server of the parents, with no specification yet, exactly if there is a
-- parent, every parent is well formed, and no two parents have one suffix.
pub new_server_iff :
    (parents : List Parent)
    → (new_server parents ≡ inr (record { r = record { spec = none }; parents = parents }))
      ↔ ((parents ≢ []) × ArePlaces parents × IsDistinct (map suffix_of parents))
unfolding new_server
new_server_iff [] = ground arith
new_server_iff (parent ∷ parents) =
    ground
      (arith, check_parents-none [] 0 (parent ∷ parents), AreFresh-IsDistinct (parent ∷ parents))
