-- ===== src/Dns/Config.antt =====
-- `NewServer` of dns/dns.go: the checks of the configured parents.
pub mod Laws
use qrystal.Prelude.{
  ℕ, suc, Bool, true, false, not, ◌&&◌, Option, none, some, List, [], ◌∷◌, if◌then◌else◌, ◌==◌,
  list_eq, nat_eq, bool_eq, ◌⊎◌, inl, inr, nat_beq,
}
use qrystal.Text.{Bytes}
use qrystal.Dns.{Parent, RpcServer, Server}

-- The errors of `NewServer`, with the indices that their texts name.
pub data ConfigError : Type 0 where
  no_parent : ConfigError
  no_suffix : ℕ → ConfigError
  trailing_period : ℕ → ConfigError
  half_a_place : ℕ → ConfigError
  leading_dot : ℕ → ConfigError
  no_leading_dot : ℕ → ConfigError
  duplicate_suffixes : ℕ → ℕ → ConfigError

abbrev pub is_empty : Bytes → Bool
is_empty [] = true
is_empty (c ∷ s) = false

-- `s[0] == '.'` and `s[len(s)-1] == '.'`, for a string that is not empty.
abbrev pub starts_with_dot : Bytes → Bool
starts_with_dot [] = false
starts_with_dot (c ∷ s) = nat_beq c 46

abbrev pub ends_with_dot : Bytes → Bool
ends_with_dot [] = false
ends_with_dot (c ∷ []) = nat_beq c 46
ends_with_dot (c ∷ d ∷ s) = ends_with_dot (d ∷ s)

-- The map from the suffixes seen so far to their indices.
unfoldable pub find_suffix : List (Bytes × ℕ) → Bytes → Option ℕ
find_suffix [] s = none
find_suffix ((t, j) ∷ suffixes) s = if t == s then some j else find_suffix suffixes s

-- The checks of one parent, before the one for duplicates.
unfoldable pub check_parent : ℕ → Parent → Option ConfigError
check_parent i parent =
    if is_empty parent.suffix
    then some (no_suffix i)
    else if ends_with_dot parent.suffix
    then some (trailing_period i)
    else if not (is_empty parent.network == is_empty parent.device)
    then some (half_a_place i)
    else if (not (is_empty parent.network) && not (is_empty parent.device))
        && starts_with_dot parent.suffix
    then some (leading_dot i)
    else if (is_empty parent.network && is_empty parent.device)
        && not (starts_with_dot parent.suffix)
    then some (no_leading_dot i)
    else none

-- The loop over the parents from index `i` on; `none` when it comes to its end.
unfoldable pub check_parents : List (Bytes × ℕ) → ℕ → List Parent → Option ConfigError
unfolding check_parent find_suffix
check_parents suffixes i [] = none
check_parents suffixes i (parent ∷ parents) =
    let rest = check_parents ((parent.suffix, i) ∷ suffixes) (suc i) parents in
    elim (check_parent i parent) [
      | some e ↦ some e
      | none ↦ elim (find_suffix suffixes parent.suffix) [
        | some j ↦ some (duplicate_suffixes i j)
        | none ↦ rest
      ]
    ]

unfoldable pub new_server : List Parent → ConfigError ⊎ Server
unfolding check_parents
new_server [] = inl no_parent
new_server (parent ∷ parents) = elim (check_parents [] 0 (parent ∷ parents)) [
  | some e ↦ inl e
  | none ↦ inr (record { r = record { spec = none }; parents = parent ∷ parents })
]
