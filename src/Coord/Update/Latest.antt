-- ===== src/Coord/Update/Latest.antt =====
-- `updateSpecNoLock` of coord/update.go as a whole.
use qrystal.Prelude.{
  ◌≡◌, refl, sym, ap, ◌∙◌, inl, inr, Bool, true, not, ◌&&◌, Option, none, some, List, [], ◌∷◌, map,
  arith, if◌then◌else◌, ◌==◌, ==_iff, list_eq, nat_eq, contains, is_some, find_func,
  find_func-contains, at_index-index_func, IsDistinct, Bool-cases, ok,
}
use qrystal.Text.{Bytes}
use qrystal.Spec.{Spec, Network, get_network}
use qrystal.Coord.{Server}
use qrystal.Coord.Update.{set_latest, drop_removed, update_spec_no_lock}
use qrystal.Coord.Update.Kept.{is_kept, kept_by, keep_networks-ok}

drop_removed-eq :
    (os : List Network) (new : Spec) (latest : Bytes → List Bytes) (name : Bytes)
    → drop_removed os new latest name ≡ (
        if contains (map (λ (n : Network). n.name) os) name && not (is_some (get_network new name))
        then []
        else latest name)
unfolding drop_removed
drop_removed-eq [] new latest name = refl
drop_removed-eq (o ∷ os) new latest name = elim (Bool-cases (o.name == name)) [
  | inl h ↦ ground (
    arith,
    drop_removed-eq os new latest name,
    drop_removed-eq os new (set_latest latest o.name []) name,
    ap (get_network new) ((==_iff o.name name).0 h),
  )
  | inr h ↦ ground (
    arith,
    drop_removed-eq os new latest name,
    drop_removed-eq os new (set_latest latest o.name []) name,
  )
]

unfoldable pub network_names : Spec → List Bytes
network_names s = map (λ n. n.name) s.networks

get_network-network_names :
    (s : Spec) (name : Bytes) → is_some (get_network s name) ≡ contains (network_names s) name
unfolding get_network network_names
get_network-network_names s name =
    ap is_some (at_index-index_func _ s.networks)
    ∙ find_func-contains (λ (n : Network). n.name) s.networks name

-- What becomes of a mark on a device of the named network: it goes with the network, it stays
-- where the network is new, and else it stays if the device's view does.
unfoldable pub stays : Option Network → Option Network → Bytes → Bool
stays old none device = not (is_some old)
stays old (some new) device = kept_by old new device

-- With one network of each name, the second loop looks at the network that `GetNetwork` finds.
is_kept-find :
    (old : Spec) (ns : List Network) (name device : Bytes)
    → IsDistinct (map (λ (n : Network). n.name) ns)
    → is_kept old ns name device ≡ elim (find_func (λ (n : Network). n.name == name) ns) [
      | none ↦ true
      | some n ↦ kept_by (get_network old name) n device
    ]
unfolding is_kept
is_kept-find old [] name device h = refl
is_kept-find old (n ∷ ns) name device h = elim (Bool-cases (n.name == name)) [
  | inl e ↦ ground (
    arith,
    is_kept-find old ns name device h.1,
    find_func-contains (λ (n : Network). n.name) ns name,
    ap (contains (map (λ (n : Network). n.name) ns)) ((==_iff n.name name).0 e),
    ap (get_network old) ((==_iff n.name name).0 e),
  )
  | inr e ↦ ground (arith, is_kept-find old ns name device h.1)
]

is_kept-get_network :
    (old new : Spec) (name device : Bytes)
    → IsDistinct (network_names new)
    → is_kept old new.networks name device ≡ elim (get_network new name) [
      | none ↦ true
      | some n ↦ kept_by (get_network old name) n device
    ]
unfolding get_network network_names
is_kept-get_network old new name device h =
    is_kept-find old new.networks name device h
    ∙ ap (λ o. elim o [ none ↦ true | some n ↦ kept_by (get_network old name) n device ])
        (sym (at_index-index_func _ new.networks))

-- Replacing the specification never panics, and installs it.
pub update_spec_no_lock-ok :
    (s : Server) (new : Spec)
    → (t : Server) × (update_spec_no_lock s new ≡ ok t)
      × (t.spec ≡ new)
      × (t.tokens ≡ s.tokens)
      × ((name device : Bytes)
          → contains (t.latest name) device ≡ (
              contains (drop_removed s.spec.networks new s.latest name) device
              && is_kept s.spec new.networks name device))
unfolding update_spec_no_lock
update_spec_no_lock-ok s new =
    let (l, p, q) =
      keep_networks-ok s.spec new.networks (drop_removed s.spec.networks new s.latest) in
    (record s { spec = new; latest = l }, rw p, refl, refl, q)

-- With one network of each name, a device is marked after the replacement exactly if it was marked
-- before and `stays` lets it be.
pub update_spec_no_lock-marks :
    (s t : Server) (new : Spec)
    → IsDistinct (network_names new)
    → update_spec_no_lock s new ≡ ok t
    → (name device : Bytes)
    → contains (t.latest name) device ≡ (
        contains (s.latest name) device
        && stays (get_network s.spec name) (get_network new name) device)
unfolding stays network_names
update_spec_no_lock-marks s t new h k name device =
    let (u, p, _, _, q) = update_spec_no_lock-ok s new in
    ground (
      arith,
      sym p ∙ k,
      q name device,
      drop_removed-eq s.spec.networks new s.latest name,
      get_network-network_names s.spec name,
      is_kept-get_network s.spec new name device h,
    )
