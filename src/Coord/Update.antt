-- ===== src/Coord/Update.antt =====
-- coord/update.go: replacing the specification, and forgetting who has applied the old one.
pub mod Union
pub mod Kept
pub mod Latest
use qrystal.Prelude.{
  Bool, true, false, Option, none, some, List, [], ◌∷◌, if◌then◌else◌, Eq, ◌==◌, list_eq, nat_eq,
  Less, ◌<?◌, sort, Outcome, ok, failed, panicked, ◌>>=◌, or_panic,
}
use qrystal.Text.{Bytes, bytes_less}
use qrystal.Spec.{Spec, Network, NetworkDevice, get_network, get_device}
use qrystal.Spec.Equal.{network_equal}
use qrystal.Spec.Censor.{censor_for_device}
use qrystal.Coord.{Server}

-- The merge of `sliceUnion`. Over a total order the third test of the source, `x > y`, is all that
-- is left after the other two.
union_loop {ℓ} : {A : Type ℓ} ⦃e : Eq A⦄ ⦃o : Less A⦄ → List A → List A → List A
union_loop [] bs = []
union_loop (x ∷ xs) [] = []
union_loop (x ∷ xs) (y ∷ ys) = elim (x == y) [
  | true ↦ x ∷ union_loop xs ys
  | false ↦ elim (x <? y) [ true ↦ union_loop xs (y ∷ ys) | false ↦ union_loop (x ∷ xs) ys ]
]

unfoldable pub slice_union {ℓ} : {A : Type ℓ} ⦃e : Eq A⦄ ⦃o : Less A⦄ → List A → List A → List A
unfolding union_loop
slice_union a b = union_loop (sort a) (sort b)

-- `s.latest[name] = names`
abbrev pub set_latest : (Bytes → List Bytes) → Bytes → List Bytes → Bytes → List Bytes
set_latest latest name names k = if name == k then names else latest k

-- The first loop of `updateSpecNoLock`, over the old networks.
unfoldable pub drop_removed : List Network → Spec → (Bytes → List Bytes) → Bytes → List Bytes
drop_removed [] new latest = latest
drop_removed (o ∷ os) new latest =
    drop_removed os new
      (elim (get_network new o.name) [ none ↦ set_latest latest o.name [] | some n ↦ latest ])

-- `if oldNC.Equal(newNC) { keep = append(keep, sndName) }`
abbrev pub keep_if : Bool → Bytes → List Bytes → List Bytes
keep_if test name keep = if test then name ∷ keep else keep

-- The loop over the devices of a new network.
unfoldable pub keep_devices : Network → Network → List NetworkDevice → Outcome (List Bytes)
keep_devices old new [] = ok []
keep_devices old new (d ∷ ds) = elim (get_device old d.name) [
  | none ↦ keep_devices old new ds
  | some _ ↦ do
    old_view ← or_panic (censor_for_device old d.name)
    new_view ← or_panic (censor_for_device new d.name)
    keep ← keep_devices old new ds
    ok (keep_if (network_equal old_view new_view) d.name keep)
]

-- The second loop of `updateSpecNoLock`, over the new networks.
unfoldable pub keep_networks :
    Spec → List Network → (Bytes → List Bytes) → Outcome (Bytes → List Bytes)
keep_networks old [] latest = ok latest
keep_networks old (n ∷ ns) latest = elim (get_network old n.name) [
  | none ↦ keep_networks old ns latest
  | some o ↦ do
    keep ← keep_devices o n n.devices
    keep_networks old ns (set_latest latest n.name (slice_union keep (latest n.name)))
]

unfoldable pub update_spec_no_lock : Server → Spec → Outcome Server
unfolding drop_removed keep_networks keep_devices slice_union
update_spec_no_lock s new_spec = do
  latest ← keep_networks s.spec new_spec.networks (drop_removed s.spec.networks new_spec s.latest)
  ok (record s { spec = new_spec; latest = latest })
