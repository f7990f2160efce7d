-- ===== src/Coord/Lookup.antt =====
-- Where the handlers of coord/server.go write: the positions that the lookups by name lead to.
use qrystal.Prelude.{
  ℕ, zero, suc, find_func, ◌≡◌, refl, ap, inl, inr, ◌&&◌, Option, none, some, List, [], ◌∷◌, arith,
  if◌then◌else◌, ◌==◌, ==_iff, list_eq, nat_eq, index_func, get_elem?, at_index-index_func, modify,
  Bool-cases, Option-cases,
}
use qrystal.Text.{Bytes}
use qrystal.Spec.{
  Spec, Network, NetworkDevice, get_network_index, get_network, get_device_index, get_device,
}
use qrystal.Coord.Handlers.{on_device}

-- A position that a search by key found holds an element with the key.
module _ {ℓ} {A : Type ℓ} (key : A → Bytes) where
  index_func-key :
      (xs : List A) (k : Bytes) (i : ℕ)
      → index_func (λ x. key x == k) xs ≡ some i
      → (x : A) × (get_elem? xs i ≡ some x) × (key x ≡ k)
  index_func-key [] k i h = absurd (cc)
  index_func-key (x ∷ xs) k zero h = elim (Bool-cases (key x == k)) [
    | inl e ↦ (x, refl, (==_iff (key x) k).0 e)
    | inr e ↦ absurd (ground arith)
  ]
  index_func-key (x ∷ xs) k (suc i) h = elim (Bool-cases (key x == k)) [
    | inl e ↦ absurd (ground arith)
    | inr e ↦ index_func-key xs k i (ground arith)
  ]

  -- A write to the position that a search found, seen by another search: the key decides.
  find_func-modify :
      (xs : List A) (k k' : Bytes) (i : ℕ) (f : A → A)
      → ((x : A) → key (f x) ≡ key x)
      → index_func (λ x. key x == k) xs ≡ some i
      → find_func (λ x. key x == k') (modify xs i f) ≡ elim (find_func (λ x. key x == k') xs) [
        | none ↦ none
        | some x ↦ some (if k == k' then f x else x)
      ]
  find_func-modify [] k k' i f keep h = absurd (cc)
  find_func-modify (x ∷ xs) k k' zero f keep h =
      ground (arith, keep x, ==_iff (key x) k, ==_iff (key x) k', ==_iff k k')
  find_func-modify (x ∷ xs) k k' (suc i) f keep h =
      ground
        (arith, find_func-modify xs k k' i f keep, ==_iff (key x) k, ==_iff (key x) k', ==_iff k k')

pub get_network-find_func :
    (s : Spec) (name : Bytes)
    → get_network s name ≡ find_func (λ (n : Network). n.name == name) s.networks
unfolding get_network
get_network-find_func s name = at_index-index_func _ s.networks

pub get_device-find_func :
    (n : Network) (name : Bytes)
    → get_device n name ≡ find_func (λ (d : NetworkDevice). d.name == name) n.devices
unfolding get_device
get_device-find_func n name = at_index-index_func _ n.devices

-- A network that `GetNetwork` finds stands at the index that `GetNetworkIndex` finds.
pub get_network-index :
    (s : Spec) (name : Bytes) (n : Network)
    → get_network s name ≡ some n
    → (i : ℕ) × (get_network_index s name ≡ some i) × (get_elem? s.networks i ≡ some n)
unfolding get_network
get_network-index s name n h = elim (Option-cases (get_network_index s name)) [
  | inl e ↦ absurd (ground arith)
  | inr (i, e) ↦ (i, e, ground arith)
]

pub get_device-index :
    (n : Network) (name : Bytes) (d : NetworkDevice)
    → get_device n name ≡ some d
    → (j : ℕ) × (get_device_index n name ≡ some j) × (get_elem? n.devices j ≡ some d)
unfolding get_device
get_device-index n name d h = elim (Option-cases (get_device_index n name)) [
  | inl e ↦ absurd (ground arith)
  | inr (j, e) ↦ (j, e, ground arith)
]

-- The device of a name in the network of a name.
unfoldable pub find_device : Spec → Bytes → Bytes → Option NetworkDevice
find_device s network device = elim (get_network s network) [
  | none ↦ none
  | some n ↦ get_device n device
]

unfoldable pub on_network : ℕ → (NetworkDevice → NetworkDevice) → Network → Network
on_network j f n = record n { devices = modify n.devices j f }

pub get_device-on_network :
    (n : Network) (device name : Bytes) (j : ℕ) (f : NetworkDevice → NetworkDevice)
    → ((d : NetworkDevice) → (f d).name ≡ d.name)
    → get_device_index n device ≡ some j
    → get_device (on_network j f n) name
      ≡ elim (get_device n name) [ none ↦ none | some d ↦ some (if device == name then f d else d) ]
unfolding on_network get_device_index
get_device-on_network n device name j f keep h =
    rw (get_device-find_func (on_network j f n) name, get_device-find_func n name)
      (find_func-modify (λ (d : NetworkDevice). d.name) n.devices device name j f keep h)

get_network-on_device :
    (s : Spec) (network name : Bytes) (i j : ℕ) (f : NetworkDevice → NetworkDevice)
    → get_network_index s network ≡ some i
    → get_network (on_device s i j f) name ≡ elim (get_network s name) [
      | none ↦ none
      | some n ↦ some (if network == name then on_network j f n else n)
    ]
unfolding on_device on_network get_network_index
get_network-on_device s network name i j f h =
    rw (get_network-find_func (on_device s i j f) name, get_network-find_func s name)
      (find_func-modify (λ (n : Network). n.name) s.networks network name i (on_network j f)
        (λ n. refl) h)

-- A write through the two indices changes the device of those names, and no other.
pub find_device-on_device :
    (s : Spec) (network device name' name : Bytes) (i j : ℕ) (n : Network)
    (f : NetworkDevice → NetworkDevice)
    → ((d : NetworkDevice) → (f d).name ≡ d.name)
    → get_network_index s network ≡ some i
    → get_network s network ≡ some n
    → get_device_index n device ≡ some j
    → find_device (on_device s i j f) name' name ≡ elim (find_device s name' name) [
      | none ↦ none
      | some d ↦ some (if network == name' && device == name then f d else d)
    ]
unfolding find_device
find_device-on_device s network device name' name i j n f keep hi hn hj =
    elim (Bool-cases (network == name')) [
      | inl e ↦ ground (
        arith,
        get_network-on_device s network name' i j f hi,
        get_device-on_network n device name j f keep hj,
        ap (get_network s) ((==_iff network name').0 e),
      )
      | inr e ↦ ground (arith, get_network-on_device s network name' i j f hi)
    ]
