-- ===== src/Tests/Goal.antt =====
-- Sets of interface names (goal/), and of device names (coord/).
use qrystal.Prelude.{
  subst, ap, Bool-cases, inl, inr, ◌==◌, ==_iff, arith, IsDistinct, some, none, contains-filter_by,
  ℕ, replicate, pos, if◌then◌else◌, Bool, true, false, not, ◌&&◌, List, [], ◌∷◌, ◌≡◌, refl, list_eq,
  nat_eq, contains, filter_by, sort,
}
use qrystal.Text.{Bytes, bytes, bytes_less}
use qrystal.Goal.Sets.{set_difference, set_intersection}
use qrystal.Goal.Sets.Laws.{set_difference-filter_by, contains-set_intersection}
use qrystal.Net.{IpNet}
use qrystal.Goal.Machine.{Interface}
use qrystal.Goal.Applier.{ip_net_eq, ip_net_less, Link, allowed_ips, update_interface_addresses}
use qrystal.Goal.Applier.Laws.{IsLink, update_interface_addresses-holds}
use qrystal.Coord.Update.{slice_union}
use qrystal.Coord.Update.Union.{contains-slice_union}

abbrev wanted : List Bytes
wanted = bytes "wg1" ∷ bytes "wg0" ∷ bytes "wg1" ∷ []

abbrev present : List Bytes
present = bytes "wg2" ∷ bytes "wg0" ∷ []

set_difference-filter_by_example :
    set_difference wanted present ≡ filter_by (λ x. not (contains present x)) (sort wanted)
set_difference-filter_by_example = set_difference-filter_by wanted present

contains-set_intersection_example :
    contains (set_intersection wanted present) (bytes "wg0")
    ≡ (contains wanted (bytes "wg0") && contains present (bytes "wg0"))
contains-set_intersection_example = contains-set_intersection wanted present (bytes "wg0")

contains-slice_union_example :
    contains (slice_union wanted present) (bytes "wg2")
    ≡ (contains wanted (bytes "wg2") && contains present (bytes "wg2"))
contains-slice_union_example = contains-slice_union wanted present (bytes "wg2")

created : set_difference wanted present ≡ bytes "wg1" ∷ bytes "wg1" ∷ []
unfolding set_difference qrystal.Prelude.sort
created = refl

-- A link that keeps its addresses in a list.
abbrev pub once : List IpNet → List IpNet
once [] = []
once (x ∷ xs) = if contains xs x then once xs else x ∷ once xs

pub contains-once : (xs : List IpNet) (a : IpNet) → contains (once xs) a ≡ contains xs a
contains-once [] a = refl
contains-once (x ∷ xs) a = elim (Bool-cases (x == a)) [
  | inl e ↦
      subst (λ y. contains (once (x ∷ xs)) y ≡ contains (x ∷ xs) y) ((==_iff x a).0 e)
        (ground (arith, contains-once xs x, ==_iff x x))
  | inr e ↦ ground (arith, contains-once xs a)
]

pub once-IsDistinct : (xs : List IpNet) → IsDistinct (once xs)
once-IsDistinct [] = tt
once-IsDistinct (x ∷ xs) = ground (arith, once-IsDistinct xs, contains-once xs x)

abbrev listed : Link (List IpNet)
listed = record {
  list = λ k. (some (once k), k);
  add = λ ip k. (not (contains k ip), ip ∷ k);
  del = λ ip k. (contains k ip, filter_by (λ x. not (ip == x)) k);
}

abbrev always : List IpNet → Bool
always k = true

listed-IsLink : IsLink listed always contains
listed-IsLink = record {
  lists = λ k o. (once k, k, refl, o, once-IsDistinct k, contains-once k, λ ip. refl);
  adds = λ ip k o h. (ip ∷ k, ap (λ b. (not b, ip ∷ k)) h, o, λ x. ground arith);
  dels = λ ip k o h. (
    filter_by (λ x. not (ip == x)) k,
    ap (λ b. (b, filter_by (λ x. not (ip == x)) k)) h,
    o,
    λ x. contains-filter_by (λ y. not (ip == y)) k x,
  );
}

abbrev address : ℕ → IpNet
address n = record { ip = 10 ∷ 0 ∷ 0 ∷ n ∷ []; mask = replicate 4 255 }

abbrev iface : Interface
iface = record {
  name = bytes "wg0";
  private_key = replicate 32 1;
  listen_port = pos 51820;
  addresses = address 1 ∷ [];
  peers =
      record {
        name = bytes "b";
        public_key = replicate 32 2;
        preshared_key = none;
        endpoint = [];
        persistent_keepalive = pos 0;
        allowed_ips = address 2 ∷ address 3 ∷ [];
      }
      ∷ [];
  broken = false;
}

update_interface_addresses-holds_example :
    (k : List IpNet) × (update_interface_addresses listed iface (address 9 ∷ [])
      ≡ ((true, k), record iface { addresses = sort iface.addresses }))
    × (always k ≡ true)
    × ((x : IpNet) → contains k x ≡ contains iface.addresses x)
update_interface_addresses-holds_example =
    update_interface_addresses-holds listed always contains listed-IsLink iface (address 9 ∷ [])
      refl (refl, tt)

-- The address that is not wanted goes, and the one that is missing comes.
addresses_brought :
    (update_interface_addresses listed iface (address 9 ∷ [])).0 ≡ (true, address 1 ∷ [])
unfolding update_interface_addresses set_difference qrystal.Prelude.sort
addresses_brought = refl
