-- ===== src/System/Applying.antt =====
-- The addresses that `ApplyMachine` may sort are those of the client's own device (device/client.go,
-- spec/compile.go): a network whose devices have one address at most is left as it was.
use qrystal.Prelude.{
  ℕ, ◌≡◌, ◌⊎◌, inl, inr, refl, sym, ap, ◌∙◌, true, false, Option, none, some, List, [], ◌∷◌, arith,
  ltb, length, sort, modify_same, get_elem?, all_of, all_of-get_elem?, Outcome, ok, failed,
  panicked, ◌>>=◌, or_panic, or_panic-ok, ok-injective, some-injective, index_func, ◌==◌, list_eq,
  nat_eq, replicate, ◌++◌,
}
use qrystal.Text.{Bytes}
use qrystal.Net.{IpNet}
use qrystal.Goal.Key.{Key, zero_key}
use qrystal.Goal.Machine.{Interface, InterfacePeer, Machine}
use qrystal.Goal.Applier.{ip_net_less}
use qrystal.Spec.{NetworkDeviceCensored, NetworkCensored, get_device_censored_index}
use qrystal.Spec.Compile.{
  forward_flags, forwards_loop, peers_loop, compile_network, compile_loop, compile_machine,
}
use qrystal.Device.Reify.{set_private_key, put_addresses}
use qrystal.System.{is_plain, own_addresses, sorted_own}
use qrystal.System.Networks.{view_is_plain}

sort_short : (xs : List IpNet) → ltb (length xs) 2 ≡ true → sort xs ≡ xs
unfolding sort
sort_short [] h = refl
sort_short (x ∷ []) h = refl
sort_short (x ∷ y ∷ xs) h = absurd (ground arith)

then-ok {ℓ κ} :
    {A : Type ℓ} {B : Type κ} (m : Outcome A) (f : A → Outcome B) (b : B)
    → (m >>= f) ≡ ok b
    → (a : A) × (m ≡ ok a) × (f a ≡ ok b)
then-ok (ok a) f b h = (a, refl, h)
then-ok failed f b h = absurd (ground arith)
then-ok panicked f b h = absurd (ground arith)

compile_network-own :
    (nc : NetworkCensored) (i : ℕ) (d : NetworkDeviceCensored) (gm more : Machine)
    → gm.interfaces ≡ []
    → compile_network true nc i d gm ≡ ok more
    → own_addresses more ≡ some d.addresses
unfolding compile_network
compile_network-own nc i d gm more e h =
    let (flags, p, q) =
      then-ok (forward_flags nc d.accessible (gm.forwards_ipv4, gm.forwards_ipv6)) _ more h in
    let (lists, p2, q2) =
      then-ok (forwards_loop i 0 nc.devices (replicate (length nc.devices) [])) _ more q in
    let (peers, p3, q3) = then-ok (peers_loop true nc.devices lists i 0 nc.devices) _ more q2 in
    sym (ap own_addresses (ok-injective _ more q3)) ∙ ap (λ is. first_of (is ++ made peers ∷ [])) e
  where
    first_of : List Interface → Option (List IpNet)
    first_of [] = none
    first_of (iface ∷ rest) = some iface.addresses

    made : List InterfacePeer → Interface
    made peers = record {
      name = nc.name;
      private_key = zero_key;
      listen_port = d.listen_port;
      addresses = d.addresses;
      peers = peers;
      broken = false;
    }

abbrev empty : Machine
empty = record { interfaces = []; forwards_ipv4 = false; forwards_ipv6 = false }

compile_machine-own :
    (nc : NetworkCensored) (name : Bytes) (gm : Machine) (i : ℕ)
    → compile_machine (record { networks = nc ∷ [] }) name true ≡ ok gm
    → get_device_censored_index nc name ≡ some i
    → (d : NetworkDeviceCensored) × (get_elem? nc.devices i ≡ some d)
      × (own_addresses gm ≡ some d.addresses)
unfolding compile_machine compile_loop get_device_censored_index
compile_machine-own nc name gm i h e =
    let at : index_func (λ (d : NetworkDeviceCensored). d.name == name) nc.devices ≡ some i = e in
    let (d, p, q) = then-ok (or_panic (get_elem? nc.devices i)) _ gm (here at) in
    let (more, p2, q2) = then-ok (compile_network true nc i d empty) _ gm q in
    (
      d,
      or_panic-ok (get_elem? nc.devices i) d p,
      sym (ap own_addresses (ok-injective more gm q2))
          ∙ compile_network-own nc i d empty more refl p2,
    )
  where
    here :
        index_func (λ (d : NetworkDeviceCensored). d.name == name) nc.devices ≡ some i
        → (or_panic (get_elem? nc.devices i)
            >>= (λ d. compile_network true nc i d empty >>= (λ more. ok more)))
          ≡ ok gm
    here at =
        sym (
          ap
            (λ (o : Option ℕ). elim o as (λ _. Outcome Machine) [
              | none ↦ ok empty
              | some k ↦
                  or_panic (get_elem? nc.devices k)
                  >>= (λ d. compile_network true nc k d empty >>= (λ more. ok more))
            ])
            at)
        ∙ h

set_private_key-own :
    (gm : Machine) (key : Key) (keyed : Machine)
    → set_private_key gm key ≡ ok keyed
    → (own_addresses keyed ≡ own_addresses gm) × (sorted_own keyed ≡ sorted_own gm)
unfolding set_private_key
set_private_key-own gm key keyed h = by_list gm.interfaces refl
  where
    by_list :
        (is : List Interface)
        → gm.interfaces ≡ is
        → (own_addresses keyed ≡ own_addresses gm) × (sorted_own keyed ≡ sorted_own gm)
    by_list [] e = absurd (ground arith)
    by_list (first ∷ others) e =
        let same : record gm { interfaces = record first { private_key = key } ∷ others } ≡ keyed =
          ok-injective _ keyed (ground arith) in
        (sym (ap own_addresses same) ∙ rw e refl, sym (ap sorted_own same) ∙ rw e refl)

sorted_own-own :
    (gm : Machine) (xs : List IpNet) → own_addresses gm ≡ some xs → sorted_own gm ≡ some (sort xs)
sorted_own-own gm xs h = by_list gm.interfaces refl
  where
    by_list : (is : List Interface) → gm.interfaces ≡ is → sorted_own gm ≡ some (sort xs)
    by_list [] e = absurd (ground arith)
    by_list (first ∷ others) e =
        let same : first.addresses ≡ xs = some-injective (sym (rw e refl) ∙ h) in rw (e, same) refl

put_own :
    (nc : NetworkCensored) (i : ℕ) (d : NetworkDeviceCensored) (left : Machine)
    → get_elem? nc.devices i ≡ some d
    → own_addresses left ≡ some d.addresses
    → put_addresses nc i left ≡ nc
put_own nc i d left g h = by_list left.interfaces refl
  where
    by_list : (is : List Interface) → left.interfaces ≡ is → put_addresses nc i left ≡ nc
    by_list [] e = rw e refl
    by_list (first ∷ others) e =
        let same : first.addresses ≡ d.addresses = some-injective (sym (rw e refl) ∙ h) in
        rw e (
          ap (λ ds. record nc { devices = ds })
            (modify_same (λ x. record x { addresses = first.addresses }) nc.devices i
              (λ x gx.
                ap (λ a. record x { addresses = a })
                  (same
                    ∙ ap (λ (y : NetworkDeviceCensored). y.addresses)
                        (some-injective (sym g ∙ gx))))))

-- The network that was compiled is as it was behind the application of its machine.
pub put_addresses_same :
    (nc : NetworkCensored) (name : Bytes) (gm keyed left : Machine) (key : Key) (i : ℕ)
    → view_is_plain nc ≡ true
    → get_device_censored_index nc name ≡ some i
    → compile_machine (record { networks = nc ∷ [] }) name true ≡ ok gm
    → set_private_key gm key ≡ ok keyed
    → (own_addresses left ≡ own_addresses keyed) ⊎ (own_addresses left ≡ sorted_own keyed)
    → put_addresses nc i left ≡ nc
put_addresses_same nc name gm keyed left key i plain at compiled set sorts =
    let (d, g, own) = compile_machine-own nc name gm i compiled at in
    let (own_keyed, sorted_keyed) = set_private_key-own gm key keyed set in
    let short =
      sort_short d.addresses
        (short_of d (all_of-get_elem? is_plain nc.devices i d (devices plain) g)) in
    put_own nc i d left g (elim sorts [
      | inl e ↦ e ∙ (own_keyed ∙ own)
      | inr e ↦ e ∙ (sorted_keyed ∙ (sorted_own-own gm d.addresses own ∙ ap (λ xs. some xs) short))
    ])
  where
    short_of : (d : NetworkDeviceCensored) → is_plain d ≡ true → ltb (length d.addresses) 2 ≡ true
    short_of d k = ground arith

    devices : view_is_plain nc ≡ true → all_of is_plain nc.devices ≡ true
    devices k = ground arith
