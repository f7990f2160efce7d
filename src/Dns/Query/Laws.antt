-- ===== src/Dns/Query/Laws.antt =====
-- `handleQuery` of dns/dns.go for the two kinds of parents, after `UpdateSpec` of dns/rpc.go.
use qrystal.Prelude.{
  ℕ, ◌≡◌, ◌≢◌, refl, sym, ap, ◌∙◌, true, false, some, List, [], ◌∷◌, ◌++◌, arith, if◌then◌else◌,
  ◌==◌, ==_iff, list_eq, nat_eq, contains, ok, Bool-cases, inl, inr, subst, some-injective,
  append-nil, Option, none, find_func, replicate, at_index-index_func,
}
use qrystal.Text.{
  Bytes, has_suffix, trim_suffix, but_last-append, split, split-append, split_whole, split-empty,
  split_ne, trim_suffix-append, trim_suffix-has_suffix,
}
use qrystal.Net.{IpNet}
use qrystal.Spec.{
  SpecCensored, NetworkCensored, NetworkDeviceCensored, get_network_censored,
  get_network_censored_index, get_device_censored, get_device_censored_index,
}
use qrystal.Dns.{Parent, Server, update_spec, direct_update_spec}
use qrystal.Dns.Query.{
  Question, Rr, Msg, type_a, rcode_name_error, answer_parts, parts_of, handle_parent, first_parent,
  handle_question, handle_questions, handle_query, add_answers, drop_blank, reverse, put_first, a,
  aaaa, return_addresses, sliced_name,
}

abbrev open_parent : Bytes → Parent
open_parent suffix = record { suffix = suffix; network = []; device = [] }

-- The name of a device below the suffix of an open parent.
abbrev pub device_name : Bytes → Bytes → Bytes → Bytes
device_name device network suffix = (device ++ 46 ∷ network) ++ suffix

drop_blank_two : (x y : Bytes) → drop_blank (x ∷ y ∷ []) ≡ x ∷ y ∷ []
drop_blank_two [] y = refl
drop_blank_two (c ∷ x) y = refl

open_parts :
    (device network suffix : Bytes)
    → contains device 46 ≡ false
    → contains network 46 ≡ false
    → parts_of (open_parent suffix) (device_name device network suffix) ≡ network ∷ device ∷ []
unfolding parts_of
open_parts device network suffix hd hn = rw (trim_suffix-append (device ++ 46 ∷ network) suffix) (
    rw (split-append 46 device network hd)
      (rw (split_whole 46 network hn) (ap reverse (drop_blank_two device network))))

snoc_ne : (parts : List Bytes) (p : Bytes) → parts ++ p ∷ [] ≢ []
snoc_ne [] p = ground arith
snoc_ne (x ∷ parts) p = ground arith

reverse_ne : (parts : List Bytes) → parts ≢ [] → reverse parts ≢ []
reverse_ne [] h = h
reverse_ne (p ∷ parts) h = snoc_ne (reverse parts) p

drop_blank_ne : (parts : List Bytes) → parts ≢ [] → parts ≢ [] ∷ [] → drop_blank parts ≢ []
drop_blank_ne [] h k = h
drop_blank_ne ([] ∷ []) h k = absurd (k refl)
drop_blank_ne ([] ∷ p ∷ parts) h k = ground arith
drop_blank_ne ((c ∷ s) ∷ parts) h k = ground arith

three_parts :
    (network device : Bytes) (parts : List Bytes)
    → network ≢ []
    → device ≢ []
    → parts ≢ []
    → (p q : Bytes) → put_first network (put_first device parts) ≢ p ∷ q ∷ []
three_parts [] device parts hn hd hp p q = absurd (hn refl)
three_parts (c ∷ s) [] parts hn hd hp p q = absurd (hd refl)
three_parts (c ∷ s) (d ∷ t) [] hn hd hp p q = absurd (hp refl)
three_parts (c ∷ s) (d ∷ t) (x ∷ parts) hn hd hp p q = ground arith

-- For a network and a device, only the suffix itself has the two parts.
placed_parts :
    (parent : Parent) (name : Bytes)
    → parent.network ≢ []
    → parent.device ≢ []
    → has_suffix name parent.suffix ≡ true
    → name ≢ parent.suffix
    → (p q : Bytes) → parts_of parent name ≢ p ∷ q ∷ []
unfolding parts_of
placed_parts parent name hn hd hs ne =
    three_parts parent.network parent.device
      (reverse (drop_blank (split 46 (trim_suffix name parent.suffix)))) hn hd
      (reverse_ne (drop_blank (split 46 (trim_suffix name parent.suffix))) (
        drop_blank_ne (split 46 (trim_suffix name parent.suffix))
          (split_ne 46 (trim_suffix name parent.suffix))
          (λ e. rest_ne (split-empty 46 (trim_suffix name parent.suffix) e))))
  where
    rest_ne : trim_suffix name parent.suffix ≢ []
    rest_ne e =
        ne (sym (trim_suffix-has_suffix name parent.suffix hs) ∙ ap (λ t. t ++ parent.suffix) e)

two_parts :
    (network device : Bytes)
    → network ≢ []
    → device ≢ []
    → put_first network (put_first device []) ≡ network ∷ device ∷ []
two_parts [] device hn hd = absurd (hn refl)
two_parts (c ∷ s) [] hn hd = absurd (hd refl)
two_parts (c ∷ s) (d ∷ t) hn hd = refl

-- And the suffix itself has the network and the device.
own_parts :
    (parent : Parent)
    → parent.network ≢ []
    → parent.device ≢ []
    → parts_of parent parent.suffix ≡ parent.network ∷ parent.device ∷ []
unfolding parts_of split
own_parts parent hn hd =
    rw (trim_suffix-append [] parent.suffix) (two_parts parent.network parent.device hn hd)

other_parts :
    (spec : SpecCensored) (q : Question) (parts : List Bytes)
    → ((p r : Bytes) → parts ≢ p ∷ r ∷ [])
    → answer_parts spec q parts ≡ (rcode_name_error, [])
unfolding answer_parts
other_parts spec q [] h = refl
other_parts spec q (p ∷ []) h = refl
other_parts spec q (p ∷ r ∷ []) h = absurd (h p r refl)
other_parts spec q (p ∷ r ∷ t ∷ parts) h = refl

placed_answer :
    (spec : SpecCensored) (q : Question) (parent : Parent) (name : Bytes)
    → has_suffix name parent.suffix ≡ true
    → parent.network ≢ []
    → parent.device ≢ []
    → answer_parts spec q (parts_of parent name) ≡ (
        if name == parent.suffix
        then answer_parts spec q (parent.network ∷ parent.device ∷ [])
        else (rcode_name_error, []))
placed_answer spec q parent name hs hn hd = elim (Bool-cases (name == parent.suffix)) [
  | inl e ↦ rw e (
      ap (λ n. answer_parts spec q (parts_of parent n)) ((==_iff name parent.suffix).0 e)
      ∙ ap (answer_parts spec q) (own_parts parent hn hd))
  | inr e ↦ rw e (
      other_parts spec q (parts_of parent name)
        (placed_parts parent name hn hd hs (λ k. ground (arith, ==_iff name parent.suffix))))
]

first_parent-has_suffix :
    (parents : List Parent) (name : Bytes) (parent : Parent)
    → first_parent parents name ≡ some parent
    → has_suffix name parent.suffix ≡ true
unfolding first_parent
first_parent-has_suffix [] name parent h = cc
first_parent-has_suffix (x ∷ parents) name parent h = elim (Bool-cases (has_suffix name x.suffix)) [
  | inl e ↦
      subst (λ (p : Parent). has_suffix name p.suffix ≡ true)
        (some-injective {a = x} {b = parent} (ground arith)) e
  | inr e ↦ first_parent-has_suffix parents name parent (ground arith)
]

-- The records of addresses of one host, and no others.
abbrev pub records_of : Bytes → List IpNet → List Rr
records_of name [] = []
records_of name (n ∷ ns) =
    (if n.mask == replicate 4 255
      then a name n.ip ∷ []
      else if n.mask == replicate 16 255
      then aaaa name n.ip ∷ []
      else [])
    ++ records_of name ns

-- The answer for a device of a network: the records of the device, or a name error, 3, if the
-- specification has no such network or device.
abbrev pub resolution : SpecCensored → Bytes → Bytes → Bytes → ℕ × List Rr
resolution spec name network device =
    elim (find_func (λ (n : NetworkCensored). n.name == network) spec.networks) [
      | none ↦ (3, [])
      | some n ↦ elim (find_func (λ (d : NetworkDeviceCensored). d.name == device) n.devices) [
        | none ↦ (3, [])
        | some d ↦ (0, records_of name d.addresses)
      ]
    ]

return_addresses-records_of :
    (q : Question) (ns : List IpNet) → return_addresses q ns ≡ records_of q.name ns
unfolding return_addresses
return_addresses-records_of q [] = refl
return_addresses-records_of q (n ∷ ns) = ground (arith, return_addresses-records_of q ns)

answer_parts-resolution :
    (spec : SpecCensored) (q : Question) (network device : Bytes)
    → answer_parts spec q (network ∷ device ∷ []) ≡ resolution spec q.name network device
unfolding answer_parts get_network_censored get_network_censored_index get_device_censored
    get_device_censored_index
answer_parts-resolution spec q network device =
    by_network (find_func (λ (n : NetworkCensored). n.name == network) spec.networks) refl
  where
    by_device :
        (n : NetworkCensored) (x : Option NetworkDeviceCensored)
        → get_device_censored n device ≡ x
        → get_network_censored spec network ≡ some n
        → answer_parts spec q (network ∷ device ∷ []) ≡ elim x as (λ _. ℕ × List Rr) [
          | none ↦ (3, [])
          | some d ↦ (0, records_of q.name d.addresses)
        ]
    by_device n none e h = rw (h, answer_parts, e) refl
    by_device n (some d) e h =
        rw (h, answer_parts, e) (ap (λ rs. (0, rs)) (return_addresses-records_of q d.addresses))

    by_network :
        (x : Option NetworkCensored)
        → find_func (λ (n : NetworkCensored). n.name == network) spec.networks ≡ x
        → answer_parts spec q (network ∷ device ∷ []) ≡ elim x as (λ _. ℕ × List Rr) [
          | none ↦ (3, [])
          | some n ↦
              elim (find_func (λ (d : NetworkDeviceCensored). d.name == device) n.devices)
                as (λ _. ℕ × List Rr) [
                  | none ↦ (3, [])
                  | some d ↦ (0, records_of q.name d.addresses)
                ]
        ]
    by_network none e =
        let h =
          at_index-index_func (λ (n : NetworkCensored). n.name == network) spec.networks ∙ e in
        rw (h, answer_parts) refl
    by_network (some n) e =
        by_device n (find_func (λ (d : NetworkDeviceCensored). d.name == device) n.devices)
          (at_index-index_func (λ (d : NetworkDeviceCensored). d.name == device) n.devices)
          (at_index-index_func (λ (n : NetworkCensored). n.name == network) spec.networks ∙ e)

-- The answers to a message of one question for an address.
module _ (s : Server) (spec : SpecCensored) (m : Msg) (name : Bytes) (parent : Parent) where
  abbrev asked : Question
  asked = record { name = name ++ 46 ∷ []; qtype = type_a }

  one_answer :
      first_parent s.parents name ≡ some parent
      → handle_question (direct_update_spec s spec) asked name
        ≡ answer_parts spec asked (parts_of parent name)
  unfolding handle_question handle_parent direct_update_spec update_spec
  one_answer hp = ground arith

  sliced :
      (parents : List Parent)
      → first_parent parents name ≡ some parent
      → sliced_name parents asked ≡ ok name
  unfolding first_parent
  sliced [] h = absurd (ground arith)
  sliced (p ∷ parents) h = rw (but_last-append name 46) refl

  loop_end :
      (rcode : ℕ) (more : List Rr)
      → first_parent s.parents name ≡ some parent
      → handle_question (direct_update_spec s spec) asked name ≡ (rcode, more)
      → handle_questions (direct_update_spec s spec) (asked ∷ []) ≡ ok (rcode, more)
  unfolding handle_questions direct_update_spec
  loop_end rcode more hp h = rw (sliced s.parents hp) (rw h (ground (arith, append-nil more)))

  one_question :
      m.question ≡ asked ∷ []
      → first_parent s.parents name ≡ some parent
      → handle_query (direct_update_spec s spec) m
        ≡ ok (add_answers m.answer (answer_parts spec asked (parts_of parent name)))
  unfolding handle_query
  one_question hq hp = rw hq (rw (loop_end _ _ hp (one_answer hp)) refl)

-- Once `UpdateSpec` has sent a specification, a question for the address of
-- `<device>.<network><suffix>.` that falls to a parent without a network and device is answered
-- with an A record for each of that device's addresses of a mask of 4 bytes 255, an AAAA record for
-- each of a mask of 16, in order, or with a name error, if the specification has no such network or
-- no such device in it; as long as the two names have no dots.
pub open_parent_resolves :
    (s : Server) (spec : SpecCensored) (m : Msg) (suffix network device : Bytes)
    → m.question
      ≡ record { name = device_name device network suffix ++ 46 ∷ []; qtype = type_a } ∷ []
    → first_parent s.parents (device_name device network suffix) ≡ some (open_parent suffix)
    → contains device 46 ≡ false
    → contains network 46 ≡ false
    → handle_query (direct_update_spec s spec) m
      ≡ ok (
          add_answers m.answer
            (resolution spec (device_name device network suffix ++ 46 ∷ []) network device))
open_parent_resolves s spec m suffix network device hq hp hd hn =
    one_question s spec m (device_name device network suffix) (open_parent suffix) hq hp
    ∙ ap
        (λ parts. ok (
          add_answers m.answer (
            answer_parts spec
              (asked s spec m (device_name device network suffix) (open_parent suffix)) parts)))
        (open_parts device network suffix hd hn)
    ∙ ap (λ r. ok (add_answers m.answer r))
        (answer_parts-resolution spec
          (asked s spec m (device_name device network suffix) (open_parent suffix)) network device)

-- Once `UpdateSpec` has sent a specification, a question for the address of a name that falls to a
-- parent with a network and a device is answered with the records of that device, as above, or a
-- name error without it, if the name is the suffix of the parent, and with a name error if it is
-- longer.
pub placed_parent_resolves :
    (s : Server) (spec : SpecCensored) (m : Msg) (name : Bytes) (parent : Parent)
    → m.question ≡ record { name = name ++ 46 ∷ []; qtype = type_a } ∷ []
    → first_parent s.parents name ≡ some parent
    → parent.network ≢ []
    → parent.device ≢ []
    → handle_query (direct_update_spec s spec) m
      ≡ ok (
          add_answers m.answer (
            if name == parent.suffix
            then resolution spec (name ++ 46 ∷ []) parent.network parent.device
            else (3, [])))
placed_parent_resolves s spec m name parent hq hp hn hd =
    one_question s spec m name parent hq hp
    ∙ ap (λ r. ok (add_answers m.answer r))
        (placed_answer spec _ parent name (first_parent-has_suffix s.parents name parent hp) hn hd)
    ∙ ap (λ r. ok (add_answers m.answer (if name == parent.suffix then r else (3, []))))
        (answer_parts-resolution spec (asked s spec m name parent) parent.network parent.device)
