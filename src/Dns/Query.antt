-- ===== src/Dns/Query.antt =====
-- `handle`, `handleQuery`, `handleParent` and `returnAddresses` of dns/dns.go. A message is the part
-- of the DNS library's message that the source reads and writes; the library's `SetReply` is a
-- parameter.
pub mod Laws
use qrystal.Prelude.{
  ℕ, Bool, true, false, Option, none, some, List, [], ◌∷◌, ◌++◌, if◌then◌else◌, ◌==◌, list_eq,
  nat_eq, nat_beq, Outcome, ok, or_panic, ◌>>=◌, replicate,
}
use qrystal.Text.{Bytes, has_suffix, trim_suffix, but_last, split}
use qrystal.Net.{IpNet}
use qrystal.Spec.{SpecCensored, NetworkDeviceCensored, get_network_censored, get_device_censored}
use qrystal.Dns.{Parent, RpcServer, Server}
use qrystal.Dns.Config.{is_empty}

pub record Question : Type 0 where
  pub name : Bytes
  pub qtype : ℕ

-- A resource record; its class is IN and its TTL is 0.
pub data Rr : Type 0 where
  a : Bytes → Bytes → Rr
  aaaa : Bytes → Bytes → Rr

pub record Msg : Type 0 where
  pub opcode : ℕ
  pub rcode : ℕ
  pub question : List Question
  pub answer : List Rr

-- The constants of the DNS library, which are those of RFC 1035.
abbrev pub opcode_query : ℕ
opcode_query = 0

abbrev pub type_a : ℕ
type_a = 1

abbrev pub rcode_success : ℕ
rcode_success = 0

abbrev pub rcode_server_failure : ℕ
rcode_server_failure = 2

abbrev pub rcode_name_error : ℕ
rcode_name_error = 3

abbrev pub mask_32 : Bytes
mask_32 = replicate 4 255

abbrev pub mask_128 : Bytes
mask_128 = replicate 16 255

-- The records that are appended to the answer.
unfoldable pub return_addresses : Question → List IpNet → List Rr
return_addresses q [] = []
return_addresses q (ip_net ∷ addresses) =
    let rest = return_addresses q addresses in
    if ip_net.mask == mask_32
    then a q.name ip_net.ip ∷ rest
    else if ip_net.mask == mask_128
    then aaaa q.name ip_net.ip ∷ rest
    else rest

abbrev pub reverse {ℓ} : {A : Type ℓ} → List A → List A
reverse [] = []
reverse (x ∷ xs) = reverse xs ++ x ∷ []

-- `if len(parts) == 1 && parts[0] == "" { parts = nil }`
abbrev pub drop_blank : List Bytes → List Bytes
drop_blank ([] ∷ []) = []
drop_blank parts = parts

-- `if s != "" { parts = append([]string{s}, parts...) }`
abbrev pub put_first : Bytes → List Bytes → List Bytes
put_first s parts = if is_empty s then parts else s ∷ parts

-- From the parts, the network first and the device second, to the response code and the answers.
unfoldable pub answer_parts : SpecCensored → Question → List Bytes → ℕ × List Rr
unfolding return_addresses
answer_parts spec q (network ∷ device ∷ []) = elim (get_network_censored spec network) [
  | none ↦ (rcode_name_error, [])
  | some nc ↦ elim (get_device_censored nc device) [
    | none ↦ (rcode_name_error, [])
    | some ndc ↦ (rcode_success, return_addresses q ndc.addresses)
  ]
]
answer_parts spec q parts = (rcode_name_error, [])

-- The parts of `name`, which is the name of the question without its last byte.
unfoldable pub parts_of : Parent → Bytes → List Bytes
parts_of parent name =
    put_first parent.network
      (put_first parent.device (reverse (drop_blank (split 46 (trim_suffix name parent.suffix)))))

unfoldable pub handle_parent : RpcServer → Question → Bytes → Parent → ℕ × List Rr
unfolding answer_parts parts_of
handle_parent r q name parent = elim r.spec [
  | none ↦ (rcode_server_failure, [])
  | some spec ↦ answer_parts spec q (parts_of parent name)
]

-- The first parent whose suffix the name has: the loop is left behind it, whatever the type of the
-- question.
unfoldable pub first_parent : List Parent → Bytes → Option Parent
first_parent [] name = none
first_parent (parent ∷ parents) name =
    if has_suffix name parent.suffix then some parent else first_parent parents name

-- One question: a response code other than success ends the loop over the questions.
unfoldable pub handle_question : Server → Question → Bytes → ℕ × List Rr
unfolding handle_parent first_parent
handle_question s q name = elim (first_parent s.parents name) [
  | none ↦ (rcode_success, [])
  | some parent ↦
      if nat_beq q.qtype type_a then handle_parent s.r q name parent else (rcode_success, [])
]

abbrev pub add_answers : List Rr → ℕ × List Rr → ℕ × List Rr
add_answers answer (rcode, more) = (rcode, answer ++ more)

-- The name of a question without its last byte, which the loop over the parents slices: an empty
-- name panics if there is a parent.
abbrev pub sliced_name : List Parent → Question → Outcome Bytes
sliced_name [] q = ok []
sliced_name (parent ∷ parents) q = or_panic (but_last q.name)

-- The loop over the questions.
unfoldable pub handle_questions : Server → List Question → Outcome (ℕ × List Rr)
unfolding handle_question
handle_questions s [] = ok (rcode_success, [])
handle_questions s (q ∷ qs) = sliced_name s.parents q >>= (λ name.
    let (rcode, more) = handle_question s q name in
    let rest = handle_questions s qs in
    if nat_beq rcode rcode_success
    then (rest >>= (λ r. ok (add_answers more r)))
    else ok (rcode, more))

unfoldable pub handle_query : Server → Msg → Outcome (ℕ × List Rr)
unfolding handle_questions
handle_query s m = handle_questions s m.question >>= (λ r. ok (add_answers m.answer r))

-- `handle`, up to the message that is written.
unfoldable pub handle : (Msg → Msg) → Server → Msg → Outcome Msg
unfolding handle_query
handle set_reply s r =
    let m = set_reply r in
    if nat_beq r.opcode opcode_query
    then (handle_query s m
        >>= (λ q. let (rcode, answer) = q in ok (record m { rcode = rcode; answer = answer })))
    else ok m
