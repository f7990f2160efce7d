-- ===== src/Tests/Dns.antt =====
-- A server with one parent for all devices and one for a single device (dns/).
use qrystal.Prelude.{
  ◌≡◌, ◌↔◌, ◌≢◌, inr, refl, none, some, List, [], ◌∷◌, ◌++◌, arith, map, ◌==◌, list_eq, nat_eq,
  if◌then◌else◌, IsDistinct, ok,
}
use qrystal.Text.{Bytes, bytes}
use qrystal.Dns.{Parent, Server, direct_update_spec}
use qrystal.Dns.Config.{new_server}
use qrystal.Dns.Config.Laws.{ArePlaces, new_server_iff}
use qrystal.Dns.Query.{
  a, Msg, type_a, first_parent, handle_query, answer_parts, add_answers, rcode_success,
}
use qrystal.Dns.Query.Laws.{resolution, device_name, open_parent_resolves, placed_parent_resolves}
use qrystal.Tests.Spec.{spec}

abbrev all_devices : Parent
all_devices = record { suffix = bytes ".qrystal.internal"; network = []; device = [] }

abbrev the_hub : Parent
the_hub = record { suffix = bytes "hub.example"; network = bytes "wg"; device = bytes "hub" }

abbrev parents : List Parent
parents = all_devices ∷ the_hub ∷ []

abbrev server : Server
server = record { r = record { spec = none }; parents = parents }

new_server_iff_example :
    (new_server parents ≡ inr (record { r = record { spec = none }; parents = parents }))
    ↔ ((parents ≢ []) × ArePlaces parents × IsDistinct (map (λ p. p.suffix) parents))
new_server_iff_example = new_server_iff parents

is_accepted : new_server parents ≡ inr server
unfolding new_server
is_accepted = refl

abbrev asks : Bytes → Msg
asks name = record {
  opcode = 0;
  rcode = 0;
  question = record { name = name; qtype = type_a } ∷ [];
  answer = [];
}

abbrev name_of_b : Bytes
name_of_b = device_name (bytes "b") (bytes "wg") (bytes ".qrystal.internal")

falls_to_all : first_parent parents name_of_b ≡ some all_devices
unfolding first_parent qrystal.Text.has_suffix
falls_to_all = refl

open_parent_resolves_example :
    handle_query (direct_update_spec server spec) (asks (name_of_b ++ 46 ∷ []))
    ≡ ok (add_answers [] (resolution spec (name_of_b ++ 46 ∷ []) (bytes "wg") (bytes "b")))
open_parent_resolves_example =
    open_parent_resolves server spec (asks (name_of_b ++ 46 ∷ [])) (bytes ".qrystal.internal")
      (bytes "wg") (bytes "b") refl falls_to_all refl refl

falls_to_hub : first_parent parents (bytes "hub.example") ≡ some the_hub
unfolding first_parent qrystal.Text.has_suffix
falls_to_hub = refl

placed_parent_resolves_example :
    handle_query (direct_update_spec server spec) (asks (bytes "hub.example" ++ 46 ∷ []))
    ≡ ok (
        add_answers [] (
          if bytes "hub.example" == bytes "hub.example"
          then resolution spec (bytes "hub.example" ++ 46 ∷ []) (bytes "wg") (bytes "hub")
          else (3, [])))
placed_parent_resolves_example =
    placed_parent_resolves server spec (asks (bytes "hub.example" ++ 46 ∷ [])) (bytes "hub.example")
      the_hub refl falls_to_hub (ground arith) (ground arith)

hub_is_answered :
    answer_parts spec
      (record { name = bytes "hub.example."; qtype = type_a })
      (bytes "wg" ∷ bytes "hub" ∷ [])
    ≡ (rcode_success, a (bytes "hub.example.") (10 ∷ 0 ∷ 0 ∷ 1 ∷ []) ∷ [])
unfolding answer_parts qrystal.Spec.get_network_censored qrystal.Spec.get_device_censored
hub_is_answered = refl
