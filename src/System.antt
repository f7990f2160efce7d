-- ===== src/System.antt =====
-- A device's client (device/client.go) and the coordination server (coord/server.go) together: the
-- server is a part of what is outside of the client, and the client's requests are served by it.
pub mod Networks
pub mod Answers
pub mod Exchange
pub mod Choosing
pub mod View
pub mod Patching
pub mod Keys
pub mod Reaching
pub mod Held
pub mod Applying
pub mod Report
pub mod Stages
pub mod Settled
pub mod Steps
use qrystal.Net.{is_network, IpNet}
use qrystal.Prelude.{
  ℕ, ◌≡◌, ◌⊎◌, Bool, true, false, Option, none, some, [], ◌∷◌, ◌==◌, list_eq, nat_eq, Outcome, ok,
  failed, panicked, ◌>>=◌, all_of, ltb, length, ◌&&◌, List, sort,
}
use qrystal.Text.{Bytes, is_ascii}
use qrystal.Goal.Key.{Key, zero_key}
use qrystal.Goal.Machine.{Machine}
use qrystal.Goal.Applier.{ip_net_less}
use qrystal.Spec.{NetworkDeviceCensored, NetworkCensored, SpecCensored}
use qrystal.Spec.Json.{NetworkDeviceCensoredJson, KeyFiles, unmarshal_devices}
use qrystal.Spec.Json.Laws.{IsReread, rereads}
use qrystal.Coord.{
  Server, StatusBody, Action, post_status, Request, status, latest_json, view_json, Response,
  status_code,
}
use qrystal.Coord.Handlers.{serve}
use qrystal.Device.{Body, spec_body, latest_body, other_body, Outside}

-- A device that JSON carries, and whose addresses no sorting reorders: its addresses, of which there
-- is at most one, are networks, and its texts are ASCII.
abbrev pub is_plain : NetworkDeviceCensored → Bool
is_plain d =
    ltb (length d.addresses) 2
    && all_of is_network d.addresses
    && is_ascii d.name
    && all_of is_ascii d.endpoints
    && all_of is_ascii d.accessible

-- What carries JSON: the files that a decoder may read, what it reads of a text, in which encoding/json
-- replaces what is not UTF-8, and what it reads of a device's text. The text of an address is parsed
-- to the network that the address is in.
pub record Json : Type 0 where
  pub files : KeyFiles
  pub reread : NetworkDeviceCensored → NetworkDeviceCensoredJson
  pub text : Bytes → Bytes
  pub text_lem : (s : Bytes) → is_ascii s ≡ true → text s ≡ s
  pub reread_lem : (d : NetworkDeviceCensored) → is_plain d ≡ true → IsReread d (reread d)

module _ (json : Json) where
  -- A view of a network at the other end.
  unfoldable pub receive : NetworkCensored → Outcome NetworkCensored
  receive nc = do
    devices ← unmarshal_devices json.files (rereads json.reread nc.devices)
    ok (record {
      name = json.text nc.name;
      devices = devices;
      censored_for = json.text nc.censored_for;
    })

  abbrev pub view_body : Outcome NetworkCensored → Body
  view_body (ok nc) = spec_body nc
  view_body failed = other_body
  view_body panicked = other_body

  -- What a client decodes of a response.
  abbrev pub body_of : Response → Body
  body_of (status code ∷ latest_json b ∷ []) = latest_body b
  body_of (status code ∷ view_json nc ∷ []) = view_body (receive nc)
  body_of _ = other_body

  -- What the server decodes of a report: an error leaves it the zero value.
  abbrev pub report_of : StatusBody → Outcome NetworkCensored → StatusBody
  report_of body (ok nc) = record body { reified = nc }
  report_of body failed = record body { has_error = true }
  report_of body panicked = record body { has_error = true }

  abbrev pub sent_action : Action → Action
  sent_action (post_status body) = post_status (report_of body (receive body.reified))
  sent_action action = action

  abbrev pub sent : Request → Request
  sent r = record r { action = sent_action r.action }

-- The addresses of a machine's first interface, and the same sorted.
abbrev pub own_addresses : Machine → Option (List IpNet)
own_addresses gm = elim gm.interfaces [ [] ↦ none | ◌∷◌ iface rest ↦ some iface.addresses ]

abbrev pub sorted_own : Machine → Option (List IpNet)
sorted_own gm = elim gm.interfaces [ [] ↦ none | ◌∷◌ iface rest ↦ some (sort iface.addresses) ]

module _ {W : Type 0} (sha_256 : Bytes → Bytes) (json : Json) (o : Outside W) where
  -- The server is a part of what is outside, and only the requests of this client change it: a
  -- request has an error, or is served and the response delivered. The applier leaves the addresses
  -- of an interface as they were, or sorts them. A private key that is made is not the zero key.
  pub record Connection : Type 0 where
    pub server : W → Server
    pub delivers :
        (r : Request) (w : W) (t : Server) (response : Response)
        → serve sha_256 (server w) (sent json r) ≡ ok (t, response)
        → ((o.http r w).0 ≡ none)
          ⊎ (((o.http r w).0 ≡ some (status_code response, body_of json response))
              × (server (o.http r w).1 ≡ t))
    pub keeps_dns : (s : SpecCensored) (w : W) → server (o.update_dns s w).1 ≡ server w
    pub keeps_machine : (gm : Machine) (w : W) → server (o.apply_machine gm w).2 ≡ server w
    pub sorts :
        (gm : Machine) (w : W)
        → (own_addresses (o.apply_machine gm w).1 ≡ own_addresses gm)
          ⊎ (own_addresses (o.apply_machine gm w).1 ≡ sorted_own gm)
    pub keeps_key : (w : W) → server (o.generate_private_key w).1 ≡ server w
    pub keeps_draw : (n : ℕ) (w : W) → server (o.intn n w).1 ≡ server w
    pub makes_key :
        (w : W) (key : Key) → (o.generate_private_key w).0 ≡ some key → (key == zero_key) ≡ false
