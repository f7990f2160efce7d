-- ===== src/Lib.antt =====
-- Qrystal: a coordination server, device clients that set up WireGuard interfaces, and a DNS server
-- for the names of the devices.
--
-- How the parts interact. The coordination server (coord/) holds a specification (spec/) of
-- networks and devices. A device client (device/) fetches the view of its network that the server
-- censors for it, registers its public key, chooses an endpoint or a forwarder for each other
-- device, tells the server which devices it can forward to, compiles the view to a machine
-- (spec/compile.go), applies the machine (goal/), and reports the view back; a report that equals
-- the current view marks the device as up to date. A client that is up to date only polls. It hands
-- the view to the DNS server (dns/) too.
--
-- Which file models what.
--   Prelude, Text, Net      Go's lists, strings, signed integers and IP addresses, with the tests
--                           that the source calls on them
--   Goal/Key, Goal/Machine  goal/goal.go and the keys of goal/util.go; Goal/Json the JSON forms of
--                           goal/util.go and goal/duration.go
--   Goal/Sets               `setDifference`, `setIntersection` of goal/util.go
--   Goal/Applier            `updateInterfaceAddresses`, `applyInterfaceRoutes` of
--                           goal/apply_linux.go and `lessIPNet` of goal/util.go
--   Goal/Apply              `ApplyMachine` and the operations on interfaces of
--                           goal/apply_linux.go; Goal/Wireguard its `configureWireguard`;
--                           Goal/Apply/Devices a view of the system's devices
--   Spec                    the records and lookups of spec/spec.go; Spec/Equal, Spec/Clone and
--                           Spec/Censor its `Equal`, `Clone` and `CensorForDevice` methods, Spec/Json
--                           its `UnmarshalJSON` methods and `Validate`
--   Spec/Resolve            `ChooseEndpoint` of spec/resolve.go, and `GetForwardersFor`
--   Spec/Compile            `CompileMachine` of spec/compile.go; Spec/Compile/Expected describes
--                           the machine without its loops
--   Util/Token, Util/Backoff   util/token.go (over Util/Base64 and Util/Hex, which are Go's) and
--                           util/backoff.go; Util/Token/Encoding the JSON and gob methods
--   Util/Assign             `AssignAddress` and `nextIP` of util/assign.go
--   Coord, Coord/Handlers   the server of coord/server.go and its handlers; Coord/Update is
--                           coord/update.go
--   Dns, Dns/Config, Dns/Query   dns/rpc.go and dns/dns.go
--   Device, Device/Requests, Device/Endpoints, Device/Reify   device/client.go and
--                           device/continuous.go
--   System                  the client against the server: requests that the handlers serve, views
--                           that travel as JSON, and runs of `ReifySpec` and `Step` without others
--   Commands                what cmd/coord-server/main.go, cmd/device-client/main.go and
--                           cmd/device-dns/main.go make of their configurations, and the loop in
--                           which a device client takes its steps
--   Tests                   runs on small inputs
--
-- How the code is translated. A struct is a record and a method is a function of the receiver; a
-- method that changes its receiver returns it. `Outcome` is a value, an error or a panic; an index
-- out of range is a panic. A Go map is a function or an association list. Sorting by a strict
-- total order is insertion sort, since such an order leaves no choice. `ApplyMachine` sorts the
-- addresses of an interface in place, through the slice that the device's entry of the network
-- shares with it: the functions of `Goal.Applier` and `Goal.Apply` return the interfaces and the
-- machine as they are left, and `Device.Reify.apply` writes their addresses back to the network
-- that is reported. The handlers of coord/ hold the locks of the specification and of `latest`
-- while they use them, so a request is one step, and a history of requests is a sequence of steps
-- (`Coord.Marks.Reach`). The device client changes itself and everything outside of it in turn,
-- and is a function of both; its pings happen at one moment. A loop over a slice is a structural
-- recursion over it. `AssignAddress` runs on fuel, which is the number of addresses of the length,
-- so that it is never used up; the loop of a tick runs on fuel, of which three steps are enough
-- where the client is alone with the server; `Backoff`, which need not end, runs over the list of
-- what its callbacks answer. Indices of devices, which the source keeps in an `int`, are natural
-- numbers. The destination of a listed route, a pointer that the source follows, is there.
--
-- What is a parameter. SHA-256 in `Coord` and `Util.Token`; the decoding of JSON bodies, whose
-- results are inputs (`PatchBody`, `StatusBody`, `Device.Body`); `SetReply` of the DNS library;
-- and, in `Device.Outside`, the HTTP exchange, the DNS client, the applier, the key generator, the
-- public key of a private key, the ping command and `rand.Intn`. In `Goal.Applier`, the calls of
-- netlink on one link, for which `IsLink` states what netlink documents; in `Goal.Apply.System`,
-- the calls on links, WireGuard devices and /proc, for which `Goal.Apply.Devices.IsSystem` states
-- what is documented; a link of a name can be created if the name is free. In `System`, the state
-- outside of the client has the server as a part, `System.Connection` states that a request fails
-- or is served and answered, and `Spec.Json.Laws.IsReread` what encoding/json reads of the text
-- that it writes for a device. JSON and the applier are bounded there to what the theorems ask: a
-- device that `System.is_plain` accepts, of ASCII texts and one address at most, is read back as
-- it is, and `System.Connection.sorts` states that the applier leaves the own addresses as they
-- were or sorted.
--
-- What is not modelled. Logging, notification, profiling, flags, the sockets of the servers, which are
-- I/O, and the programs under cmd/ to try the packages by hand. JSON and gob encodings are Go's:
-- `Util.Token.Encoding.JsonText`, `Goal.Json.Texts` and `System.Json` say what is relied on.
pub mod Prelude
pub mod Text
pub mod Net
pub mod Goal
pub mod Spec
pub mod Util
pub mod Coord
pub mod Device
pub mod Dns
pub mod System
pub mod Commands
mod Tests
