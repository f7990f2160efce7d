-- ===== src/Dns.antt =====
-- dns/: the server that answers queries about devices, its configuration, and the specification
-- that it is sent (dns/dns.go, dns/rpc.go). The lock of the specification makes each query and each
-- update one step.
pub mod Config
pub mod Query
use qrystal.Prelude.{ℕ, Option, some, List}
use qrystal.Text.{Bytes}
use qrystal.Spec.{SpecCensored}

pub record Parent : Type 0 where
  pub suffix : Bytes
  pub network : Bytes
  pub device : Bytes

pub record RpcServer : Type 0 where
  pub spec : Option SpecCensored

pub record Server : Type 0 where
  pub r : RpcServer
  pub parents : List Parent

-- `RPCServer.UpdateSpec`
unfoldable pub update_spec : RpcServer → SpecCensored → RpcServer
update_spec r spec = record r { spec = some spec }

-- `DirectClient.UpdateSpec` of a client of the server: both hold one `RPCServer`.
unfoldable pub direct_update_spec : Server → SpecCensored → Server
unfolding update_spec
direct_update_spec s spec = record s { r = update_spec s.r spec }
