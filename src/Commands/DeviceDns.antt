-- ===== src/Commands/DeviceDns.antt =====
-- cmd/device-dns/main.go: from the flags and the configuration to the DNS server and its sockets.
-- The decoder of JSON, the file system and the sockets of systemd are arguments; `Fatalf` is a
-- failure.
use qrystal.Prelude.{
  ℕ, Bool, Option, none, some, List, [], ◌∷◌, if◌then◌else◌, ◌==◌, list_eq, nat_eq, ◌⊎◌, inl, inr,
  Outcome, ok, failed, ◌>>=◌,
}
use qrystal.Text.{Bytes}
use qrystal.Util.Token.Encoding.{or_error}
use qrystal.Dns.{Parent, Server}
use qrystal.Dns.Config.{ConfigError, new_server}

-- `dns.Config` of dns/config.go.
pub record Config : Type 0 where
  pub parents : List Parent
  pub address : Bytes

pub record Flags : Type 0 where
  pub config_path : Bytes
  pub socket_path : Bytes
  pub socket_mode : ℕ
  pub use_systemd_socket_activation : Bool
  pub addr : Bytes

-- Where the server takes its specification from: a socket of systemd, or one that it makes.
pub data RpcSocket : Type 0 where
  activated : Bytes → RpcSocket
  listening : Bytes → ℕ → RpcSocket

pub record Serving : Type 0 where
  pub server : Server
  pub rpc : RpcSocket
  pub addr : Bytes

unfoldable pub load_config :
    (Bytes → Option Bytes) → (Bytes → Option Config) → Bytes → Outcome Config
load_config read_file decode path = do text ← or_error (read_file path); or_error (decode text)

-- The command line overrides the configuration.
abbrev pub dns_address : Bytes → Bytes → Bytes
dns_address flag configured = if flag == [] then configured else flag

-- An error of `NewServer`, which `Fatalf` prints.
abbrev pub or_fatal : ConfigError ⊎ Server → Outcome Server
or_fatal (inl e) = failed
or_fatal (inr s) = ok s

-- There must be one socket of systemd.
abbrev pub only_listener : Option (List Bytes) → Outcome RpcSocket
only_listener none = failed
only_listener (some []) = failed
only_listener (some (listener ∷ [])) = ok (activated listener)
only_listener (some (listener ∷ other ∷ more)) = failed

-- `main` up to listening, which is outside.
unfoldable pub serving :
    (Bytes → Option Bytes) → (Bytes → Option Config) → Option (List Bytes) → Flags → Outcome Serving
unfolding load_config
serving read_file decode listeners flags = do
  c ← load_config read_file decode flags.config_path
  s ← or_fatal (new_server c.parents)
  rpc ←
      (if flags.use_systemd_socket_activation
        then only_listener listeners
        else ok (listening flags.socket_path flags.socket_mode))
  ok (record { server = s; rpc = rpc; addr = dns_address flags.addr c.address })
