-- ===== src/Goal/Machine.antt =====
-- goal/goal.go: the interfaces of a machine. A duration is a number of nanoseconds.
use qrystal.Prelude.{Bool, Option, List, ℤ}
use qrystal.Text.{Bytes}
use qrystal.Net.{IpNet}
use qrystal.Goal.Key.{Key}

pub record InterfacePeer : Type 0 where
  pub name : Bytes
  pub public_key : Key
  pub preshared_key : Option Key
  pub endpoint : Bytes
  pub persistent_keepalive : ℤ
  pub allowed_ips : List IpNet

pub record Interface : Type 0 where
  pub name : Bytes
  pub private_key : Key
  pub listen_port : ℤ
  pub addresses : List IpNet
  pub peers : List InterfacePeer
  pub broken : Bool

pub record Machine : Type 0 where
  pub interfaces : List Interface
  pub forwards_ipv4 : Bool
  pub forwards_ipv6 : Bool
