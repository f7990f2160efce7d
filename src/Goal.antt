-- ===== src/Goal.antt =====
-- goal/
pub mod Key
pub mod Json
pub mod Wireguard
pub mod Machine
pub mod Applier
pub mod Apply
pub mod Sets
