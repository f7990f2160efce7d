-- ===== src/Tests.antt =====
-- Runs of the development on small inputs.
mod Coord
mod Device
mod Dns
mod Apply
mod Applied
mod Goal
mod Spec
mod Util
mod Encoding
mod Commands
mod System
