-- ===== src/Commands.antt =====
-- cmd/: what the commands make of their configurations, and the loop of the device client.
pub mod CoordServer
pub mod DeviceClient
pub mod DeviceDns
