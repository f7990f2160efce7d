-- ===== src/Commands/DeviceClient/Ticks.antt =====
-- The inner loop of cmd/device-client/main.go against the coordination server.
use qrystal.Prelude.{ℕ, ◌≡◌, some}
use qrystal.Text.{Bytes}
use qrystal.Device.{Outside}
use qrystal.Device.Reify.{ContinuousClient}
use qrystal.System.{Json, Connection}
use qrystal.Commands.DeviceClient.{Ending, tick}

module _ {W : Type 0} (sha_256 : Bytes → Bytes) (json : Json) (o : Outside W)
    (connection : Connection sha_256 json o) where
  Ends : ℕ → ContinuousClient → W → Type 0
  Ends fuel s w = (r : Ending × ContinuousClient × W) × (tick o fuel s w ≡ some r)
