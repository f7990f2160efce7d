-- ===== src/Goal/Key.antt =====
-- goal.Key (goal/util.go), a WireGuard key: an array of 32 bytes.
use qrystal.Prelude.{replicate}
use qrystal.Text.{Bytes}

abbrev pub Key : Type 0
Key = Bytes

-- `goal.Key{}`, the key that is not set.
abbrev pub zero_key : Key
zero_key = replicate 32 0
