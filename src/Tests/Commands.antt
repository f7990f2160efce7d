-- ===== src/Tests/Commands.antt =====
-- The tokens of a configuration (cmd/coord-server/main.go).
use qrystal.Prelude.{◌≡◌, ◌⊎◌, List, [], ◌∷◌, replicate, Option, ok}
use qrystal.Text.{Bytes, bytes}
use qrystal.Util.Token.{TokenHash, hash_string}
use qrystal.Coord.{TokenInfo}
use qrystal.Commands.CoordServer.{convert_tokens}
use qrystal.Commands.CoordServer.Laws.{AreTexts, EndsAs, last_for, convert_tokens-cases}

abbrev info_of : Bytes → TokenInfo
info_of device = record { identities = (bytes "wg", device) ∷ [] }

abbrev entries : List (Bytes × TokenInfo)
entries =
    (hash_string (record { raw = replicate 32 7 }), info_of (bytes "a"))
    ∷ (hash_string (record { raw = replicate 32 8 }), info_of (bytes "b"))
    ∷ []

convert_tokens-cases_example :
    (AreTexts entries
      × ((tokens : TokenHash → Option TokenInfo) × (convert_tokens entries ≡ ok tokens)
          × ((k : TokenHash) → tokens k ≡ last_for entries k)))
    ⊎ EndsAs entries (convert_tokens entries)
convert_tokens-cases_example = convert_tokens-cases entries
