-- ===== src/Ids.antt =====
-- Fresh names: web/src/lib/id.ts. The 16 random bytes, and the UUID of the browser where it makes
-- one, come from outside. On bytes, `(b & 0x0f) | 0x40` is `b % 16 + 64` and `(b & 0x3f) | 0x80` is
-- `b % 64 + 128`.
use dbtabase_workbench.Common.{
  ℕ, ◌+◌, ◌/◌, ◌%◌, ◌≡◌, refl, Option, none, some, List, [], ◌∷◌, ◌++◌, Text, text, ltb, ◌==◌, take,
  drop, flat_map, if◌then◌else◌,
}

abbrev pub hex_digit : ℕ → ℕ
hex_digit n = if ltb n 10 then 48 + n else 87 + n

-- `byte.toString(16).padStart(2, '0')`.
abbrev pub hex_byte : ℕ → Text
hex_byte b = hex_digit (b / 16) ∷ hex_digit (b % 16) ∷ []

-- The bytes with the version and the variant, from an index on.
unfoldable pub marked : ℕ → List ℕ → List ℕ
marked index [] = []
marked index (b ∷ bytes) =
    let later = marked (index + 1) bytes in
    (if index == 6 then b % 16 + 64 else if index == 8 then b % 64 + 128 else b) ∷ later

-- `hex.slice(from, from + size)`.
abbrev pub slice : ℕ → ℕ → Text → Text
slice from size hex = take size (drop from hex)

unfoldable pub create_id : Option Text → List ℕ → Text
unfolding marked
create_id (some uuid) bytes = uuid
create_id none bytes =
    let hex = flat_map hex_byte (marked 0 bytes) in
    slice 0 8 hex
    ++ text "-"
    ++ slice 8 4 hex
    ++ text "-"
    ++ slice 12 4 hex
    ++ text "-"
    ++ slice 16 4 hex
    ++ text "-"
    ++ drop 20 hex

zero_bytes_example :
    create_id none (0 ∷ 0 ∷ 0 ∷ 0 ∷ 0 ∷ 0 ∷ 0 ∷ 0 ∷ 0 ∷ 0 ∷ 0 ∷ 0 ∷ 0 ∷ 0 ∷ 0 ∷ 255 ∷ [])
    ≡ text "00000000-0000-4000-8000-0000000000ff"
unfolding create_id
zero_bytes_example = refl
