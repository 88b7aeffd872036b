-- ===== src/SteamSync/Keys.antt =====
-- The cached credentials and depot keys: crates/steam-sync/src/cache.rs, `load_refresh_token`,
-- `bytes_to_hex`, `hex_to_bytes`, `load_keys` and `save_keys`.
use magpie.Prelude.{
  ℕ, ◌+◌, ◌*◌, ◌/◌, ◌%◌, ◌<◌, ◌≡◌, refl, Option, none, some, List, [], ◌∷◌, Text, trim, is_empty,
  All, arith, bytes_to_hex, hex_value, hex_digit, ◌==◌, if◌then◌else◌,
}

-- The token that the file holds, if it could be read.
unfoldable pub load_refresh_token : Option Text → Option Text
load_refresh_token none = none
load_refresh_token (some s) = if is_empty (trim s) then none else some (trim s)

-- `u8::from_str_radix(pair, 16)` of two characters; a plus sign may come first.
unfoldable pub hex_pair : ℕ → ℕ → Option ℕ
hex_pair a b = elim (hex_value b) [
  | none ↦ none
  | some low ↦
      if a == b'+'
      then some low
      else elim (hex_value a) [ none ↦ none | some high ↦ some (high * 16 + low) ]
]

abbrev cons_byte : Option ℕ → Option (List ℕ) → Option (List ℕ)
cons_byte (some b) (some bs) = some (b ∷ bs)
cons_byte _ _ = none

-- Of an ASCII text: beyond that a slice may fall inside a character, where Rust panics.
unfoldable pub hex_to_bytes : Text → Option (List ℕ)
unfolding hex_pair
hex_to_bytes [] = some []
hex_to_bytes (a ∷ []) = none
hex_to_bytes (a ∷ b ∷ s) = let rest = hex_to_bytes s in cons_byte (hex_pair a b) rest

-- A key for each depot.
abbrev pub DepotKeys : Type 0
DepotKeys = List (ℕ × List ℕ)

unfoldable pub hex_map : DepotKeys → List (ℕ × Text)
hex_map [] = []
hex_map ((id, k) ∷ keys) = (id, bytes_to_hex k) ∷ hex_map keys

unfoldable pub from_hex_map : List (ℕ × Text) → DepotKeys
from_hex_map [] = []
from_hex_map ((id, hex) ∷ m) =
    let rest = from_hex_map m in elim (hex_to_bytes hex) [ none ↦ rest | some b ↦ (id, b) ∷ rest ]

-- `serde_json`, of a map of texts
pub record Json : Type 0 where
  pub to_string : List (ℕ × Text) → Text
  pub from_str : Text → Option (List (ℕ × Text))

module _ (json : Json) where
  -- what is written into the file
  unfoldable pub save_keys : DepotKeys → Text
  unfolding hex_map
  save_keys keys = json.to_string (hex_map keys)

  -- of the file, if it could be read
  unfoldable pub load_keys : Option Text → DepotKeys
  unfolding from_hex_map
  load_keys none = []
  load_keys (some text) = elim (json.from_str text) [ none ↦ [] | some m ↦ from_hex_map m ]

hex_pair-byte : (b : ℕ) → b < 256 → hex_pair (hex_digit (b / 16)) (hex_digit (b % 16)) ≡ some b
unfolding hex_pair hex_digit hex_value
hex_pair-byte b small = ground arith

hex_to_bytes-bytes_to_hex :
    (bs : List ℕ) → All (λ b. b < 256) bs → hex_to_bytes (bytes_to_hex bs) ≡ some bs
unfolding hex_to_bytes bytes_to_hex
hex_to_bytes-bytes_to_hex [] small = refl
hex_to_bytes-bytes_to_hex (b ∷ bs) (small, rest) =
    rw (hex_pair-byte b small, hex_to_bytes-bytes_to_hex bs rest) refl

abbrev pub AreBytes : DepotKeys → Type 0
AreBytes keys = All (λ (id, k). All (λ b. b < 256) k) keys

from_hex_map-hex_map : (keys : DepotKeys) → AreBytes keys → from_hex_map (hex_map keys) ≡ keys
unfolding from_hex_map hex_map
from_hex_map-hex_map [] small = refl
from_hex_map-hex_map ((id, k) ∷ keys) (small, rest) =
    rw (from_hex_map, hex_to_bytes-bytes_to_hex k small, from_hex_map-hex_map keys rest) refl

-- If JSON reads back as it was written, the depot keys that are saved are those that are loaded.
pub load_keys-save_keys :
    (json : Json) (keys : DepotKeys)
    → json.from_str (json.to_string (hex_map keys)) ≡ some (hex_map keys)
    → AreBytes keys
    → load_keys json (some (save_keys json keys)) ≡ keys
unfolding load_keys save_keys
load_keys-save_keys json keys reads small = rw (reads, load_keys) (from_hex_map-hex_map keys small)
