-- ===== src/Trace/Revert.antt =====
-- crates/decoder/src/trace.rs: `decode_revert_reason`, `decode_abi_string`, `bytes_to_hex`. Bytes
-- are numbers; the arithmetic on lengths is that of a release build. `String::from_utf8_lossy` is a
-- parameter.
pub mod Strings
use defi_tx_indexer.Prelude.{
  ℕ, ◌+◌, ◌-◌, ◌*◌, ◌/◌, ◌%◌, ◌&&◌, List, [], ◌∷◌, ◌++◌, Text, codes, text_eq, ltb, leb,
  if◌then◌else◌, take, drop, length,
}

-- A text, an error, or a panic.
pub data Decoded : Type 0 where
  decoded : Text → Decoded
  refused : Decoded
  panicked : Decoded

-- `{b:02x}`
unfoldable hex_char : ℕ → ℕ
hex_char d = if ltb d 10 then d + 48 else d + 87

unfoldable pub bytes_to_hex : List ℕ → Text
unfolding hex_char
bytes_to_hex [] = []
bytes_to_hex (b ∷ bs) = hex_char (b / 16) ∷ hex_char (b % 16) ∷ bytes_to_hex bs

-- `u64::from_be_bytes` of the first eight bytes
unfoldable pub from_be_bytes : List ℕ → ℕ
from_be_bytes (b0 ∷ b1 ∷ b2 ∷ b3 ∷ b4 ∷ b5 ∷ b6 ∷ b7 ∷ bs) =
    b0 * 72057594037927936
    + b1 * 281474976710656
    + b2 * 1099511627776
    + b3 * 4294967296
    + b4 * 16777216
    + b5 * 65536
    + b6 * 256
    + b7
from_be_bytes _ = 0

module _ (from_utf8_lossy : List ℕ → Text) where
  -- `&data[64..str_end]` panics where the end is before the start.
  unfoldable pub slice_string : List ℕ → ℕ → Decoded
  slice_string bytes str_end =
      if ltb (length bytes) str_end
      then refused
      else if ltb str_end 64
      then panicked
      else decoded (from_utf8_lossy (take (str_end - 64) (drop 64 bytes)))

  unfoldable pub decode_abi_string : List ℕ → Decoded
  unfolding from_be_bytes slice_string
  decode_abi_string bytes =
      if ltb (length bytes) 64
      then refused
      else slice_string bytes ((64 + from_be_bytes (drop 56 bytes)) % 18446744073709551616)

  unfoldable pub decode_revert_reason : List ℕ → Decoded
  unfolding bytes_to_hex decode_abi_string
  decode_revert_reason output =
      if ltb (length output) 4
      then decoded (codes "0x" ++ bytes_to_hex output)
      else if text_eq (take 4 output) (8 ∷ 195 ∷ 121 ∷ 160 ∷ [])
      then decode_abi_string (drop 4 output)
      else if text_eq (take 4 output) (78 ∷ 72 ∷ 123 ∷ 113 ∷ []) && leb 36 (length output)
      then decoded (codes "Panic(0x" ++ (bytes_to_hex (take 1 (drop 35 output)) ++ codes ")"))
      else decoded (codes "0x" ++ bytes_to_hex output)
