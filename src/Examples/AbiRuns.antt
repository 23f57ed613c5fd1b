-- ===== src/Examples/AbiRuns.antt =====
-- crates/decoder/src/abi.rs on a call.
use defi_tx_indexer.Prelude.{
  ℕ, ◌≡◌, refl, Option, some, List, [], ◌∷◌, Text, codes, replicate, map, arith,
}
use defi_tx_indexer.Abi.{
  DynSolValue, uint, tuple, Values, no_values, value, values_to_json, DecodedArg, ok, AbiLibrary,
  trim, split_top_level, is_cut, depth_after, decode_args,
}
use defi_tx_indexer.Abi.Parameters.{join_types, IsParameter, is_closed, signature_of}
use defi_tx_indexer.Abi.Typed.{elements_of, decode_args_typed}

abbrev swap_types : Text
swap_types = codes "address,(address,uint24),bytes"

nested_kept :
    split_top_level swap_types ≡ codes "address" ∷ codes "(address,uint24)" ∷ codes "bytes" ∷ []
unfolding split_top_level
nested_kept = refl

abbrev pair_value : Values
pair_value = value (tuple (value (uint 1) (value (uint 2) no_values))) (value (uint 7) no_values)

-- A decoder that knows one call.
abbrev one_call : List ℕ → Option DynSolValue
one_call bs = some (tuple pair_value)

abbrev library : AbiLibrary
library = record { decode_hex = λ s. some (replicate 36 1); parse_type = λ s. some one_call }

abbrev types : List Text
types = codes "(uint8,uint8)" ∷ codes "uint256" ∷ []

pair-IsParameter : IsParameter (codes "(uint8,uint8)")
unfolding trim is_closed is_cut depth_after
pair-IsParameter = (λ e. cc, refl, refl)

number-IsParameter : IsParameter (codes "uint256")
unfolding trim is_closed is_cut depth_after
number-IsParameter = (λ e. cc, refl, refl)

decode_args_typed_example :
    (args : List DecodedArg) × (decode_args library
        (signature_of (codes "f") (join_types types))
        (codes "0x01")
      ≡ ok args)
    × (map (λ a. a.ty) args ≡ types)
    × (elements_of args ≡ values_to_json pair_value)
decode_args_typed_example =
    decode_args_typed library (codes "f") (codes "0x01") types (replicate 36 1) one_call pair_value
      refl (pair-IsParameter, (number-IsParameter, tt)) refl (omega arith) refl refl refl
