-- ===== src/Abi/Typed.antt =====
-- crates/decoder/src/abi.rs: the arguments that `decode_args` returns, beside their types.
use defi_tx_indexer.Prelude.{
  ℕ, suc, ◌≤◌, ◌≡◌, refl, ap, true, false, not, Option, some, List, [], ◌∷◌, ◌++◌, Text, codes, ltb,
  ◌==◌, length, drop, All, all, map, arith, strip_prefix, unwrap_or,
}
use defi_tx_indexer.Trace.{Elements, no_elements, element}
use defi_tx_indexer.Abi.{
  DynSolValue, tuple, Values, no_values, value, dynsol_to_json, values_to_json, DecodedArg, ok,
  AbiLibrary, zip_args, values_of, args_of, decode_with, decode_bytes, decode_params, decode_args,
}
use defi_tx_indexer.Abi.Parameters.{
  join_types, IsParameter, signature_of, split_top_level-join_types,
  extract_param_list-signature_of,
}

abbrev pub size : Values → ℕ
size no_values = 0
size (value v vs) = suc (size vs)

-- The JSON values of arguments, as the elements of an array.
unfoldable pub elements_of : List DecodedArg → Elements
elements_of [] = no_elements
elements_of (a ∷ rest) = element a.value (elements_of rest)

zip_args-types :
    (vs : Values) (ts : List Text) → size vs ≡ length ts → map (λ a. a.ty) (zip_args vs ts) ≡ ts
unfolding zip_args
zip_args-types no_values [] h = refl
zip_args-types no_values (t ∷ ts) h = absurd (omega arith)
zip_args-types (value v vs) [] h = absurd (omega arith)
zip_args-types (value v vs) (t ∷ ts) h = ap (λ x. t ∷ x) (zip_args-types vs ts (omega arith))

zip_args-elements :
    (vs : Values) (ts : List Text)
    → size vs ≡ length ts
    → elements_of (zip_args vs ts) ≡ values_to_json vs
unfolding zip_args elements_of values_to_json
zip_args-elements no_values [] h = refl
zip_args-elements no_values (t ∷ ts) h = absurd (omega arith)
zip_args-elements (value v vs) [] h = absurd (omega arith)
zip_args-elements (value v vs) (t ∷ ts) h =
    ap (λ x. element (dynsol_to_json v) x) (zip_args-elements vs ts (omega arith))

-- The arguments of a call are shown with the types of the signature, nested ones whole, in their
-- order and each with the JSON of its value. The name of the function has no opening parenthesis;
-- each type is not empty, has no white space around it, and has commas only within balanced
-- parentheses; the call data decode to a selector and more, and alloy reads the list of the types in
-- parentheses and decodes the bytes behind the selector to a tuple with a value for each type.
pub decode_args_typed :
    (library : AbiLibrary) (name input_hex : Text) (ts : List Text) (bs : List ℕ)
    (abi_decode_params : List ℕ → Option DynSolValue) (vs : Values)
    → all (λ d. not (d == b'(')) name ≡ true
    → All IsParameter ts
    → library.decode_hex (unwrap_or (strip_prefix (codes "0x") input_hex) input_hex) ≡ some bs
    → 4 ≤ length bs
    → library.parse_type (codes "(" ++ (join_types ts ++ codes ")")) ≡ some abi_decode_params
    → abi_decode_params (drop 4 bs) ≡ some (tuple vs)
    → size vs ≡ length ts
    → (args : List DecodedArg) × (decode_args library (signature_of name (join_types ts)) input_hex
        ≡ ok args)
      × (map (λ a. a.ty) args ≡ ts)
      × (elements_of args ≡ values_to_json vs)
unfolding decode_args decode_params decode_bytes decode_with args_of values_of
decode_args_typed library name input_hex ts bs abi_decode_params vs named types hex long parsed
      decoded as_many =
    let enough : ltb (length bs) 4 ≡ false = ground (arith, long) in
    (
      zip_args vs ts,
      rw
          (
            extract_param_list-signature_of name (join_types ts) named,
            hex,
            enough,
            parsed,
            decoded,
            split_top_level-join_types ts types,
          )
          refl,
      zip_args-types vs ts as_many,
      zip_args-elements vs ts as_many,
    )
