-- ===== src/Abi.antt =====
-- crates/decoder/src/abi.rs: `decode_args`, from a signature and the call data to typed JSON values.
-- The parser of a type, the decoder it gives and the decoding of hex are alloy's, parameters. An error
-- of theirs carries no message. `find` and `rfind` count characters, which are bytes in a signature.
pub mod Parameters
pub mod Typed
use defi_tx_indexer.Prelude.{
  ℕ, zero, suc, ◌+◌, ◌-◌, Bool, true, false, ◌&&◌, ◌||◌, Option, none, some, List, [], ◌∷◌, ◌++◌,
  Text, codes, ltb, leb, ◌==◌, if◌then◌else◌, length, take, drop, strip_prefix, unwrap_or, ℤ, pos,
  negsuc,
}
use defi_tx_indexer.Trace.{
  Json, null, boolean, string, array, Elements, no_elements, element, decimal,
}
use defi_tx_indexer.Trace.Revert.{bytes_to_hex}
use defi_tx_indexer.Receipts.{integer_text}

mutual
  -- A fixed number of bytes is a word of 32 bytes; the other cases are not told apart.
  pub data DynSolValue : Type 0 where
    address : List ℕ → DynSolValue
    uint : ℕ → DynSolValue
    int : ℤ → DynSolValue
    bool : Bool → DynSolValue
    bytes : List ℕ → DynSolValue
    fixed_bytes : List ℕ → DynSolValue
    string_value : Text → DynSolValue
    array_value : Values → DynSolValue
    fixed_array : Values → DynSolValue
    tuple : Values → DynSolValue
    other_value : DynSolValue

  pub data Values : Type 0 where
    no_values : Values
    value : DynSolValue → Values → Values

abbrev hex_text : List ℕ → Text
hex_text bs = codes "0x" ++ bytes_to_hex bs

unfoldable mutual
  unfolding bytes_to_hex integer_text

  pub dynsol_to_json : DynSolValue → Json
  dynsol_to_json (address a) = string (hex_text a)
  dynsol_to_json (uint n) = string (integer_text (pos n))
  dynsol_to_json (int n) = string (integer_text n)
  dynsol_to_json (bool b) = boolean b
  dynsol_to_json (bytes b) = string (hex_text b)
  dynsol_to_json (fixed_bytes w) = string (hex_text w)
  dynsol_to_json (string_value s) = string s
  dynsol_to_json (array_value items) = array (values_to_json items)
  dynsol_to_json (fixed_array items) = array (values_to_json items)
  dynsol_to_json (tuple items) = array (values_to_json items)
  dynsol_to_json other_value = null

  pub values_to_json : Values → Elements
  values_to_json no_values = no_elements
  values_to_json (value v vs) = element (dynsol_to_json v) (values_to_json vs)

-- `str::find` and `str::rfind` of a character
unfoldable pub find_char : ℕ → Text → Option ℕ
find_char c [] = none
find_char c (d ∷ s) =
    if d == c then some 0 else elim (find_char c s) [ none ↦ none | some i ↦ some (suc i) ]

unfoldable pub rfind_char : ℕ → Text → Option ℕ
rfind_char c [] = none
rfind_char c (d ∷ s) = elim (rfind_char c s) [
  | some i ↦ some (suc i)
  | none ↦ if d == c then some 0 else none
]

-- `&signature[open + 1..close]`
unfoldable pub between : Text → Option ℕ → Option ℕ → Option Text
between signature (some opened) (some closed) =
    if leb closed opened
    then none
    else some (take (closed - (opened + 1)) (drop (opened + 1) signature))
between signature _ _ = none

unfoldable pub extract_param_list : Text → Option Text
unfolding find_char rfind_char between
extract_param_list signature =
    between signature (find_char b'(' signature) (rfind_char b')' signature)

-- `char::is_whitespace`
abbrev is_whitespace : ℕ → Bool
is_whitespace c =
    (leb 9 c && leb c 13)
    || (c == 32
        || (c == 133
            || (c == 160
                || (c == 5760
                    || ((leb 8192 c && leb c 8202)
                        || (c == 8232
                            || (c == 8233 || (c == 8239 || (c == 8287 || c == 12288)))))))))

unfoldable trim_start : Text → Text
trim_start [] = []
trim_start (c ∷ s) = if is_whitespace c then trim_start s else c ∷ s

unfoldable trim_end : Text → Text
trim_end [] = []
trim_end (c ∷ s) = elim (trim_end s) [
  | [] ↦ if is_whitespace c then [] else c ∷ []
  | d ∷ t ↦ c ∷ d ∷ t
]

unfoldable pub trim : Text → Text
unfolding trim_start trim_end
trim s = trim_end (trim_start s)

abbrev pub is_zero : ℤ → Bool
is_zero (pos n) = n == 0
is_zero (negsuc n) = false

abbrev one_more : ℤ → ℤ
one_more (pos n) = pos (suc n)
one_more (negsuc zero) = pos 0
one_more (negsuc (suc n)) = negsuc n

abbrev one_less : ℤ → ℤ
one_less (pos zero) = negsuc 0
one_less (pos (suc n)) = pos n
one_less (negsuc n) = negsuc (suc n)

-- The depth behind a byte.
unfoldable pub depth_after : ℕ → ℤ → ℤ
depth_after b depth =
    if b == b'(' then one_more depth else if b == b')' then one_less depth else depth

-- A comma outside every pair of parentheses.
unfoldable pub is_cut : ℕ → ℤ → Bool
is_cut b depth = b == b',' && is_zero depth

-- The loop of `split_top_level`, with the bytes since the last cut.
unfoldable pub split_from : ℤ → Text → Text → List Text
unfolding depth_after is_cut trim
split_from depth current [] = trim current ∷ []
split_from depth current (b ∷ bs) =
    let rest =
      split_from (depth_after b depth) (if is_cut b depth then [] else current ++ (b ∷ [])) bs in
    if is_cut b depth then trim current ∷ rest else rest

unfoldable pub split_top_level : Text → List Text
unfolding split_from
split_top_level [] = []
split_top_level (b ∷ bs) = split_from (pos 0) [] (b ∷ bs)

pub record DecodedArg : Type 0 where
  pub ty : Text
  pub value : Json

pub data AbiDecodeError : Type 0 where
  invalid_signature : Text → AbiDecodeError
  invalid_hex : AbiDecodeError
  input_too_short : AbiDecodeError
  decode : AbiDecodeError

pub data ArgsResult : Type 0 where
  ok : List DecodedArg → ArgsResult
  err : AbiDecodeError → ArgsResult

-- A type that parses gives the decoder of the bytes behind the selector.
pub record AbiLibrary : Type 0 where
  pub decode_hex : Text → Option (List ℕ)
  pub parse_type : Text → Option (List ℕ → Option DynSolValue)

unfoldable pub values_of : DynSolValue → Values
values_of (tuple vs) = vs
values_of v = value v no_values

-- `values.into_iter().zip(top_types)`
unfoldable pub zip_args : Values → List Text → List DecodedArg
unfolding dynsol_to_json
zip_args no_values tys = []
zip_args (value v vs) [] = []
zip_args (value v vs) (ty ∷ tys) = record { ty = ty; value = dynsol_to_json v } ∷ zip_args vs tys

unfoldable pub args_of : Text → Option DynSolValue → ArgsResult
unfolding zip_args values_of split_top_level
args_of types_str none = err decode
args_of types_str (some decoded) = ok (zip_args (values_of decoded) (split_top_level types_str))

unfoldable pub decode_with : Text → List ℕ → Option (List ℕ → Option DynSolValue) → ArgsResult
unfolding args_of
decode_with types_str bs none = err decode
decode_with types_str bs (some abi_decode_params) =
    args_of types_str (abi_decode_params (drop 4 bs))

module _ (library : AbiLibrary) where
  unfoldable pub decode_bytes : Text → Option (List ℕ) → ArgsResult
  unfolding decode_with
  decode_bytes types_str none = err invalid_hex
  decode_bytes types_str (some bs) =
      if ltb (length bs) 4
      then err input_too_short
      else decode_with types_str bs (library.parse_type (codes "(" ++ (types_str ++ codes ")")))

  unfoldable pub decode_params : Text → Text → Option Text → ArgsResult
  unfolding decode_bytes strip_prefix
  decode_params signature input_hex none = err (invalid_signature signature)
  decode_params signature input_hex (some types_str) =
      decode_bytes types_str
        (library.decode_hex (unwrap_or (strip_prefix (codes "0x") input_hex) input_hex))

  unfoldable pub decode_args : Text → Text → ArgsResult
  unfolding decode_params extract_param_list
  decode_args signature input_hex = decode_params signature input_hex (extract_param_list signature)
