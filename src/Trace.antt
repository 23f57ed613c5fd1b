-- ===== src/Trace.antt =====
-- crates/decoder/src/trace.rs: the call frames of a trace, read from JSON and flattened.
pub mod Revert
pub mod Tree
pub mod Failed
use defi_tx_indexer.Prelude.{
  ℕ, zero, suc, ◌+◌, ◌-◌, ◌*◌, ◌/◌, ◌%◌, Bool, ◌&&◌, Option, none, some, List, [], ◌∷◌, ◌++◌, Text,
  codes, text_eq, ltb, leb, if◌then◌else◌, strip_prefix, unwrap_or, ℤ, as_i64,
}
use defi_tx_indexer.Classifier.{to_lowercase}

-- `serde_json::Value`; the keys of an object are distinct.
mutual
  pub data Json : Type 0 where
    null : Json
    boolean : Bool → Json
    number : Text → Json
    string : Text → Json
    array : Elements → Json
    object : Members → Json

  pub data Elements : Type 0 where
    no_elements : Elements
    element : Json → Elements → Elements

  pub data Members : Type 0 where
    no_members : Members
    member : Text → Json → Members → Members

-- The fields of `CallFrame` but for its `calls`.
pub record Frame : Type 0 where
  pub call_type : Text
  pub from : Text
  pub to : Option Text
  pub value : Option Text
  pub gas_used : ℕ
  pub input : Option Text
  pub output : Option Text
  pub error : Option Text

mutual
  pub data CallFrame : Type 0 where
    call_frame : Frame → Calls → CallFrame

  pub data Calls : Type 0 where
    no_calls : Calls
    calls : CallFrame → Calls → Calls

pub record FlatFrame : Type 0 where
  pub depth : ℕ
  pub call_type : Text
  pub from : Text
  pub to : Option Text
  pub value : Text
  pub gas_used : ℤ
  pub input : Option Text
  pub output : Option Text
  pub error : Option Text

-- The value of a hexadecimal digit.
unfoldable pub hex_digit : ℕ → Option ℕ
hex_digit c =
    if leb b'0' c && leb c b'9'
    then some (c - 48)
    else if leb b'a' c && leb c b'f'
    then some (c - 87)
    else if leb b'A' c && leb c b'F'
    then some (c - 55)
    else none

unfoldable hex_digits : ℕ → ℕ → Text → Option ℕ
unfolding hex_digit
hex_digits largest acc [] = some acc
hex_digits largest acc (c ∷ s) = elim (hex_digit c) [
  | none ↦ none
  | some d ↦ if leb (acc * 16 + d) largest then hex_digits largest (acc * 16 + d) s else none
]

-- `from_str_radix(s, 16)` of an unsigned type with a largest value; a `+` may stand first.
unfoldable from_hex : ℕ → Text → Option ℕ
unfolding hex_digits
from_hex largest s = elim (unwrap_or (strip_prefix (codes "+") s) s) [
  | [] ↦ none
  | c ∷ t ↦ hex_digits largest 0 (c ∷ t)
]

abbrev without_0x : Text → Text
without_0x s = unwrap_or (strip_prefix (codes "0x") s) s

-- The decimal digits of a number, `to_string`.
unfoldable pub decimal : ℕ → ℕ → Text
decimal zero n = []
decimal (suc fuel) n =
    let front = decimal fuel (n / 10) in
    if ltb n 10 then (48 + n) ∷ [] else front ++ ((48 + n % 10) ∷ [])

abbrev u128_max : ℕ
u128_max = 340282366920938463463374607431768211455

unfoldable pub value_decimal : Option Text → Text
unfolding from_hex decimal
value_decimal none = codes "0"
value_decimal (some v) = elim (from_hex u128_max (without_0x v)) [
  | none ↦ codes "0"
  | some n ↦ decimal 40 n
]

-- `json.get(key)`, and `and_then(|v| v.as_str())`
unfoldable get_str : Text → Members → Option Text
get_str key no_members = none
get_str key (member k v ms) =
    let rest = get_str key ms in
    if text_eq k key then elim v [ string s ↦ some s | _ ↦ none ] else rest

unfoldable gas_of : Option Text → ℕ
unfolding from_hex
gas_of none = 0
gas_of (some s) = unwrap_or (from_hex 18446744073709551615 (without_0x s)) 0

abbrev pub zero_address : Text
zero_address = codes "0x0000000000000000000000000000000000000000"

-- A frame that cannot be parsed is left out.
unfoldable keep_parsed : Option CallFrame → Calls → Calls
keep_parsed none cs = cs
keep_parsed (some c) cs = calls c cs

module _ (lower_other : ℕ → Text) where
  -- The frame of an object with a type.
  unfoldable frame_of : Text → Members → Frame
  unfolding get_str gas_of
  frame_of call_type ms = record {
    call_type = call_type;
    from = to_lowercase lower_other (unwrap_or (get_str (codes "from") ms) zero_address);
    to = elim (get_str (codes "to") ms) [
      | none ↦ none
      | some s ↦ some (to_lowercase lower_other s)
    ];
    value = get_str (codes "value") ms;
    gas_used = gas_of (get_str (codes "gasUsed") ms);
    input = get_str (codes "input") ms;
    output = get_str (codes "output") ms;
    error = get_str (codes "error") ms;
  }

  unfoldable with_type : Option Text → Members → Calls → Option CallFrame
  unfolding frame_of
  with_type none ms cs = none
  with_type (some call_type) ms cs = some (call_frame (frame_of call_type ms) cs)

  -- `parse_call_frame`; the error of a missing type is `none`. The children are read from the
  -- member `calls`.
  unfoldable mutual
    unfolding with_type get_str keep_parsed

    pub parse_call_frame : Json → Option CallFrame
    parse_call_frame null = none
    parse_call_frame (boolean b) = none
    parse_call_frame (number n) = none
    parse_call_frame (string s) = none
    parse_call_frame (array es) = none
    parse_call_frame (object ms) = with_type (get_str (codes "type") ms) ms (parse_calls ms)

    pub parse_calls : Members → Calls
    parse_calls no_members = no_calls
    parse_calls (member k v ms) =
        let here = parse_array v in
        let rest = parse_calls ms in if text_eq k (codes "calls") then here else rest

    pub parse_array : Json → Calls
    parse_array null = no_calls
    parse_array (boolean b) = no_calls
    parse_array (number n) = no_calls
    parse_array (string s) = no_calls
    parse_array (array es) = parse_elements es
    parse_array (object ms) = no_calls

    pub parse_elements : Elements → Calls
    parse_elements no_elements = no_calls
    parse_elements (element j es) = keep_parsed (parse_call_frame j) (parse_elements es)

-- The row of one frame.
unfoldable pub flat_frame : Frame → ℕ → FlatFrame
unfolding value_decimal
flat_frame frame depth = record {
  depth = depth;
  call_type = frame.call_type;
  from = frame.from;
  to = frame.to;
  value = value_decimal frame.value;
  gas_used = as_i64 frame.gas_used;
  input = frame.input;
  output = frame.output;
  error = frame.error;
}

-- `flatten_call_frame`, and its loop over the children; what is pushed onto `out` is returned.
unfoldable mutual
  unfolding flat_frame

  pub flatten_call_frame : CallFrame → ℕ → List FlatFrame
  flatten_call_frame (call_frame frame cs) depth =
      flat_frame frame depth ∷ flatten_calls cs (suc depth)

  pub flatten_calls : Calls → ℕ → List FlatFrame
  flatten_calls no_calls depth = []
  flatten_calls (calls c cs) depth = flatten_call_frame c depth ++ flatten_calls cs depth
