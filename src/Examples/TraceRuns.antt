-- ===== src/Examples/TraceRuns.antt =====
-- crates/decoder/src/trace.rs and `process_failed_txs` on small traces.
use defi_tx_indexer.Prelude.{
  map, ℕ, ◌≡◌, ◌≤◌, ◌<◌, refl, true, Option, none, some, List, [], ◌∷◌, ◌++◌, Text, codes, text_eq,
  take, length, all, any, arith, strip_prefix, pos,
}
use defi_tx_indexer.Classifier.{to_lowercase}
use defi_tx_indexer.Db.Rows.{TraceLog, FailedTransaction}
use defi_tx_indexer.Trace.{
  Json, string, array, object, no_elements, element, no_members, member, Frame, CallFrame,
  call_frame, no_calls, calls, FlatFrame, zero_address, hex_digit, value_decimal, parse_call_frame,
  flatten_call_frame,
}
use defi_tx_indexer.Trace.Tree.{trees, no_trees, tree_of, rebuild, flatten_call_frame_lem}
use defi_tx_indexer.Trace.Revert.{decoded, refused, panicked, from_be_bytes, decode_revert_reason}
use defi_tx_indexer.Trace.Revert.Strings.{decode_revert_reason_lem}
use defi_tx_indexer.Trace.Failed.{trace_log, failed_row, process_failed_txs, revert_reason}
use defi_tx_indexer.Trace.Failed.Returns.{Calm, CalmRoot, parsed_hashes, process_failed_txs_returns}

abbrev lower_other : ℕ → Text
lower_other c = c ∷ []

abbrev from_utf8_lossy : List ℕ → Text
from_utf8_lossy bytes = bytes

abbrev decode_hex : Text → Option (List ℕ)
decode_hex s = none

abbrev a_frame : Frame
a_frame = record {
  call_type = codes "CALL";
  from = codes "0xaa";
  to = some (codes "0xbb");
  value = some (codes "0x2a");
  gas_used = 7;
  input = none;
  output = none;
  error = none;
}

-- A root with two children, the first of which has a child.
abbrev a_trace : CallFrame
a_trace = call_frame a_frame (
    calls (call_frame a_frame (calls (call_frame a_frame no_calls) no_calls))
      (calls (call_frame a_frame no_calls) no_calls))

flatten_call_frame_lem_example :
    rebuild (length (flatten_call_frame a_trace 0)) 0 (flatten_call_frame a_trace 0)
    ≡ (trees (tree_of a_trace 0) no_trees, [])
flatten_call_frame_lem_example = flatten_call_frame_lem a_trace

value_decimal_test : value_decimal (some (codes "0x2a")) ≡ codes "42"
unfolding value_decimal strip_prefix
value_decimal_test = refl

abbrev a_head : List ℕ
a_head =
    0 ∷ 0 ∷ 0 ∷ 0 ∷ 0 ∷ 0 ∷ 0 ∷ 0 ∷ 0 ∷ 0 ∷ 0 ∷ 0 ∷ 0 ∷ 0 ∷ 0 ∷ 0 ∷ 0 ∷ 0 ∷ 0 ∷ 0 ∷ 0 ∷ 0 ∷ 0 ∷ 0
    ∷ 0 ∷ 0 ∷ 0 ∷ 0 ∷ 0 ∷ 0 ∷ 0 ∷ 32 ∷ 0 ∷ 0 ∷ 0 ∷ 0 ∷ 0 ∷ 0 ∷ 0 ∷ 0 ∷ 0 ∷ 0 ∷ 0 ∷ 0 ∷ 0 ∷ 0 ∷ 0 ∷ 0
    ∷ 0 ∷ 0 ∷ 0 ∷ 0 ∷ 0 ∷ 0 ∷ 0 ∷ 0 ∷ []

abbrev a_body : List ℕ
a_body = 104 ∷ 105 ∷ 0 ∷ 0 ∷ []

decode_revert_reason_lem_example :
    let n = from_be_bytes (0 ∷ 0 ∷ 0 ∷ 0 ∷ 0 ∷ 0 ∷ 0 ∷ 2 ∷ []) in
    let result =
      decode_revert_reason from_utf8_lossy
        (8 ∷ 195 ∷ 121 ∷ 160 ∷ (a_head ++ (0 ∷ 0 ∷ 0 ∷ 0 ∷ 0 ∷ 0 ∷ 0 ∷ 2 ∷ a_body))) in
    (n ≤ length a_body → result ≡ decoded (from_utf8_lossy (take n a_body)))
    × (length a_body < n → n < 18446744073709551552 → result ≡ refused)
    × (18446744073709551552 ≤ n → result ≡ panicked)
decode_revert_reason_lem_example =
    decode_revert_reason_lem from_utf8_lossy a_head a_body 0 0 0 0 0 0 0 2 refl
      (
        omega arith,
        omega arith,
        omega arith,
        omega arith,
        omega arith,
        omega arith,
        omega arith,
        omega arith,
      )
      (omega arith)

-- A call that failed, with one inner call.
abbrev a_json : Json
a_json = object (
    member (codes "type") (string (codes "CALL")) (
      member (codes "gasUsed") (string (codes "0x10")) (
        member (codes "calls")
          (array (
            element (object (member (codes "type") (string (codes "CREATE")) no_members))
              no_elements))
          no_members)))

abbrev failing : List (Text × Option Json)
failing = (codes "0x1", some a_json) ∷ (codes "0x2", none) ∷ []

-- The frames that the trace gives.
abbrev root_frame : FlatFrame
root_frame = record {
  depth = 0;
  call_type = codes "CALL";
  from = zero_address;
  to = none;
  value = codes "0";
  gas_used = pos 16;
  input = none;
  output = none;
  error = none;
}

abbrev inner_frame : FlatFrame
inner_frame = record {
  depth = 1;
  call_type = codes "CREATE";
  from = zero_address;
  to = none;
  value = codes "0";
  gas_used = pos 0;
  input = none;
  output = none;
  error = none;
}

abbrev some_logs : List TraceLog
some_logs = trace_log (codes "0x1") root_frame ∷ trace_log (codes "0x1") inner_frame ∷ []

abbrev some_failures : List FailedTransaction
some_failures =
    failed_row lower_other decode_hex from_utf8_lossy 5 (codes "0x1") root_frame none ∷ []

failing_run :
    process_failed_txs lower_other decode_hex from_utf8_lossy 5 failing
    ≡ some (some_logs, some_failures)
unfolding process_failed_txs parse_call_frame flatten_call_frame hex_digit strip_prefix text_eq
    to_lowercase
failing_run = refl

failing-Calm : Calm lower_other decode_hex from_utf8_lossy 5 failing
unfolding Calm CalmRoot parse_call_frame text_eq revert_reason
failing-Calm = ((λ e. absurd cc), tt)

process_failed_txs_returns_example :
    (logs : List TraceLog) × (failures : List FailedTransaction) × (process_failed_txs lower_other
        decode_hex from_utf8_lossy 5 failing
      ≡ some (logs, failures))
    × (map (λ f. f.tx_hash) failures
        ≡ parsed_hashes lower_other decode_hex from_utf8_lossy 5 failing)
    × (all (λ t. any (λ f. text_eq f.tx_hash t.tx_hash) failures) logs ≡ true)
process_failed_txs_returns_example =
    process_failed_txs_returns lower_other decode_hex from_utf8_lossy 5 failing failing-Calm
