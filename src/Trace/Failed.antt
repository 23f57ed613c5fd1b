-- ===== src/Trace/Failed.antt =====
-- crates/indexer/src/worker.rs: `process_failed_txs`, from the traces of the failed transactions to
-- the rows. A trace that the node did not give, or that is no JSON, is missing.
pub mod Accounts
pub mod Returns
pub mod Owned
use defi_tx_indexer.Prelude.{
  ℕ, ap, Option, none, some, List, [], ◌∷◌, ◌++◌, Text, codes, leb, if◌then◌else◌, take, str_len,
  strip_prefix, unwrap_or, all, pos, map,
}
use defi_tx_indexer.Classifier.{classify_error, stored_category}
use defi_tx_indexer.Db.Rows.{DateTime, TraceLog, FailedTransaction}
use defi_tx_indexer.Trace.{Json, CallFrame, FlatFrame, parse_call_frame, flatten_call_frame}
use defi_tx_indexer.Trace.Revert.{Decoded, decoded, refused, panicked, decode_revert_reason}

-- `TraceLog { … }` of one frame
abbrev pub trace_log : Text → FlatFrame → TraceLog
trace_log tx_hash frame = record {
  tx_hash = tx_hash;
  call_depth = frame.depth;
  call_type = frame.call_type;
  from_addr = frame.from;
  to_addr = frame.to;
  value = frame.value;
  gas_used = frame.gas_used;
  input = frame.input;
  output = frame.output;
  error = frame.error;
}

abbrev bare_hex : Text → Text
bare_hex s = unwrap_or (strip_prefix (codes "0x") s) s

-- The selector of the call, as the hexadecimal digits of a node are ASCII.
unfoldable pub failing_function : Option Text → Option Text
failing_function none = none
failing_function (some input) =
    if leb 8 (str_len (bare_hex input)) then some (codes "0x" ++ take 8 (bare_hex input)) else none

-- The rows of the transactions so far, or a panic.
abbrev pub Rows : Type 0
Rows = Option (List TraceLog × List FailedTransaction)

module _ (lower_other : ℕ → Text) (decode_hex : Text → Option (List ℕ))
    (from_utf8_lossy : List ℕ → Text) (timestamp : DateTime) where
  -- The reason that the output of the root frame gives.
  unfoldable pub revert_reason : Option Text → Option Decoded
  revert_reason none = none
  revert_reason (some output) = elim (decode_hex (bare_hex output)) [
    | none ↦ none
    | some bytes ↦ some (decode_revert_reason from_utf8_lossy bytes)
  ]

  unfoldable pub category_of : Option Text → Text
  category_of none = codes "UNKNOWN"
  category_of (some reason) = classify_error lower_other reason

  abbrev pub failed_row : Text → FlatFrame → Option Text → FailedTransaction
  failed_row tx_hash root reason = record {
    tx_hash = tx_hash;
    error_category = stored_category (category_of reason);
    revert_reason = reason;
    failing_function = failing_function root.input;
    gas_used = root.gas_used;
    timestamp = timestamp;
  }

  -- One row for the failure, and the trace rows in front.
  unfoldable pub push_rows : Text → List FlatFrame → FlatFrame → Option Text → Rows → Rows
  unfolding category_of failing_function
  push_rows tx_hash frames root reason none = none
  push_rows tx_hash frames root reason (some (logs, failures)) =
      some (map (trace_log tx_hash) frames ++ logs, failed_row tx_hash root reason ∷ failures)

  -- A reason that cannot be decoded is left out; a panic ends it all.
  unfoldable pub with_reason : Text → List FlatFrame → FlatFrame → Option Decoded → Rows → Rows
  unfolding push_rows
  with_reason tx_hash frames root none rest = push_rows tx_hash frames root none rest
  with_reason tx_hash frames root (some (decoded reason)) rest =
      push_rows tx_hash frames root (some reason) rest
  with_reason tx_hash frames root (some refused) rest = push_rows tx_hash frames root none rest
  with_reason tx_hash frames root (some panicked) rest = none

  -- Without a frame there is a row that says nothing.
  abbrev pub empty_row : Text → FailedTransaction
  empty_row tx_hash = record {
    tx_hash = tx_hash;
    error_category = stored_category (codes "UNKNOWN");
    revert_reason = none;
    failing_function = none;
    gas_used = pos 0;
    timestamp = timestamp;
  }

  unfoldable pub push_empty : Text → Rows → Rows
  push_empty tx_hash none = none
  push_empty tx_hash (some (logs, failures)) = some (logs, empty_row tx_hash ∷ failures)

  -- The frames of a parsed trace: the root is the first.
  unfoldable pub with_frames : Text → List FlatFrame → Rows → Rows
  unfolding with_reason revert_reason push_empty
  with_frames tx_hash [] rest = push_empty tx_hash rest
  with_frames tx_hash (root ∷ frames) rest =
      with_reason tx_hash (root ∷ frames) root (revert_reason root.output) rest

  -- A trace that does not parse is skipped.
  unfoldable pub with_trace : Text → Option CallFrame → Rows → Rows
  unfolding with_frames
  with_trace tx_hash none rest = rest
  with_trace tx_hash (some root) rest = with_frames tx_hash (flatten_call_frame root 0) rest

  unfoldable pub process_failed_txs : List (Text × Option Json) → Rows
  unfolding with_trace
  process_failed_txs [] = some ([], [])
  process_failed_txs ((tx_hash, none) ∷ txs) = process_failed_txs txs
  process_failed_txs ((tx_hash, some json) ∷ txs) =
      with_trace tx_hash (parse_call_frame lower_other json) (process_failed_txs txs)
