-- ===== src/Trace/Failed/Accounts.antt =====
-- The rows that `process_failed_txs` returns belong together.
use defi_tx_indexer.Prelude.{
  ℕ, ◌≡◌, refl, subst, true, Option, none, some, List, [], ◌∷◌, Text, text_eq, text_eq_refl, all,
  any, arith, map,
}
use defi_tx_indexer.Db.Rows.{DateTime, TraceLog, FailedTransaction}
use defi_tx_indexer.Db.Inserts.{all-append, all-map}
use defi_tx_indexer.Trace.{Json, CallFrame, FlatFrame, flatten_call_frame}
use defi_tx_indexer.Trace.Revert.{Decoded, decoded, refused, panicked}
use defi_tx_indexer.Trace.Failed.{
  Rows, trace_log, failed_row, empty_row, push_rows, push_empty, with_reason, with_frames,
  with_trace, process_failed_txs,
}

module _ (lower_other : ℕ → Text) (decode_hex : Text → Option (List ℕ))
    (from_utf8_lossy : List ℕ → Text) (timestamp : DateTime) where
  -- Every trace row belongs to a transaction that has a failure row.
  Accounted : Rows → Type 0
  Accounted none = Unit
  Accounted (some (logs, failures)) =
      all (λ t. any (λ f. text_eq f.tx_hash t.tx_hash) failures) logs ≡ true

  logs-own :
      (tx_hash : Text) (frames : List FlatFrame) (failures : List FailedTransaction)
      → any (λ f. text_eq f.tx_hash tx_hash) failures ≡ true
      → all (λ t. any (λ f. text_eq f.tx_hash t.tx_hash) failures) (map (trace_log tx_hash) frames)
        ≡ true
  logs-own tx_hash [] failures h = refl
  logs-own tx_hash (x ∷ xs) failures h = rw (h, logs-own tx_hash xs failures h) refl

  logs-kept :
      (row : FailedTransaction) (logs : List TraceLog) (failures : List FailedTransaction)
      → all (λ t. any (λ f. text_eq f.tx_hash t.tx_hash) failures) logs ≡ true
      → all (λ t. any (λ f. text_eq f.tx_hash t.tx_hash) (row ∷ failures)) logs ≡ true
  logs-kept row logs failures h = all-map _ _ (λ t k. ground (arith, k)) logs h

  push_rows-Accounted :
      (tx_hash : Text) (frames : List FlatFrame) (root : FlatFrame) (reason : Option Text)
      (rest : Rows)
      → Accounted rest
      → Accounted (
          push_rows lower_other decode_hex from_utf8_lossy timestamp tx_hash frames root reason
            rest)
  unfolding Accounted push_rows
  push_rows-Accounted tx_hash frames root reason none h = tt
  push_rows-Accounted tx_hash frames root reason (some (logs, failures)) h =
      let row : FailedTransaction =
        failed_row lower_other decode_hex from_utf8_lossy timestamp tx_hash root reason in
      let own : any (λ f. text_eq f.tx_hash tx_hash) (row ∷ failures) ≡ true =
        rw (text_eq_refl tx_hash) refl in
      all-append _ (map (trace_log tx_hash) frames) logs
        (logs-own tx_hash frames (row ∷ failures) own) (logs-kept row logs failures h)

  with_reason-Accounted :
      (tx_hash : Text) (frames : List FlatFrame) (root : FlatFrame) (d : Option Decoded)
      (rest : Rows)
      → Accounted rest
      → Accounted
          (with_reason lower_other decode_hex from_utf8_lossy timestamp tx_hash frames root d rest)
  unfolding with_reason Accounted
  with_reason-Accounted tx_hash frames root none rest h =
      push_rows-Accounted tx_hash frames root none rest h
  with_reason-Accounted tx_hash frames root (some (decoded reason)) rest h =
      push_rows-Accounted tx_hash frames root (some reason) rest h
  with_reason-Accounted tx_hash frames root (some refused) rest h =
      push_rows-Accounted tx_hash frames root none rest h
  with_reason-Accounted tx_hash frames root (some panicked) rest h = tt

  with_frames-Accounted :
      (tx_hash : Text) (frames : List FlatFrame) (rest : Rows)
      → Accounted rest
      → Accounted (with_frames lower_other decode_hex from_utf8_lossy timestamp tx_hash frames rest)
  unfolding with_frames push_empty Accounted
  with_frames-Accounted tx_hash [] none h = tt
  with_frames-Accounted tx_hash [] (some (logs, failures)) h =
      logs-kept (empty_row lower_other decode_hex from_utf8_lossy timestamp tx_hash) logs failures h
  with_frames-Accounted tx_hash (root ∷ frames) rest h =
      with_reason-Accounted tx_hash (root ∷ frames) root _ rest h

  with_trace-Accounted :
      (tx_hash : Text) (c : Option CallFrame) (rest : Rows)
      → Accounted rest
      → Accounted (with_trace lower_other decode_hex from_utf8_lossy timestamp tx_hash c rest)
  unfolding with_trace
  with_trace-Accounted tx_hash none rest h = h
  with_trace-Accounted tx_hash (some root) rest h =
      with_frames-Accounted tx_hash (flatten_call_frame root 0) rest h

  process_failed_txs-Accounted :
      (txs : List (Text × Option Json))
      → Accounted (process_failed_txs lower_other decode_hex from_utf8_lossy timestamp txs)
  unfolding process_failed_txs
  process_failed_txs-Accounted [] = unfold Accounted in refl
  process_failed_txs-Accounted ((tx_hash, none) ∷ txs) = process_failed_txs-Accounted txs
  process_failed_txs-Accounted ((tx_hash, some json) ∷ txs) =
      with_trace-Accounted tx_hash _ _ (process_failed_txs-Accounted txs)

  -- Whenever the traces of the failed transactions give rows, every trace row belongs to a
  -- transaction that has a failure row.
  pub process_failed_txs_accounts :
      (txs : List (Text × Option Json)) (logs : List TraceLog) (failures : List FailedTransaction)
      → process_failed_txs lower_other decode_hex from_utf8_lossy timestamp txs
        ≡ some (logs, failures)
      → all (λ t. any (λ f. text_eq f.tx_hash t.tx_hash) failures) logs ≡ true
  process_failed_txs_accounts txs logs failures e =
      unfold Accounted in subst Accounted e (process_failed_txs-Accounted txs)
