-- ===== src/Trace/Failed/Owned.antt =====
-- The rows of the failed transactions are those of the transactions that were given.
use defi_tx_indexer.Prelude.{
  ℕ, ◌≡◌, refl, Bool, true, Option, none, some, List, [], ◌∷◌, Text, all, arith, map,
}
use defi_tx_indexer.Db.Rows.{DateTime}
use defi_tx_indexer.Db.Inserts.{all-append}
use defi_tx_indexer.Trace.{Json, CallFrame, FlatFrame, parse_call_frame, flatten_call_frame}
use defi_tx_indexer.Trace.Revert.{Decoded, decoded, refused, panicked}
use defi_tx_indexer.Trace.Failed.{
  Rows, trace_log, push_rows, push_empty, with_reason, with_frames, with_trace, process_failed_txs,
}

module _ (lower_other : ℕ → Text) (decode_hex : Text → Option (List ℕ))
    (from_utf8_lossy : List ℕ → Text) (timestamp : DateTime) (known : Text → Bool) where
  -- Each row belongs to a transaction with a known hash.
  unfoldable pub Owned : Rows → Type 0
  Owned none = Unit
  Owned (some (logs, failures)) =
      (all (λ t. known t.tx_hash) logs ≡ true) × (all (λ f. known f.tx_hash) failures ≡ true)

  logs-known :
      (tx_hash : Text) (frames : List FlatFrame)
      → known tx_hash ≡ true
      → all (λ t. known t.tx_hash) (map (trace_log tx_hash) frames) ≡ true
  logs-known tx_hash [] own = refl
  logs-known tx_hash (x ∷ xs) own = rw (own, logs-known tx_hash xs own) refl

  push_rows-Owned :
      (tx_hash : Text) (frames : List FlatFrame) (root : FlatFrame) (reason : Option Text)
      (rest : Rows)
      → known tx_hash ≡ true
      → Owned rest
      → Owned (
          push_rows lower_other decode_hex from_utf8_lossy timestamp tx_hash frames root reason
            rest)
  unfolding Owned push_rows
  push_rows-Owned tx_hash frames root reason none own h = tt
  push_rows-Owned tx_hash frames root reason (some (logs, failures)) own (h, k) = (
    all-append _ (map (trace_log tx_hash) frames) logs (logs-known tx_hash frames own) h,
    rw own k,
  )

  with_reason-Owned :
      (tx_hash : Text) (frames : List FlatFrame) (root : FlatFrame) (d : Option Decoded)
      (rest : Rows)
      → known tx_hash ≡ true
      → Owned rest
      → Owned
          (with_reason lower_other decode_hex from_utf8_lossy timestamp tx_hash frames root d rest)
  unfolding with_reason
  with_reason-Owned tx_hash frames root none rest own h =
      push_rows-Owned tx_hash frames root none rest own h
  with_reason-Owned tx_hash frames root (some (decoded reason)) rest own h =
      push_rows-Owned tx_hash frames root (some reason) rest own h
  with_reason-Owned tx_hash frames root (some refused) rest own h =
      push_rows-Owned tx_hash frames root none rest own h
  with_reason-Owned tx_hash frames root (some panicked) rest own h = unfold Owned in tt

  with_frames-Owned :
      (tx_hash : Text) (frames : List FlatFrame) (rest : Rows)
      → known tx_hash ≡ true
      → Owned rest
      → Owned (with_frames lower_other decode_hex from_utf8_lossy timestamp tx_hash frames rest)
  unfolding with_frames
  with_frames-Owned tx_hash [] none own h = unfold push_empty Owned in tt
  with_frames-Owned tx_hash [] (some (logs, failures)) own h =
      unfold push_empty Owned in (h.0, rw own h.1)
  with_frames-Owned tx_hash (root ∷ frames) rest own h =
      with_reason-Owned tx_hash (root ∷ frames) root _ rest own h

  with_trace-Owned :
      (tx_hash : Text) (c : Option CallFrame) (rest : Rows)
      → known tx_hash ≡ true
      → Owned rest
      → Owned (with_trace lower_other decode_hex from_utf8_lossy timestamp tx_hash c rest)
  unfolding with_trace
  with_trace-Owned tx_hash none rest own h = h
  with_trace-Owned tx_hash (some root) rest own h =
      with_frames-Owned tx_hash (flatten_call_frame root 0) rest own h

  cons-Owned :
      (tx_hash : Text) (o : Option Json) (txs : List (Text × Option Json))
      → known tx_hash ≡ true
      → Owned (process_failed_txs lower_other decode_hex from_utf8_lossy timestamp txs)
      → Owned
          (process_failed_txs lower_other decode_hex from_utf8_lossy timestamp ((tx_hash, o) ∷ txs))
  unfolding process_failed_txs
  cons-Owned tx_hash none txs own h = h
  cons-Owned tx_hash (some json) txs own h =
      with_trace-Owned tx_hash (parse_call_frame lower_other json) _ own h

  pub process_failed_txs-Owned :
      (trace : Text → Option Json) (hashes : List Text)
      → all known hashes ≡ true
      → Owned (
          process_failed_txs lower_other decode_hex from_utf8_lossy timestamp
            (map (λ h. (h, trace h)) hashes))
  process_failed_txs-Owned trace [] k = unfold Owned process_failed_txs in (refl, refl)
  process_failed_txs-Owned trace (h ∷ hs) k =
      cons-Owned h (trace h) _ (ground arith) (process_failed_txs-Owned trace hs (ground arith))
