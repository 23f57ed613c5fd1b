-- ===== src/Trace/Failed/Returns.antt =====
-- When `process_failed_txs` returns, and for which transactions there is a failure row.
use defi_tx_indexer.Prelude.{
  ℕ, ◌≡◌, ◌≢◌, refl, ap, subst, true, Option, none, some, List, [], ◌∷◌, Text, text_eq, all, any,
  Option-cases, inl, inr, map,
}
use defi_tx_indexer.Db.Rows.{DateTime, TraceLog, FailedTransaction}
use defi_tx_indexer.Trace.{
  Json, CallFrame, call_frame, FlatFrame, flat_frame, parse_call_frame, flatten_call_frame,
}
use defi_tx_indexer.Trace.Revert.{Decoded, decoded, refused, panicked}
use defi_tx_indexer.Trace.Failed.{
  Rows, push_rows, with_reason, with_frames, with_trace, process_failed_txs, revert_reason,
}
use defi_tx_indexer.Trace.Failed.Accounts.{process_failed_txs_accounts}

module _ (lower_other : ℕ → Text) (decode_hex : Text → Option (List ℕ))
    (from_utf8_lossy : List ℕ → Text) (timestamp : DateTime) where
  -- The transactions whose trace parses.
  unfoldable pub parsed_hashes : List (Text × Option Json) → List Text
  parsed_hashes [] = []
  parsed_hashes ((tx_hash, none) ∷ txs) = parsed_hashes txs
  parsed_hashes ((tx_hash, some json) ∷ txs) = elim (parse_call_frame lower_other json) [
    | none ↦ parsed_hashes txs
    | some c ↦ tx_hash ∷ parsed_hashes txs
  ]

  -- The output of the root frame does not make the decoder of reasons panic.
  unfoldable pub CalmRoot : Option CallFrame → Type 0
  CalmRoot none = Unit
  CalmRoot (some (call_frame frame cs)) =
      revert_reason lower_other decode_hex from_utf8_lossy timestamp frame.output ≢ some panicked

  unfoldable pub Calm : List (Text × Option Json) → Type 0
  unfolding CalmRoot
  Calm [] = Unit
  Calm ((tx_hash, none) ∷ txs) = Calm txs
  Calm ((tx_hash, some json) ∷ txs) = CalmRoot (parse_call_frame lower_other json) × Calm txs

  -- There are rows, with a failure row for each of these hashes.
  RowFor : List Text → Rows → Type 0
  RowFor hashes none = ⊥
  RowFor hashes (some (logs, failures)) = map (λ f. f.tx_hash) failures ≡ hashes

  push_rows-RowFor :
      (tx_hash : Text) (frames : List FlatFrame) (root : FlatFrame) (reason : Option Text)
      (hashes : List Text) (rest : Rows)
      → RowFor hashes rest
      → RowFor (tx_hash ∷ hashes) (
          push_rows lower_other decode_hex from_utf8_lossy timestamp tx_hash frames root reason
            rest)
  unfolding RowFor push_rows
  push_rows-RowFor tx_hash frames root reason hashes none h = absurd h
  push_rows-RowFor tx_hash frames root reason hashes (some (logs, failures)) h =
      ap (λ hs. tx_hash ∷ hs) h

  with_reason-RowFor :
      (tx_hash : Text) (frames : List FlatFrame) (root : FlatFrame) (d : Option Decoded)
      (hashes : List Text) (rest : Rows)
      → d ≢ some panicked
      → RowFor hashes rest
      → RowFor
          (tx_hash ∷ hashes)
          (with_reason lower_other decode_hex from_utf8_lossy timestamp tx_hash frames root d rest)
  unfolding with_reason
  with_reason-RowFor tx_hash frames root none hashes rest calm h =
      push_rows-RowFor tx_hash frames root none hashes rest h
  with_reason-RowFor tx_hash frames root (some (decoded reason)) hashes rest calm h =
      push_rows-RowFor tx_hash frames root (some reason) hashes rest h
  with_reason-RowFor tx_hash frames root (some refused) hashes rest calm h =
      push_rows-RowFor tx_hash frames root none hashes rest h
  with_reason-RowFor tx_hash frames root (some panicked) hashes rest calm h = absurd (calm refl)

  trace-RowFor :
      (tx_hash : Text) (c : Option CallFrame) (hashes : List Text) (rest : Rows)
      → CalmRoot c
      → RowFor hashes rest
      → RowFor
          (elim c [ none ↦ hashes | some c' ↦ tx_hash ∷ hashes ])
          (with_trace lower_other decode_hex from_utf8_lossy timestamp tx_hash c rest)
  unfolding with_trace with_frames flatten_call_frame flat_frame CalmRoot
  trace-RowFor tx_hash none hashes rest calm h = h
  trace-RowFor tx_hash (some (call_frame frame cs)) hashes rest calm h =
      with_reason-RowFor tx_hash (flatten_call_frame (call_frame frame cs) 0) (flat_frame frame 0) _
        hashes rest calm h

  process_failed_txs-RowFor :
      (txs : List (Text × Option Json))
      → Calm txs
      → RowFor
          (parsed_hashes txs)
          (process_failed_txs lower_other decode_hex from_utf8_lossy timestamp txs)
  unfolding process_failed_txs Calm parsed_hashes
  process_failed_txs-RowFor [] calm = unfold RowFor in refl
  process_failed_txs-RowFor ((tx_hash, none) ∷ txs) calm = process_failed_txs-RowFor txs calm
  process_failed_txs-RowFor ((tx_hash, some json) ∷ txs) (calm, later) =
      trace-RowFor tx_hash (parse_call_frame lower_other json) (parsed_hashes txs) _ calm
        (process_failed_txs-RowFor txs later)

  -- When no output of a root frame makes the decoder of reasons panic, `process_failed_txs` returns:
  -- the failure rows are those of the transactions whose trace parses, one for each and in their
  -- order, and every trace row belongs to a transaction that has a failure row.
  pub process_failed_txs_returns :
      (txs : List (Text × Option Json))
      → Calm txs
      → (logs : List TraceLog) × (failures : List FailedTransaction) × (process_failed_txs
            lower_other decode_hex from_utf8_lossy timestamp txs
          ≡ some (logs, failures))
        × (map (λ f. f.tx_hash) failures ≡ parsed_hashes txs)
        × (all (λ t. any (λ f. text_eq f.tx_hash t.tx_hash) failures) logs ≡ true)
  process_failed_txs_returns txs calm =
      elim (Option-cases
        (process_failed_txs lower_other decode_hex from_utf8_lossy timestamp txs)) [
          | inl e ↦ absurd (
              unfold RowFor in
              subst (RowFor (parsed_hashes txs)) e (process_failed_txs-RowFor txs calm))
          | inr ((logs, failures), e) ↦ (
            logs,
            failures,
            e,
            unfold RowFor in
                subst (RowFor (parsed_hashes txs)) e (process_failed_txs-RowFor txs calm),
            process_failed_txs_accounts lower_other decode_hex from_utf8_lossy timestamp txs logs
                failures e,
          )
        ]
