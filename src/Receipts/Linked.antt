-- ===== src/Receipts/Linked.antt =====
-- What the rows of a block belong to: the transactions of its receipts.
use defi_tx_indexer.Prelude.{
  ℕ, suc, ◌≡◌, refl, Bool, true, false, Option, none, some, List, [], ◌∷◌, Text, codes,
  if◌then◌else◌, all, arith, ◌==◌, unwrap_or,
}
use defi_tx_indexer.Classifier.{to_lowercase}
use defi_tx_indexer.Db.Rows.{DateTime}
use defi_tx_indexer.Events
use defi_tx_indexer.Events.{
  Abi, Decoding, ok, err, swap, liquidity, transfer, decode_log, decoded_swap, decoded_liquidity,
  decoded_transfer, Swap, Liquidity, Transfer,
}
use defi_tx_indexer.Receipts.{
  Log, Receipt, BlockTx, Libraries, Gathered, add_event, add_log, add_logs, add_transaction, gather,
  failed_tx_hashes,
}

-- The events belong to transactions with a known hash.
pub record Known (known : Text → Bool) (g : Gathered) : Type 0 where
  pub swap_events : all (λ x. known x.tx_hash) g.swap_events ≡ true
  pub liquidity_events : all (λ x. known x.tx_hash) g.liquidity_events ≡ true
  pub token_transfers : all (λ x. known x.tx_hash) g.token_transfers ≡ true

module _ (known : Text → Bool) (abi : Abi) (pool tx_hash : Text) (log_index : ℕ)
    (timestamp : DateTime) (own : known tx_hash ≡ true) where
  swap-Known :
      (o : Option Swap) (g : Gathered)
      → Known known g
      → Known known (add_event (decoded_swap abi pool tx_hash log_index timestamp o) g)
  unfolding decoded_swap add_event
  swap-Known none g h = h
  swap-Known (some e) g h = record {
    swap_events = rw own h.swap_events;
    liquidity_events = h.liquidity_events;
    token_transfers = h.token_transfers;
  }

  liquidity-Known :
      (ty : Text) (o : Option Liquidity) (g : Gathered)
      → Known known g
      → Known known (add_event (decoded_liquidity abi pool tx_hash log_index timestamp ty o) g)
  unfolding decoded_liquidity add_event
  liquidity-Known ty none g h = h
  liquidity-Known ty (some e) g h = record {
    swap_events = h.swap_events;
    liquidity_events = rw own h.liquidity_events;
    token_transfers = h.token_transfers;
  }

  transfer-Known :
      (o : Option Transfer) (g : Gathered)
      → Known known g
      → Known known (add_event (decoded_transfer abi pool tx_hash log_index timestamp o) g)
  unfolding decoded_transfer add_event
  transfer-Known none g h = h
  transfer-Known (some e) g h = record {
    swap_events = h.swap_events;
    liquidity_events = h.liquidity_events;
    token_transfers = rw own h.token_transfers;
  }

  decode_log-Known :
      (topics bytes : List ℕ) (g : Gathered)
      → Known known g
      → Known known (add_event (decode_log abi pool tx_hash log_index timestamp topics bytes) g)
  unfolding decode_log
  decode_log-Known [] bytes g h = unfold add_event in h
  decode_log-Known (topic0 ∷ topics) bytes g h =
      at (topic0 == abi.swap_topic) (topic0 == abi.mint_topic) (topic0 == abi.burn_topic)
        (topic0 == abi.transfer_topic)
    where
      at :
          (a b c d : Bool)
          → Known known (
              add_event
                (if a
                  then decoded_swap abi pool tx_hash log_index timestamp
                      (abi.decode_raw_swap (topic0 ∷ topics) bytes)
                  else if b
                  then decoded_liquidity abi pool tx_hash log_index timestamp
                      (codes "MINT")
                      (abi.decode_raw_mint (topic0 ∷ topics) bytes)
                  else if c
                  then decoded_liquidity abi pool tx_hash log_index timestamp
                      (codes "BURN")
                      (abi.decode_raw_burn (topic0 ∷ topics) bytes)
                  else if d
                  then decoded_transfer abi pool tx_hash log_index timestamp
                      (abi.decode_raw_transfer (topic0 ∷ topics) bytes)
                  else err (Events.unknown_topic topic0))
                g)
      at true b c d = swap-Known _ g h
      at false true c d = liquidity-Known _ _ g h
      at false false true d = liquidity-Known _ _ g h
      at false false false true = transfer-Known _ g h
      at false false false false = unfold add_event in h

module _ (known : Text → Bool) (libs : Libraries) (timestamp : DateTime) (n : ℕ) where
  open libs use {abi, show_hash}

  add_log-Known :
      (tx_hash : Text) (log : Log) (g : Gathered)
      → known tx_hash ≡ true
      → Known known g
      → Known known (add_log libs timestamp n tx_hash log g)
  unfolding add_log
  add_log-Known tx_hash log g own h = at log.topics
    where
      at :
          (topics : List ℕ)
          → Known known (elim topics [
            | [] ↦ g
            | topic0 ∷ topics ↦
                add_event
                  (decode_log abi
                    (to_lowercase abi.lower_other (abi.show_address log.address))
                    tx_hash
                    (unwrap_or log.log_index 0)
                    timestamp
                    (topic0 ∷ topics)
                    log.bytes)
                  g
          ])
      at [] = h
      at (topic0 ∷ topics) =
          decode_log-Known known abi _ tx_hash _ timestamp own (topic0 ∷ topics) log.bytes g h

  add_logs-Known :
      (tx_hash : Text) (logs : List Log) (g : Gathered)
      → known tx_hash ≡ true
      → Known known g
      → Known known (add_logs libs timestamp n tx_hash logs g)
  unfolding add_logs
  add_logs-Known tx_hash [] g own h = h
  add_logs-Known tx_hash (log ∷ logs) g own h =
      add_log-Known tx_hash log _ own (add_logs-Known tx_hash logs g own h)

  add_transaction-Known :
      (o : Option _) (g : Gathered) → Known known g → Known known (add_transaction o g)
  unfolding add_transaction
  add_transaction-Known none g h = h
  add_transaction-Known (some x) g h = record {
    swap_events = h.swap_events;
    liquidity_events = h.liquidity_events;
    token_transfers = h.token_transfers;
  }

  -- The events of a block belong to its receipts.
  pub gather-Known :
      (txs : List BlockTx) (idx : ℕ) (rs : List Receipt)
      → all (λ r. known (show_hash r.transaction_hash)) rs ≡ true
      → Known known (gather libs timestamp n txs idx rs)
  unfolding gather
  gather-Known txs idx [] h = record {
    swap_events = refl;
    liquidity_events = refl;
    token_transfers = refl;
  }
  gather-Known txs idx (r ∷ rs) h =
      let own : known (show_hash r.transaction_hash) ≡ true = ground arith in
      let later : all (λ r. known (show_hash r.transaction_hash)) rs ≡ true = ground arith in
      add_transaction-Known _ _
        (add_logs-Known _ r.logs _ own (gather-Known txs (suc idx) rs later))

  -- So do the failed ones.
  pub failed_tx_hashes-known :
      (rs : List Receipt)
      → all (λ r. known (show_hash r.transaction_hash)) rs ≡ true
      → all known (failed_tx_hashes libs timestamp n rs) ≡ true
  unfolding failed_tx_hashes
  failed_tx_hashes-known [] h = refl
  failed_tx_hashes-known (r ∷ rs) h = ground (arith, failed_tx_hashes-known rs)
