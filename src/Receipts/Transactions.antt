-- ===== src/Receipts/Transactions.antt =====
-- The transaction rows of a block.
use defi_tx_indexer.Prelude.{
  ℕ, zero, suc, ◌+◌, ◌≤◌, ◌<◌, ◌≡◌, refl, ◌∙◌, true, Option, none, some, List, [], ◌∷◌, Text,
  text_eq, text_eq_refl, get_elem?, length, all, any, arith, ◌==◌, is_some, unwrap_or,
}
use defi_tx_indexer.Db.Rows.{DateTime, Transaction}
use defi_tx_indexer.Db.Inserts.{all-map}
use defi_tx_indexer.Classifier.{to_lowercase}
use defi_tx_indexer.Events.{decode_log, Decoding, ok, err, swap, liquidity, transfer}
use defi_tx_indexer.Receipts.{
  Log, Receipt, BlockTx, Libraries, Gathered, add_event, add_log, add_logs, add_transaction,
  transaction_of, gather,
}

elem-some : {A : Type 0} (xs : List A) (i : ℕ) → i < length xs → (a : A) × (get_elem? xs i ≡ some a)
elem-some [] i h = absurd (omega arith)
elem-some (x ∷ xs) zero h = (x, refl)
elem-some (x ∷ xs) (suc i) h = elem-some xs i (omega arith)

add_event-transactions :
    (d : Decoding) (g : Gathered) → (add_event d g).transactions ≡ g.transactions
unfolding add_event
add_event-transactions (ok (swap s)) g = refl
add_event-transactions (ok (liquidity l)) g = refl
add_event-transactions (ok (transfer t)) g = refl
add_event-transactions (err e) g = refl

module _ (libs : Libraries) (timestamp : DateTime) (n : ℕ) where
  open libs use {show_hash}

  add_log-transactions :
      (tx_hash : Text) (log : Log) (g : Gathered)
      → (add_log libs timestamp n tx_hash log g).transactions ≡ g.transactions
  unfolding add_log
  add_log-transactions tx_hash log g = at log.topics
    where
      at :
          (topics : List ℕ)
          → let after : Gathered = elim topics [
            | [] ↦ g
            | topic0 ∷ topics ↦
                add_event
                  (decode_log libs.abi
                    (to_lowercase libs.abi.lower_other (libs.abi.show_address log.address))
                    tx_hash
                    (unwrap_or log.log_index 0)
                    timestamp
                    (topic0 ∷ topics)
                    log.bytes)
                  g
          ] in
            after.transactions ≡ g.transactions
      at [] = refl
      at (topic0 ∷ topics) = add_event-transactions _ g

  add_logs-transactions :
      (tx_hash : Text) (logs : List Log) (g : Gathered)
      → (add_logs libs timestamp n tx_hash logs g).transactions ≡ g.transactions
  unfolding add_logs
  add_logs-transactions tx_hash [] g = refl
  add_logs-transactions tx_hash (log ∷ logs) g =
      add_log-transactions tx_hash log _ ∙ add_logs-transactions tx_hash logs g

  add_transaction_cons :
      (r : Receipt) (o : Option BlockTx) (g : Gathered)
      → is_some o ≡ true
      → (x : Transaction) × ((add_transaction (transaction_of libs timestamp n r o) g).transactions
          ≡ x ∷ g.transactions)
        × (x.tx_hash ≡ show_hash r.transaction_hash)
  unfolding add_transaction transaction_of
  add_transaction_cons r none g here = absurd cc
  add_transaction_cons r (some tx) g here = (_, refl, refl)

  add_transaction-numbers :
      (r : Receipt) (o : Option BlockTx) (g : Gathered)
      → all (λ x. x.block_number == n) g.transactions ≡ true
      → all
          (λ x. x.block_number == n)
          (add_transaction (transaction_of libs timestamp n r o) g).transactions
        ≡ true
  unfolding add_transaction transaction_of
  add_transaction-numbers r none g h = h
  add_transaction-numbers r (some tx) g h = ground arith

  -- Each transaction row has the number of the block.
  pub gather-numbers :
      (txs : List BlockTx) (idx : ℕ) (rs : List Receipt)
      → all (λ x. x.block_number == n) (gather libs timestamp n txs idx rs).transactions ≡ true
  unfolding gather
  gather-numbers txs idx [] = refl
  gather-numbers txs idx (r ∷ rs) = add_transaction-numbers r (get_elem? txs idx) _ (
      rw
        (add_logs-transactions (show_hash r.transaction_hash) r.logs
          (gather libs timestamp n txs (suc idx) rs))
        (gather-numbers txs (suc idx) rs))

  -- Where each receipt has its transaction, each has its row.
  pub gather-rows :
      (txs : List BlockTx) (idx : ℕ) (rs : List Receipt)
      → idx + length rs ≤ length txs
      → all
          (λ r.
            any
              (λ x. text_eq x.tx_hash (show_hash r.transaction_hash))
              (gather libs timestamp n txs idx rs).transactions)
          rs
        ≡ true
  unfolding gather
  gather-rows txs idx [] h = refl
  gather-rows txs idx (r ∷ rs) h =
      let g : Gathered =
        add_logs libs timestamp n (show_hash r.transaction_hash) r.logs
          (gather libs timestamp n txs (suc idx) rs) in
      let (tx, at) = elem-some txs idx (omega arith) in
      let (x, e, own) = add_transaction_cons r (get_elem? txs idx) g (rw at refl) in
      let kept =
        add_logs-transactions (show_hash r.transaction_hash) r.logs
          (gather libs timestamp n txs (suc idx) rs) in
      let same : text_eq x.tx_hash (show_hash r.transaction_hash) ≡ true =
        rw own (text_eq_refl (show_hash r.transaction_hash)) in
      rw (e, kept, same)
        (all-map _ _ (λ r' k. ground (arith, k)) rs (gather-rows txs (suc idx) rs (omega arith)))
