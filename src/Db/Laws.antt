-- ===== src/Db/Laws.antt =====
-- The database keeps the laws that the follow loop rests on.
use defi_tx_indexer.Prelude.{
  ℕ, ◌≡◌, ◌≤◌, refl, subst, ◌∙◌, true, false, none, some, List, [], ◌∷◌, ◌++◌, Option-cases,
  Bool-cases, All, ◌==◌, inl, inr, arith,
}
use defi_tx_indexer.Follow.BlockStore.{StoreLaws}
use defi_tx_indexer.Follow.Chunks.{Sound}
use defi_tx_indexer.Follow.Cycle.{Round, Loop, follow}
use defi_tx_indexer.Follow.Safety.{FairRun, follow-Sound}
use defi_tx_indexer.Db.{
  on_conflict_do_nothing, has_block, rollback_from_block, rewind_checkpoint, get_last_checkpoint,
  update_checkpoint, insert_blocks, insert_transactions, insert_swap_events,
  insert_liquidity_events, insert_token_transfers, insert_failed_transactions, insert_trace_logs,
  same_block,
}
use defi_tx_indexer.Db.Rows.{Block, Tables}
use defi_tx_indexer.Db.Inserts.{any-on_conflict, on_conflict_holds}
use defi_tx_indexer.Db.Integrity.{if-some, if-if-some}
use defi_tx_indexer.Db.Rollback.{
  Write, blocks, transactions, swap_events, liquidity_events, token_transfers, failed_transactions,
  trace_logs, checkpoint, rollback, perform,
}
use defi_tx_indexer.Db.Clears.{rollback_clears}
use defi_tx_indexer.Receipts.{Libraries, BlockRows, rows_of}
use defi_tx_indexer.Trace.Failed.{Rows}
use defi_tx_indexer.Db.Process.{
  write_through, write_rows, process_block, writes_of, later_writes, failed_writes, database,
}

-- From `t` to `t'` no block goes, and the checkpoint stays.
record Extends (t t' : Tables) : Type 0 where
  has : (n : ℕ) → has_block t n ≡ true → has_block t' n ≡ true
  checkpoint : get_last_checkpoint t' ≡ get_last_checkpoint t

-- The inserts.
IsInsert : Write → Type 0
IsInsert (checkpoint n) = ⊥
IsInsert (rollback n) = ⊥
IsInsert _ = Unit

perform-Extends : (w : Write) (t t' : Tables) → IsInsert w → perform w t ≡ some t' → Extends t t'
unfolding perform IsInsert insert_blocks insert_transactions insert_swap_events
    insert_liquidity_events insert_token_transfers insert_failed_transactions insert_trace_logs
    has_block get_last_checkpoint
perform-Extends (blocks rows) t t' i e = subst (Extends t) (if-some _ _ t' e).1 (record {
  has = λ n h. any-on_conflict same_block (λ b. b.block_number == n) t.blocks rows h;
  checkpoint = refl;
})
perform-Extends (transactions rows) t t' i e =
    subst (Extends t) (if-if-some _ _ _ t' e).2 (record { has = λ n h. h; checkpoint = refl })
perform-Extends (swap_events rows) t t' i e =
    subst (Extends t) (if-if-some _ _ _ t' e).2 (record { has = λ n h. h; checkpoint = refl })
perform-Extends (liquidity_events rows) t t' i e =
    subst (Extends t) (if-if-some _ _ _ t' e).2 (record { has = λ n h. h; checkpoint = refl })
perform-Extends (token_transfers rows) t t' i e =
    subst (Extends t) (if-if-some _ _ _ t' e).2 (record { has = λ n h. h; checkpoint = refl })
perform-Extends (failed_transactions rows) t t' i e =
    subst (Extends t) (if-if-some _ _ _ t' e).2 (record { has = λ n h. h; checkpoint = refl })
perform-Extends (trace_logs rows) t t' i e =
    subst (Extends t) (if-if-some _ _ _ t' e).2 (record { has = λ n h. h; checkpoint = refl })
perform-Extends (checkpoint n) t t' i e = absurd i
perform-Extends (rollback n) t t' i e = absurd i

write_through-Extends :
    (ws : List Write) (t : Tables) → All IsInsert ws → Extends t (write_through ws t).0
unfolding write_through
write_through-Extends [] t i = record { has = λ n h. h; checkpoint = refl }
write_through-Extends (w ∷ ws) t (i, is) = elim (Option-cases (perform w t)) [
  | inl refused ↦ rw (refused, write_through) (record { has = λ n h. h; checkpoint = refl })
  | inr (t', done) ↦
      let first = perform-Extends w t t' i done in
      let later = write_through-Extends ws t' is in
      rw (done, write_through)
        (record {
          has = λ n h. later.has n (first.has n h);
          checkpoint = later.checkpoint ∙ first.checkpoint;
        })
]

failed_writes-IsInsert : (r : Rows) → All IsInsert (failed_writes r)
unfolding failed_writes IsInsert
failed_writes-IsInsert none = tt
failed_writes-IsInsert (some (logs, failures)) = (tt, (tt, tt))

later-IsInsert : (rows : BlockRows) → All IsInsert (later_writes rows ++ failed_writes rows.failed)
unfolding later_writes IsInsert
later-IsInsert rows = (tt, (tt, (tt, (tt, failed_writes-IsInsert rows.failed))))

write_rows-Extends : (rows : BlockRows) (t : Tables) → Extends t (write_rows rows t).0
unfolding write_rows IsInsert
write_rows-Extends rows t = elim (Bool-cases rows.fetched) [
  | inl got ↦
      rw got
        (write_through-Extends (writes_of rows) t (unfold writes_of in (tt, later-IsInsert rows)))
  | inr lost ↦ rw lost (record { has = λ m h. h; checkpoint = refl })
]

perform-blocks :
    (rows : List Block) (t t' : Tables)
    → perform (blocks rows) t ≡ some t'
    → record t { blocks = on_conflict_do_nothing same_block t.blocks rows } ≡ t'
unfolding perform insert_blocks
perform-blocks rows t t' e = (if-some _ _ t' e).1

first-has :
    (rows : BlockRows) (t : Tables)
    → (write_through (writes_of rows) t).1 ≡ true
    → has_block (write_through (writes_of rows) t).0 rows.block.block_number ≡ true
unfolding writes_of write_through IsInsert
first-has rows t good = elim (Option-cases (perform (blocks (rows.block ∷ [])) t)) [
  | inl refused ↦ let bad : false ≡ true = rw (refused, write_through) at good in absurd cc
  | inr (t', done) ↦
      let same = perform-blocks (rows.block ∷ []) t t' done in
      let held : has_block t' rows.block.block_number ≡ true =
        subst (λ u. has_block u rows.block.block_number ≡ true) same
          (unfold has_block in
            (on_conflict_holds same_block (λ b. ground arith) t.blocks (rows.block ∷ [])).0) in
      rw (done, write_through)
        ((write_through-Extends (later_writes rows ++ failed_writes rows.failed) t'
            (later-IsInsert rows)).has
          rows.block.block_number held)
]

-- A block that is processed without an error is in the tables.
write_rows_self :
    (rows : BlockRows) (t : Tables)
    → (write_rows rows t).1 ≡ true
    → has_block (write_rows rows t).0 rows.block.block_number ≡ true
unfolding write_rows
write_rows_self rows t good = elim (Bool-cases rows.fetched) [
  | inl got ↦ rw got (first-has rows t (let both = rw got at good in ground (arith, both)))
  | inr lost ↦ let bad : false ≡ true = rw lost at good in absurd cc
]

no_checkpoint :
    (t : Tables) (f : ℕ)
    → get_last_checkpoint t ≡ none
    → get_last_checkpoint (rollback_from_block f t).0 ≡ none
unfolding get_last_checkpoint rollback_from_block rewind_checkpoint
no_checkpoint t f at = rw at refl

pub database-StoreLaws : (libs : Libraries) → StoreLaws (database libs)
database-StoreLaws libs = record {
  set_checkpoint-checkpoint = λ t n. unfold get_last_checkpoint update_checkpoint in refl;
  set_checkpoint-Done = λ t n m d. unfold has_block update_checkpoint in d;
  process_block-checkpoint =
      λ w n t. unfold process_block in (write_rows-Extends (rows_of libs w n) t).checkpoint;
  process_block-Done =
      λ w n t m d. unfold process_block in (write_rows-Extends (rows_of libs w n) t).has m d;
  process_block-Done_self =
      λ w n t good. unfold process_block rows_of in write_rows_self (rows_of libs w n) t good;
  rollback-checkpoint = λ t f c at. (rollback_clears f t).3 c at;
  rollback-checkpoint_none = no_checkpoint;
  rollback-Done = λ t f m below d. (rollback_clears f t).1 m below ∙ d;
}

-- The follow loop over the database: after any fair run from tables that have every block from `lo`
-- up to the checkpoint, they have every block from `lo` up to the checkpoint that they then have.
pub database-Sound :
    (libs : Libraries) (lo confirmations batch_size : ℕ) (rounds : List (Round (database libs)))
    (l : Loop (database libs)) (n m : ℕ)
    → 1 ≤ lo
    → 1 ≤ batch_size
    → FairRun (database libs) (database-StoreLaws libs) lo confirmations batch_size rounds l
    → Sound (database libs) (database-StoreLaws libs) lo l.state
    → get_last_checkpoint (follow (database libs) rounds confirmations batch_size l).0.state
      ≡ some n
    → lo ≤ m
    → m ≤ n
    → has_block (follow (database libs) rounds confirmations batch_size l).0.state m ≡ true
database-Sound libs lo confirmations batch_size rounds l n m above one run sound at from to =
    let after =
      follow-Sound (database libs) (database-StoreLaws libs) lo confirmations batch_size rounds l
        above one run sound in
    let last_is : after.last ≡ n = cc after.at in after.all_done m from (omega (arith, last_is))
