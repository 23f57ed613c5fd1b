-- ===== src/Follow/Recovery.antt =====
-- crates/indexer/src/worker.rs: a round of `WorkerPool::follow` that rolls back, and the round behind it.
use defi_tx_indexer.Prelude.{
  ℕ, ◌+◌, ◌-◌, ◌≤◌, ◌<◌, ◌≡◌, refl, sym, subst, ap, ◌∙◌, min, none, some, [], ◌∷◌, arith, length,
}
use defi_tx_indexer.Reorg.{detect_fork}
use defi_tx_indexer.Follow.BlockStore.{BlockStore, StoreLaws}
use defi_tx_indexer.Follow.Chunks.{Sound}
use defi_tx_indexer.Follow.Cycle.{
  Round, Loop, Next, again, stopped, errored, check_reorg, follow_round, follow, local_of, go_on,
}
use defi_tx_indexer.Follow.Safety.{IsFair, ForkWithin, follow_round-Sound}
use defi_tx_indexer.Follow.Progress.{Runs, follow_round_advances}

module _ (store : BlockStore) (laws : StoreLaws store) (confirmations batch_size lo : ℕ) where
  open store use {Done, checkpoint, rollback}

  -- A round that finds a fork rolls back and asks for another.
  fork_round :
      (round : Round store) (f : ℕ) (l : Loop store)
      → detect_fork round.rpc (length (local_of store l)) (local_of store l) ≡ some (some f)
      → ((follow_round store round confirmations batch_size l).0.state ≡ rollback l.state f)
        × ((follow_round store round confirmations batch_size l).1 ≡ again)
  unfolding follow_round check_reorg
  fork_round round f l forked = rw forked (refl, refl)

  go_on-end : (next : Next) (l : Loop store) → (go_on store next l (l, again)).0 ≡ l
  unfolding go_on
  go_on-end again l = refl
  go_on-end stopped l = refl
  go_on-end errored l = refl

  follow-two :
      (first second : Round store) (l : Loop store)
      → (follow_round store first confirmations batch_size l).1 ≡ again
      → (follow store (first ∷ second ∷ []) confirmations batch_size l).0
        ≡ (follow_round store second confirmations batch_size
            (follow_round store first confirmations batch_size l).0).0
  unfolding follow go_on
  follow-two first second l goes_on = rw goes_on (go_on-end _ _)

  -- A sound store that is rolled back at most one above its checkpoint is sound below the fork.
  rolled_back :
      (round : Round store) (f : ℕ) (l : Loop store)
      → detect_fork round.rpc (length (local_of store l)) (local_of store l) ≡ some (some f)
      → 1 ≤ lo
      → (sound : Sound store laws lo l.state) → f ≤ sound.last + 1
      → (after : Sound store laws lo (follow_round store round confirmations batch_size l).0.state)
        × (after.last ≡ f - 1)
  rolled_back round f l forked above sound within =
      let (same, _) = fork_round round f l forked in
      (
        record {
          last = f - 1;
          at = ap checkpoint same ∙ laws.rollback-checkpoint l.state f sound.last sound.at;
          all_done = λ m from to.
              subst (λ s. Done s m) (sym same)
                (laws.rollback-Done l.state f m (omega arith)
                  (sound.all_done m from (omega arith)));
        },
        refl,
      )

  -- A reorg is caught up with. A round that finds a fork at `f`, at most one above the checkpoint of a
  -- sound store, is followed by a round that finds none, whose node answers and whose blocks all
  -- succeed, with the blocks of every chunk as its tasks and heights that do not wrap. Then the loop
  -- has its checkpoint at the confirmed head, or at `f - 1 + 500` if that is less, and every block
  -- from `lo` up to it is there. The confirmed head is above `f - 1`, `lo` and the batch size are
  -- not 0.
  pub follow_recovers :
      (reorg calm : Round store) (f head : ℕ) (l : Loop store)
      → 1 ≤ lo
      → 1 ≤ batch_size
      → detect_fork reorg.rpc (length (local_of store l)) (local_of store l) ≡ some (some f)
      → (sound : Sound store laws lo l.state) → f ≤ sound.last + 1
      → let l' = (follow_round store reorg confirmations batch_size l).0 in
        detect_fork calm.rpc (length (local_of store l')) (local_of store l') ≡ some none
        → IsFair store laws lo confirmations batch_size calm
        → Runs store laws calm.chunk
        → calm.head ≡ some head
        → f - 1 < head - confirmations
        → (checkpoint (follow store (reorg ∷ calm ∷ []) confirmations batch_size l).0.state
            ≡ some (min (head - confirmations) (f - 1 + 500)))
          × ((m : ℕ)
              → lo ≤ m
              → m ≤ min (head - confirmations) (f - 1 + 500)
              → Done (follow store (reorg ∷ calm ∷ []) confirmations batch_size l).0.state m)
  unfolding ForkWithin
  follow_recovers reorg calm f head l above one forked sound within no_fork fair runs answered
        ahead =
      let l' : Loop store = (follow_round store reorg confirmations batch_size l).0 in
      let (after, last_is) = rolled_back reorg f l forked above sound within in
      let moved =
        follow_round_advances store laws confirmations batch_size lo calm one fair runs head l'
          no_fork answered after (omega (arith, last_is)) in
      let kept =
        follow_round-Sound store laws lo confirmations batch_size calm l' above one fair
          (λ g c found at. let bad : none ≡ some g = cc no_fork in absurd cc) after in
      let at : some kept.last ≡ some (min (head - confirmations) (after.last + 500)) =
        sym kept.at ∙ moved in
      let kept_last : kept.last ≡ min (head - confirmations) (after.last + 500) = cc in
      let two = follow-two reorg calm l (fork_round reorg f l forked).1 in
      (
        ap (λ r. checkpoint r.state) two
            ∙ moved
            ∙ ap (λ n. some (min (head - confirmations) (n + 500))) last_is,
        λ m from to.
            subst (λ r. Done r.state m) (sym two)
              (kept.all_done m from (omega (arith, kept_last, last_is))),
      )
