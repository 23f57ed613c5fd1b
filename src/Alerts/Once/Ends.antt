-- ===== src/Alerts/Once/Ends.antt =====
-- What `dispatch_once` and `dispatch_rate_once` do with the rows of a scan.
use defi_tx_indexer.Prelude.{count_of, ℕ, ◌+◌, ◌≤◌, ◌≡◌, ◌⊎◌, refl, List, [], Bool, length, arith}
use defi_tx_indexer.Alerts.Dispatch.{delivered, failed, unsafe_url, claim_skipped}
use defi_tx_indexer.Alerts.Once.{
  DispatchMetrics, Joined, outcome, returned_error, panicked, dispatch_once, dispatch_rate_once,
  count_attempted, count_joined, count_rate_attempted, count_rate_joined,
}
use defi_tx_indexer.Alerts.Once.Bounded.{Full, Kept, dispatch_bounded-Full, dispatch_bounded-Kept}
use defi_tx_indexer.Alerts.Once.Counted.{dispatch_bounded-Finished}

-- The counters of the ends of tasks.
unfoldable pub finished_tasks : DispatchMetrics → ℕ
finished_tasks m = m.delivered + m.failed + m.unsafe_url_skipped + m.claim_skipped

unfoldable finished_rate_tasks : DispatchMetrics → ℕ
finished_rate_tasks m = m.rate_delivered + m.rate_failed

count_joined-finished :
    (j : Joined) (m : DispatchMetrics) → finished_tasks (count_joined j m) ≡ finished_tasks m + 1
unfolding finished_tasks count_joined
count_joined-finished (outcome delivered) m = omega arith
count_joined-finished (outcome failed) m = omega arith
count_joined-finished (outcome unsafe_url) m = omega arith
count_joined-finished (outcome claim_skipped) m = omega arith
count_joined-finished returned_error m = omega arith
count_joined-finished panicked m = omega arith

count_joined-attempted :
    (j : Joined) (m : DispatchMetrics) → (count_joined j m).attempted ≡ m.attempted
unfolding count_joined
count_joined-attempted (outcome delivered) m = refl
count_joined-attempted (outcome failed) m = refl
count_joined-attempted (outcome unsafe_url) m = refl
count_joined-attempted (outcome claim_skipped) m = refl
count_joined-attempted returned_error m = refl
count_joined-attempted panicked m = refl

count_rate_joined-finished :
    (j : Joined) (m : DispatchMetrics)
    → finished_rate_tasks (count_rate_joined j m) ≡ finished_rate_tasks m + 1
unfolding finished_rate_tasks count_rate_joined
count_rate_joined-finished (outcome delivered) m = omega arith
count_rate_joined-finished (outcome failed) m = omega arith
count_rate_joined-finished (outcome unsafe_url) m = omega arith
count_rate_joined-finished (outcome claim_skipped) m = omega arith
count_rate_joined-finished returned_error m = omega arith
count_rate_joined-finished panicked m = omega arith

count_rate_joined-attempted :
    (j : Joined) (m : DispatchMetrics) → (count_rate_joined j m).rate_attempted ≡ m.rate_attempted
unfolding count_rate_joined
count_rate_joined-attempted (outcome delivered) m = refl
count_rate_joined-attempted (outcome failed) m = refl
count_rate_joined-attempted (outcome unsafe_url) m = refl
count_rate_joined-attempted (outcome claim_skipped) m = refl
count_rate_joined-attempted returned_error m = refl
count_rate_joined-attempted panicked m = refl

-- After any ends of tasks, in any order: at most ten tasks run, ten as long as a row waits, and
-- every row of the scan has ended, runs or waits, as often as it was in the scan.
pub dispatch_once_bounded {ℓ} :
    {A : Type ℓ} (ends : List (ℕ × Joined)) (pending : List A) (m : DispatchMetrics)
    → let c = dispatch_once ends pending m in
      (length c.tasks ≤ 10)
      × ((c.iter ≡ []) ⊎ (length c.tasks ≡ 10))
      × ((p : A → Bool)
          → count_of p c.ended + count_of p c.tasks + count_of p c.iter ≡ count_of p pending)
unfolding dispatch_once Full Kept
dispatch_once_bounded ends pending m =
    let (small, full) = dispatch_bounded-Full count_attempted count_joined ends pending m in
    (small, full, dispatch_bounded-Kept count_attempted count_joined ends pending m)

-- As soon as as many tasks have ended as the scan found rows, in any order and with any results,
-- no task runs and no row waits, so that the function returns; every row has ended as often as it
-- was in the scan; and the counters of attempts and of results have grown by the number of rows.
pub dispatch_once_ends {ℓ} :
    {A : Type ℓ} (ends : List (ℕ × Joined)) (pending : List A) (m : DispatchMetrics)
    → length pending ≤ length ends
    → let c = dispatch_once ends pending m in
      (c.tasks ≡ [])
      × (c.iter ≡ [])
      × ((p : A → Bool) → count_of p c.ended ≡ count_of p pending)
      × (c.metrics.attempted ≡ m.attempted + length pending)
      × (finished_tasks c.metrics ≡ finished_tasks m + length pending)
unfolding dispatch_once
dispatch_once_ends ends pending m enough =
    dispatch_bounded-Finished count_attempted count_joined (λ n. n.attempted) finished_tasks
      (unfold count_attempted in λ n. refl) (unfold count_attempted finished_tasks in λ n. refl)
      count_joined-attempted count_joined-finished ends pending m enough

-- The same for the rate alerts and their counters.
dispatch_rate_once_ends {ℓ} :
    {A : Type ℓ} (ends : List (ℕ × Joined)) (pending : List A) (m : DispatchMetrics)
    → length pending ≤ length ends
    → let c = dispatch_rate_once ends pending m in
      (c.tasks ≡ [])
      × (c.iter ≡ [])
      × ((p : A → Bool) → count_of p c.ended ≡ count_of p pending)
      × (c.metrics.rate_attempted ≡ m.rate_attempted + length pending)
      × (finished_rate_tasks c.metrics ≡ finished_rate_tasks m + length pending)
unfolding dispatch_rate_once
dispatch_rate_once_ends ends pending m enough =
    dispatch_bounded-Finished count_rate_attempted count_rate_joined (λ n. n.rate_attempted)
      finished_rate_tasks (unfold count_rate_attempted in λ n. refl)
      (unfold count_rate_attempted finished_rate_tasks in λ n. refl) count_rate_joined-attempted
      count_rate_joined-finished ends pending m enough
