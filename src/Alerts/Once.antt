-- ===== src/Alerts/Once.antt =====
-- crates/indexer/src/alerts.rs: `dispatch_once` and `dispatch_rate_once`, the bounded set of running
-- tasks and the counters. Which task ends next, and how, is given by a list: the schedule of the
-- runtime and the results of the tasks. The rows that the scan found are an argument.
pub mod Bounded
pub mod Counted
pub mod Ends
use defi_tx_indexer.Prelude.{ℕ, zero, suc, ◌+◌, List, [], ◌∷◌, ◌++◌, ltb, if◌then◌else◌, length}
use defi_tx_indexer.Alerts.Dispatch.{DispatchOutcome, delivered, failed, unsafe_url, claim_skipped}

pub record DispatchMetrics : Type 0 where
  pub cycles : ℕ
  pub attempted : ℕ
  pub delivered : ℕ
  pub failed : ℕ
  pub unsafe_url_skipped : ℕ
  pub claim_skipped : ℕ
  pub rate_attempted : ℕ
  pub rate_delivered : ℕ
  pub rate_failed : ℕ

-- What `join_next` returns for a task: its outcome, its error, or that it panicked.
pub data Joined : Type 0 where
  outcome : DispatchOutcome → Joined
  returned_error : Joined
  panicked : Joined

abbrev max_concurrent_posts : ℕ
max_concurrent_posts = 10

unfoldable pub count_attempted : DispatchMetrics → DispatchMetrics
count_attempted m = record m { attempted = m.attempted + 1 }

unfoldable count_failed : DispatchMetrics → DispatchMetrics
count_failed m = record m { failed = m.failed + 1 }

unfoldable pub count_joined : Joined → DispatchMetrics → DispatchMetrics
unfolding count_failed
count_joined (outcome delivered) m = record m { delivered = m.delivered + 1 }
count_joined (outcome failed) m = count_failed m
count_joined (outcome unsafe_url) m = record m { unsafe_url_skipped = m.unsafe_url_skipped + 1 }
count_joined (outcome claim_skipped) m = record m { claim_skipped = m.claim_skipped + 1 }
count_joined returned_error m = count_failed m
count_joined panicked m = count_failed m

unfoldable pub count_rate_attempted : DispatchMetrics → DispatchMetrics
count_rate_attempted m = record m { rate_attempted = m.rate_attempted + 1 }

unfoldable count_rate_failed : DispatchMetrics → DispatchMetrics
count_rate_failed m = record m { rate_failed = m.rate_failed + 1 }

unfoldable pub count_rate_joined : Joined → DispatchMetrics → DispatchMetrics
unfolding count_rate_failed
count_rate_joined (outcome delivered) m = record m { rate_delivered = m.rate_delivered + 1 }
count_rate_joined (outcome failed) m = count_rate_failed m
count_rate_joined (outcome unsafe_url) m = count_rate_failed m
count_rate_joined (outcome claim_skipped) m = count_rate_failed m
count_rate_joined returned_error m = count_rate_failed m
count_rate_joined panicked m = count_rate_failed m

module _ {ℓ} {A : Type ℓ} where
  -- Take the task at a place out of a set that has a task; behind its end the last one.
  unfoldable pub take_out : ℕ → A → List A → A × List A
  take_out i t [] = (t, [])
  take_out zero t (u ∷ ts) = (t, u ∷ ts)
  take_out (suc i) t (u ∷ ts) = let (ended, left) = take_out i u ts in (ended, t ∷ left)

-- A cycle: the running tasks, the rows that wait, the counters, and the tasks that have ended.
pub record Cycle {ℓ} (A : Type ℓ) : Type ℓ where
  pub tasks : List A
  pub iter : List A
  pub metrics : DispatchMetrics
  pub ended : List A

module _ {ℓ} {A : Type ℓ} (count_spawn : DispatchMetrics → DispatchMetrics)
    (count_join : Joined → DispatchMetrics → DispatchMetrics) where
  -- `Prime`: spawn while the set has room and a row waits.
  unfoldable pub prime : List A → List A → DispatchMetrics → Cycle A
  prime tasks [] m = record { tasks = tasks; iter = []; metrics = m; ended = [] }
  prime tasks (item ∷ iter) m =
      let more = prime (tasks ++ (item ∷ [])) iter (count_spawn m) in
      if ltb (length tasks) max_concurrent_posts
      then more
      else record { tasks = tasks; iter = item ∷ iter; metrics = m; ended = [] }

  -- Spawn the next row, if one waits.
  unfoldable pub refill : Cycle A → List A → Cycle A
  refill c [] = c
  refill c (item ∷ iter) = (record c {
    tasks = c.tasks ++ (item ∷ []);
    iter = iter;
    metrics = count_spawn c.metrics;
  })

  -- The place of a task ends with a result.
  unfoldable pub join : ℕ → Joined → Cycle A → List A → Cycle A
  unfolding take_out refill
  join i joined c [] = c
  join i joined c (t ∷ ts) =
      refill
        (record c {
          tasks = (take_out i t ts).1;
          metrics = count_join joined c.metrics;
          ended = (take_out i t ts).0 ∷ c.ended;
        })
        c.iter

  -- The `while let` over the ends of tasks.
  unfoldable pub drain : List (ℕ × Joined) → Cycle A → Cycle A
  unfolding join
  drain [] c = c
  drain ((i, joined) ∷ ends) c = drain ends (join i joined c c.tasks)

  unfoldable pub dispatch_bounded : List (ℕ × Joined) → List A → DispatchMetrics → Cycle A
  unfolding prime drain
  dispatch_bounded ends pending m = drain ends (prime [] pending m)

-- The function returns when no task runs.
unfoldable pub dispatch_once {ℓ} :
    {A : Type ℓ} → List (ℕ × Joined) → List A → DispatchMetrics → Cycle A
unfolding dispatch_bounded
dispatch_once ends pending m = dispatch_bounded count_attempted count_joined ends pending m

unfoldable pub dispatch_rate_once {ℓ} :
    {A : Type ℓ} → List (ℕ × Joined) → List A → DispatchMetrics → Cycle A
unfolding dispatch_bounded
dispatch_rate_once ends pending m =
    dispatch_bounded count_rate_attempted count_rate_joined ends pending m
