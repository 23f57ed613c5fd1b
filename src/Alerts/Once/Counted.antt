-- ===== src/Alerts/Once/Counted.antt =====
-- The counters of a cycle agree with its tasks.
use defi_tx_indexer.Prelude.{
  count_of, count_of_all, ℕ, ◌+◌, ◌≤◌, ◌≡◌, inl, inr, refl, ap, ◌∙◌, Bool, true, List, [], ◌∷◌,
  ◌++◌, ltb, length, length-append, arith, Bool-cases,
}
use defi_tx_indexer.Alerts.Once.{
  DispatchMetrics, Joined, Cycle, prime, refill, join, drain, dispatch_bounded,
}
use defi_tx_indexer.Alerts.Once.Bounded.{
  length-take_out, Kept, dispatch_bounded-Kept, dispatch_bounded_waiting,
}

module _ {ℓ} {A : Type ℓ} (count_spawn : DispatchMetrics → DispatchMetrics)
    (count_join : Joined → DispatchMetrics → DispatchMetrics)
    (attempted_of finished_of : DispatchMetrics → ℕ)
    (spawn_attempted : (m : DispatchMetrics) → attempted_of (count_spawn m) ≡ attempted_of m + 1)
    (spawn_finished : (m : DispatchMetrics) → finished_of (count_spawn m) ≡ finished_of m)
    (join_attempted : (j : Joined) (m : DispatchMetrics)
      → attempted_of (count_join j m) ≡ attempted_of m)
    (join_finished : (j : Joined) (m : DispatchMetrics)
      → finished_of (count_join j m) ≡ finished_of m + 1) where
  -- From what the counters were.
  Counts : ℕ → ℕ → Cycle A → Type 0
  Counts attempted finished c =
      (attempted_of c.metrics ≡ attempted + length c.ended + length c.tasks)
      × (finished_of c.metrics ≡ finished + length c.ended)

  prime-Counts :
      (attempted : ℕ) (tasks pending : List A) (m : DispatchMetrics)
      → attempted_of m ≡ attempted + length tasks
      → Counts attempted (finished_of m) (prime count_spawn count_join tasks pending m)
  unfolding prime Counts
  prime-Counts attempted tasks [] m h = (omega arith, omega arith)
  prime-Counts attempted tasks (x ∷ iter) m h = elim (Bool-cases (ltb (length tasks) 10)) [
    | inl e ↦ rw e (
        let (a, f) =
          prime-Counts attempted (tasks ++ (x ∷ [])) iter (count_spawn m)
            (omega (arith, spawn_attempted m, length-append tasks (x ∷ []))) in
        (a, f ∙ omega (arith, spawn_finished m)))
    | inr e ↦ rw e (omega arith, omega arith)
  ]

  refill-Counts :
      (attempted finished : ℕ) (c : Cycle A) (iter : List A)
      → Counts attempted finished c
      → Counts attempted finished (refill count_spawn count_join c iter)
  unfolding refill Counts
  refill-Counts attempted finished c [] h = h
  refill-Counts attempted finished c (x ∷ iter) (a, f) = (
    omega (arith, spawn_attempted c.metrics, length-append c.tasks (x ∷ [])),
    spawn_finished c.metrics ∙ f,
  )

  join-Counts :
      (attempted finished i : ℕ) (joined : Joined) (c : Cycle A) (ts : List A)
      → c.tasks ≡ ts
      → Counts attempted finished c
      → Counts attempted finished (join count_spawn count_join i joined c ts)
  unfolding join Counts
  join-Counts attempted finished i joined c [] e h = h
  join-Counts attempted finished i joined c (t ∷ ts) e (a, f) =
      let size : length c.tasks ≡ length (t ∷ ts) = ap length e in
      refill-Counts attempted finished _ c.iter (
        omega (arith, join_attempted joined c.metrics, length-take_out i t ts),
        omega (arith, join_finished joined c.metrics),
      )

  drain-Counts :
      (attempted finished : ℕ) (ends : List (ℕ × Joined)) (c : Cycle A)
      → Counts attempted finished c
      → Counts attempted finished (drain count_spawn count_join ends c)
  unfolding drain
  drain-Counts attempted finished [] c h = h
  drain-Counts attempted finished ((i, joined) ∷ ends) c h =
      drain-Counts attempted finished ends (join count_spawn count_join i joined c c.tasks)
        (join-Counts attempted finished i joined c c.tasks refl h)

  dispatch_bounded-Counts :
      (ends : List (ℕ × Joined)) (pending : List A) (m : DispatchMetrics)
      → Counts
          (attempted_of m)
          (finished_of m)
          (dispatch_bounded count_spawn count_join ends pending m)
  unfolding dispatch_bounded
  dispatch_bounded-Counts ends pending m =
      drain-Counts (attempted_of m) (finished_of m) ends _
        (prime-Counts (attempted_of m) [] pending m (omega arith))

  -- With an end for every row: no task runs, no row waits, every row has ended once, and is
  -- counted as attempted and as finished.
  abbrev Finished : List A → DispatchMetrics → Cycle A → Type ℓ
  Finished pending m c =
      (c.tasks ≡ [])
      × (c.iter ≡ [])
      × ((p : A → Bool) → count_of p c.ended ≡ count_of p pending)
      × (attempted_of c.metrics ≡ attempted_of m + length pending)
      × (finished_of c.metrics ≡ finished_of m + length pending)

  empty_of : (xs : List A) → length xs ≡ 0 → xs ≡ []
  empty_of [] e = refl
  empty_of (x ∷ xs) e = absurd (omega arith)

  pub dispatch_bounded-Finished :
      (ends : List (ℕ × Joined)) (pending : List A) (m : DispatchMetrics)
      → length pending ≤ length ends
      → Finished pending m (dispatch_bounded count_spawn count_join ends pending m)
  unfolding Counts Kept count_of
  dispatch_bounded-Finished ends pending m enough =
      let c = dispatch_bounded count_spawn count_join ends pending m in
      let waiting = dispatch_bounded_waiting count_spawn count_join ends pending m in
      let kept = dispatch_bounded-Kept count_spawn count_join ends pending m in
      let (a, f) = dispatch_bounded-Counts ends pending m in
      let no_tasks : c.tasks ≡ [] = empty_of c.tasks (omega arith) in
      let no_iter : c.iter ≡ [] = empty_of c.iter (omega arith) in
      let each : (p : A → Bool) → count_of p c.ended ≡ count_of p pending =
        λ p. omega (arith, kept p, ap (count_of p) no_tasks, ap (count_of p) no_iter) in
      let all_ended : length c.ended ≡ length pending =
        omega (arith, each (λ x. true), count_of_all c.ended, count_of_all pending) in
      (no_tasks, no_iter, each, omega arith, omega arith)
