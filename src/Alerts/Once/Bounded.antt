-- ===== src/Alerts/Once/Bounded.antt =====
-- The set of running tasks is bounded and kept full, no row is lost, and every task is counted.
use defi_tx_indexer.Prelude.{
  ℕ, zero, suc, ◌+◌, ◌-◌, ◌≤◌, ◌≡◌, ◌⊎◌, inl, inr, refl, ap, ◌∙◌, Bool, true, List, [], ◌∷◌, ◌++◌,
  ltb, length, length-append, count_of, count_of-append, count_of_all, arith, Bool-cases,
}
use defi_tx_indexer.Alerts.Once.{
  DispatchMetrics, Joined, Cycle, take_out, prime, refill, join, drain, dispatch_bounded,
}

count_of-take_out {ℓ} :
    {A : Type ℓ} (p : A → Bool) (i : ℕ) (t : A) (ts : List A)
    → count_of p ((take_out i t ts).0 ∷ []) + count_of p (take_out i t ts).1 ≡ count_of p (t ∷ ts)
unfolding count_of take_out
count_of-take_out p i t [] = omega arith
count_of-take_out p zero t (u ∷ ts) = omega arith
count_of-take_out p (suc i) t (u ∷ ts) = omega (arith, count_of-take_out p i u ts)

pub length-take_out {ℓ} :
    {A : Type ℓ} (i : ℕ) (t : A) (ts : List A) → length (take_out i t ts).1 ≡ length ts
unfolding take_out
length-take_out i t [] = refl
length-take_out zero t (u ∷ ts) = refl
length-take_out (suc i) t (u ∷ ts) = omega (arith, length-take_out i u ts)

module _ {ℓ} {A : Type ℓ} (count_spawn : DispatchMetrics → DispatchMetrics)
    (count_join : Joined → DispatchMetrics → DispatchMetrics) where
  -- What holds of the rows at any moment: each has ended, runs or waits.
  unfoldable pub Kept : List A → Cycle A → Type ℓ
  Kept pending c =
      (p : A → Bool)
      → count_of p c.ended + count_of p c.tasks + count_of p c.iter ≡ count_of p pending

  -- The set is within its bound, and full as long as a row waits.
  unfoldable pub Full : Cycle A → Type ℓ
  Full c = (length c.tasks ≤ 10) × ((c.iter ≡ []) ⊎ (length c.tasks ≡ 10))

  prime-Kept :
      (tasks pending : List A) (m : DispatchMetrics) (p : A → Bool)
      → count_of p (prime count_spawn count_join tasks pending m).ended
          + count_of p (prime count_spawn count_join tasks pending m).tasks
          + count_of p (prime count_spawn count_join tasks pending m).iter
        ≡ count_of p tasks + count_of p pending
  unfolding prime count_of
  prime-Kept tasks [] m p = omega arith
  prime-Kept tasks (x ∷ iter) m p = elim (Bool-cases (ltb (length tasks) 10)) [
    | inl e ↦ rw e (
        omega (
          arith,
          prime-Kept (tasks ++ (x ∷ [])) iter (count_spawn m) p,
          count_of-append p tasks (x ∷ []),
        ))
    | inr e ↦ rw e (omega arith)
  ]

  pub prime_ended :
      (tasks pending : List A) (m : DispatchMetrics)
      → (prime count_spawn count_join tasks pending m).ended ≡ []
  unfolding prime
  prime_ended tasks [] m = refl
  prime_ended tasks (x ∷ iter) m = elim (Bool-cases (ltb (length tasks) 10)) [
    | inl e ↦ rw e (prime_ended (tasks ++ (x ∷ [])) iter (count_spawn m))
    | inr e ↦ rw e refl
  ]

  prime-Full :
      (tasks pending : List A) (m : DispatchMetrics)
      → length tasks ≤ 10
      → Full (prime count_spawn count_join tasks pending m)
  unfolding prime Full
  prime-Full tasks [] m h = (h, inl refl)
  prime-Full tasks (x ∷ iter) m h = elim (Bool-cases (ltb (length tasks) 10)) [
    | inl e ↦ rw e (
        prime-Full (tasks ++ (x ∷ [])) iter (count_spawn m)
          (ground (arith, length-append tasks (x ∷ []))))
    | inr e ↦ rw e (h, inr (ground arith))
  ]

  refill-Kept :
      (c : Cycle A) (iter : List A) (p : A → Bool)
      → c.iter ≡ iter
      → count_of p (refill count_spawn count_join c iter).ended
          + count_of p (refill count_spawn count_join c iter).tasks
          + count_of p (refill count_spawn count_join c iter).iter
        ≡ count_of p c.ended + count_of p c.tasks + count_of p iter
  unfolding refill count_of
  refill-Kept c [] p e = ap (λ r. count_of p c.ended + count_of p c.tasks + count_of p r) e
  refill-Kept c (x ∷ iter) p e = omega (arith, count_of-append p c.tasks (x ∷ []))

  refill-Full :
      (c : Cycle A) (iter : List A)
      → c.iter ≡ iter
      → length c.tasks ≤ 9
      → (iter ≡ []) ⊎ (length c.tasks ≡ 9)
      → Full (refill count_spawn count_join c iter)
  unfolding refill Full
  refill-Full c [] e h full = (omega arith, inl e)
  refill-Full c (x ∷ iter) e h (inl none_left) = absurd (omega (arith, ap length none_left))
  refill-Full c (x ∷ iter) e h (inr nine) = (
    omega (arith, length-append c.tasks (x ∷ [])),
    inr (omega (arith, length-append c.tasks (x ∷ []))),
  )

  refill_waiting :
      (c : Cycle A) (iter : List A)
      → c.iter ≡ iter
      → length (refill count_spawn count_join c iter).tasks
          + length (refill count_spawn count_join c iter).iter
        ≡ length c.tasks + length iter
  unfolding refill
  refill_waiting c [] e = ap (λ r. length c.tasks + length r) e
  refill_waiting c (x ∷ iter) e = omega (arith, length-append c.tasks (x ∷ []))

  join-Kept :
      (i : ℕ) (joined : Joined) (c : Cycle A) (ts : List A) (p : A → Bool)
      → c.tasks ≡ ts
      → count_of p (join count_spawn count_join i joined c ts).ended
          + count_of p (join count_spawn count_join i joined c ts).tasks
          + count_of p (join count_spawn count_join i joined c ts).iter
        ≡ count_of p c.ended + count_of p ts + count_of p c.iter
  unfolding join count_of
  join-Kept i joined c [] p e = ap (λ r. count_of p c.ended + count_of p r + count_of p c.iter) e
  join-Kept i joined c (t ∷ ts) p e =
      refill-Kept _ c.iter p refl ∙ omega (arith, count_of-take_out p i t ts)

  join-Full :
      (i : ℕ) (joined : Joined) (c : Cycle A) (ts : List A)
      → c.tasks ≡ ts
      → Full c
      → Full (join count_spawn count_join i joined c ts)
  unfolding join Full
  join-Full i joined c [] e h = h
  join-Full i joined c (t ∷ ts) e (small, full) =
      let size : length c.tasks ≡ length (t ∷ ts) = ap length e in
      let left : length (take_out i t ts).1 ≡ length ts = length-take_out i t ts in
      refill-Full _ c.iter refl (omega arith)
        (elim full [ inl x ↦ inl x | inr ten ↦ inr (omega arith) ])

  -- What is left to end: one task less with each end.
  join_waiting :
      (i : ℕ) (joined : Joined) (c : Cycle A) (ts : List A)
      → c.tasks ≡ ts
      → Full c
      → length (join count_spawn count_join i joined c ts).tasks
          + length (join count_spawn count_join i joined c ts).iter
        ≡ length c.tasks + length c.iter - 1
  unfolding join Full
  join_waiting i joined c [] e (small, inl x) =
      let a : length c.tasks ≡ 0 = ap length e in
      let b : length c.iter ≡ 0 = ap length x in omega arith
  join_waiting i joined c [] e (small, inr ten) =
      let a : length c.tasks ≡ 0 = ap length e in absurd (omega arith)
  join_waiting i joined c (t ∷ ts) e h =
      let size : length c.tasks ≡ length (t ∷ ts) = ap length e in
      let left : length (take_out i t ts).1 ≡ length ts = length-take_out i t ts in
      refill_waiting _ c.iter refl ∙ omega arith

  pub drain-Kept :
      (ends : List (ℕ × Joined)) (pending : List A) (c : Cycle A)
      → Kept pending c
      → Kept pending (drain count_spawn count_join ends c)
  unfolding drain Kept
  drain-Kept [] pending c h = h
  drain-Kept ((i, joined) ∷ ends) pending c h =
      drain-Kept ends pending (join count_spawn count_join i joined c c.tasks)
        (λ p. join-Kept i joined c c.tasks p refl ∙ h p)

  pub drain-Full :
      (ends : List (ℕ × Joined)) (c : Cycle A) → Full c → Full (drain count_spawn count_join ends c)
  unfolding drain
  drain-Full [] c h = h
  drain-Full ((i, joined) ∷ ends) c h =
      drain-Full ends (join count_spawn count_join i joined c c.tasks)
        (join-Full i joined c c.tasks refl h)

  pub drain_waiting :
      (ends : List (ℕ × Joined)) (c : Cycle A)
      → Full c
      → length (drain count_spawn count_join ends c).tasks
          + length (drain count_spawn count_join ends c).iter
        ≡ length c.tasks + length c.iter - length ends
  unfolding drain
  drain_waiting [] c h = omega arith
  drain_waiting ((i, joined) ∷ ends) c h =
      drain_waiting ends (join count_spawn count_join i joined c c.tasks)
        (join-Full i joined c c.tasks refl h)
      ∙ omega (arith, join_waiting i joined c c.tasks refl h)

  pub dispatch_bounded-Full :
      (ends : List (ℕ × Joined)) (pending : List A) (m : DispatchMetrics)
      → Full (dispatch_bounded count_spawn count_join ends pending m)
  unfolding dispatch_bounded
  dispatch_bounded-Full ends pending m = drain-Full ends _ (prime-Full [] pending m (omega arith))

  pub dispatch_bounded-Kept :
      (ends : List (ℕ × Joined)) (pending : List A) (m : DispatchMetrics)
      → Kept pending (dispatch_bounded count_spawn count_join ends pending m)
  unfolding dispatch_bounded
  dispatch_bounded-Kept ends pending m =
      drain-Kept ends pending _
        (unfold Kept count_of in λ p. prime-Kept [] pending m p ∙ omega arith)

  -- How many rows run or wait after some ends.
  pub dispatch_bounded_waiting :
      (ends : List (ℕ × Joined)) (pending : List A) (m : DispatchMetrics)
      → length (dispatch_bounded count_spawn count_join ends pending m).tasks
          + length (dispatch_bounded count_spawn count_join ends pending m).iter
        ≡ length pending - length ends
  unfolding dispatch_bounded
  dispatch_bounded_waiting ends pending m =
      let primed = prime count_spawn count_join [] pending m in
      let none_ended : primed.ended ≡ [] = prime_ended [] pending m in
      let zero_ended : count_of (λ x. true) primed.ended ≡ 0 =
        ap (count_of (λ x. true)) none_ended ∙ (unfold count_of in refl) in
      let kept : count_of (λ x. true) primed.ended
            + count_of (λ x. true) primed.tasks
            + count_of (λ x. true) primed.iter
          ≡ 0 + count_of (λ x. true) pending =
        unfold count_of in prime-Kept [] pending m (λ x. true) in
      drain_waiting ends primed (prime-Full [] pending m (omega arith))
      ∙ omega (
        arith,
        kept,
        zero_ended,
        count_of_all primed.tasks,
        count_of_all primed.iter,
        count_of_all pending,
      )
