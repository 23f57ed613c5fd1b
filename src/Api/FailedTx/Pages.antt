-- ===== src/Api/FailedTx/Pages.antt =====
-- A walk over the pages of the list: routes/failed_tx.rs of crates/api, with the test by which a client
-- such as crates/tui/src/app.rs (next_page) goes on.
use defi_tx_indexer.Prelude.{
  ℕ, zero, suc, ◌+◌, ◌≤◌, ◌<◌, ◌≡◌, refl, sym, ap, ◌∙◌, inl, inr, Bool, true, false, Option, some,
  List, [], ◌∷◌, ◌++◌, Text, ltb, if◌then◌else◌, length, length-drop, take, drop, take-append-drop,
  take_all, ℤ, pos, unwrap_or, count_of, count_of_all, arith, Bool-cases, append-nil,
}
use defi_tx_indexer.Db.Rows.{DateTime, FailedTransaction}
use defi_tx_indexer.Api.{Result, ok, ◌>>=◌}
use defi_tx_indexer.Api.Pagination.{clamp_limit}
use defi_tx_indexer.Api.FailedTx.{
  FailedTxQuery, Criteria, meets, select_where, list_failed_transactions, count_failed_transactions,
  criteria_of, page_of, limit_of_query, list_failed_tx,
}

drop_nil {ℓ} : {A : Type ℓ} (n : ℕ) → ◌≡◌ {A = List A} (drop n []) []
drop_nil zero = refl
drop_nil (suc n) = refl

drop-drop {ℓ} : {A : Type ℓ} (a b : ℕ) (xs : List A) → drop b (drop a xs) ≡ drop (a + b) xs
drop-drop zero b xs = let e : 0 + b ≡ b = omega arith in rw e refl
drop-drop (suc a) b [] = drop_nil b ∙ sym (drop_nil (suc a + b))
drop-drop (suc a) b (x ∷ xs) =
    let e : suc a + b ≡ suc (a + b) = omega arith in rw e (drop-drop a b xs)

abbrev pub both : Criteria → (FailedTransaction → Bool) → FailedTransaction → Bool
both c p f = if meets c f then p f else false

count_of-select_where :
    (c : Criteria) (p : FailedTransaction → Bool) (fs : List FailedTransaction)
    → count_of p (select_where c fs) ≡ count_of (both c p) fs
unfolding select_where count_of
count_of-select_where c p [] = refl
count_of-select_where c p (f ∷ fs) = elim (Bool-cases (meets c f)) [
  | inl good ↦ rw (good, count_of-select_where c p fs) refl
  | inr bad ↦ rw (bad, count_of-select_where c p fs) (omega arith)
]

length-select_where :
    (c : Criteria) (fs : List FailedTransaction)
    → length (select_where c fs) ≡ count_of (meets c) fs
unfolding select_where count_of
length-select_where c [] = refl
length-select_where c (f ∷ fs) = elim (Bool-cases (meets c f)) [
  | inl good ↦ rw (good, length-select_where c fs) (omega arith)
  | inr bad ↦ rw (bad, length-select_where c fs) (omega arith)
]

count_of_le :
    (p : FailedTransaction → Bool) (fs : List FailedTransaction) → count_of p fs ≤ length fs
unfolding count_of
count_of_le p [] = omega arith
count_of_le p (f ∷ fs) = elim (Bool-cases (p f)) [
  | inl yes' ↦ rw yes' (omega (arith, count_of_le p fs))
  | inr no' ↦ rw no' (omega (arith, count_of_le p fs))
]

clamp_limit_pos : (most : ℕ) (z : ℤ) → 1 ≤ clamp_limit most z
unfolding clamp_limit
clamp_limit_pos most z = omega arith

module _ (parse_from_rfc3339 : Text → Option DateTime)
    (order : List FailedTransaction → List FailedTransaction) (fs : List FailedTransaction) where
  -- At most so many pages from an offset on, each behind the one before while the total is not
  -- reached: their rows, and whether the last page was reached.
  unfoldable pub walk : ℕ → FailedTxQuery → ℕ → Result (List FailedTransaction × Bool)
  unfolding list_failed_tx
  walk zero q offset = ok ([], false)
  walk (suc n) q offset = do
    page ← list_failed_tx parse_from_rfc3339 order true fs (record q { offset = some (pos offset) })
    rest ←
        if ltb (page.offset + page.limit) page.total
        then walk n q (page.offset + page.limit)
        else ok ([], true)
    ok (page.items ++ rest.0, rest.1)

  module _ (q : FailedTxQuery) (c : Criteria) (parsed : criteria_of parse_from_rfc3339 q ≡ ok c)
      (keeps : (p : FailedTransaction → Bool) (xs : List FailedTransaction)
        → count_of p (order xs) ≡ count_of p xs) where
    abbrev rows : List FailedTransaction
    rows = order (select_where c fs)

    total_rows : count_failed_transactions c fs ≡ length rows
    unfolding count_failed_transactions
    total_rows =
        sym (length-select_where c fs)
        ∙ sym (count_of_all (select_where c fs))
        ∙ sym (keeps (λ x. true) (select_where c fs))
        ∙ count_of_all rows

    page_at :
        (offset : ℕ)
        → list_failed_tx parse_from_rfc3339 order true fs (record q { offset = some (pos offset) })
          ≡ ok (page_of order c (limit_of_query q) offset fs)
    unfolding list_failed_tx criteria_of
    page_at offset = rw parsed refl

    walk-rows :
        (n offset : ℕ)
        → 1 ≤ n
        → length rows < offset + n
        → walk n q offset ≡ ok (drop offset rows, true)
    unfolding walk page_of list_failed_transactions
    walk-rows zero offset some_fuel h = absurd (omega arith)
    walk-rows (suc n) offset some_fuel h =
        let limit = limit_of_query q in
        let some_limit : 1 ≤ limit = clamp_limit_pos 100 (unwrap_or q.limit (pos 20)) in
        rw (page_at offset)
          (elim (Bool-cases (ltb (offset + limit) (count_failed_transactions c fs))) [
            | inl more ↦
                let more' : ltb (offset + limit) (length rows) ≡ true = rw (← total_rows) more in
                let unseen : offset + limit < length rows = ground (arith, more') in
                rw
                  (
                    more,
                    walk-rows n (offset + limit) (omega (arith, h, some_limit, unseen))
                        (omega (arith, h, some_limit)),
                    ← drop-drop offset limit rows,
                  )
                  (ap (λ xs. ok (xs, true)) (take-append-drop limit (drop offset rows)))
            | inr last ↦
                let last' : ltb (offset + limit) (length rows) ≡ false = rw (← total_rows) last in
                let all_shown : length rows ≤ offset + limit = ground (arith, last') in
                let short : length (drop offset rows) ≤ limit =
                  omega (arith, all_shown, length-drop offset rows) in
                rw
                  (
                    last,
                    append-nil (take limit (drop offset rows)),
                    take_all limit (drop offset rows) short,
                  )
                  refl
          ])

    -- Whoever walks over the pages of a request that parses, from the first one, and goes on while the
    -- offset and the size of the page lie below its total, reaches the last page after at most one
    -- page for each row of the table and one more, and has then seen every failed transaction that
    -- meets the filter as often as the table has it, and no other, under the condition that the
    -- database puts the rows in one order for all pages, which loses and repeats no row.
    pub pages_complete :
        (seen : List FailedTransaction) × (walk (suc (length fs)) q 0 ≡ ok (seen, true))
        × ((p : FailedTransaction → Bool) → count_of p seen ≡ count_of (both c p) fs)
    unfolding count_failed_transactions
    pages_complete = (
      rows,
      walk-rows (suc (length fs)) 0 (omega arith)
          (omega (arith, total_rows, count_of_le (meets c) fs)),
      λ p. keeps p (select_where c fs) ∙ count_of-select_where c p fs,
    )
