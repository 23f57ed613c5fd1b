-- ===== src/Db/Complete/Held.antt =====
-- What a write leaves in the tables, and what later writes keep.
use defi_tx_indexer.Prelude.{
  ◌≡◌, refl, subst, sym, Bool, true, some, List, [], ◌∷◌, ◌++◌, text_eq_refl, any, All, All-map,
  arith, Bool-cases, inl, inr,
}
use defi_tx_indexer.Db.{
  on_conflict_do_nothing, same_block, same_transaction, same_swap, same_liquidity, same_transfer,
  same_failed,
}
use defi_tx_indexer.Db.Rows.{Tables}
use defi_tx_indexer.Db.Inserts.{any-on_conflict, on_conflict_holds}
use defi_tx_indexer.Db.Rollback.{
  Write, blocks, transactions, swap_events, liquidity_events, token_transfers, failed_transactions,
  trace_logs, checkpoint, rollback, perform,
}
use defi_tx_indexer.Db.Process.{write_through}

-- The key of every row of the write is in its table; trace rows have no key.
abbrev pub Holds : Write → Tables → Type 0
Holds (blocks rows) t = All (λ x. any (same_block x) t.blocks ≡ true) rows
Holds (transactions rows) t = All (λ x. any (same_transaction x) t.transactions ≡ true) rows
Holds (swap_events rows) t = All (λ x. any (same_swap x) t.swap_events ≡ true) rows
Holds (liquidity_events rows) t = All (λ x. any (same_liquidity x) t.liquidity_events ≡ true) rows
Holds (token_transfers rows) t = All (λ x. any (same_transfer x) t.token_transfers ≡ true) rows
Holds (failed_transactions rows) t =
    All (λ x. any (same_failed x) t.failed_transactions ≡ true) rows
Holds _ t = Unit

-- A row that a test finds stays.
abbrev GrowsTo : {A : Type 0} → List A → List A → Type 0
GrowsTo {A} xs ys = (p : A → Bool) → any p xs ≡ true → any p ys ≡ true

-- So in each table that has keys.
abbrev pub Grows : Tables → Tables → Type 0
Grows t t' =
    GrowsTo t.blocks t'.blocks
    × GrowsTo t.transactions t'.transactions
    × GrowsTo t.swap_events t'.swap_events
    × GrowsTo t.liquidity_events t'.liquidity_events
    × GrowsTo t.token_transfers t'.token_transfers
    × GrowsTo t.failed_transactions t'.failed_transactions

same_Grows : (t : Tables) → Grows t t
same_Grows t = ((λ p h. h), (λ p h. h), (λ p h. h), (λ p h. h), (λ p h. h), (λ p h. h))

Grows-trans : (t u v : Tables) → Grows t u → Grows u v → Grows t v
Grows-trans t u v (a, b, c, d, e, f) (a', b', c', d', e', f') = (
  λ p h. a' p (a p h),
  λ p h. b' p (b p h),
  λ p h. c' p (c p h),
  λ p h. d' p (d p h),
  λ p h. e' p (e p h),
  λ p h. f' p (f p h),
)

-- A grown database holds what it held.
Grows-Holds : (w : Write) (t t' : Tables) → Grows t t' → Holds w t → Holds w t'
Grows-Holds (blocks rows) t t' g h = All-map _ _ (λ x k. g.0 (same_block x) k) rows h
Grows-Holds (transactions rows) t t' g h = All-map _ _ (λ x k. g.1 (same_transaction x) k) rows h
Grows-Holds (swap_events rows) t t' g h = All-map _ _ (λ x k. g.2 (same_swap x) k) rows h
Grows-Holds (liquidity_events rows) t t' g h = All-map _ _ (λ x k. g.3 (same_liquidity x) k) rows h
Grows-Holds (token_transfers rows) t t' g h = All-map _ _ (λ x k. g.4 (same_transfer x) k) rows h
Grows-Holds (failed_transactions rows) t t' g h = All-map _ _ (λ x k. g.5 (same_failed x) k) rows h
Grows-Holds (trace_logs rows) t t' g h = tt
Grows-Holds (checkpoint n) t t' g h = tt
Grows-Holds (rollback n) t t' g h = tt

-- An insert, done: the table that it leaves.
abbrev pub done : Write → Tables → Tables
done (blocks rows) t = record t { blocks = on_conflict_do_nothing same_block t.blocks rows }
done (transactions rows) t = record t {
  transactions = on_conflict_do_nothing same_transaction t.transactions rows;
}
done (swap_events rows) t = record t {
  swap_events = on_conflict_do_nothing same_swap t.swap_events rows;
}
done (liquidity_events rows) t = record t {
  liquidity_events = on_conflict_do_nothing same_liquidity t.liquidity_events rows;
}
done (token_transfers rows) t = record t {
  token_transfers = on_conflict_do_nothing same_transfer t.token_transfers rows;
}
done (failed_transactions rows) t = record t {
  failed_transactions = on_conflict_do_nothing same_failed t.failed_transactions rows;
}
done (trace_logs rows) t = record t { trace_logs = t.trace_logs ++ rows }
done _ t = t

grown :
    {A : Type 0} (same : A → A → Bool) (table rows : List A)
    → GrowsTo table (on_conflict_do_nothing same table rows)
grown same table rows p h = any-on_conflict same p table rows h

done-Grows : (w : Write) (t : Tables) → Grows t (done w t)
done-Grows (blocks rows) t =
    (grown same_block t.blocks rows, (λ p h. h), (λ p h. h), (λ p h. h), (λ p h. h), (λ p h. h))
done-Grows (transactions rows) t = (
  (λ p h. h),
  grown same_transaction t.transactions rows,
  (λ p h. h),
  (λ p h. h),
  (λ p h. h),
  (λ p h. h),
)
done-Grows (swap_events rows) t =
    ((λ p h. h), (λ p h. h), grown same_swap t.swap_events rows, (λ p h. h), (λ p h. h), (λ p h. h))
done-Grows (liquidity_events rows) t = (
  (λ p h. h),
  (λ p h. h),
  (λ p h. h),
  grown same_liquidity t.liquidity_events rows,
  (λ p h. h),
  (λ p h. h),
)
done-Grows (token_transfers rows) t = (
  (λ p h. h),
  (λ p h. h),
  (λ p h. h),
  (λ p h. h),
  grown same_transfer t.token_transfers rows,
  (λ p h. h),
)
done-Grows (failed_transactions rows) t = (
  (λ p h. h),
  (λ p h. h),
  (λ p h. h),
  (λ p h. h),
  (λ p h. h),
  grown same_failed t.failed_transactions rows,
)
done-Grows (trace_logs rows) t =
    ((λ p h. h), (λ p h. h), (λ p h. h), (λ p h. h), (λ p h. h), (λ p h. h))
done-Grows (checkpoint n) t =
    ((λ p h. h), (λ p h. h), (λ p h. h), (λ p h. h), (λ p h. h), (λ p h. h))
done-Grows (rollback n) t = ((λ p h. h), (λ p h. h), (λ p h. h), (λ p h. h), (λ p h. h), (λ p h. h))

pub done-Holds : (w : Write) (t : Tables) → Holds w (done w t)
done-Holds (blocks rows) t = on_conflict_holds same_block (λ b. ground arith) t.blocks rows
done-Holds (transactions rows) t =
    on_conflict_holds same_transaction (λ x. text_eq_refl x.tx_hash) t.transactions rows
done-Holds (swap_events rows) t =
    on_conflict_holds same_swap (λ x. rw (text_eq_refl x.tx_hash) (ground arith)) t.swap_events rows
done-Holds (liquidity_events rows) t =
    on_conflict_holds same_liquidity (λ x. rw (text_eq_refl x.tx_hash) (ground arith))
      t.liquidity_events rows
done-Holds (token_transfers rows) t =
    on_conflict_holds same_transfer (λ x. rw (text_eq_refl x.tx_hash) (ground arith))
      t.token_transfers rows
done-Holds (failed_transactions rows) t =
    on_conflict_holds same_failed (λ x. text_eq_refl x.tx_hash) t.failed_transactions rows
done-Holds (trace_logs rows) t = tt
done-Holds (checkpoint n) t = tt
done-Holds (rollback n) t = tt

-- What the writes leave: they go through, and the tables grow and hold them all.
pub record GoodAt (ws : List Write) (t : Tables) (r : Tables × Bool) : Type 0 where
  pub through : r.1 ≡ true
  pub grows : Grows t r.0
  pub holds : All (λ w. Holds w r.0) ws

abbrev pub Good : List Write → Tables → Type 0
Good ws t = GoodAt ws t (write_through ws t)

pub nil-Good : (t : Tables) → Good [] t
nil-Good t = unfold write_through in record { through = refl; grows = same_Grows t; holds = tt }

write_through_cons :
    (w : Write) (ws : List Write) (t t' : Tables)
    → perform w t ≡ some t'
    → write_through (w ∷ ws) t ≡ write_through ws t'
unfolding write_through
write_through_cons w ws t t' e = rw (e, write_through) refl

pub cons-Good :
    (w : Write) (ws : List Write) (t : Tables)
    → perform w t ≡ some (done w t)
    → Good ws (done w t)
    → Good (w ∷ ws) t
cons-Good w ws t e g =
    subst (GoodAt (w ∷ ws) t) (sym (write_through_cons w ws t (done w t) e)) (record {
      through = g.through;
      grows = Grows-trans t (done w t) (write_through ws (done w t)).0 (done-Grows w t) g.grows;
      holds = (
        Grows-Holds w (done w t) (write_through ws (done w t)).0 g.grows (done-Holds w t),
        g.holds,
      );
    })

matching :
    {A : Type 0} (same : A → A → Bool) (p : A → Bool)
    → ((x y : A) → same x y ≡ true → p x ≡ true → p y ≡ true)
    → (x : A) → p x ≡ true
    → (ys : List A) → any (same x) ys ≡ true
    → any p ys ≡ true
matching same p key x here [] k = k
matching same p key x here (y ∷ ys) k = ground (arith, key x y, matching same p key x here ys)

-- A row that is inserted is found by a test that sees only its key.
pub any_of_held :
    {A : Type 0} (same : A → A → Bool) (p : A → Bool)
    → ((x y : A) → same x y ≡ true → p x ≡ true → p y ≡ true)
    → (rows table : List A) → All (λ x. any (same x) table ≡ true) rows
    → any p rows ≡ true
    → any p table ≡ true
any_of_held same p key [] table h found = absurd cc
any_of_held same p key (x ∷ rows) table h found = elim (Bool-cases (p x)) [
  | inl here ↦ matching same p key x here table h.0
  | inr later ↦ any_of_held same p key rows table h.1 (ground arith)
]
