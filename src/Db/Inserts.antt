-- ===== src/Db/Inserts.antt =====
-- `INSERT … ON CONFLICT DO NOTHING` and `DELETE`: what they do to a table, whichever its rows are.
use defi_tx_indexer.Prelude.{
  ◌≡◌, refl, sym, subst, ap, Bool, true, false, List, [], ◌∷◌, ◌++◌, arith, any, all, Bool-cases,
  inl, inr, All,
}
use defi_tx_indexer.Db.{on_conflict_do_nothing, delete_where}

module _ {ℓ} {A : Type ℓ} where
  pub any-append_left : (p : A → Bool) (xs ys : List A) → any p xs ≡ true → any p (xs ++ ys) ≡ true
  any-append_left p [] ys h = cc
  any-append_left p (x ∷ xs) ys h = ground (arith, any-append_left p xs ys)

  pub any-append_right : (p : A → Bool) (xs ys : List A) → any p ys ≡ true → any p (xs ++ ys) ≡ true
  any-append_right p [] ys h = h
  any-append_right p (x ∷ xs) ys h = ground (arith, any-append_right p xs ys h)

  pub all-append :
      (p : A → Bool) (xs ys : List A) → all p xs ≡ true → all p ys ≡ true → all p (xs ++ ys) ≡ true
  all-append p [] ys h k = k
  all-append p (x ∷ xs) ys h k = ground (arith, all-append p xs ys)

  pub all-map :
      (p q : A → Bool) (f : (x : A) → p x ≡ true → q x ≡ true) (xs : List A)
      → all p xs ≡ true
      → all q xs ≡ true
  all-map p q f [] h = refl
  all-map p q f (x ∷ xs) h = ground (arith, f x, all-map p q f xs)

  -- A deleted table keeps what holds of the rows that are left.
  pub all-delete_where :
      (p q test : A → Bool) (f : (x : A) → p x ≡ true → test x ≡ false → q x ≡ true) (xs : List A)
      → all p xs ≡ true
      → all q (delete_where test xs) ≡ true
  unfolding delete_where
  all-delete_where p q test f [] h = refl
  all-delete_where p q test f (x ∷ xs) h = ground (arith, f x, all-delete_where p q test f xs)

  pub delete_where_none :
      (test : A → Bool) → ((x : A) → test x ≡ false) → (xs : List A) → delete_where test xs ≡ xs
  unfolding delete_where
  delete_where_none test f [] = refl
  delete_where_none test f (x ∷ xs) = rw (f x) (ap (λ r. x ∷ r) (delete_where_none test f xs))

  pub delete_where_again :
      (test : A → Bool) (xs : List A)
      → delete_where test (delete_where test xs) ≡ delete_where test xs
  unfolding delete_where
  delete_where_again test [] = refl
  delete_where_again test (x ∷ xs) = elim (Bool-cases (test x)) [
    | inl gone ↦ rw gone (delete_where_again test xs)
    | inr stays ↦ rw (stays, stays) (ap (λ r. x ∷ r) (delete_where_again test xs))
  ]

  module _ (same : A → A → Bool) where
    pub any-on_conflict :
        (p : A → Bool) (table rows : List A)
        → any p table ≡ true
        → any p (on_conflict_do_nothing same table rows) ≡ true
    unfolding on_conflict_do_nothing
    any-on_conflict p table [] h = h
    any-on_conflict p table (row ∷ rows) h = elim (Bool-cases (any (same row) table)) [
      | inl taken ↦ rw taken (any-on_conflict p table rows h)
      | inr free ↦
          rw free
            (any-on_conflict p (table ++ (row ∷ [])) rows (any-append_left p table (row ∷ []) h))
    ]

    pub all-on_conflict :
        (p : A → Bool) (table rows : List A)
        → all p table ≡ true
        → all p rows ≡ true
        → all p (on_conflict_do_nothing same table rows) ≡ true
    unfolding on_conflict_do_nothing
    all-on_conflict p table [] h k = h
    all-on_conflict p table (row ∷ rows) h k =
        let first : p row ≡ true = ground arith in
        let others : all p rows ≡ true = ground arith in
        elim (Bool-cases (any (same row) table)) [
          | inl taken ↦ rw taken (all-on_conflict p table rows h others)
          | inr free ↦ rw free (
              all-on_conflict p (table ++ (row ∷ [])) rows
                (all-append p table (row ∷ []) h (rw first refl)) others)
        ]

    module _ (same-refl : (x : A) → same x x ≡ true) where
      -- Every row given has its key in the table afterwards.
      pub on_conflict_holds :
          (table rows : List A)
          → All (λ x. any (same x) (on_conflict_do_nothing same table rows) ≡ true) rows
      unfolding on_conflict_do_nothing
      on_conflict_holds table [] = tt
      on_conflict_holds table (row ∷ rows) =
          let holds : List A → Type 0 = λ t. All (λ x. any (same x) t ≡ true) (row ∷ rows) in
          elim (Bool-cases (any (same row) table)) [
            | inl taken ↦
                let e : on_conflict_do_nothing same table (row ∷ rows)
                    ≡ on_conflict_do_nothing same table rows =
                  rw taken refl in
                subst holds (sym e)
                  (any-on_conflict (same row) table rows taken, on_conflict_holds table rows)
            | inr free ↦
                let longer : List A = table ++ (row ∷ []) in
                let e : on_conflict_do_nothing same table (row ∷ rows)
                    ≡ on_conflict_do_nothing same longer rows =
                  rw free refl in
                subst holds (sym e) (
                  any-on_conflict (same row) longer rows
                      (any-append_right (same row) table (row ∷ []) (rw (same-refl row) refl)),
                  on_conflict_holds longer rows,
                )
          ]

      pub on_conflict_nothing :
          (table rows : List A)
          → All (λ x. any (same x) table ≡ true) rows
          → on_conflict_do_nothing same table rows ≡ table
      unfolding on_conflict_do_nothing
      on_conflict_nothing table [] h = refl
      on_conflict_nothing table (row ∷ rows) (taken, h) =
          rw taken (on_conflict_nothing table rows h)

      -- The same rows inserted again change nothing.
      pub on_conflict_again :
          (table rows : List A)
          → on_conflict_do_nothing same (on_conflict_do_nothing same table rows) rows
            ≡ on_conflict_do_nothing same table rows
      on_conflict_again table rows = on_conflict_nothing _ rows (on_conflict_holds table rows)
