-- ===== src/Classifier/Stored.antt =====
-- The categories that `classify_error` returns, and the ones that are stored for them.
use defi_tx_indexer.Prelude.{
  List, [], ◌∷◌, ◌++◌, ◌||◌, ◌∙◌, sym, subst, arith, ℕ, ◌≡◌, refl, ◌⊎◌, inl, inr, Bool, true, false,
  Text, text_eq, if◌then◌else◌,
}
use defi_tx_indexer.Db.Category.{
  ErrorCategory, insufficient_balance, insufficient_allowance, slippage_exceeded,
  slippage_amount_out, slippage_amount_in, slippage_price_impact, deadline_expired, unauthorized,
  transfer_failed, unknown, match_str, as_wire,
}
use defi_tx_indexer.Classifier.{
  allowance_words, aggregator_words, balance_words, amount_out_words, amount_in_words,
  price_impact_words, slippage_words, deadline_words, unauthorized_words, transfer_words,
  contains_any, to_lowercase, classify_lower, classify_error, stored_category,
}

-- The words that stand for a category in a reason.
abbrev pub words_of : ErrorCategory → List Text
words_of insufficient_balance = balance_words
words_of insufficient_allowance = allowance_words
words_of slippage_exceeded = slippage_words
words_of slippage_amount_out = aggregator_words ++ amount_out_words
words_of slippage_amount_in = amount_in_words
words_of slippage_price_impact = price_impact_words
words_of deadline_expired = deadline_words
words_of unauthorized = unauthorized_words
words_of transfer_failed = transfer_words
words_of unknown = []

-- Why a category is given: a word for it is there, or no word for any category is.
abbrev pub IsGiven : Text → ErrorCategory → Type 0
IsGiven lower c =
    (contains_any (words_of c) lower ≡ true)
    ⊎ ((c ≡ unknown) × ((k : ErrorCategory) → contains_any (words_of k) lower ≡ false))

abbrev Classified : Text → Text → Type 0
Classified lower t = (c : ErrorCategory) × (t ≡ as_wire c) × IsGiven lower c

contains_any-append :
    (xs ys : List Text) (s : Text)
    → contains_any (xs ++ ys) s ≡ (contains_any xs s || contains_any ys s)
unfolding contains_any
contains_any-append [] ys s = refl
contains_any-append (x ∷ xs) ys s = rw (contains_any-append xs ys s) (ground arith)

or_true : (b : Bool) → (b || true) ≡ true
or_true true = refl
or_true false = refl

if-Classified :
    (lower : Text) (b : Bool) (s t : Text)
    → (b ≡ true → Classified lower s)
    → (b ≡ false → Classified lower t)
    → Classified lower (if b then s else t)
if-Classified lower true s t h k = h refl
if-Classified lower false s t h k = k refl

classify_lower-Classified : (lower : Text) → Classified lower (classify_lower lower)
unfolding classify_lower as_wire
classify_lower-Classified lower =
    if-Classified lower (contains_any allowance_words lower) _ _
      (λ h. (insufficient_allowance, refl, inl h))
      (λ no_allowance.
        if-Classified lower (contains_any aggregator_words lower) _ _
          (λ h. (
            slippage_amount_out,
            refl,
            inl (contains_any-append aggregator_words amount_out_words lower ∙ rw h refl),
          ))
          (λ no_aggregator.
            if-Classified lower (contains_any balance_words lower) _ _
              (λ h. (insufficient_balance, refl, inl h))
              (λ no_balance.
                if-Classified lower (contains_any amount_out_words lower) _ _
                  (λ h. (
                    slippage_amount_out,
                    refl,
                    inl (
                        contains_any-append aggregator_words amount_out_words lower
                        ∙ rw h (or_true (contains_any aggregator_words lower))),
                  ))
                  (λ no_amount_out.
                    if-Classified lower (contains_any amount_in_words lower) _ _
                      (λ h. (slippage_amount_in, refl, inl h))
                      (λ no_amount_in.
                        if-Classified lower (contains_any price_impact_words lower) _ _
                          (λ h. (slippage_price_impact, refl, inl h))
                          (λ no_price_impact.
                            if-Classified lower (contains_any slippage_words lower) _ _
                              (λ h. (slippage_exceeded, refl, inl h))
                              (λ no_slippage.
                                if-Classified lower (contains_any deadline_words lower) _ _
                                  (λ h. (deadline_expired, refl, inl h))
                                  (λ no_deadline.
                                    if-Classified lower (contains_any unauthorized_words lower) _ _
                                      (λ h. (unauthorized, refl, inl h))
                                      (λ no_unauthorized.
                                        if-Classified lower (contains_any transfer_words lower) _ _
                                          (λ h. (transfer_failed, refl, inl h))
                                          (λ no_transfer. (
                                            unknown,
                                            refl,
                                            inr (
                                              refl,
                                              λ k.
                                                  elim k
                                                    as (λ c.
                                                      contains_any (words_of c) lower ≡ false) [
                                                        | insufficient_balance ↦ no_balance
                                                        | insufficient_allowance ↦ no_allowance
                                                        | slippage_exceeded ↦ no_slippage
                                                        | slippage_amount_out ↦
                                                            contains_any-append aggregator_words
                                                            amount_out_words lower
                                                            ∙ rw (no_aggregator, no_amount_out) refl
                                                        | slippage_amount_in ↦ no_amount_in
                                                        | slippage_price_impact ↦ no_price_impact
                                                        | deadline_expired ↦ no_deadline
                                                        | unauthorized ↦ no_unauthorized
                                                        | transfer_failed ↦ no_transfer
                                                        | unknown ↦ (unfold contains_any in refl)
                                                      ],
                                            ),
                                          )))))))))))

-- The four categories that are stored as `Unknown`.
pub IsDropped : ErrorCategory → Type 0
IsDropped insufficient_allowance = Unit
IsDropped slippage_amount_out = Unit
IsDropped slippage_amount_in = Unit
IsDropped slippage_price_impact = Unit
IsDropped _ = ⊥

-- What is stored for a category.
abbrev pub IsStored : ErrorCategory → ErrorCategory → Type 0
IsStored c k = (IsDropped c → k ≡ unknown) × ((¬ IsDropped c) → k ≡ c)

stored_category-IsStored : (c : ErrorCategory) → IsStored c (stored_category (as_wire c))
unfolding stored_category as_wire match_str IsDropped text_eq
stored_category-IsStored insufficient_balance = (λ h. absurd h, λ h. refl)
stored_category-IsStored insufficient_allowance = (λ h. refl, λ h. absurd (h tt))
stored_category-IsStored slippage_exceeded = (λ h. absurd h, λ h. refl)
stored_category-IsStored slippage_amount_out = (λ h. refl, λ h. absurd (h tt))
stored_category-IsStored slippage_amount_in = (λ h. refl, λ h. absurd (h tt))
stored_category-IsStored slippage_price_impact = (λ h. refl, λ h. absurd (h tt))
stored_category-IsStored deadline_expired = (λ h. absurd h, λ h. refl)
stored_category-IsStored unauthorized = (λ h. absurd h, λ h. refl)
stored_category-IsStored transfer_failed = (λ h. absurd h, λ h. refl)
stored_category-IsStored unknown = (λ h. absurd h, λ h. refl)

-- `classify_error` returns the wire text of a category for every reason. A word for the category
-- stands in the reason in lower case, or it is `Unknown` and no word for any category does. The
-- allowance category and the three detailed slippage categories are stored as `Unknown`, and every
-- other category as itself.
pub classify_error_stored :
    (lower_other : ℕ → Text) (revert_reason : Text)
    → (c : ErrorCategory) × (classify_error lower_other revert_reason ≡ as_wire c)
      × IsGiven (to_lowercase lower_other revert_reason) c
      × (IsDropped c → stored_category (classify_error lower_other revert_reason) ≡ unknown)
      × ((¬ IsDropped c) → stored_category (classify_error lower_other revert_reason) ≡ c)
unfolding classify_error
classify_error_stored lower_other revert_reason =
    let lower = to_lowercase lower_other revert_reason in
    let (c, wire, given) = classify_lower-Classified lower in
    let stored : IsStored c (stored_category (classify_lower lower)) =
      subst (λ t. IsStored c (stored_category t)) (sym wire) (stored_category-IsStored c) in
    (c, wire, given, stored.0, stored.1)
