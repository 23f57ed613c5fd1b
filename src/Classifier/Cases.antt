-- ===== src/Classifier/Cases.antt =====
-- The classification does not depend on the case of ASCII letters.
use defi_tx_indexer.Prelude.{
  ℕ, ◌≡◌, refl, sym, ap, ◌∙◌, [], ◌∷◌, ◌++◌, Text, ltb, ascii_lower, to_ascii_lowercase,
  if◌then◌else◌, arith,
}
use defi_tx_indexer.Classifier.{to_lowercase, classify_lower, classify_error}

lower_char : (lower_other : ℕ → Text) → ℕ → Text
lower_char lower_other c = if ltb c 128 then ascii_lower c ∷ [] else lower_other c

lower_char_again :
    (lower_other : ℕ → Text) (c : ℕ)
    → lower_char lower_other (ascii_lower c) ≡ lower_char lower_other c
unfolding lower_char
lower_char_again lower_other c = ground arith

to_lowercase_again :
    (lower_other : ℕ → Text) (s : Text)
    → to_lowercase lower_other (to_ascii_lowercase s) ≡ to_lowercase lower_other s
unfolding to_lowercase to_ascii_lowercase lower_char
to_lowercase_again lower_other [] = refl
to_lowercase_again lower_other (c ∷ s) =
    rw (to_lowercase_again lower_other s)
      (ap (λ t. t ++ to_lowercase lower_other s) (lower_char_again lower_other c))

-- Two reasons that differ in nothing but the case of ASCII letters get the same category.
pub classify_error_case :
    (lower_other : ℕ → Text) (s t : Text)
    → to_ascii_lowercase s ≡ to_ascii_lowercase t
    → classify_error lower_other s ≡ classify_error lower_other t
unfolding classify_error
classify_error_case lower_other s t same = ap classify_lower (
    sym (to_lowercase_again lower_other s)
    ∙ ap (to_lowercase lower_other) same
    ∙ to_lowercase_again lower_other t)
