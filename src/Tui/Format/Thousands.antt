-- ===== src/Tui/Format/Thousands.antt =====
-- The commas of `group_thousands`.
use defi_tx_indexer.Prelude.{
  ℕ, zero, suc, ◌+◌, ◌-◌, ◌/◌, ◌%◌, ◌≤◌, ◌≡◌, ◌⊎◌, inl, inr, refl, Bool, false, ◌&&◌, [], ◌∷◌, Text,
  ltb, ◌==◌, if◌then◌else◌, length, count_of, count_of-append, arith, Bool-cases, ℤ, pos, negsuc,
  ap,
}
use defi_tx_indexer.Trace.{decimal}
use defi_tx_indexer.Tui.Format.{group_from, group_thousands, digits_of}

abbrev pub is_comma : ℕ → Bool
is_comma c = c == b','

unfoldable pub without_commas : Text → Text
without_commas [] = []
without_commas (c ∷ s) = if is_comma c then without_commas s else c ∷ without_commas s

-- Behind each comma the number of the other characters is a multiple of three.
unfoldable pub IsGrouped : Text → Type 0
unfolding without_commas
IsGrouped [] = Unit
IsGrouped (c ∷ s) = ((is_comma c ≡ false) ⊎ (length (without_commas s) % 3 ≡ 0)) × IsGrouped s

decimal-no_comma : (fuel n : ℕ) → count_of is_comma (decimal fuel n) ≡ 0
unfolding decimal count_of
decimal-no_comma zero n = refl
decimal-no_comma (suc fuel) n = elim (Bool-cases (ltb n 10)) [
  | inl e ↦ let other : is_comma (48 + n) ≡ false = ground arith in rw (e, other) refl
  | inr e ↦
      let other : is_comma (48 + n % 10) ≡ false = ground arith in
      let last : count_of is_comma ((48 + n % 10) ∷ []) ≡ 0 = rw other refl in
      rw e (
        omega (
          arith,
          count_of-append is_comma (decimal fuel (n / 10)) ((48 + n % 10) ∷ []),
          decimal-no_comma fuel (n / 10),
          last,
        ))
]

no_comma-here :
    (b : ℕ) (bs : Text)
    → count_of is_comma (b ∷ bs) ≡ 0
    → (is_comma b ≡ false) × (count_of is_comma bs ≡ 0)
unfolding count_of
no_comma-here b bs h = ground arith

group_from-without :
    (len i : ℕ) (ds : Text) → count_of is_comma ds ≡ 0 → without_commas (group_from len i ds) ≡ ds
unfolding group_from without_commas
group_from-without len i [] h = refl
group_from-without len i (b ∷ bs) h =
    let (here, later) = no_comma-here b bs h in
    let rest = group_from-without len (suc i) bs later in
    elim (Bool-cases (ltb 0 i && (len - i) % 3 == 0)) [
      | inl e ↦ rw (e, here, rest) refl
      | inr e ↦ rw (e, here, rest) refl
    ]

group_from-IsGrouped :
    (len i : ℕ) (ds : Text)
    → count_of is_comma ds ≡ 0
    → i + length ds ≡ len
    → IsGrouped (group_from len i ds)
unfolding group_from IsGrouped
group_from-IsGrouped len i [] h k = tt
group_from-IsGrouped len i (b ∷ bs) h k =
    let (here, later) = no_comma-here b bs h in
    let rest = group_from-IsGrouped len (suc i) bs later (omega arith) in
    let behind : without_commas (group_from len (suc i) bs) ≡ bs =
      group_from-without len (suc i) bs later in
    elim (Bool-cases (ltb 0 i && (len - i) % 3 == 0)) [
      | inl e ↦ rw e (inr (rw (here, behind) (ground arith)), (inl here, rest))
      | inr e ↦ rw e (inl here, rest)
    ]

group_from-count :
    (len i : ℕ) (ds : Text)
    → count_of is_comma ds ≡ 0
    → i + length ds ≡ len
    → 1 ≤ i
    → count_of is_comma (group_from len i ds) ≡ length ds / 3
unfolding group_from count_of
group_from-count len i [] h k p = omega arith
group_from-count len i (b ∷ bs) h k p =
    let (here, later) = no_comma-here b bs h in
    let rest = group_from-count len (suc i) bs later (omega arith) (omega arith) in
    elim (Bool-cases (ltb 0 i && (len - i) % 3 == 0)) [
      | inl e ↦ rw (e, here) (ground arith)
      | inr e ↦ rw (e, here) (ground arith)
    ]

first-count :
    (ds : Text)
    → count_of is_comma ds ≡ 0
    → count_of is_comma (group_from (length ds) 0 ds) ≡ (length ds - 1) / 3
unfolding group_from count_of
first-count [] h = refl
first-count (b ∷ bs) h =
    let (here, later) = no_comma-here b bs h in
    let rest = group_from-count (suc (length bs)) 1 bs later (omega arith) (omega arith) in
    rw here (omega (arith, rest))

-- The digits of a number, behind the sign of a negative one.
abbrev pub signed : ℤ → Text
signed (pos n) = digits_of (pos n)
signed (negsuc n) = b'-' ∷ digits_of (negsuc n)

-- The grouped text is the sign and the decimal digits but for its commas; behind each comma stands
-- a multiple of three digits; and for `d` digits there are `(d - 1) / 3` commas, so that none is
-- left out.
pub group_thousands_lem :
    (n : ℤ)
    → (without_commas (group_thousands n) ≡ signed n)
      × IsGrouped (group_thousands n)
      × (count_of is_comma (group_thousands n) ≡ (length (digits_of n) - 1) / 3)
unfolding group_thousands without_commas IsGrouped count_of
group_thousands_lem (pos n) =
    let none_in = decimal-no_comma 20 n in
    (
      group_from-without (length (digits_of (pos n))) 0 (digits_of (pos n)) none_in,
      group_from-IsGrouped (length (digits_of (pos n))) 0 (digits_of (pos n)) none_in (omega arith),
      first-count (digits_of (pos n)) none_in,
    )
group_thousands_lem (negsuc n) =
    let none_in = decimal-no_comma 20 (suc n) in
    (
      ap (λ s. b'-' ∷ s)
          (group_from-without (length (digits_of (negsuc n))) 0 (digits_of (negsuc n)) none_in),
      (
        inl refl,
        group_from-IsGrouped (length (digits_of (negsuc n))) 0 (digits_of (negsuc n)) none_in
            (omega arith),
      ),
      omega (arith, first-count (digits_of (negsuc n)) none_in),
    )
