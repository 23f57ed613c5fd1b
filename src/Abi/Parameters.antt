-- ===== src/Abi/Parameters.antt =====
-- crates/decoder/src/abi.rs: the list of the parameters of a signature, read back from its text.
use defi_tx_indexer.Prelude.{
  ℕ, suc, ◌+◌, ◌-◌, ◌≡◌, ◌≢◌, refl, sym, ap, ◌∙◌, inl, inr, Bool, true, false, not, some, List, [],
  ◌∷◌, ◌++◌, Text, leb, ◌==◌, if◌then◌else◌, length, length-append, take, drop, All, all, arith,
  Bool-cases, append_assoc, append-nil, ℤ, pos, negsuc,
}
use defi_tx_indexer.Abi.{
  find_char, rfind_char, between, extract_param_list, trim, is_zero, depth_after, is_cut,
  split_from, split_top_level,
}

-- The texts with a comma between each two.
unfoldable pub join_types : List Text → Text
join_types [] = []
join_types (t ∷ []) = t
join_types (t ∷ u ∷ ts) = t ++ (b',' ∷ join_types (u ∷ ts))

-- From a depth on, no comma stands outside the parentheses, and they close.
unfoldable pub is_closed : ℤ → Text → Bool
is_closed depth [] = is_zero depth
is_closed depth (b ∷ bs) = if is_cut b depth then false else is_closed (depth_after b depth) bs

-- A type of a parameter list: not empty, without white space around it, with balanced parentheses and
-- commas only within them.
abbrev pub IsParameter : Text → Type 0
IsParameter t = (t ≢ []) × (trim t ≡ t) × (is_closed (pos 0) t ≡ true)

is_zero_inv : (z : ℤ) → is_zero z ≡ true → z ≡ pos 0
is_zero_inv (pos n) h = let e : n ≡ 0 = ground arith in ap pos e
is_zero_inv (negsuc n) h = cc

split_from-closed :
    (t current : Text) (depth : ℤ)
    → is_closed depth t ≡ true
    → split_from depth current t ≡ trim (current ++ t) ∷ []
unfolding split_from is_closed
split_from-closed [] current depth h = rw (append-nil current) refl
split_from-closed (b ∷ bs) current depth h = elim (Bool-cases (is_cut b depth)) [
  | inl cut ↦ let bad : false ≡ true = rw cut at h in absurd cc
  | inr kept ↦
      rw
        (
          kept,
          split_from-closed bs (current ++ (b ∷ [])) (depth_after b depth) (rw kept at h),
          append_assoc current (b ∷ []) bs,
        )
        refl
]

split_from-cut :
    (t current rest : Text) (depth : ℤ)
    → is_closed depth t ≡ true
    → split_from depth current (t ++ (b',' ∷ rest))
      ≡ trim (current ++ t) ∷ split_from (pos 0) [] rest
unfolding split_from is_closed
split_from-cut [] current rest depth h =
    let zero_depth : depth ≡ pos 0 = is_zero_inv depth h in rw (zero_depth, append-nil current) refl
split_from-cut (b ∷ bs) current rest depth h = elim (Bool-cases (is_cut b depth)) [
  | inl cut ↦ let bad : false ≡ true = rw cut at h in absurd cc
  | inr kept ↦
      rw
        (
          kept,
          split_from-cut bs (current ++ (b ∷ [])) rest (depth_after b depth) (rw kept at h),
          append_assoc current (b ∷ []) bs,
        )
        refl
]

split_from-join_types :
    (t : Text) (ts : List Text)
    → All IsParameter (t ∷ ts)
    → split_from (pos 0) [] (join_types (t ∷ ts)) ≡ t ∷ ts
unfolding join_types
split_from-join_types t [] h = split_from-closed t [] (pos 0) h.0.2 ∙ ap (λ x. x ∷ []) h.0.1
split_from-join_types t (u ∷ ts) h =
    split_from-cut t [] (join_types (u ∷ ts)) (pos 0) h.0.2
    ∙ rw (h.0.1, split_from-join_types u ts h.1) refl

split_top_level-from : (s : Text) → s ≢ [] → split_top_level s ≡ split_from (pos 0) [] s
unfolding split_top_level
split_top_level-from [] h = absurd (h refl)
split_top_level-from (b ∷ bs) h = refl

join_types_filled : (t : Text) (ts : List Text) → t ≢ [] → join_types (t ∷ ts) ≢ []
unfolding join_types
join_types_filled t [] h = h
join_types_filled [] (u ∷ ts) h = absurd (h refl)
join_types_filled (b ∷ bs) (u ∷ ts) h = λ e. absurd cc

pub split_top_level-join_types :
    (ts : List Text) → All IsParameter ts → split_top_level (join_types ts) ≡ ts
unfolding join_types split_top_level
split_top_level-join_types [] h = refl
split_top_level-join_types (t ∷ ts) h =
    split_top_level-from (join_types (t ∷ ts)) (join_types_filled t ts h.0.0)
    ∙ split_from-join_types t ts h

find_char-append :
    (c : ℕ) (name s : Text)
    → all (λ d. not (d == c)) name ≡ true
    → find_char c (name ++ (c ∷ s)) ≡ some (length name)
unfolding find_char
find_char-append c [] s h = ground arith
find_char-append c (d ∷ name) s h = elim (Bool-cases (d == c)) [
  | inl same ↦ let bad : false ≡ true = rw same at h in absurd cc
  | inr other ↦ rw (other, find_char-append c name s (rw other at h)) refl
]

rfind_char-append : (c : ℕ) (s : Text) → rfind_char c (s ++ (c ∷ [])) ≡ some (length s)
unfolding rfind_char
rfind_char-append c [] = ground arith
rfind_char-append c (d ∷ s) = rw (rfind_char-append c s) refl

drop-append {ℓ} : {A : Type ℓ} (xs ys : List A) (y : A) → drop (length xs + 1) (xs ++ (y ∷ ys)) ≡ ys
drop-append [] ys y = let e : 0 + 1 ≡ 1 = refl in refl
drop-append (x ∷ xs) ys y =
    let e : suc (length xs) + 1 ≡ suc (length xs + 1) = omega arith in rw e (drop-append xs ys y)

take-append {ℓ} : {A : Type ℓ} (xs ys : List A) → take (length xs) (xs ++ ys) ≡ xs
take-append [] ys = refl
take-append (x ∷ xs) ys = ap (λ t. x ∷ t) (take-append xs ys)

-- The signature of a function: its name, which has no parenthesis, and the parameters.
abbrev pub signature_of : Text → Text → Text
signature_of name params = name ++ (b'(' ∷ (params ++ (b')' ∷ [])))

pub extract_param_list-signature_of :
    (name params : Text)
    → all (λ d. not (d == b'(')) name ≡ true
    → extract_param_list (signature_of name params) ≡ some params
unfolding extract_param_list between
extract_param_list-signature_of name params h =
    let split : signature_of name params ≡ (name ++ (b'(' ∷ params)) ++ (b')' ∷ []) =
      sym (append_assoc name (b'(' ∷ params) (b')' ∷ [])) in
    let last : rfind_char b')' (signature_of name params)
        ≡ some (length (name ++ (b'(' ∷ params))) =
      ap (rfind_char b')') split ∙ rfind_char-append b')' (name ++ (b'(' ∷ params)) in
    let size : length (name ++ (b'(' ∷ params)) ≡ length name + suc (length params) =
      length-append name (b'(' ∷ params) in
    let behind : leb (length name + suc (length params)) (length name) ≡ false = ground arith in
    let width : length name + suc (length params) - (length name + 1) ≡ length params =
      omega arith in
    rw
      (
        find_char-append b'(' name (params ++ (b')' ∷ [])) h,
        last,
        size,
        behind,
        width,
        drop-append name (params ++ (b')' ∷ [])) b'(',
      )
      (ap some (take-append params (b')' ∷ [])))
