-- ===== src/Alerts/NoUrl.antt =====
-- The text that `redact_urls` returns has no `http://` and no `https://` in it.
use defi_tx_indexer.Prelude.{
  ℕ, zero, suc, ◌≤◌, ◌<◌, ◌≡◌, refl, subst, ap, ◌∙◌, ◌⊎◌, inl, inr, Bool, true, false, ◌||◌, Option,
  none, some, [], ◌∷◌, ◌++◌, Text, ltb, leb, ◌==◌, min, take, drop, length, length-drop,
  starts_with, contains, arith, Bool-cases, Option-cases, all,
}
use defi_tx_indexer.Alerts.Redact.{
  find_text, next_position, until_whitespace, earlier, https, http, redacted, next_url, redact_from,
  redact_urls,
}

-- A text that starts with `<` stops every pattern without `<`.
starts_with-take :
    (p : Text) (k : ℕ) (s y : Text)
    → all (λ c. ltb c 60 || ltb 60 c) p ≡ true
    → starts_with p (take k s ++ (60 ∷ y)) ≡ true
    → starts_with p s ≡ true
unfolding starts_with
starts_with-take [] k s y h e = refl
starts_with-take (c ∷ p) zero s y h e = absurd (ground arith)
starts_with-take (c ∷ p) (suc k) [] y h e = absurd (ground arith)
starts_with-take (c ∷ p) (suc k) (d ∷ s) y h e = ground (arith, starts_with-take p k s y)

-- The position found is not before `start`.
not_before : ℕ → Option ℕ → Bool
not_before start none = true
not_before start (some q) = leb start q

not_before-next :
    (start : ℕ) (o : Option ℕ)
    → not_before (suc start) (next_position o) ≡ true
    → not_before start o ≡ true
unfolding not_before
not_before-next start none h = refl
not_before-next start (some q) h = ground arith

contains-take :
    (p : Text) (start : ℕ) (s y : Text)
    → all (λ c. ltb c 60 || ltb 60 c) p ≡ true
    → not_before start (find_text p s) ≡ true
    → contains p (60 ∷ y) ≡ false
    → contains p (take start s ++ (60 ∷ y)) ≡ false
unfolding contains find_text
contains-take p zero s y h early rest = rest
contains-take p (suc start) [] y h early rest = rest
contains-take p (suc start) (c ∷ s) y h early rest = elim (Bool-cases (starts_with p (c ∷ s))) [
  | inl here ↦
      let bad : leb (suc start) 0 ≡ true = unfold not_before in rw here at early in
      absurd (ground arith)
  | inr not_here ↦
      let later =
        contains-take p start s y h (not_before-next start (find_text p s) (rw not_here at early))
          rest in
      elim (Bool-cases (starts_with p (c ∷ (take start s ++ (60 ∷ y))))) [
        | inl across ↦ absurd (cc (starts_with-take p (suc start) (c ∷ s) y h across))
        | inr clear ↦ rw clear later
      ]
]

-- Characters other than the first of the pattern are passed over.
contains-skip :
    (c : ℕ) (p xs y : Text)
    → all (λ d. ltb d c || ltb c d) xs ≡ true
    → contains (c ∷ p) (xs ++ y) ≡ contains (c ∷ p) y
unfolding contains starts_with
contains-skip c p [] y h = refl
contains-skip c p (d ∷ xs) y h =
    let other : (c == d) ≡ false = ground arith in rw other (contains-skip c p xs y (ground arith))

find_text-none : (p s : Text) → find_text p s ≡ none → contains p s ≡ false
unfolding find_text contains
find_text-none p [] h = ground arith
find_text-none p (c ∷ s) h = elim (Bool-cases (starts_with p (c ∷ s))) [
  | inl here ↦ let bad : some 0 ≡ none = rw here at h in absurd (cc bad)
  | inr not_here ↦
      let h' : next_position (find_text p s) ≡ none = rw not_here at h in
      rw not_here (find_text-none p s (next-none (find_text p s) h'))
]
  where
    next-none : (o : Option ℕ) → next_position o ≡ none → o ≡ none
    next-none none e = refl
    next-none (some i) e = absurd cc

find_text-some : (p s : Text) (q : ℕ) → find_text p s ≡ some q → starts_with p (drop q s) ≡ true
unfolding find_text
find_text-some p [] q h = elim (Bool-cases (starts_with p [])) [
  | inl here ↦ let h' : some 0 ≡ some q = rw here at h in let q_is : 0 ≡ q = cc in rw (← q_is) here
  | inr not_here ↦ let bad : none ≡ some q = rw not_here at h in absurd cc
]
find_text-some p (c ∷ s) q h = elim (Bool-cases (starts_with p (c ∷ s))) [
  | inl here ↦ let h' : some 0 ≡ some q = rw here at h in let q_is : 0 ≡ q = cc in rw (← q_is) here
  | inr not_here ↦
      let h' : next_position (find_text p s) ≡ some q = rw not_here at h in
      go (find_text p s) h' (λ i e. find_text-some p s i e)
]
  where
    go :
        (o : Option ℕ)
        → next_position o ≡ some q
        → ((i : ℕ) → o ≡ some i → starts_with p (drop i s) ≡ true)
        → starts_with p (drop q (c ∷ s)) ≡ true
    go none e rec = absurd cc
    go (some i) e rec =
        let q_is : suc i ≡ q = cc in
        subst (λ n. starts_with p (drop n (c ∷ s)) ≡ true) q_is (rec i refl)

-- What the next URL of a text is: a place of one of the schemes, with none before it.
next_url-some :
    (rest : Text) (start : ℕ)
    → next_url rest ≡ some start
    → (not_before start (find_text https rest) ≡ true)
      × (not_before start (find_text http rest) ≡ true)
      × ((find_text https rest ≡ some start) ⊎ (find_text http rest ≡ some start))
unfolding next_url not_before earlier
next_url-some rest start h = go (find_text https rest) (find_text http rest) h
  where
    go :
        (a b : Option ℕ)
        → earlier a b ≡ some start
        → (not_before start a ≡ true)
          × (not_before start b ≡ true)
          × ((a ≡ some start) ⊎ (b ≡ some start))
    go none b h = rw h (refl, ground arith, inr refl)
    go (some p) none h = rw h (ground arith, refl, inl refl)
    go (some p) (some q) h =
        let least : min p q ≡ start = cc in
        elim (Bool-cases (leb p q)) [
          | inl first ↦ (ground arith, ground arith, inl (ap some (ground arith)))
          | inr second ↦ (ground arith, ground arith, inr (ap some (ground arith)))
        ]

next_url-none :
    (rest : Text)
    → next_url rest ≡ none
    → (find_text https rest ≡ none) × (find_text http rest ≡ none)
unfolding next_url earlier
next_url-none rest h = go (find_text https rest) (find_text http rest) h
  where
    go : (a b : Option ℕ) → earlier a b ≡ none → (a ≡ none) × (b ≡ none)
    go none b h = (refl, h)
    go (some p) none h = absurd cc
    go (some p) (some q) h = absurd cc

-- A URL has at least one character.
until_whitespace-pos :
    (p after : Text)
    → starts_with (104 ∷ p) after ≡ true
    → (1 ≤ until_whitespace after) × (1 ≤ length after)
unfolding until_whitespace starts_with
until_whitespace-pos p [] h = absurd cc
until_whitespace-pos p (c ∷ s) h = ground arith

-- What is left behind a URL is shorter.
left-shorter :
    (rest : Text) (start : ℕ)
    → next_url rest ≡ some start
    → length (drop (until_whitespace (drop start rest)) (drop start rest)) < length rest
left-shorter rest start h =
    let (_, _, where_) = next_url-some rest start h in
    let after : Text = drop start rest in
    let (taken, more) : (1 ≤ until_whitespace after) × (1 ≤ length after) = elim where_ [
      | inl a ↦ until_whitespace-pos _ after (find_text-some https rest start a)
      | inr b ↦ until_whitespace-pos _ after (find_text-some http rest start b)
    ] in
    omega (arith, length-drop (until_whitespace after) after, length-drop start rest)

redact_from-clear :
    (fuel : ℕ) (rest : Text)
    → length rest ≤ fuel
    → (contains https (redact_from fuel rest) ≡ false)
      × (contains http (redact_from fuel rest) ≡ false)
unfolding redact_from
redact_from-clear zero [] h = unfold contains starts_with in (refl, refl)
redact_from-clear zero (c ∷ s) h = absurd (omega arith)
redact_from-clear (suc fuel) rest h = elim (Option-cases (next_url rest)) [
  | inl nothing ↦
      let (no_https, no_http) = next_url-none rest nothing in
      rw (nothing, redact_from)
        (find_text-none https rest no_https, find_text-none http rest no_http)
  | inr (start, found) ↦
      let after : Text = drop start rest in
      let left : Text = drop (until_whitespace after) after in
      let (before_https, before_http, _) = next_url-some rest start found in
      let (clear_https, clear_http) =
        redact_from-clear fuel left (omega (arith, left-shorter rest start found)) in
      rw (found, redact_from)
        (
          contains-take https start rest _ refl before_https
              (contains-skip _ _ redacted (redact_from fuel left) refl ∙ clear_https),
          contains-take http start rest _ refl before_http
              (contains-skip _ _ redacted (redact_from fuel left) refl ∙ clear_http),
        )
]

-- A redacted text contains neither `https://` nor `http://`, whatever the text was.
pub redact_urls-clear :
    (input : Text)
    → (contains https (redact_urls input) ≡ false) × (contains http (redact_urls input) ≡ false)
unfolding redact_urls
redact_urls-clear input = redact_from-clear (length input) input (omega arith)
