-- ===== src/Alerts/Redact.antt =====
-- crates/indexer/src/alerts.rs: `redact_urls`. The positions are those of characters.
use defi_tx_indexer.Prelude.{
  ℕ, zero, suc, ◌+◌, Option, none, some, [], ◌∷◌, ◌++◌, Text, codes, if◌then◌else◌, take, drop,
  length, starts_with, is_ascii_whitespace, min,
}

-- A position in a text, one character further on.
abbrev pub next_position : Option ℕ → Option ℕ
next_position none = none
next_position (some i) = some (suc i)

-- `str::find` of a text
unfoldable pub find_text : Text → Text → Option ℕ
unfolding starts_with
find_text p [] = if starts_with p [] then some 0 else none
find_text p (c ∷ s) = if starts_with p (c ∷ s) then some 0 else next_position (find_text p s)

-- `str::find(|c| c.is_ascii_whitespace())`, the length if there is none
unfoldable pub until_whitespace : Text → ℕ
until_whitespace [] = 0
until_whitespace (c ∷ s) =
    let rest = until_whitespace s in if is_ascii_whitespace c then 0 else rest + 1

-- The smaller of the positions found.
unfoldable pub earlier : Option ℕ → Option ℕ → Option ℕ
earlier none q = q
earlier (some p) none = some p
earlier (some p) (some q) = some (min p q)

abbrev pub https : Text
https = codes "https://"

abbrev pub http : Text
http = codes "http://"

abbrev pub redacted : Text
redacted = codes "<redacted-url>"

-- The start of the next URL.
unfoldable pub next_url : Text → Option ℕ
unfolding find_text earlier
next_url rest = earlier (find_text https rest) (find_text http rest)

-- The body of the loop; each turn takes at least the scheme from the rest.
unfoldable pub redact_from : ℕ → Text → Text
unfolding next_url until_whitespace
redact_from zero rest = rest
redact_from (suc fuel) rest = elim (next_url rest) [
  | none ↦ rest
  | some start ↦
      let after = drop start rest in
      take start rest ++ (redacted ++ redact_from fuel (drop (until_whitespace after) after))
]

unfoldable pub redact_urls : Text → Text
unfolding redact_from
redact_urls input = redact_from (length input) input
