-- ===== src/Validators/Hosts.antt =====
-- What an accepted webhook URL is known to be.
use defi_tx_indexer.Prelude.{
  ℕ, ◌<◌, ◌≡◌, ◌≢◌, refl, sym, ap, ◌∙◌, inl, inr, Option, none, some, [], ◌∷◌, Text, codes, text_eq,
  text_eq→eq, Bool-cases, Option-cases,
}
use defi_tx_indexer.Validators.{
  invalid_url, non_https, IpAddr, v4, Url, bare_host, check_host, check_host_str, check_url,
  webhook_url_is_safe,
}
use defi_tx_indexer.Validators.Ranges.{reason_of, blocks4, ipv4_is_safe-reason_of}

module _ (parse_url : Text → Option Url) (parse_ip : Text → Option IpAddr) where
  -- What `check_host_str` accepts.
  host_str-accepted :
      (o : Option Text)
      → check_host_str parse_url parse_ip o ≡ none
      → (host_raw : Text) × (o ≡ some host_raw)
        × (host_raw ≢ [])
        × ((n : ℕ)
            → n < 4294967296
            → parse_ip (bare_host host_raw) ≡ some (v4 n)
            → reason_of blocks4 n ≡ none)
  unfolding check_host_str check_host
  host_str-accepted none safe = absurd cc
  host_str-accepted (some []) safe = absurd cc
  host_str-accepted (some (c ∷ s)) safe = (
    c ∷ s,
    refl,
    λ e. cc,
    λ n small is_ip.
        sym (ipv4_is_safe-reason_of n small)
        ∙ sym (ap (check_host (bare_host (c ∷ s))) is_ip)
        ∙ safe,
  )

  -- An accepted URL parses, its scheme is https, and it has a host; a host that is an IPv4 address
  -- lies in none of the refused blocks.
  pub webhook_url_accepted :
      (input : Text)
      → webhook_url_is_safe parse_url parse_ip input ≡ none
      → (parsed : Url) × (host_raw : Text) × (parse_url input ≡ some parsed)
        × (parsed.scheme ≡ codes "https")
        × (parsed.host_str ≡ some host_raw)
        × (host_raw ≢ [])
        × ((n : ℕ)
            → n < 4294967296
            → parse_ip (bare_host host_raw) ≡ some (v4 n)
            → reason_of blocks4 n ≡ none)
  unfolding webhook_url_is_safe check_url
  webhook_url_accepted input safe = elim (Option-cases (parse_url input)) [
    | inl unparsed ↦
        let bad : some invalid_url ≡ none =
          sym (ap (check_url parse_url parse_ip) unparsed) ∙ safe in
        absurd cc
    | inr (parsed, is_parsed) ↦
        let safe' = sym (ap (check_url parse_url parse_ip) is_parsed) ∙ safe in
        elim (Bool-cases (text_eq parsed.scheme (codes "https"))) [
          | inr other ↦ let bad : some non_https ≡ none = rw other at safe' in absurd cc
          | inl https ↦
              let (host_raw, is_host, has_host, outside) =
                host_str-accepted parsed.host_str (rw https at safe') in
              (
                parsed,
                host_raw,
                is_parsed,
                text_eq→eq parsed.scheme (codes "https") https,
                is_host,
                has_host,
                outside,
              )
        ]
  ]
