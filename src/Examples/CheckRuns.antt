-- ===== src/Examples/CheckRuns.antt =====
-- crates/db/src/validators.rs and crates/decoder/src/classifier.rs on single inputs.
use defi_tx_indexer.Prelude.{
  ℕ, ◌+◌, ◌≡◌, ◌≢◌, ◌<◌, refl, Option, none, some, [], ◌∷◌, codes, arith, Text, text_eq,
  to_ascii_lowercase,
}
use defi_tx_indexer.Db.Category.{ErrorCategory, unknown, as_wire}
use defi_tx_indexer.Validators.{
  Url, IpAddr, v4, v6, ip_is_safe, ipv4_is_safe, bare_host, check_host, check_host_str, check_url,
  webhook_url_is_safe,
}
use defi_tx_indexer.Validators.Ranges.{reason_of, blocks4, ip_is_safe-reason_for}
use defi_tx_indexer.Validators.Hosts.{webhook_url_accepted}
use defi_tx_indexer.Classifier.{to_lowercase, classify_error, stored_category}
use defi_tx_indexer.Classifier.Stored.{IsGiven, IsDropped, classify_error_stored}
use defi_tx_indexer.Classifier.Cases.{classify_error_case}

-- 10.0.0.1 in its IPv6 form
ip_is_safe-reason_for_example :
    ip_is_safe (v6 (281470681743360 + 167772161)) ≡ reason_of blocks4 167772161
ip_is_safe-reason_for_example =
    ip_is_safe-reason_for (v6 (281470681743360 + 167772161)) (omega arith)

abbrev parse_url : Text → Option Url
parse_url s = some (record { scheme = codes "https"; host_str = some (codes "8.8.8.8") })

abbrev parse_ip : Text → Option IpAddr
parse_ip s = some (v4 134744072)

webhook_url_accepted_example :
    (parsed : Url) × (host_raw : Text) × (parse_url (codes "https://8.8.8.8") ≡ some parsed)
    × (parsed.scheme ≡ codes "https")
    × (parsed.host_str ≡ some host_raw)
    × (host_raw ≢ [])
    × ((n : ℕ)
        → n < 4294967296
        → parse_ip (bare_host host_raw) ≡ some (v4 n)
        → reason_of blocks4 n ≡ none)
webhook_url_accepted_example = webhook_url_accepted parse_url parse_ip (codes "https://8.8.8.8") (
    unfold webhook_url_is_safe check_url check_host_str check_host ip_is_safe ipv4_is_safe
      text_eq in
    refl)

abbrev spoken : Text
spoken = codes "Too much requested"

classify_error_stored_example :
    (c : ErrorCategory) × (classify_error (λ c. c ∷ []) spoken ≡ as_wire c)
    × IsGiven (to_lowercase (λ c. c ∷ []) spoken) c
    × (IsDropped c → stored_category (classify_error (λ c. c ∷ []) spoken) ≡ unknown)
    × ((¬ IsDropped c) → stored_category (classify_error (λ c. c ∷ []) spoken) ≡ c)
classify_error_stored_example = classify_error_stored (λ c. c ∷ []) spoken

classify_error_case_example :
    classify_error (λ c. c ∷ []) (codes "STF") ≡ classify_error (λ c. c ∷ []) (codes "stf")
classify_error_case_example =
    classify_error_case (λ c. c ∷ []) (codes "STF") (codes "stf")
      (unfold to_ascii_lowercase in refl)
