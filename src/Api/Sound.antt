-- ===== src/Api/Sound.antt =====
-- What holds of the table of the subscriptions, and that its statements keep it.
use defi_tx_indexer.Prelude.{
  ℕ, suc, ◌≤◌, ◌<◌, ◌≡◌, inl, inr, true, Option, none, some, List, [], ◌∷◌, Text, length, All,
  str_len, to_ascii_lowercase, arith, Bool-cases,
}
use defi_tx_indexer.Validators.{webhook_url_is_safe}
use defi_tx_indexer.Alerts.Subscriptions.{
  AlertSubscription, Subscriptions, rate_fields_chk, insert_row, update_active, is_active_row,
  deactivated, with_secret,
}
use defi_tx_indexer.Api.Bodies.{is_evm_address}
use defi_tx_indexer.Api.Subscriptions.{Externals}

-- An address of a row is lower-case, with 40 hex digits behind `0x`.
abbrev pub IsAddress : Option Text → Type 0
IsAddress none = Unit
IsAddress (some a) = (is_evm_address a ≡ true) × (to_ascii_lowercase a ≡ a)

-- The ids of the rows fall from below a number.
abbrev Falls : ℕ → List AlertSubscription → Type 0
Falls n [] = Unit
Falls n (s ∷ ss) = (s.subscription_id < n) × Falls s.subscription_id ss

abbrev pub IsBytes : List ℕ → Type 0
IsBytes bytes = (length bytes ≡ 32) × All (λ b. b < 256) bytes

module _ (ext : Externals) where
  open ext use {encode_hex, parse_url, parse_ip}

  -- A secret is the hex of 32 bytes.
  abbrev pub IsSecret : Text → Type 0
  IsSecret secret = (bytes : List ℕ) × IsBytes bytes × (secret ≡ encode_hex bytes)

  pub record IsRow (s : AlertSubscription) : Type 0 where
    pub safe : webhook_url_is_safe parse_url parse_ip s.webhook_url ≡ none
    pub short : str_len s.webhook_url ≤ 2048
    pub address : IsAddress s.to_addr
    pub rate : rate_fields_chk s ≡ true
    pub secret : IsSecret s.signing_secret

  abbrev pub IsTable : Subscriptions → Type 0
  IsTable t = Falls t.next_id t.rows × All IsRow t.rows

Falls-weaken : (m n : ℕ) (ss : List AlertSubscription) → m ≤ n → Falls m ss → Falls n ss
Falls-weaken m n [] h f = tt
Falls-weaken m n (s ∷ ss) h f = (omega (arith, f.0), f.1)

module _ (ext : Externals) where
  open ext use {encode_hex, parse_url, parse_ip}

  -- An insert of what the checks have accepted.
  pub insert_row-IsTable :
      (s : AlertSubscription) (t : Subscriptions)
      → webhook_url_is_safe parse_url parse_ip s.webhook_url ≡ none
      → str_len s.webhook_url ≤ 2048
      → IsAddress s.to_addr
      → IsSecret ext s.signing_secret
      → IsTable ext t
      → IsTable ext (insert_row s t).0
  unfolding insert_row
  insert_row-IsTable s t safe short address secret h =
      elim (Bool-cases (rate_fields_chk (record s { subscription_id = t.next_id }))) [
        | inl good ↦ rw good (
          (omega arith, h.0),
          (
            record { safe = safe; short = short; address = address; rate = good; secret = secret },
            h.1,
          ),
        )
        | inr bad ↦ rw bad (Falls-weaken t.next_id (suc t.next_id) t.rows (omega arith) h.0, h.1)
      ]

  -- An update that leaves the id and keeps a row sound.
  module _ (f : AlertSubscription → AlertSubscription)
      (same_id : (s : AlertSubscription) → (f s).subscription_id ≡ s.subscription_id)
      (keeps : (s : AlertSubscription) → IsRow ext s → IsRow ext (f s)) where
    pub update_active-Falls :
        (id n : ℕ) (ss : List AlertSubscription) → Falls n ss → Falls n (update_active id f ss).0
    unfolding update_active
    update_active-Falls id n [] h = tt
    update_active-Falls id n (s ∷ ss) h = elim (Bool-cases (is_active_row id s)) [
      | inl here ↦ rw (here, same_id s) h
      | inr there ↦ rw there (h.0, update_active-Falls id s.subscription_id ss h.1)
    ]

    pub update_active-All :
        (id : ℕ) (ss : List AlertSubscription)
        → All (IsRow ext) ss
        → All (IsRow ext) (update_active id f ss).0
    unfolding update_active
    update_active-All id [] h = tt
    update_active-All id (s ∷ ss) h = elim (Bool-cases (is_active_row id s)) [
      | inl here ↦ rw here (keeps s h.0, h.1)
      | inr there ↦ rw there (h.0, update_active-All id ss h.1)
    ]

  pub deactivated-IsRow : (s : AlertSubscription) → IsRow ext s → IsRow ext (deactivated s)
  unfolding rate_fields_chk
  deactivated-IsRow s h = record {
    safe = h.safe;
    short = h.short;
    address = h.address;
    rate = h.rate;
    secret = h.secret;
  }

  pub with_secret-IsRow :
      (new_secret : Text)
      → IsSecret ext new_secret
      → (s : AlertSubscription) → IsRow ext s
      → IsRow ext (with_secret new_secret s)
  unfolding rate_fields_chk
  with_secret-IsRow new_secret secret s h = record {
    safe = h.safe;
    short = h.short;
    address = h.address;
    rate = h.rate;
    secret = secret;
  }
