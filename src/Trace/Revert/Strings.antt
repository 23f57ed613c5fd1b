-- ===== src/Trace/Revert/Strings.antt =====
-- What `decode_revert_reason` makes of an `Error(string)`.
use defi_tx_indexer.Prelude.{
  ℕ, zero, suc, ◌+◌, ◌-◌, ◌%◌, ◌<◌, ◌≤◌, ◌≡◌, refl, ap, ◌∙◌, true, false, List, [], ◌∷◌, ◌++◌, Text,
  text_eq, ltb, if◌then◌else◌, take, drop, length, length-append, arith,
}
use defi_tx_indexer.Trace.Revert.{
  Decoded, decoded, refused, panicked, from_be_bytes, slice_string, decode_abi_string,
  decode_revert_reason,
}

drop-append :
    {A : Type 0} (n k : ℕ) (xs ys : List A) → n ≡ length xs + k → drop n (xs ++ ys) ≡ drop k ys
drop-append n k [] ys e = let same : n ≡ k = omega arith in ap (λ m. drop m ys) same
drop-append zero k (x ∷ xs) ys e = absurd (omega arith)
drop-append (suc n) k (x ∷ xs) ys e = drop-append n k xs ys (omega arith)

-- What the length `n` comes to, for a body of `len` bytes.
length-cases :
    (n len : ℕ) (text : ℕ → Decoded)
    → n < 18446744073709551616
    → len + 64 < 18446744073709551616
    → let str_end = (64 + n) % 18446744073709551616 in
      let result =
        (if ltb (64 + len) str_end
          then refused
          else if ltb str_end 64
          then panicked
          else text (str_end - 64)) in
      (n ≤ len → result ≡ text n)
      × (len < n → n < 18446744073709551552 → result ≡ refused)
      × (18446744073709551552 ≤ n → result ≡ panicked)
length-cases n len text bound small = (fitting, exceeding, wrapping)
  where
    result : ℕ → Decoded
    result e = if ltb (64 + len) e then refused else if ltb e 64 then panicked else text (e - 64)

    fitting : n ≤ len → result ((64 + n) % 18446744073709551616) ≡ text n
    fitting fits =
        let e : (64 + n) % 18446744073709551616 ≡ 64 + n = omega arith in
        let a : ltb (64 + len) (64 + n) ≡ false = ground arith in
        let b : ltb (64 + n) 64 ≡ false = ground arith in
        let c : 64 + n - 64 ≡ n = omega arith in ap result e ∙ rw (a, b, c) refl

    exceeding :
        len < n → n < 18446744073709551552 → result ((64 + n) % 18446744073709551616) ≡ refused
    exceeding long under =
        let e : (64 + n) % 18446744073709551616 ≡ 64 + n = omega arith in
        let a : ltb (64 + len) (64 + n) ≡ true = ground arith in ap result e ∙ rw a refl

    wrapping : 18446744073709551552 ≤ n → result ((64 + n) % 18446744073709551616) ≡ panicked
    wrapping over =
        let a : ltb (64 + len) ((64 + n) % 18446744073709551616) ≡ false = ground arith in
        let b : ltb ((64 + n) % 18446744073709551616) 64 ≡ true = ground arith in rw (a, b) refl

module _ (from_utf8_lossy : List ℕ → Text) (head body : List ℕ) (b0 b1 b2 b3 b4 b5 b6 b7 : ℕ)
    (words : length head ≡ 56) where
  abbrev size : List ℕ
  size = b0 ∷ b1 ∷ b2 ∷ b3 ∷ b4 ∷ b5 ∷ b6 ∷ b7 ∷ []

  abbrev data_ : List ℕ
  data_ = head ++ (size ++ body)

  at_size : drop 56 data_ ≡ size ++ body
  at_size = drop-append 56 0 head (size ++ body) (omega arith)

  at_body : drop 64 data_ ≡ body
  at_body = drop-append 64 8 head (size ++ body) (omega arith)

  length-data : length data_ ≡ 64 + length body
  length-data = omega (arith, length-append head (size ++ body))

  decode_abi_string_lem :
      decode_abi_string from_utf8_lossy data_
      ≡ slice_string from_utf8_lossy data_ ((64 + from_be_bytes size) % 18446744073709551616)
  unfolding decode_abi_string from_be_bytes
  decode_abi_string_lem =
      let long : ltb (length data_) 64 ≡ false = ground (arith, length-data) in
      rw (long, at_size) refl

  slice_lem :
      (str_end : ℕ)
      → slice_string from_utf8_lossy data_ str_end ≡ (
          if ltb (64 + length body) str_end
          then refused
          else if ltb str_end 64
          then panicked
          else decoded (from_utf8_lossy (take (str_end - 64) body)))
  unfolding slice_string
  slice_lem str_end = rw (length-data, at_body) refl

  -- The eight bytes are bytes.
  abbrev AreBytes : Type 0
  AreBytes =
      (b0 < 256)
      × (b1 < 256)
      × (b2 < 256)
      × (b3 < 256)
      × (b4 < 256)
      × (b5 < 256)
      × (b6 < 256)
      × (b7 < 256)

  abbrev output : List ℕ
  output = 8 ∷ 195 ∷ 121 ∷ 160 ∷ data_

  output-data :
      decode_revert_reason from_utf8_lossy output ≡ decode_abi_string from_utf8_lossy data_
  unfolding decode_revert_reason text_eq
  output-data = let long : ltb (length output) 4 ≡ false = ground arith in rw long refl

  -- The output of a failed call that has the selector of `Error(string)`, 56 bytes that are not
  -- read, eight bytes for the length and a body: a length that fits the body gives the text of so
  -- many bytes of the body; a longer one is refused, up to 2^64 - 65; from there on the end of the
  -- text wraps around, and the slice panics. The output is shorter than 2^64 bytes.
  pub decode_revert_reason_lem :
      AreBytes
      → length body + 64 < 18446744073709551616
      → let n = from_be_bytes (b0 ∷ b1 ∷ b2 ∷ b3 ∷ b4 ∷ b5 ∷ b6 ∷ b7 ∷ []) in
        let result =
          decode_revert_reason from_utf8_lossy
            (8 ∷ 195 ∷ 121 ∷ 160 ∷ (head ++ (b0 ∷ b1 ∷ b2 ∷ b3 ∷ b4 ∷ b5 ∷ b6 ∷ b7 ∷ body))) in
        (n ≤ length body → result ≡ decoded (from_utf8_lossy (take n body)))
        × (length body < n → n < 18446744073709551552 → result ≡ refused)
        × (18446744073709551552 ≤ n → result ≡ panicked)
  decode_revert_reason_lem bytes small =
      let n : ℕ = from_be_bytes size in
      let whole =
        output-data ∙ decode_abi_string_lem ∙ slice_lem ((64 + n) % 18446744073709551616) in
      let bound : n < 18446744073709551616 = unfold from_be_bytes in omega arith in
      let (fitting, exceeding, wrapping) =
        length-cases n (length body) (λ k. decoded (from_utf8_lossy (take k body))) bound small in
      (
        λ fits. whole ∙ fitting fits,
        λ long under. whole ∙ exceeding long under,
        λ over. whole ∙ wrapping over,
      )
