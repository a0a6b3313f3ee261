-- ===== src/Shortener/RoundTrip.antt =====
-- `encode_base62` and `decode_base62` of app/core/shortener.py, one after the other.
use native.Mathlib.Nat.{zero-add}
use observable_url_shortener.Prelude.{
  ℕ, zero, suc, ◌/◌, ◌%◌, ◌<◌, ◌≡◌, ◌≢◌, refl, sym, ap, ◌∙◌, [], ◌∷◌, arith, append-nil, Text, ok,
  All, pos, Bool-cases, ==_iff, inl, inr, ◌==◌, if◌then◌else◌,
}
use observable_url_shortener.Shortener.{
  base, symbol, char_to_value, encode_base62, decode_base62, decode_from,
}
use observable_url_shortener.Shortener.Decoding.{
  IsSymbol, digit, spelled, decode_from_ok, decode_base62_lem,
}
use observable_url_shortener.Shortener.Digits.{
  big_endian, reverse-divide_out, big_endian_zero, big_endian_step, symbol-digit,
  spelled-big_endian, big_endian-IsSymbol, big_endian-ne-nil, le-spelled, big_endian-spelled,
}

decode_ne_nil : (code : Text) → code ≢ [] → decode_base62 code ≡ decode_from 0 code
unfolding decode_base62
decode_ne_nil [] h = absurd (h refl)
decode_ne_nil (c ∷ code) h = refl

-- The text that `encode_base62` returns for a number.
encoded : ℕ → Text
encoded n = if n == 0 then symbol 0 ∷ [] else big_endian n n []

encode-encoded : (n : ℕ) → encode_base62 (pos n) ≡ ok (encoded n)
unfolding encode_base62 encoded
encode-encoded n = ground (arith, reverse-divide_out n n [])

encoded_pos : (n : ℕ) → 0 < n → encoded n ≡ big_endian n n []
unfolding encoded
encoded_pos n h = ground arith

decode-encoded_pos : (n : ℕ) → 0 < n → decode_base62 (big_endian n n []) ≡ ok n
decode-encoded_pos n h =
    let last = symbol (n % base) ∷ [] in
    let full : big_endian n n [] ≢ [] =
      rw (big_endian_step n [] h) (big_endian-ne-nil _ _ last (λ e. cc)) in
    let valid = big_endian-IsSymbol n n [] tt in
    let value = spelled-big_endian n n [] (omega arith) in
    decode_ne_nil _ full ∙ decode_from_ok _ 0 valid ∙ ap ok value

decode_zero : decode_base62 (symbol 0 ∷ []) ≡ ok 0
unfolding decode_base62 symbol char_to_value
decode_zero = refl

decode-encoded : (n : ℕ) → decode_base62 (encoded n) ≡ ok n
unfolding encoded
decode-encoded zero = decode_zero
decode-encoded (suc n) =
    rw (encoded_pos (suc n) (omega arith)) (decode-encoded_pos (suc n) (omega arith))

-- For every number from 0 up, `encode_base62` returns a text, and `decode_base62` reads that number
-- back from it.
pub decode-encode :
    (n : ℕ) → (code : Text) × (encode_base62 (pos n) ≡ ok code) × (decode_base62 code ≡ ok n)
decode-encode n = (encoded n, encode-encoded n, decode-encoded n)

-- The texts that `encode_base62` writes: one symbol, or several with no leading "0".
abbrev pub IsCanonical : Text → Type 0
IsCanonical [] = ⊥
IsCanonical (c ∷ []) = Unit
IsCanonical (c ∷ d ∷ code) = c ≢ b'0'

symbol_zero : symbol 0 ≡ b'0'
unfolding symbol
symbol_zero = refl

digit-pos : (c : ℕ) → IsSymbol c → c ≢ b'0' → 0 < digit c
digit-pos c hc h = elim (Bool-cases (digit c == 0)) [
  | inl is_zero ↦
      let e : digit c ≡ 0 = (==_iff (digit c) 0).0 is_zero in
      absurd (h (sym (symbol-digit c hc).0 ∙ ap symbol e ∙ symbol_zero))
  | inr positive ↦ let k = digit c in ground arith
]

encoded-one : (c : ℕ) → IsSymbol c → encoded (digit c) ≡ c ∷ []
unfolding encoded
encoded-one c hc =
    let (same, small) = symbol-digit c hc in
    elim (Bool-cases (digit c == 0)) [
      | inl is_zero ↦
          let e : digit c ≡ 0 = (==_iff (digit c) 0).0 is_zero in
          rw is_zero (ap (λ (k : ℕ). symbol k ∷ []) (sym e) ∙ ap (λ (k : ℕ). k ∷ []) same)
      | inr positive ↦
          let quotient : digit c / base ≡ 0 = omega arith in
          let remainder : digit c % base ≡ digit c = omega arith in
          let pos_digit : 0 < digit c = let k = digit c in ground arith in
          rw positive (
            big_endian_step (digit c) [] pos_digit
            ∙ rw (quotient, remainder, same) (big_endian_zero 0 (c ∷ [])))
    ]

encoded-spelled :
    (code : Text) → All IsSymbol code → IsCanonical code → encoded (spelled 0 code) ≡ code
encoded-spelled [] hs h = absurd h
encoded-spelled (c ∷ []) (hc, _) h = rw (zero-add (digit c)) (encoded-one c hc)
encoded-spelled (c ∷ d ∷ code) (hc, hs) h =
    let m = digit c in
    let (same, small) = symbol-digit c hc in
    let m_pos = digit-pos c hc h in
    let quotient : m / base ≡ 0 = omega arith in
    let remainder : m % base ≡ m = omega arith in
    let n_pos : 0 < spelled m (d ∷ code) = omega (arith, le-spelled (d ∷ code) m) in
    rw (zero-add m) (
      encoded_pos _ n_pos
      ∙ big_endian-spelled (d ∷ code) m [] m_pos hs
      ∙ rw append-nil (
          big_endian_step m (d ∷ code) m_pos
          ∙ rw (quotient, remainder, same) (big_endian_zero 0 (c ∷ d ∷ code))))

-- A canonical text that `decode_base62` reads as `n` is the text that `encode_base62` writes for
-- `n`.
pub encode-decode :
    (code : Text) (n : ℕ)
    → IsCanonical code
    → decode_base62 code ≡ ok n
    → encode_base62 (pos n) ≡ ok code
encode-decode code n canonical decoded = elim (decode_base62_lem code) [
  | inl (full, valid, value) ↦
      let same : spelled 0 code ≡ n = cc in
      rw (← same) (encode-encoded _ ∙ ap ok (encoded-spelled code valid canonical))
  | inr (bad, failed) ↦ cc
]
