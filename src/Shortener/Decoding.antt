-- ===== src/Shortener/Decoding.antt =====
-- What `decode_base62` accepts, and the number that it returns.
use observable_url_shortener.Prelude.{
  ℕ, ◌+◌, ◌*◌, ◌≡◌, ◌≢◌, refl, none, some, [], ◌∷◌, arith, Text, ok, err, value_error, All, Some,
  Option-cases, inl, inr, ◌⊎◌,
}
use observable_url_shortener.Shortener.{base, char_to_value, accumulate, decode_from, decode_base62}

abbrev pub IsSymbol : ℕ → Type 0
IsSymbol c = char_to_value c ≢ none

-- The digit that a character stands for; 0 for a character outside of the alphabet.
abbrev pub digit : ℕ → ℕ
digit c = elim (char_to_value c) [ none ↦ 0 | some v ↦ v ]

-- The number that a text spells in base 62 behind `n`.
abbrev pub spelled : ℕ → Text → ℕ
spelled n [] = n
spelled n (c ∷ code) = spelled (n * base + digit c) code

pub decode_from_ok :
    (code : Text) (n : ℕ) → All IsSymbol code → decode_from n code ≡ ok (spelled n code)
unfolding decode_from accumulate
decode_from_ok [] n h = refl
decode_from_ok (c ∷ code) n (hc, hs) = elim (Option-cases (char_to_value c)) [
  | inl missing ↦ absurd (hc missing)
  | inr (v, found) ↦ rw (found, decode_from) (ground (arith, decode_from_ok code (n * base + v) hs))
]

decode_from_err :
    (code : Text) (n : ℕ)
    → Some (λ c. char_to_value c ≡ none) code
    → decode_from n code ≡ err value_error
unfolding decode_from accumulate
decode_from_err [] n h = elim h [ ]
decode_from_err (c ∷ code) n (inl missing) = rw (missing, decode_from)
decode_from_err (c ∷ code) n (inr later) = elim (Option-cases (char_to_value c)) [
  | inl missing ↦ rw (missing, decode_from)
  | inr (v, found) ↦ rw (found, decode_from) (decode_from_err code (n * base + v) later)
]

All-or-Some : (code : Text) → All IsSymbol code ⊎ Some (λ c. char_to_value c ≡ none) code
All-or-Some [] = inl tt
All-or-Some (c ∷ code) = elim (Option-cases (char_to_value c)) [
  | inl missing ↦ inr (inl missing)
  | inr (v, found) ↦ elim (All-or-Some code) [
    | inl hs ↦ inl ((λ e. cc), hs)
    | inr later ↦ inr (inr later)
  ]
]

-- `decode_base62` raises `ValueError` for the empty text and for a text with a character outside of
-- the alphabet, and returns the number spelled in base 62 for every other text.
pub decode_base62_lem :
    (code : Text)
    → ((code ≢ []) × All IsSymbol code × (decode_base62 code ≡ ok (spelled 0 code)))
      ⊎ (((code ≡ []) ⊎ Some (λ c. char_to_value c ≡ none) code)
          × (decode_base62 code ≡ err value_error))
unfolding decode_base62
decode_base62_lem [] = inr (inl refl, refl)
decode_base62_lem (c ∷ code) = elim (All-or-Some (c ∷ code)) [
  | inl hs ↦ inl ((λ e. cc), hs, decode_from_ok (c ∷ code) 0 hs)
  | inr bad ↦ inr (inr bad, decode_from_err (c ∷ code) 0 bad)
]
