-- ===== src/Schemas/Laws.antt =====
-- Which custom codes a request may ask for.
use native.Mathlib.Decide.{dec_lt}
use observable_url_shortener.Shortener.{base62_alphabet}
use observable_url_shortener.Shortener.Symbols.{char_to_value_iff}
use observable_url_shortener.Shortener.Decoding.{IsSymbol}
use observable_url_shortener.Schemas.{contains, invalid_characters, is_empty, validate_custom_code}
use observable_url_shortener.Prelude.{
  ◌==◌, Bool-cases, value_error, ok, err, length, All, Some, Text, ℕ, ◌≤◌, ◌<◌, ◌≡◌, refl, ◌↔◌, ◌⊎◌,
  inl, inr, true, some, [], ◌∷◌, arith,
}

contains_iff : (xs : Text) (c : ℕ) → (contains xs c ≡ true) ↔ Some (λ x. x ≡ c) xs
unfolding contains
contains_iff [] c = (λ h. cc, λ h. absurd h)
contains_iff (x ∷ xs) c =
    let (to, from) = contains_iff xs c in
    elim (Bool-cases (x == c)) [
      | inl same ↦ (λ h. inl (ground arith), λ h. ground arith)
      | inr other ↦ (
        λ h. inr (to (ground arith)),
        λ h. elim h [
          | inl here ↦ absurd (ground arith)
          | inr later ↦ let there = from later in ground arith
        ],
      )
    ]

invalid_characters_iff :
    (code : Text) → (is_empty (invalid_characters code) ≡ true) ↔ All IsSymbol code
unfolding invalid_characters is_empty
invalid_characters_iff [] = (λ h. tt, λ h. refl)
invalid_characters_iff (c ∷ code) =
    let (to, from) = invalid_characters_iff code in
    let (there, back) = contains_iff base62_alphabet c in
    let (known, valued) = char_to_value_iff c in
    elim (Bool-cases (contains base62_alphabet c)) [
      | inl valid ↦
          (λ h. (valued (there valid), to (rw valid at h)), λ (hc, hs). rw valid (from hs))
      | inr invalid ↦
          (λ h. let bad = rw invalid at h in cc, λ (hc, hs). let valid = back (known hc) in cc)
    ]

-- A custom code is accepted as it is if it has 4 to 10 characters, all of them of the alphabet, and
-- is refused if not.
pub validate_custom_code_lem :
    (code : Text)
    → ((4 ≤ length code)
        × (length code ≤ 10)
        × All IsSymbol code
        × (validate_custom_code (some code) ≡ ok (some code)))
      ⊎ (((length code < 4) ⊎ (10 < length code) ⊎ (All IsSymbol code → ⊥))
          × (validate_custom_code (some code) ≡ err value_error))
unfolding validate_custom_code
validate_custom_code_lem code =
    let (valid, accepted) = invalid_characters_iff code in
    elim (dec_lt (length code) 4) [
      | yes short ↦ inr (inl short, ground arith)
      | no enough ↦ elim (dec_lt 10 (length code)) [
        | yes long ↦ inr (inr (inl long), ground arith)
        | no fitting ↦ elim (Bool-cases (is_empty (invalid_characters code))) [
          | inl clean ↦ inl (omega arith, omega arith, valid clean, ground arith)
          | inr dirty ↦ inr (inr (inr (λ h. let clean = accepted h in cc)), ground arith)
        ]
      ]
    ]
