-- ===== src/Shortener/Symbols.antt =====
-- The alphabet of app/core/shortener.py: its 62 symbols and their values.
use observable_url_shortener.Shortener.{base62_alphabet, base, symbol, index_from, char_to_value}
use observable_url_shortener.Prelude.{
  ◌==◌, if◌then◌else◌, Bool-cases, length, get_or, Some, Text, ℕ, zero, suc, ◌+◌, ◌<◌, ◌≡◌, refl,
  ◌≢◌, ◌↔◌, inl, inr, Bool, true, false, Option, none, some, [], ◌∷◌, arith,
}

abbrev found_at : ℕ → Option ℕ → Bool
found_at i none = false
found_at i (some v) = v == i

found_at_lem : (i : ℕ) (o : Option ℕ) → found_at i o ≡ true → o ≡ some i
found_at_lem i none h = cc
found_at_lem i (some v) h = ground arith

-- Whether each of the first `count` symbols is found at its own place.
symbols_found : (count : ℕ) → Bool
symbols_found zero = true
symbols_found (suc i) = if found_at i (char_to_value (symbol i)) then symbols_found i else false

symbols_found_lem :
    (i count : ℕ) → i < count → symbols_found count ≡ true → char_to_value (symbol i) ≡ some i
unfolding symbols_found
symbols_found_lem i zero small found = absurd (omega arith)
symbols_found_lem i (suc j) small found =
    ground (arith, symbols_found_lem i j, found_at_lem j (char_to_value (symbol j)))

all_symbols_found : symbols_found base ≡ true
unfolding symbols_found char_to_value symbol
all_symbols_found = refl

pub char_to_value-symbol : (i : ℕ) → i < base → char_to_value (symbol i) ≡ some i
char_to_value-symbol i small = symbols_found_lem i base small all_symbols_found

index_from-get_or :
    (i : ℕ) (xs : Text) (c v : ℕ)
    → index_from i xs c ≡ some v
    → (k : ℕ) × (v ≡ i + k) × (get_or xs k 0 ≡ c) × (k < length xs)
unfolding index_from
index_from-get_or i [] c v h = cc
index_from-get_or i (x ∷ xs) c v h = elim (Bool-cases (x == c)) [
  | inl same ↦ (0, ground arith, ground arith, omega arith)
  | inr other ↦
      let (k, at, is_c, lt) = index_from-get_or (i + 1) xs c v (rw other at h) in
      (suc k, omega arith, is_c, omega arith)
]

-- A character with a value is the symbol at that value.
pub symbol-char_to_value : (c v : ℕ) → char_to_value c ≡ some v → (symbol v ≡ c) × (v < base)
unfolding char_to_value symbol
symbol-char_to_value c v h =
    let (k, at, is_c, lt) = index_from-get_or 0 base62_alphabet c v h in
    let same : v ≡ k = omega arith in rw same (is_c, lt)

index_from_there : (i : ℕ) (xs : Text) (c : ℕ) → Some (λ x. x ≡ c) xs → index_from i xs c ≢ none
unfolding index_from
index_from_there i [] c there = absurd there
index_from_there i (x ∷ xs) c there = elim (Bool-cases (x == c)) [
  | inl same ↦ rw same (λ e. cc)
  | inr other ↦ elim there [
    | inl here ↦ absurd (ground arith)
    | inr later ↦ rw other (index_from_there (i + 1) xs c later)
  ]
]

index_from_found : (i : ℕ) (xs : Text) (c : ℕ) → index_from i xs c ≢ none → Some (λ x. x ≡ c) xs
unfolding index_from
index_from_found i [] c found = absurd (found refl)
index_from_found i (x ∷ xs) c found = elim (Bool-cases (x == c)) [
  | inl same ↦ inl (ground arith)
  | inr other ↦ inr (index_from_found (i + 1) xs c (rw other at found))
]

-- The characters with a value are those of the alphabet.
pub char_to_value_iff : (c : ℕ) → (char_to_value c ≢ none) ↔ Some (λ x. x ≡ c) base62_alphabet
unfolding char_to_value
char_to_value_iff c = (index_from_found 0 base62_alphabet c, index_from_there 0 base62_alphabet c)
