-- ===== src/Shortener.antt =====
-- app/core/shortener.py: the Base62 codec and the generation of short codes.
pub mod Symbols
pub mod Decoding
mod Digits
pub mod RoundTrip
pub mod Generation
pub mod Termination
pub mod Preservation
mod Tests
use observable_url_shortener.Prelude.{
  ◌==◌, if◌then◌else◌, Result, Action, pure, raise, lift, ◌>>=◌, ◌>>◌, value_error,
  short_code_generation_error, ok, err, length, get_or, ℤ, pos_part, pos, negsuc, Text, codes, ℕ,
  zero, suc, ◌+◌, ◌*◌, ◌/◌, ◌%◌, Bool, true, false, Option, none, some, [], ◌∷◌, ◌++◌, reverse,
}

abbrev pub base62_alphabet : Text
base62_alphabet = codes "0123456789ABCDEFGHIJKLMNOPQRSTUVWXYZabcdefghijklmnopqrstuvwxyz"

abbrev pub base : ℕ
base = 62

-- `BASE62_ALPHABET[index]`, at the indices below 62 that the code uses
pub symbol : ℕ → ℕ
symbol index = get_or base62_alphabet index 0

-- `{char: index for index, char in enumerate(BASE62_ALPHABET)}`; no symbol occurs twice
index_from : ℕ → Text → ℕ → Option ℕ
index_from index [] char = none
index_from index (c ∷ rest) char =
    if c == char then some index else index_from (index + 1) rest char

pub char_to_value : ℕ → Option ℕ
unfolding index_from
char_to_value char = index_from 0 base62_alphabet char

-- The loop of `encode_base62`, least significant digit first. A positive number falls in every
-- round, so `number` rounds are enough.
pub divide_out : ℕ → ℕ → Text → Text
divide_out zero number digits = digits
divide_out (suc fuel) number digits =
    let more = divide_out fuel (number / base) (digits ++ symbol (number % base) ∷ []) in
    if number == 0 then digits else more

unfoldable pub encode_base62 : ℤ → Result Text
unfolding divide_out
encode_base62 (negsuc n) = err value_error
encode_base62 (pos number) =
    if number == 0 then ok (symbol 0 ∷ []) else ok (reverse (divide_out number number []))

-- one round of the loop of `decode_base62`; a `KeyError` becomes a `ValueError`
accumulate : ℕ → Option ℕ → Result ℕ
accumulate number none = err value_error
accumulate number (some value) = ok (number * base + value)

pub decode_from : ℕ → Text → Result ℕ
decode_from number [] = ok number
decode_from number (char ∷ code) = elim (accumulate number (char_to_value char)) [
  | ok next ↦ decode_from next code
  | err e ↦ err e
]

unfoldable pub decode_base62 : Text → Result ℕ
unfolding decode_from accumulate
decode_base62 [] = err value_error
decode_base62 (char ∷ code) = decode_from 0 (char ∷ code)

-- `secrets.choice` picks any element of the alphabet; `draws` is the source of randomness, one
-- number for each choice.
choice : ℕ → ℕ
choice draw = symbol (draw % base)

choose : ℕ → (ℕ → ℕ) → Text
choose zero draws = []
choose (suc rounds) draws = choice (draws 0) ∷ choose rounds (λ i. draws (suc i))

unfoldable pub generate_short_code : ℤ → (ℕ → ℕ) → Result Text
unfolding choose choice
generate_short_code (negsuc n) draws = err value_error
generate_short_code (pos zero) draws = err value_error
generate_short_code (pos (suc n)) draws = ok (choose (suc n) draws)

abbrev pub default_max_collision_retries : ℤ
default_max_collision_retries = pos 5

module _ {S : Type 0} (exists : Text → Action S Bool) (length : ℤ) (draws : ℕ → ℕ → ℕ) where
  -- The attempts that are left, and the number of the next one. `draws i` is the randomness of
  -- attempt `i`.
  attempts : ℕ → ℕ → Action S Text
  attempts zero attempt = raise short_code_generation_error
  attempts (suc left) attempt = do
    candidate ← lift (generate_short_code length (draws attempt))
    taken ← exists candidate
    elim taken [ true ↦ attempts left (attempt + 1) | false ↦ pure candidate ]

  unfoldable pub generate_unique_short_code : ℤ → Action S Text
  unfolding attempts
  generate_unique_short_code max_retries = attempts (pos_part max_retries) 0
