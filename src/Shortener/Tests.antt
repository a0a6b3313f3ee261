-- ===== src/Shortener/Tests.antt =====
-- Runs of the codec and of the generator, as in tests/unit/test_shortener.py.
use observable_url_shortener.Shortener.{
  char_to_value, symbol, encode_base62, decode_base62, generate_short_code,
  generate_unique_short_code, default_max_collision_retries,
}
use observable_url_shortener.Shortener.Decoding.{IsSymbol}
use observable_url_shortener.Shortener.RoundTrip.{decode-encode}
use observable_url_shortener.Shortener.Termination.{generate_unique_short_code_terminates}
use observable_url_shortener.Shortener.Generation.{generate_unique_short_code_lem}
use observable_url_shortener.Prelude.{
  Action, ◌>>=◌, value_error, short_code_generation_error, ok, err, length, All, pos_part, pos,
  negsuc, Text, codes, text_eq, ℕ, ◌+◌, ◌≤◌, ◌<◌, ◌≡◌, refl, ◌⊎◌, Bool, true, false, List, [], ◌∷◌,
}

codec : Unit {0}
unfolding encode_base62 decode_base62 symbol char_to_value
codec = tt

encode_known_values :
    (encode_base62 (pos 0) ≡ ok (codes "0"))
    × (encode_base62 (pos 10) ≡ ok (codes "A"))
    × (encode_base62 (pos 61) ≡ ok (codes "z"))
    × (encode_base62 (pos 62) ≡ ok (codes "10"))
    × (encode_base62 (pos 3843) ≡ ok (codes "zz"))
    × (encode_base62 (negsuc 0) ≡ err value_error)
unfolding codec
encode_known_values = (refl, refl, refl, refl, refl, refl)

decode_known_values :
    (decode_base62 (codes "zz") ≡ ok 3843)
    × (decode_base62 (codes "00z") ≡ ok 61)
    × (decode_base62 [] ≡ err value_error)
    × (decode_base62 (codes "a-b") ≡ err value_error)
unfolding codec
decode_known_values = (refl, refl, refl, refl)

abbrev taken : Text → Bool
taken code = text_eq code (codes "0000000")

-- The first attempt draws the code that is taken.
abbrev unlucky : ℕ → ℕ → ℕ
unlucky attempt i = attempt

abbrev exists : Text → Action (List Text) Bool
exists code asked = (ok (taken code), code ∷ asked)

second_attempt :
    generate_unique_short_code exists (pos 7) unlucky default_max_collision_retries []
    ≡ (ok (codes "1111111"), codes "1111111" ∷ codes "0000000" ∷ [])
unfolding generate_unique_short_code generate_short_code symbol text_eq ◌>>=◌
second_attempt = refl

decode-encode_example :
    (code : Text) × (encode_base62 (pos 3843) ≡ ok code) × (decode_base62 code ≡ ok 3843)
decode-encode_example = decode-encode 3843

generate_unique_short_code_lem_example :
    ((code : Text) × ((generate_unique_short_code exists (pos 7) unlucky (pos 5) []).0 ≡ ok code)
      × (taken code ≡ false)
      × (length code ≡ 7)
      × All IsSymbol code)
    ⊎ (((generate_unique_short_code exists (pos 7) unlucky (pos 5) []).0
          ≡ err short_code_generation_error)
        × ((k : ℕ)
            → k < 5
            → (code : Text) × (generate_short_code (pos 7) (unlucky k) ≡ ok code)
              × (taken code ≡ true)))
generate_unique_short_code_lem_example =
    generate_unique_short_code_lem exists taken 6 unlucky (pos 5) [] (λ code s. refl)

-- An `exists` that counts its calls and finds every code taken.
abbrev counting : Text → Action ℕ Bool
counting code s = (ok true, s + 1)

generate_unique_short_code_terminates_example :
    (generate_unique_short_code counting
      (pos 7)
      (λ attempt i. attempt)
      default_max_collision_retries
      0).1
    ≤ 0 + pos_part default_max_collision_retries
generate_unique_short_code_terminates_example =
    generate_unique_short_code_terminates counting (pos 7) (λ attempt i. attempt) (λ s. s)
      default_max_collision_retries 0 (λ code s. refl)
