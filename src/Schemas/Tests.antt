-- ===== src/Schemas/Tests.antt =====
-- The custom codes of tests/integration/test_create_url.py.
use observable_url_shortener.Shortener.Decoding.{IsSymbol}
use observable_url_shortener.Schemas.{validate_custom_code}
use observable_url_shortener.Schemas.Laws.{validate_custom_code_lem}
use observable_url_shortener.Prelude.{value_error, ok, err, All, codes, ◌≤◌, ◌<◌, ◌≡◌, ◌⊎◌, some}

validate_custom_code_lem_example :
    ((4 ≤ 7)
      × (7 ≤ 10)
      × All IsSymbol (codes "my-code")
      × (validate_custom_code (some (codes "my-code")) ≡ ok (some (codes "my-code"))))
    ⊎ (((7 < 4) ⊎ (10 < 7) ⊎ (All IsSymbol (codes "my-code") → ⊥))
        × (validate_custom_code (some (codes "my-code")) ≡ err value_error))
validate_custom_code_lem_example = validate_custom_code_lem (codes "my-code")
