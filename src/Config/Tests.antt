-- ===== src/Config/Tests.antt =====
-- Loading the settings from an environment.
use observable_url_shortener.Config.{Settings, IsAccepted}
use observable_url_shortener.Config.Loading.{load, holds}
use observable_url_shortener.Config.Loading.Given.{load_lem, IsGivenBy}
use observable_url_shortener.Examples.Sources.{pydantic, environment}
use observable_url_shortener.Examples.Inputs.{local_settings}
use observable_url_shortener.Prelude.{value_error, ok, err, codes, text_eq, ◌≡◌, refl, ◌↔◌}

-- A length of 8 is taken, and one of 3 is refused.
length_taken :
    load pydantic (environment (codes "8")) ≡ ok (record local_settings { short_code_length = 8 })
unfolding load holds text_eq
length_taken = refl

length_refused : load pydantic (environment (codes "3")) ≡ err value_error
unfolding load holds text_eq
length_refused = refl

load_lem_example :
    ((s : Settings)
      → (load pydantic (environment (codes "8")) ≡ ok s)
        ↔ IsGivenBy pydantic (environment (codes "8")) s)
    × ((s : Settings) → load pydantic (environment (codes "8")) ≡ ok s → IsAccepted s)
load_lem_example = load_lem pydantic (environment (codes "8"))
