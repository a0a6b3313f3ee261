-- ===== src/Examples/Sources.antt =====
-- A reading of values, and an environment with two variables.
use observable_url_shortener.Config.Loading.{Pydantic, Source}
use observable_url_shortener.Examples.Inputs.{database_dsn}
use observable_url_shortener.Prelude.{
  leb, if◌then◌else◌, length, take, ℤ, pos, Text, codes, text_eq, ℕ, ◌-◌, Bool, ◌&&◌, Option, none,
  some, [], ◌∷◌,
}

abbrev digit : ℕ → Option ℤ
digit c = if leb b'0' c && leb c b'9' then some (pos (c - b'0')) else none

-- Numbers of one digit, and URLs of two schemes.
abbrev pub pydantic : Pydantic
pydantic = record {
  int = λ text. elim text [ [] ↦ none | c ∷ cs ↦ elim cs [ [] ↦ digit c | _ ↦ none ] ];
  postgres_dsn = λ text. if text_eq (take 10 text) (codes "postgresql") then some text else none;
  redis_dsn = λ text. if text_eq (take 8 text) (codes "redis://") then some text else none;
}

abbrev pub environment : Text → Source
environment length = record {
  given = λ name.
      if text_eq name (codes "database_url")
      then some database_dsn
      else if text_eq name (codes "short_code_length")
      then some length
      else none;
  unknown = [];
}

abbrev pub accepts : Text → Bool
accepts url = text_eq (take 8 url) (codes "redis://")
