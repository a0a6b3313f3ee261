-- ===== src/Config/Loading.antt =====
-- app/config.py: `Settings()`, which reads the environment and `.env`. What pydantic reads a value
-- as is a parameter; so is where it finds the value.
pub mod Fields
pub mod Given
use observable_url_shortener.Config.{Settings, default_settings}
use observable_url_shortener.Prelude.{
  ltb, leb, if◌then◌else◌, Result, and_then, value_error, ok, err, ℤ, pos_part, pos, negsuc, Text,
  codes, ℕ, Bool, true, false, ◌&&◌, Option, none, some, List, [], ◌∷◌,
}

pub data Constraint : Type 0 where
  gt ge le : ℕ → Constraint

-- How pydantic reads the value of a field: `int`, and `PostgresDsn` and `RedisDsn` with the text
-- that `str` makes of them.
pub record Pydantic : Type 0 where
  pub int : Text → Option ℤ
  pub postgres_dsn : Text → Option Text
  pub redis_dsn : Text → Option Text

-- What the environment and `.env` give for the name of a field, in either case, and the names that
-- `extra="forbid"` finds to be those of no field.
pub record Source : Type 0 where
  pub given : Text → Option Text
  pub unknown : List Text

unfoldable pub holds : Constraint → ℤ → Bool
holds (gt n) (pos i) = ltb n i
holds (ge n) (pos i) = leb n i
holds (le n) (pos i) = leb i n
holds (gt n) (negsuc i) = false
holds (ge n) (negsuc i) = false
holds (le n) (negsuc i) = true

unfoldable pub satisfies : List Constraint → ℤ → Bool
satisfies [] i = true
satisfies (constraint ∷ constraints) i = holds constraint i && satisfies constraints i

-- A value that cannot be read, or is out of its range, raises a `ValidationError`, which is a
-- `ValueError`.
unfoldable pub required : {A : Type 0} → Option A → Result A
required none = err value_error
required (some a) = ok a

within : List Constraint → Option ℤ → Result ℕ
unfolding satisfies required
within constraints none = err value_error
within constraints (some i) = if satisfies constraints i then ok (pos_part i) else err value_error

-- `name: str = Field(default=…)`
pub str_field : Text → Option Text → Text
str_field default none = default
str_field default (some text) = text

-- `name: int = Field(default=…, gt=…, ge=…, le=…)`
pub int_field : (Text → Option ℤ) → ℕ → List Constraint → Option Text → Result ℕ
unfolding within
int_field read default constraints none = ok default
int_field read default constraints (some text) = within constraints (read text)

-- `name: PostgresDsn = Field()` and `name: RedisDsn = Field(default=…)`
pub dsn_field : (Text → Option Text) → Option Text → Option Text → Result Text
unfolding required
dsn_field read default none = required default
dsn_field read default (some text) = required (read text)

pub no_extra : List Text → Result (Unit {0})
no_extra [] = ok tt
no_extra (name ∷ names) = err value_error

module _ (pydantic : Pydantic) (source : Source) where
  -- `Settings()`
  unfoldable pub load : Result Settings
  unfolding str_field int_field dsn_field no_extra
  load =
      let given = source.given in
      let positive : ℕ → Text → Result ℕ =
        λ default name. int_field pydantic.int default (gt 0 ∷ []) (given name) in
      let default = default_settings [] in
      and_then (no_extra source.unknown) λ _.
        and_then (dsn_field pydantic.postgres_dsn none (given (codes "database_url")))
          λ database_url.
            and_then
              (dsn_field pydantic.redis_dsn (some default.redis_url) (given (codes "redis_url")))
              λ redis_url.
                and_then (positive default.cache_ttl_seconds (codes "cache_ttl_seconds"))
                  λ cache_ttl_seconds.
                    and_then
                      (positive default.rate_limit_redirect_capacity
                        (codes "rate_limit_redirect_capacity"))
                      λ redirect_capacity.
                        and_then
                          (positive default.rate_limit_redirect_refill_per_minute
                            (codes "rate_limit_redirect_refill_per_minute"))
                          λ redirect_refill.
                            and_then
                              (positive default.rate_limit_create_capacity
                                (codes "rate_limit_create_capacity"))
                              λ create_capacity.
                                and_then
                                  (positive default.rate_limit_create_refill_per_minute
                                    (codes "rate_limit_create_refill_per_minute"))
                                  λ create_refill.
                                    and_then
                                      (int_field pydantic.int default.short_code_length
                                        (ge 4 ∷ le 10 ∷ []) (given (codes "short_code_length")))
                                      λ short_code_length. ok (record {
                                        app_env =
                                            str_field default.app_env (given (codes "app_env"));
                                        log_level =
                                            str_field default.log_level (given (codes "log_level"));
                                        base_url =
                                            str_field default.base_url (given (codes "base_url"));
                                        database_url = database_url;
                                        redis_url = redis_url;
                                        cache_ttl_seconds = cache_ttl_seconds;
                                        rate_limit_redirect_capacity = redirect_capacity;
                                        rate_limit_redirect_refill_per_minute = redirect_refill;
                                        rate_limit_create_capacity = create_capacity;
                                        rate_limit_create_refill_per_minute = create_refill;
                                        short_code_length = short_code_length;
                                        ip_hash_salt =
                                            str_field default.ip_hash_salt
                                              (given (codes "ip_hash_salt"));
                                      })
