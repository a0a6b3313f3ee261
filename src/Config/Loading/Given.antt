-- ===== src/Config/Loading/Given.antt =====
-- What the settings hold that were loaded, in terms of the texts that were given for their fields.
use observable_url_shortener.Config.Loading.Fields.{
  dsn_field_then, int_field_gt_then, int_field_range_then, and_then_ok, IsText, IsDsn, IsNumber,
  IsPositive, IsCodeLength, int_field-IsPositive, int_field-IsCodeLength, dsn_field_iff,
  str_field_iff, no_extra_iff,
}
use observable_url_shortener.Config.Loading.{
  str_field, int_field, no_extra, gt, Pydantic, Source, load,
}
use observable_url_shortener.Config.{Settings, IsAccepted}
use observable_url_shortener.Prelude.{
  ok_injective, ok, ℤ, Text, codes, ℕ, ◌<◌, ◌≡◌, refl, sym, ◌↔◌, Option, none, some, [], ◌∷◌, arith,
}

-- `.env` names no other field, and each field of `s` holds what is given for its name, in the range
-- of the field, or the default where nothing is given.
pub record IsGivenBy (pydantic : Pydantic) (source : Source) (s : Settings) : Type 0 where
  pub nothing_unknown : source.unknown ≡ []
  pub app_env : IsText (codes "local") (source.given (codes "app_env")) s.app_env
  pub log_level : IsText (codes "INFO") (source.given (codes "log_level")) s.log_level
  pub base_url : IsText (codes "http://localhost:8000") (source.given (codes "base_url")) s.base_url
  pub database_url :
      IsDsn pydantic.postgres_dsn none (source.given (codes "database_url")) s.database_url
  pub redis_url :
      IsDsn pydantic.redis_dsn
        (some (codes "redis://localhost:6379/0"))
        (source.given (codes "redis_url"))
        s.redis_url
  pub cache_ttl_seconds :
      IsNumber pydantic.int 3600 IsPositive
        (source.given (codes "cache_ttl_seconds"))
        s.cache_ttl_seconds
  pub rate_limit_redirect_capacity :
      IsNumber pydantic.int 100 IsPositive
        (source.given (codes "rate_limit_redirect_capacity"))
        s.rate_limit_redirect_capacity
  pub rate_limit_redirect_refill_per_minute :
      IsNumber pydantic.int 100 IsPositive
        (source.given (codes "rate_limit_redirect_refill_per_minute"))
        s.rate_limit_redirect_refill_per_minute
  pub rate_limit_create_capacity :
      IsNumber pydantic.int 10 IsPositive
        (source.given (codes "rate_limit_create_capacity"))
        s.rate_limit_create_capacity
  pub rate_limit_create_refill_per_minute :
      IsNumber pydantic.int 10 IsPositive
        (source.given (codes "rate_limit_create_refill_per_minute"))
        s.rate_limit_create_refill_per_minute
  pub short_code_length :
      IsNumber pydantic.int 7 IsCodeLength
        (source.given (codes "short_code_length"))
        s.short_code_length
  pub ip_hash_salt :
      IsText
        (codes "change-me-to-a-random-secret")
        (source.given (codes "ip_hash_salt"))
        s.ip_hash_salt

IsNumber_weaken :
    (read : Text → Option ℤ) (default : ℕ) (P : ℕ → Type 0) (given : Option Text) (value : ℕ)
    → P default
    → IsNumber read default P given value
    → P value
IsNumber_weaken read default P none value h e = rw e h
IsNumber_weaken read default P (some text) value h e = e.1

pub IsGivenBy-IsAccepted :
    (pydantic : Pydantic) (source : Source) (s : Settings)
    → IsGivenBy pydantic source s
    → IsAccepted s
IsGivenBy-IsAccepted pydantic source s h =
    let given = source.given in
    let positive : (default value : ℕ) (name : Text)
        → 0 < default
        → IsNumber pydantic.int default IsPositive (given name) value
        → 0 < value =
      λ default value name. IsNumber_weaken pydantic.int default IsPositive (given name) value in
    let length =
      IsNumber_weaken pydantic.int 7 IsCodeLength (given (codes "short_code_length"))
        s.short_code_length (omega arith, omega arith) h.short_code_length in
    record {
      cache_ttl =
          positive 3600 s.cache_ttl_seconds (codes "cache_ttl_seconds") (omega arith)
            h.cache_ttl_seconds;
      redirect_capacity =
          positive 100 s.rate_limit_redirect_capacity (codes "rate_limit_redirect_capacity")
            (omega arith) h.rate_limit_redirect_capacity;
      redirect_refill =
          positive 100 s.rate_limit_redirect_refill_per_minute
            (codes "rate_limit_redirect_refill_per_minute") (omega arith)
            h.rate_limit_redirect_refill_per_minute;
      create_capacity =
          positive 10 s.rate_limit_create_capacity (codes "rate_limit_create_capacity")
            (omega arith) h.rate_limit_create_capacity;
      create_refill =
          positive 10 s.rate_limit_create_refill_per_minute
            (codes "rate_limit_create_refill_per_minute") (omega arith)
            h.rate_limit_create_refill_per_minute;
      code_length_min = length.0;
      code_length_max = length.1;
    }

module _ (pydantic : Pydantic) (source : Source) where
  load_given : (s : Settings) → load pydantic source ≡ ok s → IsGivenBy pydantic source s
  unfolding load
  load_given s h =
      let given = source.given in
      let text : (default name : Text)
          → IsText default (given name) (str_field default (given name)) =
        λ default name.
          (str_field_iff default (given name) (str_field default (given name))).0 refl in
      let (u, unknown, h0) = and_then_ok (no_extra source.unknown) _ s h in
      let (database_url, database, h1) =
        dsn_field_then s pydantic.postgres_dsn none (given (codes "database_url")) _ h0 in
      let (redis_url, redis, h2) =
        dsn_field_then s pydantic.redis_dsn (some (codes "redis://localhost:6379/0"))
          (given (codes "redis_url")) _ h1 in
      let (ttl, its_ttl, h3) =
        int_field_gt_then s pydantic.int 3600 (given (codes "cache_ttl_seconds")) _ h2 in
      let (capacity, its_capacity, h4) =
        int_field_gt_then s pydantic.int 100 (given (codes "rate_limit_redirect_capacity")) _ h3 in
      let (refill, its_refill, h5) =
        int_field_gt_then s pydantic.int 100 (given (codes "rate_limit_redirect_refill_per_minute"))
          _ h4 in
      let (capacity', its_capacity', h6) =
        int_field_gt_then s pydantic.int 10 (given (codes "rate_limit_create_capacity")) _ h5 in
      let (refill', its_refill', h7) =
        int_field_gt_then s pydantic.int 10 (given (codes "rate_limit_create_refill_per_minute")) _
          h6 in
      let (code_length, its_length, h8) =
        int_field_range_then s pydantic.int 7 (given (codes "short_code_length")) _ h7 in
      rw (sym (ok_injective _ s h8)) (record {
        nothing_unknown = (no_extra_iff source.unknown u).0 unknown;
        app_env = text (codes "local") (codes "app_env");
        log_level = text (codes "INFO") (codes "log_level");
        base_url = text (codes "http://localhost:8000") (codes "base_url");
        database_url = database;
        redis_url = redis;
        cache_ttl_seconds = its_ttl;
        rate_limit_redirect_capacity = its_capacity;
        rate_limit_redirect_refill_per_minute = its_refill;
        rate_limit_create_capacity = its_capacity';
        rate_limit_create_refill_per_minute = its_refill';
        short_code_length = its_length;
        ip_hash_salt = text (codes "change-me-to-a-random-secret") (codes "ip_hash_salt");
      })

  given_load : (s : Settings) → IsGivenBy pydantic source s → load pydantic source ≡ ok s
  unfolding load
  given_load s h =
      let given = source.given in
      let number : (default value : ℕ) (name : Text)
          → IsNumber pydantic.int default IsPositive (given name) value
          → int_field pydantic.int default (gt 0 ∷ []) (given name) ≡ ok value =
        λ default value name. (int_field-IsPositive pydantic.int default value (given name)).1 in
      rw
        (
          (no_extra_iff source.unknown tt).1 h.nothing_unknown,
          (dsn_field_iff pydantic.postgres_dsn none (given (codes "database_url")) s.database_url).1
              h.database_url,
          (dsn_field_iff pydantic.redis_dsn (some (codes "redis://localhost:6379/0"))
                (given (codes "redis_url")) s.redis_url).1
              h.redis_url,
          number 3600 s.cache_ttl_seconds (codes "cache_ttl_seconds") h.cache_ttl_seconds,
          number 100 s.rate_limit_redirect_capacity (codes "rate_limit_redirect_capacity")
              h.rate_limit_redirect_capacity,
          number 100 s.rate_limit_redirect_refill_per_minute
              (codes "rate_limit_redirect_refill_per_minute")
              h.rate_limit_redirect_refill_per_minute,
          number 10 s.rate_limit_create_capacity (codes "rate_limit_create_capacity")
              h.rate_limit_create_capacity,
          number 10 s.rate_limit_create_refill_per_minute
              (codes "rate_limit_create_refill_per_minute") h.rate_limit_create_refill_per_minute,
          (int_field-IsCodeLength pydantic.int 7 s.short_code_length
                (given (codes "short_code_length"))).1
              h.short_code_length,
          sym ((str_field_iff (codes "local") (given (codes "app_env")) s.app_env).1 h.app_env),
          sym (
              (str_field_iff (codes "INFO") (given (codes "log_level")) s.log_level).1 h.log_level),
          sym (
              (str_field_iff (codes "http://localhost:8000") (given (codes "base_url"))
                  s.base_url).1
                h.base_url),
          sym (
              (str_field_iff (codes "change-me-to-a-random-secret") (given (codes "ip_hash_salt"))
                  s.ip_hash_salt).1
                h.ip_hash_salt),
        )
        refl

  -- `Settings()` returns exactly the settings whose fields hold what is given for them, or their
  -- defaults, each number in its range, where `.env` has no name of another field. It raises where
  -- there are no such settings, and no settings that it returns are out of the declared ranges.
  pub load_lem :
      ((s : Settings) → (load pydantic source ≡ ok s) ↔ IsGivenBy pydantic source s)
      × ((s : Settings) → load pydantic source ≡ ok s → IsAccepted s)
  load_lem = (
    λ s. (load_given s, given_load s),
    λ s h. IsGivenBy-IsAccepted pydantic source s (load_given s h),
  )
