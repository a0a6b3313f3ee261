-- ===== src/Config.antt =====
-- app/config.py: the fields of the settings, their defaults and their constraints.
pub mod Loading
pub mod Tests
use observable_url_shortener.Prelude.{Text, codes, ℕ, ◌≤◌, ◌<◌}

pub record Settings : Type 0 where
  pub app_env : Text
  pub log_level : Text
  pub base_url : Text
  pub database_url : Text  -- `str` of the DSN
  pub redis_url : Text  -- `str` of the DSN
  pub cache_ttl_seconds : ℕ
  pub rate_limit_redirect_capacity : ℕ
  pub rate_limit_redirect_refill_per_minute : ℕ
  pub rate_limit_create_capacity : ℕ
  pub rate_limit_create_refill_per_minute : ℕ
  pub short_code_length : ℕ
  pub ip_hash_salt : Text

-- The defaults of the fields. `database_url` has none.
abbrev pub default_settings : Text → Settings
default_settings database_url = record {
  app_env = codes "local";
  log_level = codes "INFO";
  base_url = codes "http://localhost:8000";
  database_url = database_url;
  redis_url = codes "redis://localhost:6379/0";
  cache_ttl_seconds = 3600;
  rate_limit_redirect_capacity = 100;
  rate_limit_redirect_refill_per_minute = 100;
  rate_limit_create_capacity = 10;
  rate_limit_create_refill_per_minute = 10;
  short_code_length = 7;
  ip_hash_salt = codes "change-me-to-a-random-secret";
}

-- The constraints `gt`, `ge` and `le` of the fields, which every settings object has passed.
pub record IsAccepted (s : Settings) : Type 0 where
  pub cache_ttl : 0 < s.cache_ttl_seconds
  pub redirect_capacity : 0 < s.rate_limit_redirect_capacity
  pub redirect_refill : 0 < s.rate_limit_redirect_refill_per_minute
  pub create_capacity : 0 < s.rate_limit_create_capacity
  pub create_refill : 0 < s.rate_limit_create_refill_per_minute
  pub code_length_min : 4 ≤ s.short_code_length
  pub code_length_max : s.short_code_length ≤ 10
