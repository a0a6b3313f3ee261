-- ===== src/Examples/Inputs.antt =====
-- A request's surroundings and a world with one row, for the examples.
use observable_url_shortener.RateLimiter.{exact}
use observable_url_shortener.Infra.World.{World, Env}
use observable_url_shortener.Infra.Redis.{works, refused}
use observable_url_shortener.Config.{IsAccepted, Settings, default_settings}
use observable_url_shortener.Models.{Url}
use observable_url_shortener.Examples.Keyspace.{Keyspace, empty}
use observable_url_shortener.Examples.Tables.{Tables}
use observable_url_shortener.Api.Dependencies.{Request}
use observable_url_shortener.Repository.Rows.{HasUniqueCodes}
use observable_url_shortener.Infra.Database.{has_code}
use observable_url_shortener.Prelude.{
  Bool-cases, Text, codes, refl, inl, inr, false, none, some, [], ◌∷◌, arith,
}

abbrev pub database_dsn : Text
database_dsn = codes "postgresql+asyncpg://app@db/app"

abbrev pub local_settings : Settings
local_settings = default_settings database_dsn

abbrev pub env : Env
env = record {
  settings = local_settings;
  lua = exact;
  redis_time = 1000;
  clock_ms = 1000;
  now = 1000;
  db_time = 1000;
  redis_fault = λ operation. works;
  db_fails = λ query code. false;
  commit_fails = false;
  sha256_hexdigest = λ t. t;
  draws = λ attempt i. attempt;
}

abbrev pub env_without_redis : Env
env_without_redis = record env { redis_fault = λ operation. refused }

abbrev pub later_env : Env
later_env = record env { redis_time = 2000 }

abbrev pub promo : Text
promo = codes "promo"

abbrev pub destination_url : Text
destination_url = codes "https://example.com/"

abbrev pub promo_row : Url
promo_row = record {
  id = 1;
  short_code = promo;
  long_url = destination_url;
  created_at = 0;
  expires_at = none;
  client_id = none;
  click_count = 0;
}

abbrev pub world : World Keyspace Tables
world = record {
  redis = empty;
  db = record { urls = promo_row ∷ []; click_events = []; next_url_id = 2; next_click_id = 1 };
  metrics = [];
}

abbrev pub request : Request
request = record {
  x_forwarded_for = some (codes "203.0.113.7, 10.0.0.1");
  client_host = some (codes "10.0.0.1");
  referer = none;
  user_agent = none;
}

abbrev pub client : Text
client = codes "203.0.113.7"

pub one_row-HasUniqueCodes : (row : Url) → HasUniqueCodes (row ∷ [])
one_row-HasUniqueCodes row code = elim (Bool-cases (has_code code row)) [
  | inl h ↦ inr (row, rw h refl)
  | inr h ↦ inl (rw h refl)
]

pub local_settings-IsAccepted : IsAccepted local_settings
local_settings-IsAccepted = record {
  cache_ttl = omega arith;
  redirect_capacity = omega arith;
  redirect_refill = omega arith;
  create_capacity = omega arith;
  create_refill = omega arith;
  code_length_min = omega arith;
  code_length_max = omega arith;
}
