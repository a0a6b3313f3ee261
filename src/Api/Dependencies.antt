-- ===== src/Api/Dependencies.antt =====
-- app/api/dependencies.py: who the client is, and the rate limit in front of a route.
use observable_url_shortener.Infra.Redis.{RedisServer}
use observable_url_shortener.Infra.World.{World, Env, observe, Metric}
use observable_url_shortener.RateLimiter.{ceil_div}
use observable_url_shortener.Limiter.{RateLimitResult, check}
use observable_url_shortener.Prelude.{
  leb, ◌==◌, if◌then◌else◌, Bool-cases, Action, pure, raise, ◌>>=◌, ◌>>◌, Result-cases,
  http_exception, Text, codes, ℕ, max, ◌≡◌, inl, inr, Bool, ◌&&◌, ◌||◌, Option, none, some, [], ◌∷◌,
  ◌++◌, reverse, arith,
}

-- What the code reads of a request: three headers and the peer's address.
pub record Request : Type 0 where
  pub x_forwarded_for : Option Text
  pub client_host : Option Text
  pub referer : Option Text
  pub user_agent : Option Text

-- `value.split(",")[0]`
unfoldable pub first_hop : Text → Text
first_hop [] = []
first_hop (c ∷ value) = let rest = first_hop value in if c == b',' then [] else c ∷ rest

-- The characters that `str.strip` removes.
unfoldable pub is_space : ℕ → Bool
is_space c =
    (leb 9 c && leb c 13)
    || (leb 28 c && leb c 32)
    || c == 0x85
    || c == 0xa0
    || c == 0x1680
    || (leb 0x2000 c && leb c 0x200a)
    || c == 0x2028
    || c == 0x2029
    || c == 0x202f
    || c == 0x205f
    || c == 0x3000

unfoldable pub lstrip : Text → Text
unfolding is_space
lstrip [] = []
lstrip (c ∷ value) = let rest = lstrip value in if is_space c then rest else c ∷ value

unfoldable pub strip : Text → Text
unfolding lstrip
strip value = reverse (lstrip (reverse (lstrip value)))

peer : Option Text → Text
peer (some host) = host
peer none = codes "unknown"

-- An empty header counts as none.
identifier : Option Text → Option Text → Text
identifier none client = peer client
identifier (some []) client = peer client
identifier (some (c ∷ forwarded)) client = strip (first_hop (c ∷ forwarded))

unfoldable pub get_client_identifier : Request → Text
unfolding identifier peer strip first_hop
get_client_identifier request = identifier request.x_forwarded_for request.client_host

unfoldable pub hash_client_ip : Env → Text → Text → Text
hash_client_ip env ip salt = env.sha256_hexdigest (salt ++ (b':' ∷ ip))

-- `str(max(1, math.ceil(result.retry_after_seconds or 0.0)))`; the argument is in 1/1000 of a
-- second
unfoldable pub retry_after_header : Option ℕ → ℕ
retry_after_header none = max 1 (ceil_div 0 1000)
retry_after_header (some retry_after) = max 1 (ceil_div retry_after 1000)

module _ {S D : Type 0} where
  enforce : Text → RateLimitResult → Action (World S D) (Unit {0})
  enforce route_class result = if result.allowed then pure tt else (do
    observe (Metric.rate_limit_rejections_total route_class)
    raise (http_exception 429 (some (retry_after_header result.retry_after_seconds))))

module _ {S D : Type 0} ⦃server : RedisServer S⦄ (env : Env) where
  -- `_dependency` of `rate_limit`
  unfoldable pub rate_limit : Text → Text → Action (World S D) (Unit {0})
  unfolding enforce retry_after_header observe ◌>>=◌
  rate_limit route_class client_id = do
    result ← check env client_id route_class
    enforce route_class result

  -- The rejection of a request leaves what `check` left.
  pub rate_limit_state :
      (route_class client_id : Text) (w : World S D)
      → ((rate_limit route_class client_id w).1.redis ≡ (check env client_id route_class w).1.redis)
        × ((rate_limit route_class client_id w).1.db ≡ (check env client_id route_class w).1.db)
  unfolding rate_limit raise
  rate_limit_state route_class client_id w =
      elim (Result-cases (check env client_id route_class w).0) [
        | inl (r, answered) ↦ elim (Bool-cases r.allowed) [
          | inl allowed ↦ ground arith
          | inr rejected ↦ ground arith
        ]
        | inr (e, failed) ↦ ground arith
      ]
