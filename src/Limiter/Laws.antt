-- ===== src/Limiter/Laws.antt =====
-- `RateLimiter.check` of app/core/rate_limiter.py: its answers, its key, and the other keys.
use observable_url_shortener.Limiter.{limiter_key, check, limits_for}
use observable_url_shortener.Infra.Redis.{RedisServer, call}
use observable_url_shortener.Infra.World.{Env, World}
use observable_url_shortener.RateLimiter.Isolation.{lua_token_bucket_other}
use observable_url_shortener.Prelude.{
  Result-cases, All, Text, codes, append_cancel, text_ne, ℕ, ◌≤◌, ◌≡◌, refl, ◌≢◌, inl, inr, [], ◌∷◌,
  ◌++◌, arith,
}

abbrev pub colon : ℕ
colon = b':'

abbrev pub NoColon : Text → Type 0
NoColon = All (λ c. c ≢ colon)

not_NoColon : (a b : Text) → NoColon (a ++ colon ∷ b) → ⊥
not_NoColon [] b h = h.0 refl
not_NoColon (c ∷ a) b h = not_NoColon a b h.1

last_colon :
    (a b r q : Text) → NoColon r → NoColon q → a ++ colon ∷ r ≡ b ++ colon ∷ q → (a ≡ b) × (r ≡ q)
last_colon [] [] r q hr hq e = (refl, cc)
last_colon [] (d ∷ b) r q hr hq e =
    let same : r ≡ b ++ colon ∷ q = cc in absurd (not_NoColon b q (rw same at hr))
last_colon (c ∷ a) [] r q hr hq e =
    let same : q ≡ a ++ colon ∷ r = cc in absurd (not_NoColon a r (rw same at hq))
last_colon (c ∷ a) (d ∷ b) r q hr hq e =
    let (same_rest, same_class) = last_colon a b r q hr hq (cc) in (cc, same_class)

-- Two pairs of a client and a route class with no colon share a bucket's key only if they are the
-- same pair, whatever colons the client identifiers hold.
pub limiter_key-injective :
    (client client' class class' : Text)
    → NoColon class
    → NoColon class'
    → limiter_key client class ≡ limiter_key client' class'
    → (client ≡ client') × (class ≡ class')
unfolding limiter_key
limiter_key-injective client client' class class' h h' e =
    last_colon client client' class class' h h' (append_cancel (codes "ratelimit:") _ _ e)

module _ {S D : Type 0} ⦃server : RedisServer S⦄ (env : Env) (client class : Text)
    (w : World S D) where
  -- From the server's time on, `check` changes what no other key holds, answered or not: neither
  -- the bucket of another client or of another route class, nor anything else.
  pub check_isolated :
      (j : Text) (t' : ℕ)
      → env.redis_time ≤ t'
      → limiter_key client class ≢ j
      → server.peek t' j (check env client class w).1.redis ≡ server.peek t' j w.redis
  unfolding check call
  check_isolated j t' later differ = elim (Result-cases (limits_for env.settings class)) [
    | inl (limits, known) ↦
        let other =
          lua_token_bucket_other env.lua env.redis_time t' (limiter_key client class) j limits.0
            limits.1 env.clock_ms 1 w.redis later (text_ne _ j differ) in
        ground (arith, other)
    | inr (e, unknown) ↦ ground arith
  ]

  pub check_state : (check env client class w).1.db ≡ w.db
  unfolding check
  check_state = ground arith
