-- ===== src/RateLimiter/Skew.antt =====
-- Two callers of the script (app/core/rate_limiter.py) whose clocks differ: the script keeps the
-- time of the last caller, also of one whose clock is behind.
use observable_url_shortener.Infra.Lua.{Lua}
use observable_url_shortener.Infra.Redis.{RedisServer, bucket, Bucket, Reply, reply, IsNotText}
use observable_url_shortener.RateLimiter.{Verdict, verdict, refill, lua_token_bucket}
use observable_url_shortener.RateLimiter.Script.{
  available, outcome, lifetime, lua_token_bucket_eq, write_back_self,
}
use observable_url_shortener.Prelude.{
  ltb, if◌then◌else◌, Text, ℕ, zero, suc, ◌+◌, ◌-◌, ◌*◌, ◌≤◌, ◌<◌, min, ◌≡◌, refl, ap, ◌∙◌, some,
  arith,
}

-- The whole numbers up to here, and with them the rest of the division by 1, are doubles.
abbrev most : ℕ
most = 9007199254740992

module _ (lua : Lua) where
  verdict_granted :
      (rate at_hand : ℕ)
      → lua.one ≤ at_hand
      → at_hand ≤ most * lua.one
      → ((verdict lua rate 1 at_hand).allowed ≡ 1)
        × ((verdict lua rate 1 at_hand).tokens ≡ at_hand - lua.one)
  unfolding verdict
  verdict_granted rate at_hand enough fits =
      let exactly = lua.sub_whole 1 at_hand (omega arith) fits in (ground arith, ground arith)

  refill_behind :
      (capacity rate now_ms b tokens : ℕ)
      → refill lua capacity rate now_ms (record { tokens = tokens; ts = now_ms + b })
        ≡ min (capacity * lua.one) tokens
  unfolding refill
  refill_behind capacity rate now_ms b tokens =
      let still : (if ltb now_ms (now_ms + b) then 0 else now_ms - (now_ms + b)) ≡ 0 =
        ground arith in
      rw (still, lua.mul_zero (lua.per_ms rate), lua.add_zero tokens) refl

  -- The refill credits the time that has passed, or fills the bucket.
  refill_on_time :
      (capacity rate now_ms b tokens : ℕ)
      → min (capacity * lua.one) (lua.mul b (lua.per_ms rate))
        ≤ refill lua capacity rate (now_ms + b) (record { tokens = tokens; ts = now_ms })
  unfolding refill
  refill_on_time capacity rate now_ms b tokens =
      let passed : (if ltb (now_ms + b) now_ms then 0 else now_ms + b - now_ms) ≡ b =
        ground arith in
      let grown = lua.add_upper tokens (lua.mul b (lua.per_ms rate)) in rw passed (omega arith)

  refill-le-capacity :
      (capacity rate now_ms : ℕ) (bucket' : Bucket)
      → refill lua capacity rate now_ms bucket' ≤ capacity * lua.one
  unfolding refill
  refill-le-capacity capacity rate now_ms bucket' = omega arith

mul_mono : (a b c : ℕ) → a ≤ b → a * c ≤ b * c
mul_mono a b c h = grind arith

module _ {S : Type 0} ⦃server : RedisServer S⦄ (lua : Lua) (key : Text)
    (t now_ms b capacity rate : ℕ) where
  -- A run of the caller whose clock is `b` milliseconds behind, and one of the other.
  abbrev pub behind : S → Reply Verdict × S
  behind s = lua_token_bucket lua t key capacity rate now_ms 1 s

  abbrev pub on_time : S → Reply Verdict × S
  on_time s = lua_token_bucket lua t key capacity rate (now_ms + b) 1 s

  abbrev pub Allows : Reply Verdict × S → Type 0
  Allows run = (v : Verdict) × (run.0 ≡ reply v) × (v.allowed ≡ 1)

  -- The two callers take turns, so many times, and every run allows.
  abbrev pub AllAllowed : ℕ → S → Type 0
  AllAllowed zero s = Unit
  AllAllowed (suc n) s =
      Allows (behind s) × Allows (on_time (behind s).1) × AllAllowed n (on_time (behind s).1).1

  -- The key holds a bucket of the caller on time, with these tokens.
  abbrev Holds : ℕ → ℕ → S → Type 0
  Holds ts tokens s = server.peek t key s ≡ some (bucket (record { tokens = tokens; ts = ts }))

  run-Allows :
      (clock ts tokens : ℕ) (s : S)
      → capacity ≤ most
      → 0 < lua.per_ms rate
      → Holds ts tokens s
      → let at_hand = refill lua capacity rate clock (record { tokens = tokens; ts = ts }) in
        lua.one ≤ at_hand
        → Allows (lua_token_bucket lua t key capacity rate clock 1 s)
          × Holds clock (at_hand - lua.one) (lua_token_bucket lua t key capacity rate clock 1 s).1
  run-Allows clock ts tokens s small positive held enough =
      let at_hand = refill lua capacity rate clock (record { tokens = tokens; ts = ts }) in
      let clean : IsNotText (server.peek t key s) = rw held tt in
      let seen : available lua capacity rate clock (server.peek t key s) ≡ at_hand =
        rw held (unfold available in refl) in
      let v = verdict lua rate 1 at_hand in
      let full = refill-le-capacity lua capacity rate clock (record { tokens = tokens; ts = ts }) in
      let room : capacity * lua.one ≤ most * lua.one = mul_mono capacity most lua.one small in
      let (granted, spent) = verdict_granted lua rate at_hand enough (omega arith) in
      let run = lua_token_bucket_eq lua t key capacity rate clock 1 s clean positive in
      let left =
        ap (λ (p : Reply Verdict × S). server.peek t key p.1) run
        ∙ write_back_self t t key (lifetime lua capacity rate)
            (record {
              tokens = (outcome lua capacity rate clock 1 (server.peek t key s)).tokens;
              ts = clock;
            })
            s (omega arith) (omega arith) clean in
      (
        (v, ap (λ (p : Reply Verdict × S). p.0) run ∙ rw seen refl, granted),
        left ∙ rw (seen, spent) (ground arith),
      )

  -- While no time passes, requests of two callers whose clocks differ by enough for two tokens, as
  -- the script computes them, taking turns, are all allowed, however many they are. The bucket has
  -- room for two tokens, and one at the start, which the caller with the later clock has left; its
  -- capacity is a number that doubles count up to, and the refill of a millisecond is not 0.
  pub skew_unbounded :
      (n tokens : ℕ) (s : S)
      → 2 ≤ capacity
      → capacity ≤ most
      → 0 < lua.per_ms rate
      → 2 * lua.one ≤ lua.mul b (lua.per_ms rate)
      → lua.one ≤ tokens
      → server.peek t key s ≡ some (bucket (record { tokens = tokens; ts = now_ms + b }))
      → AllAllowed n s
  skew_unbounded zero tokens s room small positive skew enough held = tt
  skew_unbounded (suc n) tokens s room small positive skew enough held =
      let start : Bucket = record { tokens = tokens; ts = now_ms + b } in
      let first = refill lua capacity rate now_ms start in
      let kept = refill_behind lua capacity rate now_ms b tokens in
      let wide : 2 * lua.one ≤ capacity * lua.one = mul_mono 2 capacity lua.one room in
      let (allowed, held') =
        run-Allows now_ms (now_ms + b) tokens s small positive held (omega arith) in
      let middle : Bucket = record { tokens = first - lua.one; ts = now_ms } in
      let second = refill lua capacity rate (now_ms + b) middle in
      let credited = refill_on_time lua capacity rate now_ms b (first - lua.one) in
      let (allowed', held'') =
        run-Allows (now_ms + b) now_ms (first - lua.one) (behind s).1 small positive held'
          (omega arith) in
      (
        allowed,
        allowed',
        skew_unbounded n (second - lua.one) (on_time (behind s).1).1 room small positive skew
            (omega arith) held'',
      )
