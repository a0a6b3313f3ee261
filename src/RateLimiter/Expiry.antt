-- ===== src/RateLimiter/Expiry.antt =====
-- That the script's key may expire cannot be seen, in exact arithmetic.
use observable_url_shortener.Infra.Redis.{bucket, until, Bucket, IsNotText}
use observable_url_shortener.RateLimiter.{exact, scale, ceil_div, refill}
use observable_url_shortener.RateLimiter.Script.{available, lifetime}
use observable_url_shortener.Prelude.{
  ltb, Bool-cases, ℕ, ◌+◌, ◌*◌, ◌≤◌, ◌<◌, min, ◌≡◌, ◌↔◌, inl, inr, some, arith,
}

pub ceil_div_iff : (a b e : ℕ) → 0 < b → (ceil_div a b ≤ e) ↔ (a ≤ e * b)
ceil_div_iff a b e h = (λ p. grind arith, λ p. grind arith)

-- The bucket at `now_ms + e`, after `e` milliseconds.
pub available_later :
    (capacity rate now_ms e tokens : ℕ)
    → available exact capacity rate
        (now_ms + e)
        (some (bucket (record { tokens = tokens; ts = now_ms })))
      ≡ min (capacity * scale) (tokens + e * rate)
unfolding available refill
available_later capacity rate now_ms e tokens = ground arith

-- The key of a run at server time `t` and clock time `now_ms`, when the server is at `t + d` and
-- the clock at `now_ms + e`: that the server may have dropped it cannot be seen, if the server's
-- time has not run ahead of the clock by more than the spare second of the time to live.
pub available-until :
    (capacity rate t d now_ms e tokens : ℕ)
    → 0 < rate
    → d ≤ e + 1000
    → available exact capacity rate (now_ms + e) (
        until
          (t + lifetime exact capacity rate)
          (t + d)
          (some (bucket (record { tokens = tokens; ts = now_ms }))))
      ≡ min (capacity * scale) (tokens + e * rate)
available-until capacity rate t d now_ms e tokens positive drift =
    elim (Bool-cases (ltb (t + d) (t + lifetime exact capacity rate))) [
      | inl alive ↦ rw alive (available_later capacity rate now_ms e tokens)
      | inr expired ↦
          let full = (ceil_div_iff (capacity * scale) rate e positive).0 (ground arith) in
          rw expired (unfold available refill in ground arith)
    ]

pub until-IsNotText : (deadline t : ℕ) (b : Bucket) → IsNotText (until deadline t (some (bucket b)))
until-IsNotText deadline t b = elim (Bool-cases (ltb t deadline)) [
  | inl alive ↦ rw alive tt
  | inr expired ↦ rw expired tt
]
