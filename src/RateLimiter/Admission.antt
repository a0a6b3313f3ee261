-- ===== src/RateLimiter/Admission.antt =====
-- A sequence of runs of the script on one key, against a token bucket that never expires, both in
-- exact arithmetic.
use observable_url_shortener.Infra.Redis.{
  RedisServer, bucket, Bucket, Reply, reply, IsNotText, until,
}
use mathlib.Core.Path.{ap₂}
use observable_url_shortener.RateLimiter.Script.{
  available, lua_token_bucket_eq, outcome, lifetime, write_back_self,
}
use observable_url_shortener.RateLimiter.{exact, scale, Verdict, verdict, lua_token_bucket, refill}
use observable_url_shortener.RateLimiter.Ideal.{
  refilled, ideal, sum, zeros, take_one, ideal_frozen, answer,
}
use observable_url_shortener.RateLimiter.Expiry.{until-IsNotText, available-until}
use observable_url_shortener.Prelude.{
  Text, ℕ, ◌+◌, ◌*◌, ◌<◌, min, ◌≡◌, refl, ap, ◌∙◌, inl, inr, none, some, List, [], ◌∷◌, arith,
}

module _ {S : Type 0} ⦃server : RedisServer S⦄ (key : Text) (capacity rate : ℕ) where
  -- Runs on one key, each so many milliseconds after the one before, by the server's clock and by
  -- the callers'. Between two runs the server may serve other keys. The list of flags is what the
  -- runs answered.
  pub data Runs : ℕ → ℕ → S → List ℕ → List ℕ → Type 0 where
    done : {t now_ms : ℕ} {s : S} → Runs t now_ms s [] []
    run :
        {t now_ms : ℕ} {s : S} {gaps flags : List ℕ} (e : ℕ) (later : S) (v : Verdict)
        → server.peek (t + e) key later ≡ server.peek (t + e) key s
        → (lua_token_bucket exact (t + e) key capacity rate (now_ms + e) 1 later).0 ≡ reply v
        → Runs
            (t + e)
            (now_ms + e)
            (lua_token_bucket exact (t + e) key capacity rate (now_ms + e) 1 later).1
            gaps
            flags
        → Runs t now_ms s (e ∷ gaps) (v.allowed ∷ flags)

  -- From now on the key counts as a bucket with these tokens.
  record Represents (t now_ms tokens : ℕ) (s : S) : Type 0 where
    clean : (e : ℕ) → IsNotText (server.peek (t + e) key s)
    at_hand :
        (e : ℕ)
        → available exact capacity rate (now_ms + e) (server.peek (t + e) key s)
          ≡ refilled capacity rate tokens e

  Represents-run :
      (t now_ms e tokens : ℕ) (s later : S)
      → 0 < rate
      → Represents t now_ms tokens s
      → server.peek (t + e) key later ≡ server.peek (t + e) key s
      → ((lua_token_bucket exact (t + e) key capacity rate (now_ms + e) 1 later).0
          ≡ reply (verdict exact rate 1 (refilled capacity rate tokens e)))
        × Represents
            (t + e)
            (now_ms + e)
            (take_one (refilled capacity rate tokens e))
            (lua_token_bucket exact (t + e) key capacity rate (now_ms + e) 1 later).1
  Represents-run t now_ms e tokens s later positive r same =
      let held = server.peek (t + e) key later in
      let clean : IsNotText held = rw same (r.clean e) in
      let at_hand : available exact capacity rate (now_ms + e) held
          ≡ refilled capacity rate tokens e =
        rw same (r.at_hand e) in
      let eq =
        lua_token_bucket_eq exact (t + e) key capacity rate (now_ms + e) 1 later clean positive in
      let v = outcome exact capacity rate (now_ms + e) 1 held in
      let b : Bucket = record { tokens = v.tokens; ts = now_ms + e } in
      let after_run = (lua_token_bucket exact (t + e) key capacity rate (now_ms + e) 1 later).1 in
      let left : (e' : ℕ)
          → server.peek (t + e + e') key after_run
            ≡ until (t + e + lifetime exact capacity rate) (t + e + e') (some (bucket b)) =
        λ e'.
          ap (λ (p : Reply Verdict × S). server.peek (t + e + e') key p.1) eq
          ∙ write_back_self (t + e) (t + e + e') key (lifetime exact capacity rate) b later
              (omega arith) (omega arith) clean in
      let spent : v.tokens ≡ take_one (refilled capacity rate tokens e) =
        rw at_hand (unfold verdict in ground arith) in
      (
        ap (λ (p : Reply Verdict × S). p.0) eq ∙ rw at_hand refl,
        record {
          clean = λ e'. rw (left e') (until-IsNotText _ (t + e + e') b);
          at_hand = λ e'. rw (left e') (
              available-until capacity rate (t + e) e' (now_ms + e) e' v.tokens positive
                (omega arith)
              ∙ rw spent refl);
        },
      )

  Runs-ideal :
      {t now_ms : ℕ} {s : S} {gaps flags : List ℕ} (tokens : ℕ)
      → 0 < rate
      → Represents t now_ms tokens s
      → Runs t now_ms s gaps flags
      → flags ≡ ideal capacity rate tokens gaps
  unfolding ideal
  Runs-ideal tokens positive r done = refl
  Runs-ideal {t} {now_ms} {s} tokens positive r (run e later v same answered rest) =
      let (eq, r') = Represents-run t now_ms e tokens s later positive r same in
      let ih = Runs-ideal (take_one (refilled capacity rate tokens e)) positive r' rest in
      let here : v ≡ verdict exact rate 1 (refilled capacity rate tokens e) = cc in
      let flag : v.allowed ≡ answer (refilled capacity rate tokens e) =
        rw here (unfold verdict in ground arith) in
      ap₂ ◌∷◌ flag ih

  Represents-cold :
      (t now_ms : ℕ) (s : S) → server.peek t key s ≡ none → Represents t now_ms (capacity * scale) s
  Represents-cold t now_ms s cold = record {
    clean = λ e. rw (still e) tt;
    at_hand = λ e. rw (still e) (unfold available refill in ground arith);
  }
    where
      still : (e : ℕ) → server.peek (t + e) key s ≡ none
      still e = elim (server.peek_later t (t + e) key s (omega arith)) [
        | inl gone ↦ gone
        | inr same ↦ same ∙ cold
      ]

  -- In arithmetic without rounding, the script answers on a key that Redis does not hold as the
  -- ideal bucket that starts full and never expires, whatever the gaps between the runs. The refill
  -- is positive, and both clocks pass through the same gaps.
  pub script-ideal :
      {t now_ms : ℕ} {s : S} {gaps flags : List ℕ}
      → 0 < rate
      → server.peek t key s ≡ none
      → Runs t now_ms s gaps flags
      → flags ≡ ideal capacity rate (capacity * scale) gaps
  script-ideal {t} {now_ms} {s} positive cold runs =
      Runs-ideal (capacity * scale) positive (Represents-cold t now_ms s cold) runs

  -- While the clock stands still, `n` requests from a cold key admit exactly the capacity, or all
  -- `n` of them where they are fewer.
  pub frozen_admissions :
      (n : ℕ) {t now_ms : ℕ} {s : S} {flags : List ℕ}
      → 0 < rate
      → server.peek t key s ≡ none
      → Runs t now_ms s (zeros n) flags
      → sum flags ≡ min n capacity
  frozen_admissions n positive cold runs =
      rw (script-ideal positive cold runs) (ideal_frozen capacity rate capacity n (omega arith))
