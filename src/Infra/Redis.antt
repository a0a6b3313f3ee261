-- ===== src/Infra/Redis.antt =====
-- The Redis server, which is not part of the repository: its commands as operations on a state `S`,
-- and what their documentation says of them, in terms of what a key holds at a server time in
-- milliseconds. The server may also fail to answer a call.
use observable_url_shortener.Prelude.{
  ltb, if◌then◌else◌, Text, text_eq, ℕ, ◌+◌, ◌*◌, ◌≤◌, ◌<◌, ◌≡◌, ◌⊎◌, false, Option, none, some,
}

-- The hash of a bucket. An amount of tokens is a number of Lua's, in its units (Infra/Lua.antt),
-- which is written with all its digits, and read back.
pub record Bucket : Type 0 where
  pub tokens : ℕ
  pub ts : ℕ

pub data Value : Type 0 where
  text : Text → Value
  bucket : Bucket → Value

-- What a call returns to redis-py: an answer, or an exception below `RedisError`.
pub data Reply (A : Type 0) : Type 0 where
  reply : A → Reply A
  redis_error : Reply A

-- A string command on a hash, and a hash command on a string, is refused.
abbrev pub as_text : Option Value → Reply (Option Text)
as_text none = reply none
as_text (some (text v)) = reply (some v)
as_text (some (bucket b)) = redis_error

abbrev pub as_fields : Option Value → Reply (Option ℕ × Option ℕ)
as_fields none = reply (none, none)
as_fields (some (text v)) = redis_error
as_fields (some (bucket b)) = reply (some b.tokens, some b.ts)

-- What is left at time `t` of a value with a deadline.
abbrev pub until : ℕ → ℕ → Option Value → Option Value
until deadline t v = if ltb t deadline then v else none

-- What a key holds at time `t` after `GETEX`: the deadline of a string is set anew.
abbrev pub refreshed : ℕ → ℕ → Option Value → Option Value → Option Value
refreshed deadline t (some (text v)) later = until deadline t (some (text v))
refreshed deadline t held later = later

abbrev pub IsNotText : Option Value → Type 0
IsNotText (some (text v)) = ⊥
IsNotText _ = Unit

pub record RedisServer (S : Type 0) : Type 0 where
  pub peek : ℕ → Text → S → Option Value
  pub getex : ℕ → Text → (ex : ℕ) → S → Reply (Option Text) × S
  pub set : ℕ → Text → Text → (ex : ℕ) → S → S
  pub delete : ℕ → Text → S → S
  pub hmget : ℕ → Text → S → Reply (Option ℕ × Option ℕ)
  pub hset : ℕ → Text → Bucket → S → S
  -- The time to live is `none` for a number that is not finite, which is refused.
  pub pexpire : ℕ → Text → Option ℕ → S → Reply (Unit {0}) × S
  -- A key holds what it held, or has expired.
  pub peek_later :
      (t t' : ℕ) (k : Text) (s : S) → t ≤ t' → (peek t' k s ≡ none) ⊎ (peek t' k s ≡ peek t k s)
  pub getex_reply : (t ex : ℕ) (k : Text) (s : S) → (getex t k ex s).0 ≡ as_text (peek t k s)
  pub getex_peek :
      (t t' ex : ℕ) (k j : Text) (s : S)
      → t ≤ t'
      → 0 < ex
      → peek t' j (getex t k ex s).1 ≡ (
          if text_eq k j
          then refreshed (t + ex * 1000) t' (peek t k s) (peek t' k s)
          else peek t' j s)
  pub set_peek :
      (t t' ex : ℕ) (k j v : Text) (s : S)
      → t ≤ t'
      → 0 < ex
      → peek t' j (set t k v ex s)
        ≡ (if text_eq k j then until (t + ex * 1000) t' (some (text v)) else peek t' j s)
  pub delete_peek :
      (t t' : ℕ) (k j : Text) (s : S)
      → t ≤ t'
      → peek t' j (delete t k s) ≡ (if text_eq k j then none else peek t' j s)
  pub hmget_reply : (t : ℕ) (k : Text) (s : S) → hmget t k s ≡ as_fields (peek t k s)
  pub hset_peek_self :
      (t : ℕ) (k : Text) (b : Bucket) (s : S)
      → IsNotText (peek t k s)
      → peek t k (hset t k b s) ≡ some (bucket b)
  pub hset_peek_other :
      (t t' : ℕ) (k j : Text) (b : Bucket) (s : S)
      → t ≤ t'
      → text_eq k j ≡ false
      → peek t' j (hset t k b s) ≡ peek t' j s
  pub pexpire_infinite : (t : ℕ) (k : Text) (s : S) → pexpire t k none s ≡ (redis_error, s)
  pub pexpire_reply : (t ms : ℕ) (k : Text) (s : S) → (pexpire t k (some ms) s).0 ≡ reply tt
  pub pexpire_peek :
      (t t' ms : ℕ) (k j : Text) (s : S)
      → t ≤ t'
      → 0 < ms
      → peek t' j (pexpire t k (some ms) s).1
        ≡ (if text_eq k j then until (t + ms) t' (peek t k s) else peek t' j s)

-- How one call meets the network: it works, it never reaches the server, or it is executed and its
-- answer is lost. In the last two cases redis-py raises.
pub data Fault : Type 0 where
  works refused lost_reply : Fault

unfoldable pub call : {A S : Type 0} → Fault → (S → Reply A × S) → S → Reply A × S
call works command s = command s
call refused command s = (redis_error, s)
call lost_reply command s = (redis_error, (command s).1)
