-- ===== src/Api/Routes/Coherence.antt =====
-- When the cache of app/core/cache.py agrees with the table, and the Redis commands on such a
-- cache.
use observable_url_shortener.Infra.Redis.{
  RedisServer, Reply, Value, text, bucket, Fault, works, refused, lost_reply, call, refreshed,
  until,
}
use observable_url_shortener.Infra.Database.{Database}
use observable_url_shortener.Infra.World.{World}
use observable_url_shortener.Models.{Url}
use observable_url_shortener.Repository.Rows.{HasUniqueCodes, IsLasting}
use observable_url_shortener.Cache.Laws.{cache_key-injective}
use observable_url_shortener.Cache.{cache_key}
use observable_url_shortener.Limiter.{limiter_key}
use observable_url_shortener.Prelude.{
  Bool-cases, Text, text_eq, text_eq_iff, ℕ, ◌+◌, ◌*◌, ◌≤◌, ◌<◌, ◌≡◌, refl, sym, ◌∙◌, ◌≢◌, ◌⊎◌, inl,
  inr, Option, none, some, List, arith,
}

module _ {S : Type 0} ⦃server : RedisServer S⦄ where
  -- From the server time `t` on, a cached text is the destination of the one row with its code, and
  -- that row never expires.
  abbrev pub CachedIsLasting : ℕ → List Url → S → Type 0
  CachedIsLasting t rows s =
      (t' : ℕ) (code long_url : Text)
      → t ≤ t'
      → server.peek t' (cache_key code) s ≡ some (text long_url)
      → IsLasting rows code long_url

module _ {S D : Type 0} ⦃server : RedisServer S⦄ ⦃database : Database D⦄ where
  pub record IsCoherent (t : ℕ) (w : World S D) : Type 0 where
    pub unique : HasUniqueCodes (database.urls w.db)
    pub cached : CachedIsLasting t (database.urls w.db) w.redis

refreshed_text :
    (deadline t : ℕ) (held later : Option Value) (v : Text)
    → refreshed deadline t held later ≡ some (text v)
    → (held ≡ some (text v)) ⊎ (later ≡ some (text v))
refreshed_text deadline t none later v h = inr h
refreshed_text deadline t (some (bucket b)) later v h = inr h
refreshed_text deadline t (some (text x)) later v h = inl (ground arith)

until_text :
    (deadline t : ℕ) (held : Option Value) (v : Text)
    → until deadline t held ≡ some (text v)
    → held ≡ some (text v)
until_text deadline t held v h = ground arith

-- A bucket's key is no key of the cache.
pub limiter_key-ne-cache_key :
    (client class code : Text) → limiter_key client class ≢ cache_key code
unfolding limiter_key cache_key
limiter_key-ne-cache_key client class code h = ground arith

module _ {S : Type 0} ⦃server : RedisServer S⦄ (t : ℕ) (rows : List Url) (s : S) where
  pub CachedIsLasting-call :
      {A : Type 0} (fault : Fault) (command : S → Reply A × S)
      → CachedIsLasting t rows s
      → CachedIsLasting t rows (command s).1
      → CachedIsLasting t rows (call fault command s).1
  unfolding call
  CachedIsLasting-call works command before done = done
  CachedIsLasting-call refused command before done = before
  CachedIsLasting-call lost_reply command before done = done

  pub CachedIsLasting-getex :
      (ex : ℕ) (k : Text)
      → 0 < ex
      → CachedIsLasting t rows s
      → CachedIsLasting t rows (server.getex t k ex s).1
  CachedIsLasting-getex ex k positive before t' code v later held =
      let law = server.getex_peek t t' ex k (cache_key code) s later positive in
      elim (Bool-cases (text_eq k (cache_key code))) [
        | inl same ↦
            let e : k ≡ cache_key code = (text_eq_iff k (cache_key code)).0 same in
            elim (refreshed_text (t + ex * 1000) t' (server.peek t k s) (server.peek t' k s) v
              (sym (law ∙ rw same refl) ∙ held)) [
                | inl now_held ↦ before t code v (omega arith) (rw (← e) now_held)
                | inr later_held ↦ before t' code v later (rw (← e) later_held)
              ]
        | inr other ↦ before t' code v later (sym (law ∙ rw other refl) ∙ held)
      ]

  pub CachedIsLasting-set :
      (ex : ℕ) (code v : Text)
      → 0 < ex
      → IsLasting rows code v
      → CachedIsLasting t rows s
      → CachedIsLasting t rows (server.set t (cache_key code) v ex s)
  CachedIsLasting-set ex code v positive lasting before t' code' v' later held =
      let law = server.set_peek t t' ex (cache_key code) (cache_key code') v s later positive in
      elim (Bool-cases (text_eq (cache_key code) (cache_key code'))) [
        | inl same ↦
            let e : code ≡ code' =
              cache_key-injective code code'
                ((text_eq_iff (cache_key code) (cache_key code')).0 same) in
            let new : some (text v) ≡ some (text v') =
              until_text (t + ex * 1000) t' (some (text v)) v' (sym (law ∙ rw same refl) ∙ held) in
            let same_value : v ≡ v' = cc in rw (← e, ← same_value) lasting
        | inr other ↦ before t' code' v' later (sym (law ∙ rw other refl) ∙ held)
      ]
