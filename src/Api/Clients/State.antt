-- ===== src/Api/Clients/State.antt =====
-- The objects that a process keeps for app/api/dependencies.py: what it means that they are shared,
-- and what a process keeps as it goes on.
use observable_url_shortener.Config.{Settings, IsAccepted}
use observable_url_shortener.Api.Clients.{Process, RedisClient, RateLimiter, UrlCache}
use observable_url_shortener.Prelude.{
  Result, ok, err, ℕ, ◌+◌, ◌≡◌, refl, sym, Option, none, some, arith,
}

-- How many objects a cache holds.
abbrev pub count : {A : Type 0} → Option A → ℕ
count none = 0
count (some a) = 1

abbrev pub OnSome : {A : Type 0} → (A → Type 0) → Option A → Type 0
OnSome P none = Unit
OnSome P (some a) = P a

abbrev pub OnOk : {A : Type 0} → (A → Type 0) → Result A → Type 0
OnOk P (err e) = Unit
OnOk P (ok a) = P a

-- The objects that a process keeps share one client and one settings object.
pub record IsShared (p : Process) : Type 0 where
  pub settings : OnSome IsAccepted p.settings
  pub client :
      OnSome (λ c. (s : Settings) × (p.settings ≡ some s) × (c.url ≡ s.redis_url)) p.redis_client
  pub limiter :
      OnSome (λ l. (p.redis_client ≡ some l.redis) × (p.settings ≡ some l.settings)) p.rate_limiter
  pub cache :
      OnSome (λ u. (p.redis_client ≡ some u.redis) × (p.settings ≡ some u.settings)) p.url_cache
  pub clients : p.clients ≡ count p.redis_client
  pub scripts : p.scripts ≡ count p.rate_limiter

-- What `p` keeps, `q` keeps.
pub record Extends (p q : Process) : Type 0 where
  pub settings : (s : Settings) → p.settings ≡ some s → q.settings ≡ some s
  pub client : (c : RedisClient) → p.redis_client ≡ some c → q.redis_client ≡ some c
  pub limiter : (l : RateLimiter) → p.rate_limiter ≡ some l → q.rate_limiter ≡ some l
  pub cache : (u : UrlCache) → p.url_cache ≡ some u → q.url_cache ≡ some u

pub Extends-refl : (p : Process) → Extends p p
Extends-refl p = record {
  settings = λ s h. h;
  client = λ c h. h;
  limiter = λ l h. h;
  cache = λ u h. h;
}

pub some_injective : {A : Type 0} (a b : A) → some a ≡ some b → a ≡ b
some_injective a b h = cc

pub OnSome_none : {A : Type 0} (P : A → Type 0) (o : Option A) → o ≡ none → OnSome P o
OnSome_none P none h = tt
OnSome_none P (some a) h = ground arith

pub OnSome_absurd :
    {A : Type 0} (P : A → Type 0) (o : Option A) → OnSome P o → ((a : A) → P a → ⊥) → o ≡ none
OnSome_absurd P none h f = refl
OnSome_absurd P (some a) h f = elim (f a h) [ ]

pub OnSome_some :
    {A : Type 0} (P : A → Type 0) (o : Option A) (a : A) → o ≡ some a → OnSome P o → P a
OnSome_some P none a h e = ground arith
OnSome_some P (some b) a h e = rw (sym (some_injective b a h)) e

-- What a function without a kept result leaves behind when its body returns.
unfoldable pub with_settings : Settings → Process → Process
with_settings s p = record p { settings = some s }

unfoldable pub with_client : RedisClient → Process → Process
with_client c p = record p { redis_client = some c; clients = p.clients + 1 }

unfoldable pub with_limiter : RateLimiter → Process → Process
with_limiter l p = record p { rate_limiter = some l; scripts = p.scripts + 1 }

unfoldable pub with_cache : UrlCache → Process → Process
with_cache u p = record p { url_cache = some u }

module _ (p : Process) (shared : IsShared p) where
  pub no_client : p.settings ≡ none → p.redis_client ≡ none
  no_client unset = OnSome_absurd _ p.redis_client shared.client λ c h. ground arith

  pub no_limiter : p.redis_client ≡ none → p.rate_limiter ≡ none
  no_limiter unset = OnSome_absurd _ p.rate_limiter shared.limiter λ l h. ground arith

  pub no_cache : p.redis_client ≡ none → p.url_cache ≡ none
  no_cache unset = OnSome_absurd _ p.url_cache shared.cache λ u h. ground arith

  pub with_settings-IsShared :
      (s : Settings) → p.settings ≡ none → IsAccepted s → IsShared (with_settings s p)
  unfolding with_settings
  with_settings-IsShared s unset accepted = record {
    settings = accepted;
    client = OnSome_none _ p.redis_client (no_client unset);
    limiter = OnSome_none _ p.rate_limiter (no_limiter (no_client unset));
    cache = OnSome_none _ p.url_cache (no_cache (no_client unset));
    clients = shared.clients;
    scripts = shared.scripts;
  }

  pub with_client-IsShared :
      (s : Settings) (c : RedisClient)
      → p.redis_client ≡ none
      → p.settings ≡ some s
      → c.url ≡ s.redis_url
      → IsShared (with_client c p)
  unfolding with_client
  with_client-IsShared s c unset held url = record {
    settings = shared.settings;
    client = (s, held, url);
    limiter = OnSome_none _ p.rate_limiter (no_limiter unset);
    cache = OnSome_none _ p.url_cache (no_cache unset);
    clients = let none_yet : p.clients ≡ 0 = rw (shared.clients, unset) refl in omega arith;
    scripts = shared.scripts;
  }

  pub with_limiter-IsShared :
      (l : RateLimiter)
      → p.rate_limiter ≡ none
      → p.redis_client ≡ some l.redis
      → p.settings ≡ some l.settings
      → IsShared (with_limiter l p)
  unfolding with_limiter
  with_limiter-IsShared l unset client settings = record {
    settings = shared.settings;
    client = shared.client;
    limiter = (client, settings);
    cache = shared.cache;
    clients = shared.clients;
    scripts = let none_yet : p.scripts ≡ 0 = rw (shared.scripts, unset) refl in omega arith;
  }

  pub with_cache-IsShared :
      (u : UrlCache)
      → p.redis_client ≡ some u.redis
      → p.settings ≡ some u.settings
      → IsShared (with_cache u p)
  unfolding with_cache
  with_cache-IsShared u client settings = record {
    settings = shared.settings;
    client = shared.client;
    limiter = shared.limiter;
    cache = (client, settings);
    clients = shared.clients;
    scripts = shared.scripts;
  }

pub Extends-trans : (p q r : Process) → Extends p q → Extends q r → Extends p r
Extends-trans p q r h k = record {
  settings = λ s e. k.settings s (h.settings s e);
  client = λ c e. k.client c (h.client c e);
  limiter = λ l e. k.limiter l (h.limiter l e);
  cache = λ u e. k.cache u (h.cache u e);
}

module _ (p : Process) where
  pub with_settings-Extends : (s : Settings) → p.settings ≡ none → Extends p (with_settings s p)
  unfolding with_settings
  with_settings-Extends s unset = record {
    settings = λ s' e. ground arith;
    client = λ c e. e;
    limiter = λ l e. e;
    cache = λ u e. e;
  }

  pub with_client-Extends : (c : RedisClient) → p.redis_client ≡ none → Extends p (with_client c p)
  unfolding with_client
  with_client-Extends c unset = record {
    settings = λ s e. e;
    client = λ c' e. ground arith;
    limiter = λ l e. e;
    cache = λ u e. e;
  }

  pub with_limiter-Extends :
      (l : RateLimiter) → p.rate_limiter ≡ none → Extends p (with_limiter l p)
  unfolding with_limiter
  with_limiter-Extends l unset = record {
    settings = λ s e. e;
    client = λ c e. e;
    limiter = λ l' e. ground arith;
    cache = λ u e. e;
  }

  pub with_cache-Extends : (u : UrlCache) → p.url_cache ≡ none → Extends p (with_cache u p)
  unfolding with_cache
  with_cache-Extends u unset = record {
    settings = λ s e. e;
    client = λ c e. e;
    limiter = λ l e. e;
    cache = λ u' e. ground arith;
  }
