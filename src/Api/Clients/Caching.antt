-- ===== src/Api/Clients/Caching.antt =====
-- `@lru_cache` around a body, and `get_settings` of app/config.py.
use observable_url_shortener.Config.{Settings}
use observable_url_shortener.Api.Clients.State.{
  OnOk, IsShared, Extends, Extends-refl, with_settings, with_settings-IsShared,
  with_settings-Extends,
}
use observable_url_shortener.Api.Clients.{
  keep_settings, settings_body, Process, get_settings, lru_cache, recall,
}
use observable_url_shortener.Config.Loading.{Pydantic, load}
use observable_url_shortener.Config.Loading.Given.{load_lem}
use observable_url_shortener.Prelude.{
  Option-cases, Error, Result, Action, ◌>>=◌, Result-cases, ok, err, ◌≡◌, refl, ◌⊎◌, inl, inr,
  Option, none, some,
}

-- An outcome that keeps what `p` kept, and a result that satisfies `Q`.
abbrev pub Served : {A : Type 0} → Process → (A → Process → Type 0) → Result A × Process → Type 0
Served p Q out = IsShared out.1 × Extends p out.1 × OnOk (λ a. Q a out.1) out.0

module _ {A : Type 0} (kept : Process → Option A) (keep : A → Process → Process)
    (body : Action Process A) (p : Process) where
  pub lru_cache_hit : (a : A) → kept p ≡ some a → lru_cache kept keep body p ≡ (ok a, p)
  unfolding lru_cache recall ◌>>=◌
  lru_cache_hit a h = rw h refl

  module _ (q : Process) (unset : kept p ≡ none) where
    pub lru_cache_ok : (a : A) → body p ≡ (ok a, q) → lru_cache kept keep body p ≡ (ok a, keep a q)
    unfolding lru_cache recall ◌>>=◌
    lru_cache_ok a h = rw (unset, h) refl

    pub lru_cache_err : (e : Error) → body p ≡ (err e, q) → lru_cache kept keep body p ≡ (err e, q)
    unfolding lru_cache recall ◌>>=◌
    lru_cache_err e h = rw (unset, h) refl

module _ (pydantic : Pydantic) (p : Process) where
  pub settings_hit : (s : Settings) → p.settings ≡ some s → get_settings pydantic p ≡ (ok s, p)
  unfolding get_settings
  settings_hit s h = lru_cache_hit (λ p'. p'.settings) keep_settings (settings_body pydantic) p s h

  pub settings_missed :
      (e : Error)
      → p.settings ≡ none
      → load pydantic p.source ≡ err e
      → get_settings pydantic p ≡ (err e, p)
  unfolding get_settings settings_body
  settings_missed e h loaded =
      lru_cache_err (λ p'. p'.settings) keep_settings (settings_body pydantic) p p h e
        (rw loaded refl)

  pub settings_loaded :
      (s : Settings)
      → p.settings ≡ none
      → load pydantic p.source ≡ ok s
      → get_settings pydantic p ≡ (ok s, with_settings s p)
  unfolding get_settings with_settings settings_body
  settings_loaded s h loaded =
      lru_cache_ok (λ p'. p'.settings) keep_settings (settings_body pydantic) p p h s
        (rw loaded refl)

  abbrev pub IsSettingsOf : Settings → Process → Type 0
  IsSettingsOf s q =
      (q.settings ≡ some s)
      × (q.redis_client ≡ p.redis_client)
      × (q.rate_limiter ≡ p.rate_limiter)
      × (q.url_cache ≡ p.url_cache)

  pub get_settings-Served : IsShared p → Served p IsSettingsOf (get_settings pydantic p)
  unfolding with_settings
  get_settings-Served shared = elim (Option-cases p.settings) [
    | inr (s, held) ↦ rw (settings_hit s held) (shared, Extends-refl p, (held, refl, refl, refl))
    | inl unset ↦ elim (Result-cases (load pydantic p.source)) [
      | inr (e, failed) ↦ rw (settings_missed e unset failed) (shared, Extends-refl p, tt)
      | inl (s, loaded) ↦ rw (settings_loaded s unset loaded) (
        with_settings-IsShared p shared s unset ((load_lem pydantic p.source).1 s loaded),
        with_settings-Extends p s unset,
        (refl, refl, refl, refl),
      )
    ]
  ]

pub Served-cases :
    {A : Type 0} (p : Process) (Q : A → Process → Type 0) (out : Result A × Process)
    → Served p Q out
    → (q : Process) × IsShared q
      × Extends p q
      × (((a : A) × (out ≡ (ok a, q)) × Q a q) ⊎ ((e : Error) × (out ≡ (err e, q))))
Served-cases p Q (ok a, q) h = (q, h.0, h.1, inl (a, refl, h.2))
Served-cases p Q (err e, q) h = (q, h.0, h.1, inr (e, refl))
