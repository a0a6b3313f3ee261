-- ===== src/Api/Routes/Tests.antt =====
-- Runs of the handlers, as in tests/integration/test_redirect_flow.py.
use observable_url_shortener.Infra.World.{World, ask, observe}
use observable_url_shortener.Repository.{is_expired, in_session, code_exists}
use observable_url_shortener.Repository.Rows.{with_code, HasUniqueCodes}
use observable_url_shortener.Models.{Url, url_fits}
use observable_url_shortener.Api.Routes.{
  post_url, expiry, create_url, redirect, get_short_url, choose_code, add_url,
}
use observable_url_shortener.Api.Dependencies.{rate_limit, get_client_identifier}
use observable_url_shortener.Limiter.{check, limits_for, redirect_class}
use observable_url_shortener.Repository
use observable_url_shortener.Infra.Redis.{call}
use observable_url_shortener.Api.Routes.Coherence.{IsCoherent}
use observable_url_shortener.Schemas.{
  build, validate_request, validate_custom_code, validate_expires_in_days, rstrip_slash,
  CreateUrlRequest, UrlResponse,
}
use observable_url_shortener.Api.Routes.Outcome.{IsCreated, create_url_lem, create_url_custom_lem}
use observable_url_shortener.Api.Routes.Service.{Reached, start, url_requested, Reached-IsCoherent}
use observable_url_shortener.Api.Routes.Resolution.{response_to, IsDead, redirect_lem}
use observable_url_shortener.Examples.Keyspace.{keyspace, Keyspace}
use observable_url_shortener.Examples.Tables.{tables, Tables}
use observable_url_shortener.Examples.Inputs.{
  local_settings-IsAccepted, env, env_without_redis, promo, promo_row, world, request, client,
  one_row-HasUniqueCodes,
}
use observable_url_shortener.Api.Routes.Race.{
  Pending, Racing, Steps, IsDistinct, finish, next, HasOneRow, here, chosen, race_lem, finished,
}
use observable_url_shortener.Prelude.{
  Error, ◌>>=◌, http_exception, ok, err, All, pos, codes, text_eq, ℕ, ◌+◌, ◌*◌, ◌≡◌, refl, ◌≢◌, ◌⊎◌,
  false, none, some, [], ◌∷◌, arith,
}

world-IsCoherent : {t : ℕ} → IsCoherent t world
world-IsCoherent = record {
  unique = one_row-HasUniqueCodes promo_row;
  cached = λ t code long_url later held. cc;
}

redirect_lem_example :
    ((u : Url) × (with_code promo (promo_row ∷ []) ≡ u ∷ [])
      × (is_expired u 1000 ≡ false)
      × ((redirect env_without_redis promo request client world).0
          ≡ ok (response_to env_without_redis promo request client u.long_url)))
    ⊎ (IsDead (promo_row ∷ []) 1000 promo
        × ((redirect env_without_redis promo request client world).0
            ≡ err (http_exception 404 none)))
redirect_lem_example =
    redirect_lem env_without_redis promo request client world world-IsCoherent refl

-- A first request, which fills the cache.
abbrev visited : World Keyspace Tables
visited = (get_short_url env promo request world).1

visited-Reached : Reached 0 world 1000 visited
visited-Reached = url_requested env promo request start (omega arith) local_settings-IsAccepted

Reached-IsCoherent_example : IsCoherent 1000 visited
Reached-IsCoherent_example = Reached-IsCoherent 0 world world-IsCoherent visited-Reached

abbrev pub payload : CreateUrlRequest
payload = record {
  long_url = codes "https://example.org/";
  custom_code = some (codes "spring");
  expires_in_days = some (pos 7);
}

create_url_lem_example :
    ((response : UrlResponse) × ((in_session env (create_url env payload client) world).0
        ≡ ok response)
      × IsCreated env payload client
          (promo_row ∷ [])
          (in_session env (create_url env payload client) world).1.db.urls
          response)
    ⊎ ((e : Error) × ((in_session env (create_url env payload client) world).0 ≡ err e)
        × ((in_session env (create_url env payload client) world).1.db ≡ world.db))
create_url_lem_example = create_url_lem env payload client world (one_row-HasUniqueCodes promo_row)

create_url_custom_lem_example :
    ((with_code (codes "spring") (promo_row ∷ []) ≡ [])
      × (response : UrlResponse) × ((in_session env (create_url env payload client) world).0
          ≡ ok response)
      × (response.short_code ≡ codes "spring"))
    ⊎ ((with_code (codes "spring") (promo_row ∷ []) ≢ [])
        × ((in_session env (create_url env payload client) world).0
            ≡ err (http_exception 409 none)))
create_url_custom_lem_example =
    create_url_custom_lem env payload client (codes "spring") world refl (omega arith) (omega arith)
      refl refl refl (one_row-HasUniqueCodes promo_row)

-- Two requests for one custom code that both find it free.
abbrev contender : Pending
contender = record { env = env; payload = payload; client_id = client; short_code = codes "spring" }

abbrev at_first : Racing Keyspace Tables
at_first = record { world = world; pending = []; answered = [] }

abbrev both_checked : Racing Keyspace Tables
both_checked = record {
  world = (choose_code env payload.custom_code (choose_code env payload.custom_code world).1).1;
  pending = contender ∷ contender ∷ [];
  answered = [];
}

abbrev both_finished : Racing Keyspace Tables
both_finished = finish contender [] (finish contender (contender ∷ []) both_checked)

check_free : (choose_code env payload.custom_code world).0 ≡ ok (codes "spring")
unfolding choose_code code_exists text_eq ◌>>=◌
check_free = refl

check_free_again :
    (choose_code env payload.custom_code (choose_code env payload.custom_code world).1).0
    ≡ ok (codes "spring")
unfolding choose_code code_exists text_eq ◌>>=◌
check_free_again = refl

race : Steps at_first both_finished
race =
    next
      (next
        (next (next here (chosen at_first env payload client (codes "spring") check_free))
          (chosen _ env payload client (codes "spring") check_free_again))
        (finished both_checked [] (contender ∷ []) contender refl))
      (finished (finish contender (contender ∷ []) both_checked) [] [] contender refl)

race_lem_example :
    IsDistinct both_finished.answered
    × All (HasOneRow both_finished.world.db.urls) both_finished.answered
    × HasUniqueCodes both_finished.world.db.urls
race_lem_example = race_lem at_first both_finished (one_row-HasUniqueCodes promo_row) refl race

-- A URL is shortened, its code is requested once, and then again, without Redis at first and at
-- last.
abbrev shortened : World Keyspace Tables
shortened = (post_url env_without_redis payload request world).1

abbrev pub visited_once : World Keyspace Tables
visited_once = (get_short_url env (codes "spring") request shortened).1

abbrev pub spring : UrlResponse
spring = record {
  short_code = codes "spring";
  short_url = codes "http://localhost:8000/spring";
  long_url = codes "https://example.org/";
  expires_at = some (1000 + 7 * 86400000);
}

pub posted : (post_url env_without_redis payload request world).0 ≡ ok spring
unfolding post_url rate_limit check text_eq call limits_for validate_request validate_custom_code
    validate_expires_in_days in_session create_url choose_code build ask observe
    Repository.create_url code_exists rstrip_slash add_url url_fits get_client_identifier expiry
posted = refl

pub passed :
    (rate_limit env_without_redis redirect_class (get_client_identifier request) visited_once).0
    ≡ ok tt
unfolding rate_limit check text_eq call limits_for ask observe
passed = refl

pub spring-Reached : Reached 1000 shortened 1000 visited_once
spring-Reached =
    url_requested env (codes "spring") request start (omega arith) local_settings-IsAccepted
