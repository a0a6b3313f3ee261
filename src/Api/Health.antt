-- ===== src/Api/Health.antt =====
-- app/api/health.py: the probes.
pub mod Readiness
pub mod Tests
use observable_url_shortener.Infra.World.{World, Env}
use observable_url_shortener.Repository.{in_session}
use observable_url_shortener.Prelude.{
  if◌then◌else◌, Error, Action, pure, catch, ◌>>=◌, ◌>>◌, ok, Text, codes, ℕ, Bool, true, false,
  List, [], ◌∷◌, ◌++◌,
}

abbrev pub Checks : Type 0
Checks = List (Text × Text)

-- `checks[…]` and `healthy` between the statements of `ready`.
pub record Progress : Type 0 where
  pub checks : Checks
  pub healthy : Bool

pub record ProbeResponse : Type 0 where
  pub status_code : ℕ
  pub status : Text
  pub checks : Checks

-- `health`
unfoldable pub health : ProbeResponse
health = record { status_code = 200; status = codes "ok"; checks = [] }

pub ready_response : Progress → ProbeResponse
ready_response p = record {
  status_code = if p.healthy then 200 else 503;
  status = if p.healthy then codes "ready" else codes "not_ready";
  checks = p.checks;
}

-- `checks[dependency] = "ok"`
answered : Text → Progress → Progress
answered dependency p = record p { checks = p.checks ++ (dependency, codes "ok") ∷ [] }

-- `checks[dependency] = f"error: {exc.__class__.__name__}"`
failed : (class_name : Error → Text) → Text → Progress → Error → Progress
failed class_name dependency p exc = record {
  checks = p.checks ++ (dependency, codes "error: " ++ class_name exc) ∷ [];
  healthy = false;
}

module _ {S D : Type 0} (class_name : Error → Text) where
  -- One `try` of `ready`; its `except` is for every exception.
  probe : Text → Action (World S D) (Unit {0}) → Progress → Action (World S D) Progress
  unfolding answered failed catch ◌>>=◌
  probe dependency call p =
      catch (do call; pure (answered dependency p))
        (λ exc. pure (failed class_name dependency p exc))

  module _ (ping select_1 : Action (World S D) (Unit {0})) where
    -- `ready`. What `redis.ping()` and the execution of `SELECT 1` do, and raise, is given.
    unfoldable pub ready : Action (World S D) ProbeResponse
    unfolding probe ready_response ◌>>=◌
    ready = do
      after_redis ← probe (codes "redis") ping (record { checks = []; healthy = true })
      after_postgres ← probe (codes "postgres") select_1 after_redis
      pure (ready_response after_postgres)

    -- `GET /ready`, with the session that it depends on.
    unfoldable pub get_ready : Env → Action (World S D) ProbeResponse
    get_ready env = in_session env ready
