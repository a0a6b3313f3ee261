-- ===== src/Sessions/Tests.antt =====
-- A session whose commit fails and whose rollback fails too.
use observable_url_shortener.Infra.World.{World, Env}
use observable_url_shortener.Repository.{in_session}
use observable_url_shortener.Sessions.{SessionLibrary, seen, get_db_session, before_session}
use observable_url_shortener.Sessions.Refinement.{get_db_session_lem, IsReturned, IsRaised}
use observable_url_shortener.Examples.Keyspace.{Keyspace}
use observable_url_shortener.Examples.Tables.{Tables, tables}
use observable_url_shortener.Examples.Inputs.{env, world}
use observable_url_shortener.Prelude.{if◌then◌else◌, Action, ok, ◌≡◌, refl, ◌⊎◌, true, []}

abbrev broken_commits : Env
broken_commits = record env { commit_fails = true }

-- The rows are deleted.
abbrev clear_urls : Action (World Keyspace Tables) (Unit {0})
clear_urls w = (ok tt, record w { db = record w.db { urls = [] } })

-- What the session sees, and what is committed.
abbrev pairs : SessionLibrary Tables (Tables × Tables)
pairs = record {
  sees = λ t. t.0;
  committed = λ t. t.1;
  open_session = λ t. (t.1, t.1);
  write = λ d t. (d, t.1);
  commit = λ fails t. if fails then t else (t.0, t.0);
  rollback = λ fails t. (t.1, t.1);
  close = λ t. (t.1, t.1);
  open_sees = λ t. refl;
  write_sees = λ d t. refl;
  commit_done = λ t. refl;
  commit_failed = λ t. refl;
  open_committed = λ t. refl;
  write_committed = λ d t. refl;
  rollback_committed = λ fails t. refl;
  close_committed = λ t. refl;
}

abbrev start : World Keyspace (Tables × Tables)
start = record { redis = world.redis; db = (world.db, world.db); metrics = [] }

get_db_session_lem_example :
    (seen pairs.committed
        (get_db_session pairs broken_commits true clear_urls (before_session start)).1.world
      ≡ (in_session broken_commits clear_urls (seen pairs.committed start)).1)
    × (IsReturned broken_commits
          (in_session broken_commits clear_urls (seen pairs.committed start))
          (get_db_session pairs broken_commits true clear_urls (before_session start))
        ⊎ IsRaised true
            (clear_urls (seen pairs.committed start))
            (in_session broken_commits clear_urls (seen pairs.committed start))
            (get_db_session pairs broken_commits true clear_urls (before_session start)))
get_db_session_lem_example = get_db_session_lem pairs broken_commits true clear_urls start
