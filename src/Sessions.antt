-- ===== src/Sessions.antt =====
-- app/db/database.py: the session of a request; and the session of a click in app/db/repository.py.
-- The session itself is SQLAlchemy's, with its documented behaviour as laws.
pub mod Refinement
pub mod Tests
use observable_url_shortener.Infra.World.{World, Env, Query}
use observable_url_shortener.Repository.{observed}
use observable_url_shortener.Prelude.{
  Result, Action, pure, raise, catch, modify, ◌>>=◌, ◌>>◌, operational_error, ok, err, ◌≡◌, Bool,
  true, false, List, [], ◌∷◌, ◌++◌,
}

-- `sees` is the database as the session sees it, and `committed` as every other session sees it.
-- `write` stands for statements of the session, with what they have made of the database. A commit
-- or a rollback may fail, as where the connection is lost.
pub record SessionLibrary (D T : Type 0) : Type 0 where
  pub sees : T → D
  pub committed : T → D
  pub open_session : T → T
  pub write : D → T → T
  pub commit : (fails : Bool) → T → T
  pub rollback : (fails : Bool) → T → T
  pub close : T → T
  -- A new session sees what was committed, and then what it has written itself.
  pub open_sees : (t : T) → sees (open_session t) ≡ committed t
  pub write_sees : (d : D) (t : T) → sees (write d t) ≡ d
  -- Only a commit that succeeds changes what other sessions see. One that fails is one that the
  -- database has refused; that it was applied while its answer was lost is not modelled.
  pub commit_done : (t : T) → committed (commit false t) ≡ sees t
  pub commit_failed : (t : T) → committed (commit true t) ≡ committed t
  pub open_committed : (t : T) → committed (open_session t) ≡ committed t
  pub write_committed : (d : D) (t : T) → committed (write d t) ≡ committed t
  pub rollback_committed : (fails : Bool) (t : T) → committed (rollback fails t) ≡ committed t
  pub close_committed : (t : T) → committed (close t) ≡ committed t

pub data SessionCall : Type 0 where
  opened commit_called rollback_called closed : SessionCall

-- The world with the state of SQLAlchemy in place of the database, and the calls of the session so
-- far.
pub record Transaction (S T : Type 0) : Type 0 where
  pub world : World S T
  pub calls : List SessionCall

module _ {S T : Type 0} where
  -- Before a session is opened.
  unfoldable pub before_session : World S T → Transaction S T
  before_session w = record { world = w; calls = [] }

  called : SessionCall → (T → T) → Transaction S T → Transaction S T
  called c f t = record { world = record t.world { db = f t.world.db }; calls = t.calls ++ c ∷ [] }

-- What a call returns that may fail.
abbrev outcome_of : Bool → Result (Unit {0})
outcome_of true = err operational_error
outcome_of false = ok tt

-- The world with what a session, or another one, sees of the database.
abbrev pub seen : {S D T : Type 0} → (T → D) → World S T → World S D
seen view w = record { redis = w.redis; db = view w.db; metrics = w.metrics }

module _ {S D T : Type 0} (library : SessionLibrary D T) where
  session_open : Action (Transaction S T) (Unit {0})
  unfolding called
  session_open = modify (called opened library.open_session)

  session_close : Action (Transaction S T) (Unit {0})
  unfolding called
  session_close = modify (called closed library.close)

  -- `await session.commit()`
  session_commit : Env → Action (Transaction S T) (Unit {0})
  unfolding called
  session_commit env t =
      (outcome_of env.commit_fails, called commit_called (library.commit env.commit_fails) t)

  -- `await session.rollback()`
  session_rollback : Bool → Action (Transaction S T) (Unit {0})
  unfolding called
  session_rollback fails t = (outcome_of fails, called rollback_called (library.rollback fails) t)

  -- The code that uses the session.
  using_session : {A : Type 0} → Action (World S D) A → Action (Transaction S T) A
  using_session body t =
      let (r, w) = body (seen library.sees t.world) in
      (
        r,
        record t {
          world = record {
            redis = w.redis;
            db = library.write w.db t.world.db;
            metrics = w.metrics;
          };
        },
      )

  -- `async with SessionFactory() as session: …`, which closes the session however the block is left
  async_with : {A : Type 0} → Action (Transaction S T) A → Action (Transaction S T) A
  unfolding session_open session_close ◌>>=◌
  async_with block t =
      let (r, t') = (session_open >> block) t in let (_, t'') = session_close t' in (r, t'')

  -- `get_db_session`; the second argument tells whether a rollback fails.
  unfoldable pub get_db_session :
      {A : Type 0} → Env → Bool → Action (World S D) A → Action (Transaction S T) A
  unfolding async_with using_session session_commit session_rollback ◌>>=◌
  get_db_session env rollback_fails body = async_with (
      catch (do a ← using_session body; session_commit env; pure a)
        (λ e. session_rollback rollback_fails >> raise e))

  -- The session of `record_click_in_new_session`, around its statements.
  unfoldable pub click_session :
      Env → Action (World S D) (Unit {0}) → Action (Transaction S T) (Unit {0})
  unfolding async_with using_session session_commit observed ◌>>=◌
  click_session env statements =
      async_with (do
        using_session statements
        session_commit env
        using_session (observed Query.record_click))
