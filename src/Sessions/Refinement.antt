-- ===== src/Sessions/Refinement.antt =====
-- app/db/database.py: the sessions against `in_session` of Repository.antt.
use observable_url_shortener.Infra.World.{World, Env, Query}
use observable_url_shortener.Repository.{in_session, observed}
use observable_url_shortener.Sessions.{
  SessionLibrary, Transaction, opened, commit_called, rollback_called, closed, before_session,
  called, seen, session_open, session_close, session_commit, session_rollback, using_session,
  async_with, get_db_session, click_session,
}
use observable_url_shortener.Prelude.{
  if◌then◌else◌, Bool-cases, Error, Result, Action, ◌>>=◌, ◌>>◌, Result-cases, operational_error,
  ok, err, ◌≡◌, ◌∙◌, ◌⊎◌, inl, inr, Bool, true, false, [], ◌∷◌, arith,
}

module _ {S D T A : Type 0} where
  abbrev pub IsReturned : Env → (Result A × World S D) → (Result A × Transaction S T) → Type 0
  IsReturned env promised out =
      (a : A) × (promised.0 ≡ ok a)
      × (out.0 ≡ ok a)
      × (env.commit_fails ≡ false)
      × (out.1.calls ≡ opened ∷ commit_called ∷ closed ∷ [])

  -- A commit was tried only if the body returned.
  abbrev pub IsRaised :
      Bool → (Result A × World S D) → (Result A × World S D) → (Result A × Transaction S T) → Type 0
  IsRaised rollback_fails body promised out =
      (e : Error) × (promised.0 ≡ err e)
      × (out.0 ≡ err (if rollback_fails then operational_error else e))
      × (((body.0 ≡ err e) × (out.1.calls ≡ opened ∷ rollback_called ∷ closed ∷ []))
          ⊎ ((a : A) × (body.0 ≡ ok a)
              × (out.1.calls ≡ opened ∷ commit_called ∷ rollback_called ∷ closed ∷ [])))

module _ {S D T A : Type 0} (library : SessionLibrary D T) (env : Env) (rollback_fails : Bool)
    (body : Action (World S D) A) (w : World S T) where
  -- The body runs on what was committed.
  abbrev ran : Result A × World S D
  ran = body (seen library.committed w)

  -- What is committed when the session is closed, by the calls that were made.
  committed_after :
      (d : D)
      → library.committed
          (library.close (library.commit false (library.write d (library.open_session w.db))))
        ≡ d
  committed_after d = library.close_committed _ ∙ library.commit_done _ ∙ library.write_sees d _

  written_off :
      (d : D)
      → library.committed (library.write d (library.open_session w.db)) ≡ library.committed w.db
  written_off d = library.write_committed d _ ∙ library.open_committed w.db

  rolled_back :
      (d : D)
      → library.committed (
          library.close
            (library.rollback rollback_fails (library.write d (library.open_session w.db))))
        ≡ library.committed w.db
  rolled_back d =
      library.close_committed _ ∙ library.rollback_committed rollback_fails _ ∙ written_off d

  commit_lost :
      (d : D)
      → library.committed (
          library.close (
            library.rollback rollback_fails
              (library.commit true (library.write d (library.open_session w.db)))))
        ≡ library.committed w.db
  commit_lost d =
      library.close_committed _
      ∙ library.rollback_committed rollback_fails _
      ∙ library.commit_failed _
      ∙ written_off d

  session_world :
      seen library.committed
        (get_db_session library env rollback_fails body (before_session w)).1.world
      ≡ (in_session env body (seen library.committed w)).1
  unfolding get_db_session before_session called session_open session_close session_commit
      session_rollback using_session async_with in_session ◌>>=◌
  session_world = rw (library.open_sees w.db) (elim (Result-cases ran.0) [
    | inr (e, raised) ↦ ground (arith, raised, rolled_back ran.1.db)
    | inl (a, returned) ↦ elim (Bool-cases env.commit_fails) [
      | inr works ↦ ground (arith, returned, works, committed_after ran.1.db)
      | inl fails ↦ ground (arith, returned, fails, commit_lost ran.1.db)
    ]
  ])

  session_result :
      IsReturned env
        (in_session env body (seen library.committed w))
        (get_db_session library env rollback_fails body (before_session w))
      ⊎ IsRaised rollback_fails ran
          (in_session env body (seen library.committed w))
          (get_db_session library env rollback_fails body (before_session w))
  unfolding get_db_session before_session called session_open session_close session_commit
      session_rollback using_session async_with in_session ◌>>=◌
  session_result = rw (library.open_sees w.db) (elim (Result-cases ran.0) [
    | inr (e, raised) ↦ inr (e, ground arith, ground arith, inl (raised, ground arith))
    | inl (a, returned) ↦ elim (Bool-cases env.commit_fails) [
      | inr works ↦ inl (a, ground arith, ground arith, works, ground arith)
      | inl fails ↦
          inr (operational_error, ground arith, ground arith, inr (a, returned, ground arith))
    ]
  ])

  -- The session of a request does what `in_session` promises on the database that is committed,
  -- whether or not a rollback fails: the other sessions see what the body wrote if it returned and
  -- the commit succeeded, and else what they saw before. The calls are to open, to commit if the
  -- body returned, to roll back if the body or the commit raised, and at last to close. The body's
  -- result is returned, or the exception raised; if the rollback fails too, its exception takes
  -- that one's place.
  pub get_db_session_lem :
      (seen library.committed
          (get_db_session library env rollback_fails body (before_session w)).1.world
        ≡ (in_session env body (seen library.committed w)).1)
      × (IsReturned env
            (in_session env body (seen library.committed w))
            (get_db_session library env rollback_fails body (before_session w))
          ⊎ IsRaised rollback_fails
              (body (seen library.committed w))
              (in_session env body (seen library.committed w))
              (get_db_session library env rollback_fails body (before_session w)))
  get_db_session_lem = (session_world, session_result)

module _ {D T : Type 0} (library : SessionLibrary D T) (t : T) (d : D) where
  write_off :
      library.committed (library.close (library.write d (library.open_session t)))
      ≡ library.committed t
  write_off = library.close_committed _ ∙ library.write_committed d _ ∙ library.open_committed t

  lost :
      library.committed
        (library.close (library.commit true (library.write d (library.open_session t))))
      ≡ library.committed t
  lost =
      library.close_committed _
      ∙ library.commit_failed _
      ∙ library.write_committed d _
      ∙ library.open_committed t

  written_after :
      (d' : D)
      → library.committed (
          library.close
            (library.write d' (library.commit false (library.write d (library.open_session t)))))
        ≡ d
  written_after d' =
      library.close_committed _
      ∙ library.write_committed d' _
      ∙ library.commit_done _
      ∙ library.write_sees d _

module _ {S D T : Type 0} (library : SessionLibrary D T) where
  -- The session of a click, which makes no rollback, does what `in_session` promises, and the
  -- metric is recorded if it returns.
  pub click_session_lem :
      (env : Env) (statements : Action (World S D) (Unit {0})) (w : World S T)
      → ((click_session library env statements (before_session w)).0
          ≡ ((in_session env statements >> observed Query.record_click)
              (seen library.committed w)).0)
        × (seen library.committed (click_session library env statements (before_session w)).1.world
            ≡ ((in_session env statements >> observed Query.record_click)
                (seen library.committed w)).1)
  unfolding click_session before_session called session_open session_close session_commit
      using_session async_with observed in_session ◌>>=◌
  click_session_lem env statements w =
      let done = statements (seen library.committed w) in
      rw (library.open_sees w.db) (elim (Result-cases done.0) [
        | inr (e, raised) ↦ (ground arith, ground (arith, raised, write_off library w.db done.1.db))
        | inl (a, returned) ↦ elim (Bool-cases env.commit_fails) [
          | inr works ↦ (
            ground arith,
            ground (
              arith,
              returned,
              works,
              written_after library w.db done.1.db (
                  library.sees
                    (library.commit false (library.write done.1.db (library.open_session w.db)))),
            ),
          )
          | inl fails ↦ (ground arith, ground (arith, returned, fails, lost library w.db done.1.db))
        ]
      ])
