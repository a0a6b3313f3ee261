-- ===== src/Api/Health/Readiness.antt =====
-- The probe `ready` of app/api/health.py.
use observable_url_shortener.Infra.World.{World, Env}
use observable_url_shortener.Repository.{in_session}
use observable_url_shortener.Api.Health.{ready, get_ready, Checks, ProbeResponse}
use observable_url_shortener.Prelude.{
  if◌then◌else◌, Bool-cases, Error, Result, Action, Result-cases, operational_error, ok, err, Text,
  codes, ◌≡◌, ◌⊎◌, inl, inr, Bool, true, false, [], ◌∷◌, ◌++◌, arith,
}

module _ {S D A : Type 0} (env : Env) (body : Action (World S D) A) (w w' : World S D) (a : A)
    (returned : body w ≡ (ok a, w')) where
  session_kept : env.commit_fails ≡ false → in_session env body w ≡ (ok a, w')
  unfolding in_session
  session_kept works = ground (arith, returned)

  session_broken :
      w'.db ≡ w.db → env.commit_fails ≡ true → in_session env body w ≡ (err operational_error, w')
  unfolding in_session
  session_broken same broken = ground (arith, returned)

module _ {S D : Type 0} (class_name : Error → Text) (ping select_1 : Action (World S D) (Unit {0}))
    (w : World S D) where
  -- The results of the two calls, one after another.
  abbrev pub pinged : Result (Unit {0}) × World S D
  pinged = ping w

  abbrev pub selected : Result (Unit {0}) × World S D
  selected = select_1 pinged.1

  -- What a response says of a dependency.
  abbrev pub report : Result (Unit {0}) → Text
  report (ok _) = codes "ok"
  report (err exc) = codes "error: " ++ class_name exc

  abbrev pub reports : Checks
  reports = (codes "redis", report pinged.0) ∷ (codes "postgres", report selected.0) ∷ []

  abbrev pub both_ok : Result (Unit {0}) → Result (Unit {0}) → Bool
  both_ok (ok _) (ok _) = true
  both_ok _ _ = false

  abbrev pub response : ProbeResponse
  response = record {
    status_code = if both_ok pinged.0 selected.0 then 200 else 503;
    status = if both_ok pinged.0 selected.0 then codes "ready" else codes "not_ready";
    checks = reports;
  }

  ready_eq : ready class_name ping select_1 w ≡ (ok response, selected.1)
  unfolding ready
  ready_eq = elim (Result-cases pinged.0) [
    | inl (_, up) ↦ elim (Result-cases selected.0) [
      | inl (_, up') ↦ ground (arith, up, up')
      | inr (e', down') ↦ ground (arith, up, down')
    ]
    | inr (e, down) ↦ elim (Result-cases selected.0) [
      | inl (_, up') ↦ ground (arith, down, up')
      | inr (e', down') ↦ ground (arith, down, down')
    ]
  ]

  -- Whatever the two calls raise, `GET /ready` makes both and names the state of each, with 200 and
  -- "ready" if both answered and with 503 and "not_ready" if not. Only the commit of its session,
  -- which comes after, can fail the request: then it raises, and the database is as it was. The
  -- condition is that the two calls leave the database alone.
  pub get_ready_lem :
      (env : Env)
      → selected.1.db ≡ w.db
      → ((env.commit_fails ≡ false)
          × (get_ready class_name ping select_1 env w ≡ (ok response, selected.1)))
        ⊎ ((env.commit_fails ≡ true)
            × (get_ready class_name ping select_1 env w ≡ (err operational_error, selected.1)))
  unfolding get_ready
  get_ready_lem env same = elim (Bool-cases env.commit_fails) [
    | inl broken ↦ inr (
      broken,
      session_broken env (ready class_name ping select_1) w selected.1 response ready_eq same
          broken,
    )
    | inr works ↦ inl (
      works,
      session_kept env (ready class_name ping select_1) w selected.1 response ready_eq works,
    )
  ]
