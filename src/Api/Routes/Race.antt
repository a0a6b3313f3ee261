-- ===== src/Api/Routes/Race.antt =====
-- Concurrent requests to create a URL (`create_url` of app/api/routes.py): the check of a code and
-- the insertion of its row are two steps, and those of other requests may come in between.
use observable_url_shortener.Infra.Redis.{RedisServer}
use observable_url_shortener.Infra.Database.{Database, has_code}
use observable_url_shortener.Infra.World.{World, Env, Query}
use observable_url_shortener.Schemas.{CreateUrlRequest, UrlResponse, build}
use observable_url_shortener.Models.{Url}
use observable_url_shortener.Repository.{in_session}
use observable_url_shortener.Repository.Queries.{in_session_atomic}
use observable_url_shortener.Repository.Rows.{
  with_code, with_code-snoc, HasUniqueCodes, HasUniqueCodes-snoc,
}
use observable_url_shortener.Api.Routes.{choose_code, add_url}
use observable_url_shortener.Api.Routes.Addition.{add_url_ok, add_url_taken}
use observable_url_shortener.Api.Routes.Outcome.{choose_code_db}
use observable_url_shortener.Prelude.{
  Bool-cases, Result, http_exception, ok, err, length, All, Text, codes, text_eq_iff, text_eq_refl,
  ◌≤◌, ◌≡◌, refl, ap, ◌≢◌, inl, inr, false, none, List, [], ◌∷◌, ◌++◌, arith,
}

-- A request that has chosen its code and not yet inserted its row.
pub record Pending : Type 0 where
  pub env : Env
  pub payload : CreateUrlRequest
  pub client_id : Text
  pub short_code : Text

-- `answered` lists the codes of the responses with status 201, newest first.
pub record Racing (S D : Type 0) : Type 0 where
  pub world : World S D
  pub pending : List Pending
  pub answered : List Text

abbrev pub with_answer : Result UrlResponse → List Text → List Text
with_answer (ok response) answered = response.short_code ∷ answered
with_answer (err e) answered = answered

module _ {S D : Type 0} ⦃server : RedisServer S⦄ ⦃database : Database D⦄ where
  -- The insertion, the commit and the response of a request; the unique index makes them one step.
  abbrev pub finish : Pending → List Pending → Racing S D → Racing S D
  finish p others s =
      let (r, w) = in_session p.env (add_url p.env p.payload p.client_id p.short_code) s.world in
      record { world = w; pending = others; answered = with_answer r s.answered }

  pub data Step : Racing S D → Racing S D → Type 0 where
    chosen :
        (s : Racing S D) (env : Env) (payload : CreateUrlRequest) (client_id code : Text)
        → (choose_code env payload.custom_code s.world).0 ≡ ok code
        → Step s (record s {
          world = (choose_code env payload.custom_code s.world).1;
          pending =
              record { env = env; payload = payload; client_id = client_id; short_code = code }
              ∷ s.pending;
        })
    finished :
        (s : Racing S D) (before later : List Pending) (p : Pending)
        → s.pending ≡ before ++ p ∷ later
        → Step s (finish p (before ++ later) s)

  pub data Steps (s : Racing S D) : Racing S D → Type 0 where
    here : Steps s s
    next : {t u : Racing S D} → Steps s t → Step t u → Steps s u

-- No code stands twice.
abbrev pub IsDistinct : List Text → Type 0
IsDistinct [] = Unit
IsDistinct (code ∷ codes) = All (λ other. code ≢ other) codes × IsDistinct codes

-- Exactly one row has the code.
abbrev pub HasOneRow : List Url → Text → Type 0
HasOneRow rows code = (u : Url) × (with_code code rows ≡ u ∷ [])

-- What holds between two steps of the rows and of the codes of the responses.
record Inv (rows : List Url) (answered : List Text) : Type 0 where
  unique : HasUniqueCodes rows
  distinct : IsDistinct answered
  stored : All (HasOneRow rows) answered

-- A row with a new code, and the codes that had a row before.
module _ (rows : List Url) (row : Url) (fresh : with_code row.short_code rows ≡ []) where
  HasOneRow-snoc : (code : Text) → HasOneRow rows code → HasOneRow (rows ++ row ∷ []) code
  HasOneRow-snoc code (u, found) = elim (Bool-cases (has_code code row)) [
    | inl same ↦
        let e : row.short_code ≡ code = (text_eq_iff row.short_code code).0 same in
        let nothing = rw e at fresh in cc
    | inr other ↦ (u, rw (with_code-snoc code rows row, other) found)
  ]

  HasOneRow-new : HasOneRow (rows ++ row ∷ []) row.short_code
  HasOneRow-new =
      (row, rw (with_code-snoc row.short_code rows row, text_eq_refl row.short_code, fresh) refl)

  stored_differ :
      (codes : List Text)
      → All (HasOneRow rows) codes
      → All (λ other. row.short_code ≢ other) codes × All (HasOneRow (rows ++ row ∷ [])) codes
  stored_differ [] h = (tt, tt)
  stored_differ (code ∷ codes) ((u, found), hs) =
      let (differ, kept) = stored_differ codes hs in
      ((λ e. let nothing = rw e at fresh in cc, differ), (HasOneRow-snoc code (u, found), kept))

  Inv-added :
      (answered : List Text)
      → Inv rows answered
      → Inv (rows ++ row ∷ []) (row.short_code ∷ answered)
  Inv-added answered h =
      let (differ, still) = stored_differ answered h.stored in
      record {
        unique = HasUniqueCodes-snoc rows row fresh h.unique;
        distinct = (differ, h.distinct);
        stored = (HasOneRow-new, still);
      }

module _ {S D : Type 0} ⦃server : RedisServer S⦄ ⦃database : Database D⦄ where
  abbrev IsSafe : Racing S D → Type 0
  IsSafe s = Inv (database.urls s.world.db) s.answered

  finish-IsSafe :
      (p : Pending) (others : List Pending) (s : Racing S D) → IsSafe s → IsSafe (finish p others s)
  finish-IsSafe p others s h =
      elim (in_session_atomic p.env s.world _ (add_url p.env p.payload p.client_id p.short_code)) [
        | inl (response, r, done, kept) ↦
            let (u, grown, fresh, its_code, fields) =
              add_url_ok p.env p.payload p.client_id p.short_code s.world response h.unique done in
            let named : response.short_code ≡ u.short_code =
              unfold build in ap (λ (x : UrlResponse). x.short_code) fields.4 in
            rw (r, kept, grown, named) (Inv-added (database.urls s.world.db) u fresh s.answered h)
        | inr (e, r, same) ↦ rw (r, same) h
      ]

  Step-IsSafe : {s t : Racing S D} → Step s t → IsSafe s → IsSafe t
  Step-IsSafe (chosen s env payload client_id code done) h =
      rw (choose_code_db env payload.custom_code s.world) h
  Step-IsSafe (finished s before later p found) h = finish-IsSafe p (before ++ later) s h

  Steps-IsSafe : {s t : Racing S D} → Steps s t → IsSafe s → IsSafe t
  Steps-IsSafe here h = h
  Steps-IsSafe (next steps step) h = Step-IsSafe step (Steps-IsSafe steps h)

  -- However the checks and the insertions of requests interleave, no two requests are answered with
  -- the same code, and each code that a request was answered with has exactly one row; no two rows
  -- have the same code. At first no two rows have the same code, and no request has been answered.
  pub race_lem :
      (s t : Racing S D)
      → HasUniqueCodes (database.urls s.world.db)
      → s.answered ≡ []
      → Steps s t
      → IsDistinct t.answered
        × All (HasOneRow (database.urls t.world.db)) t.answered
        × HasUniqueCodes (database.urls t.world.db)
  race_lem s t unique nobody steps =
      let h =
        Steps-IsSafe steps
          (record { unique = unique; distinct = rw nobody tt; stored = rw nobody tt }) in
      (h.distinct, h.stored, h.unique)

  -- A request whose code is taken by the time of its insertion raises 409 and leaves the database
  -- as it was, whatever its check answered before. Its code and the identifier of the client fit
  -- their columns, and its insertion is executed.
  pub race_lost :
      (p : Pending) (w : World S D)
      → length p.short_code ≤ 10
      → length p.client_id ≤ 64
      → p.env.db_fails Query.create_url p.short_code ≡ false
      → with_code p.short_code (database.urls w.db) ≢ []
      → ((in_session p.env (add_url p.env p.payload p.client_id p.short_code) w).0
          ≡ err (http_exception 409 none))
        × ((in_session p.env (add_url p.env p.payload p.client_id p.short_code) w).1.db ≡ w.db)
  race_lost p w short narrow up taken =
      let refused =
        add_url_taken p.env p.payload p.client_id p.short_code w short narrow up taken in
      (unfold in_session in ground (arith, refused), unfold in_session in ground (arith, refused))
