-- ===== src/Infra/Database.antt =====
-- The database server, which is not part of the repository: the statements that the code issues as
-- operations on a state `D`, and what SQL says of them. `urls` and `click_events` are the rows of
-- the two tables in the order of their ids.
use observable_url_shortener.Models.{
  Url, ClickEvent, NewUrl, NewClick, url_fits, click_fits, url_row, click_row,
}
use observable_url_shortener.Infra.Sql.{Group, IsOrderOf, groups_of}
use observable_url_shortener.Prelude.{
  if◌then◌else◌, Result, integrity_error, data_error, ok, err, length, take, keep, Text, text_eq, ℕ,
  ◌≡◌, ◌≢◌, Bool, true, false, Option, List, [], ◌∷◌, ◌++◌, map,
}

abbrev pub has_code : Text → Url → Bool
has_code code u = text_eq u.short_code code

-- An `UPDATE` of the rows that pass a test.
abbrev pub updated : (Url → Bool) → (Url → Url) → Url → Url
updated p f u = if p u then f u else u

pub record Database (D : Type 0) : Type 0 where
  pub urls : D → List Url
  pub click_events : D → List ClickEvent
  pub next_url_id : D → ℕ
  pub next_click_id : D → ℕ
  -- `SELECT … FROM urls WHERE p`: the rows in some order.
  pub select_urls : (Url → Bool) → D → List Url
  -- `SELECT … FROM click_events WHERE p ORDER BY rank DESC LIMIT limit`
  pub select_clicks :
      (ClickEvent → Bool) → (rank : ClickEvent → ℕ) → (limit : ℕ) → D → List ClickEvent
  -- `SELECT key, count(*) FROM click_events WHERE p GROUP BY key ORDER BY count(*) DESC LIMIT
  -- limit`
  pub select_groups :
      (ClickEvent → Bool) → (key : ClickEvent → Option Text) → (limit : ℕ) → D → List Group
  pub insert_url : (time : ℕ) → NewUrl → D → Result Url × D
  pub insert_click : (time : ℕ) → NewClick → D → Result (Unit {0}) × D
  pub update_urls : (Url → Bool) → (Url → Url) → D → D
  pub select_urls_none : (p : Url → Bool) (d : D) → keep p (urls d) ≡ [] → select_urls p d ≡ []
  pub select_urls_one :
      (p : Url → Bool) (d : D) (u : Url) → keep p (urls d) ≡ u ∷ [] → select_urls p d ≡ u ∷ []
  pub length-select_urls :
      (p : Url → Bool) (d : D) → length (select_urls p d) ≡ length (keep p (urls d))
  -- A value that is too wide for its column is refused, and so is a code that another row has.
  pub insert_url_wide :
      (time : ℕ) (new : NewUrl) (d : D)
      → url_fits new ≡ false
      → insert_url time new d ≡ (err data_error, d)
  pub insert_url_taken :
      (time : ℕ) (new : NewUrl) (d : D)
      → url_fits new ≡ true
      → keep (has_code new.short_code) (urls d) ≢ []
      → insert_url time new d ≡ (err integrity_error, d)
  pub insert_url_free :
      (time : ℕ) (new : NewUrl) (d : D)
      → url_fits new ≡ true
      → keep (has_code new.short_code) (urls d) ≡ []
      → ((insert_url time new d).0 ≡ ok (url_row (next_url_id d) time new))
        × (urls (insert_url time new d).1 ≡ urls d ++ url_row (next_url_id d) time new ∷ [])
        × (click_events (insert_url time new d).1 ≡ click_events d)
  pub insert_click_wide :
      (time : ℕ) (new : NewClick) (d : D)
      → click_fits new ≡ false
      → insert_click time new d ≡ (err data_error, d)
  pub insert_click_fits :
      (time : ℕ) (new : NewClick) (d : D)
      → click_fits new ≡ true
      → ((insert_click time new d).0 ≡ ok tt)
        × (urls (insert_click time new d).1 ≡ urls d)
        × (click_events (insert_click time new d).1
            ≡ click_events d ++ click_row (next_click_id d) time new ∷ [])
  pub update_urls_rows :
      (p : Url → Bool) (f : Url → Url) (d : D)
      → (urls (update_urls p f d) ≡ map (updated p f) (urls d))
        × (click_events (update_urls p f d) ≡ click_events d)
  pub select_clicks_rows :
      (p : ClickEvent → Bool) (rank : ClickEvent → ℕ) (limit : ℕ) (d : D)
      → (ordered : List ClickEvent) × IsOrderOf rank (keep p (click_events d)) ordered
        × (select_clicks p rank limit d ≡ take limit ordered)
  pub select_groups_rows :
      (p : ClickEvent → Bool) (key : ClickEvent → Option Text) (limit : ℕ) (d : D)
      → (ordered : List Group) × IsOrderOf
          (λ group. group.1)
          (groups_of (map key (keep p (click_events d))))
          ordered
        × (select_groups p key limit d ≡ take limit ordered)
