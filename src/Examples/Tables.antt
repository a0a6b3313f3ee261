-- ===== src/Examples/Tables.antt =====
-- A database server as the rows of its two tables.
use observable_url_shortener.Models.{
  Url, ClickEvent, NewUrl, NewClick, url_fits, click_fits, url_row, click_row,
}
use observable_url_shortener.Infra.Database.{Database, has_code, updated}
use observable_url_shortener.Examples.Sorting.{sort, sort-IsOrderOf}
use observable_url_shortener.Infra.Sql.{groups_of}
use observable_url_shortener.Prelude.{
  if◌then◌else◌, Result, integrity_error, data_error, ok, err, take, keep, ℕ, ◌+◌, ◌≡◌, refl, ◌≢◌,
  true, false, List, [], ◌∷◌, ◌++◌, map,
}

pub record Tables : Type 0 where
  pub urls : List Url
  pub click_events : List ClickEvent
  pub next_url_id : ℕ
  pub next_click_id : ℕ

-- A row in a table whose rows with the same code are given.
abbrev add_url : List Url → Url → Tables → Result Url × Tables
add_url [] row d = (ok row, record d { urls = d.urls ++ row ∷ []; next_url_id = d.next_url_id + 1 })
add_url (other ∷ more) row d = (err integrity_error, d)

abbrev insert_url : ℕ → NewUrl → Tables → Result Url × Tables
insert_url time new d =
    if url_fits new
    then add_url (keep (has_code new.short_code) d.urls) (url_row d.next_url_id time new) d
    else (err data_error, d)

abbrev insert_click : ℕ → NewClick → Tables → Result (Unit {0}) × Tables
insert_click time new d =
    if click_fits new
    then (
      ok tt,
      record d {
        click_events = d.click_events ++ click_row d.next_click_id time new ∷ [];
        next_click_id = d.next_click_id + 1;
      },
    )
    else (err data_error, d)

add_url_taken :
    (same : List Url) (row : Url) (d : Tables)
    → same ≢ []
    → add_url same row d ≡ (err integrity_error, d)
add_url_taken [] row d h = absurd (h refl)
add_url_taken (other ∷ more) row d h = refl

pub insert_url_wide :
    (time : ℕ) (new : NewUrl) (d : Tables)
    → url_fits new ≡ false
    → insert_url time new d ≡ (err data_error, d)
insert_url_wide time new d h = rw h refl

pub insert_url_taken :
    (time : ℕ) (new : NewUrl) (d : Tables)
    → url_fits new ≡ true
    → keep (has_code new.short_code) d.urls ≢ []
    → insert_url time new d ≡ (err integrity_error, d)
insert_url_taken time new d h taken = rw h (add_url_taken _ _ d taken)

pub insert_url_free :
    (time : ℕ) (new : NewUrl) (d : Tables)
    → url_fits new ≡ true
    → keep (has_code new.short_code) d.urls ≡ []
    → ((insert_url time new d).0 ≡ ok (url_row d.next_url_id time new))
      × ((insert_url time new d).1.urls ≡ d.urls ++ url_row d.next_url_id time new ∷ [])
      × ((insert_url time new d).1.click_events ≡ d.click_events)
insert_url_free time new d h free = rw (h, free) (refl, refl, refl)

pub insert_click_wide :
    (time : ℕ) (new : NewClick) (d : Tables)
    → click_fits new ≡ false
    → insert_click time new d ≡ (err data_error, d)
insert_click_wide time new d h = rw h refl

pub insert_click_fits :
    (time : ℕ) (new : NewClick) (d : Tables)
    → click_fits new ≡ true
    → ((insert_click time new d).0 ≡ ok tt)
      × ((insert_click time new d).1.urls ≡ d.urls)
      × ((insert_click time new d).1.click_events
          ≡ d.click_events ++ click_row d.next_click_id time new ∷ [])
insert_click_fits time new d h = rw h (refl, refl, refl)

instance abbrev pub tables : Database Tables
tables = record {
  urls = λ d. d.urls;
  click_events = λ d. d.click_events;
  next_url_id = λ d. d.next_url_id;
  next_click_id = λ d. d.next_click_id;
  select_urls = λ p d. keep p d.urls;
  select_clicks = λ p rank limit d. take limit (sort rank (keep p d.click_events));
  select_groups = λ p key limit d.
      take limit (sort (λ group. group.1) (groups_of (map key (keep p d.click_events))));
  insert_url = insert_url;
  insert_click = insert_click;
  update_urls = λ p f d. record d { urls = map (updated p f) d.urls };
  select_urls_none = λ p d h. h;
  select_urls_one = λ p d u h. h;
  length-select_urls = λ p d. refl;
  insert_url_wide = insert_url_wide;
  insert_url_taken = insert_url_taken;
  insert_url_free = insert_url_free;
  insert_click_wide = insert_click_wide;
  insert_click_fits = insert_click_fits;
  select_clicks_rows = λ p rank limit d. (_, sort-IsOrderOf rank (keep p d.click_events), refl);
  select_groups_rows = λ p key limit d.
      (_, sort-IsOrderOf (λ group. group.1) (groups_of (map key (keep p d.click_events))), refl);
  update_urls_rows = λ p f d. (refl, refl);
}
