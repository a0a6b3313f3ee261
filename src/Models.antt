-- ===== src/Models.antt =====
-- app/db/models.py: the rows of the two tables. Times are in milliseconds.
pub mod Metadata
use observable_url_shortener.Prelude.{leb, length, Text, ℕ, Bool, true, ◌&&◌, Option, none, some}

pub record Url : Type 0 where
  pub id : ℕ
  pub short_code : Text
  pub long_url : Text
  pub created_at : ℕ
  pub expires_at : Option ℕ  -- `none`: never expires
  pub client_id : Option Text
  pub click_count : ℕ

pub record ClickEvent : Type 0 where
  pub id : ℕ
  pub short_code : Text
  pub clicked_at : ℕ
  pub referrer : Option Text
  pub user_agent : Option Text
  pub client_ip_hash : Option Text

-- What `Url(…)` and `ClickEvent(…)` are given; the other columns have defaults.
pub record NewUrl : Type 0 where
  pub short_code : Text
  pub long_url : Text
  pub expires_at : Option ℕ
  pub client_id : Option Text

pub record NewClick : Type 0 where
  pub short_code : Text
  pub referrer : Option Text
  pub user_agent : Option Text
  pub client_ip_hash : Option Text

-- The widths of `String(10)` and `String(64)`.
abbrev pub fits : ℕ → Option Text → Bool
fits width none = true
fits width (some value) = leb (length value) width

unfoldable pub url_fits : NewUrl → Bool
url_fits new = fits 10 (some new.short_code) && fits 64 new.client_id

unfoldable pub click_fits : NewClick → Bool
click_fits new = fits 10 (some new.short_code) && fits 64 new.client_ip_hash

-- A new row, with the defaults: the time of the database, and no clicks.
abbrev pub url_row : (id created_at : ℕ) → NewUrl → Url
url_row id created_at new = record {
  id = id;
  short_code = new.short_code;
  long_url = new.long_url;
  created_at = created_at;
  expires_at = new.expires_at;
  client_id = new.client_id;
  click_count = 0;
}

abbrev pub click_row : (id clicked_at : ℕ) → NewClick → ClickEvent
click_row id clicked_at new = record {
  id = id;
  short_code = new.short_code;
  clicked_at = clicked_at;
  referrer = new.referrer;
  user_agent = new.user_agent;
  client_ip_hash = new.client_ip_hash;
}
