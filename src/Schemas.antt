-- ===== src/Schemas.antt =====
-- app/schemas.py: what a request to create a short URL has to pass, and the response to it.
pub mod Laws
pub mod Tests
use observable_url_shortener.Shortener.{base62_alphabet}
use observable_url_shortener.Prelude.{
  ltb, leb, ◌==◌, if◌then◌else◌, Result, and_then, value_error, ok, err, length, ℤ, pos, negsuc,
  Text, ℕ, Bool, true, false, ◌&&◌, ◌||◌, Option, none, some, List, [], ◌∷◌, ◌++◌,
}

abbrev pub custom_code_min_length : ℕ
custom_code_min_length = 4

abbrev pub custom_code_max_length : ℕ
custom_code_max_length = 10

-- `long_url` is the text of a URL that pydantic's `HttpUrl` has accepted.
pub record CreateUrlRequest : Type 0 where
  pub long_url : Text
  pub custom_code : Option Text
  pub expires_in_days : Option ℤ

pub contains : Text → ℕ → Bool
contains [] char = false
contains (c ∷ rest) char = c == char || contains rest char

-- `set(value) - _BASE62_CHARS`, as a list
pub invalid_characters : Text → Text
unfolding contains
invalid_characters [] = []
invalid_characters (c ∷ value) =
    let rest = invalid_characters value in if contains base62_alphabet c then rest else c ∷ rest

is_empty : Text → Bool
is_empty [] = true
is_empty (c ∷ rest) = false

-- `_validate_custom_code`
unfoldable pub validate_custom_code : Option Text → Result (Option Text)
unfolding invalid_characters is_empty
validate_custom_code none = ok none
validate_custom_code (some value) =
    if leb custom_code_min_length (length value) && leb (length value) custom_code_max_length
    then if is_empty (invalid_characters value) then ok (some value) else err value_error
    else err value_error

-- `gt=0, le=3650`
unfoldable pub validate_expires_in_days : Option ℤ → Result (Option ℤ)
validate_expires_in_days none = ok none
validate_expires_in_days (some (negsuc n)) = err value_error
validate_expires_in_days (some (pos n)) =
    if ltb 0 n && leb n 3650 then ok (some (pos n)) else err value_error

unfoldable pub validate_request : CreateUrlRequest → Result CreateUrlRequest
validate_request request = and_then (validate_custom_code request.custom_code) λ custom_code.
    and_then (validate_expires_in_days request.expires_in_days) λ expires_in_days.
      ok (record request { custom_code = custom_code; expires_in_days = expires_in_days })

pub record UrlResponse : Type 0 where
  pub short_code : Text
  pub short_url : Text
  pub long_url : Text
  pub expires_at : Option ℕ

-- `value.rstrip('/')`
unfoldable pub rstrip_slash : Text → Text
rstrip_slash [] = []
rstrip_slash (c ∷ value) = elim (rstrip_slash value) [
  | [] ↦ if c == b'/' then [] else c ∷ []
  | d ∷ rest ↦ c ∷ d ∷ rest
]

-- `UrlResponse.build`
unfoldable pub build : Text → Text → Option ℕ → Text → UrlResponse
unfolding rstrip_slash
build short_code long_url expires_at base_url = record {
  short_code = short_code;
  short_url = rstrip_slash base_url ++ (b'/' ∷ short_code);
  long_url = long_url;
  expires_at = expires_at;
}

pub record ClickInfo : Type 0 where
  pub clicked_at : ℕ
  pub referrer : Option Text
  pub user_agent : Option Text

pub record ReferrerCount : Type 0 where
  pub referrer : Option Text
  pub count : ℕ

pub record StatsResponse : Type 0 where
  pub short_code : Text
  pub click_count : ℕ
  pub recent_clicks : List ClickInfo
  pub top_referrers : List ReferrerCount
