-- ===== src/Repository/Rows.antt =====
-- Rows of `urls` by their code, under an insertion and under a click.
use observable_url_shortener.Models.{Url}
use observable_url_shortener.Infra.Database.{has_code, updated}
use observable_url_shortener.Prelude.{
  if◌then◌else◌, Bool-cases, keep, keep-append, Text, text_eq_iff, ℕ, ◌+◌, ◌≡◌, refl, ◌⊎◌, inl, inr,
  true, Option, none, List, [], ◌∷◌, ◌++◌, map, append-nil, arith,
}

-- The rows that a query for a code selects.
abbrev pub with_code : Text → List Url → List Url
with_code code = keep (has_code code)

-- No two rows have the same code.
abbrev pub HasUniqueCodes : List Url → Type 0
HasUniqueCodes rows =
    (code : Text) → (with_code code rows ≡ []) ⊎ ((u : Url) × (with_code code rows ≡ u ∷ []))

-- The one row with a code has this destination and this expiry.
abbrev pub HasRow : Option ℕ → List Url → Text → Text → Type 0
HasRow expires_at rows code long_url =
    (u : Url) × (with_code code rows ≡ u ∷ [])
    × (u.long_url ≡ long_url)
    × (u.expires_at ≡ expires_at)

-- What a cache may hold for a code: the destination of a row that never expires.
abbrev pub IsLasting : List Url → Text → Text → Type 0
IsLasting = HasRow none

abbrev pub clicked : Text → Url → Url
clicked code = updated (has_code code) (λ u. record u { click_count = u.click_count + 1 })

pub with_code-snoc :
    (code : Text) (rows : List Url) (u : Url)
    → with_code code (rows ++ u ∷ [])
      ≡ (if has_code code u then with_code code rows ++ u ∷ [] else with_code code rows)
with_code-snoc code rows u =
    rw (keep-append (has_code code) rows (u ∷ []))
      (ground (arith, append-nil (with_code code rows)))

-- A row with a new code leaves the rows of the other codes alone, and is the only one of its own.
module _ (rows : List Url) (row : Url) (fresh : with_code row.short_code rows ≡ []) where
  same_code_fresh : (code : Text) → has_code code row ≡ true → with_code code rows ≡ []
  same_code_fresh code h =
      let e : row.short_code ≡ code = (text_eq_iff row.short_code code).0 h in rw (← e) fresh

  pub HasUniqueCodes-snoc : HasUniqueCodes rows → HasUniqueCodes (rows ++ row ∷ [])
  HasUniqueCodes-snoc unique code = elim (Bool-cases (has_code code row)) [
    | inl h ↦ inr (row, rw (with_code-snoc code rows row, h, same_code_fresh code h) refl)
    | inr h ↦ rw (with_code-snoc code rows row, h) (unique code)
  ]

  pub HasRow-snoc :
      (expires_at : Option ℕ) (code long_url : Text)
      → HasRow expires_at rows code long_url
      → HasRow expires_at (rows ++ row ∷ []) code long_url
  HasRow-snoc expires_at code long_url (u, found, there, never) =
      elim (Bool-cases (has_code code row)) [
        | inl h ↦ let none_yet = same_code_fresh code h in cc
        | inr h ↦ (u, rw (with_code-snoc code rows row, h) found, there, never)
      ]

module _ (clicked_code : Text) where
  with_code-clicked :
      (code : Text) (rows : List Url)
      → with_code code (map (clicked clicked_code) rows)
        ≡ map (clicked clicked_code) (with_code code rows)
  with_code-clicked code [] = refl
  with_code-clicked code (u ∷ rows) = ground (arith, with_code-clicked code rows)

  pub HasUniqueCodes-clicked :
      (rows : List Url) → HasUniqueCodes rows → HasUniqueCodes (map (clicked clicked_code) rows)
  HasUniqueCodes-clicked rows unique code = elim (unique code) [
    | inl e ↦ inl (rw (with_code-clicked code rows, e) refl)
    | inr (u, e) ↦ inr (clicked clicked_code u, rw (with_code-clicked code rows, e) refl)
  ]

  pub HasRow-clicked :
      (expires_at : Option ℕ) (rows : List Url) (code long_url : Text)
      → HasRow expires_at rows code long_url
      → HasRow expires_at (map (clicked clicked_code) rows) code long_url
  HasRow-clicked expires_at rows code long_url (u, found, there, never) = (
    clicked clicked_code u,
    rw (with_code-clicked code rows, found) refl,
    ground arith,
    ground arith,
  )
