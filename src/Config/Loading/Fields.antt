-- ===== src/Config/Loading/Fields.antt =====
-- app/config.py: what the text that is given for one field is loaded as.
use observable_url_shortener.Config.Loading.{
  str_field, int_field, dsn_field, no_extra, required, within, holds, satisfies, gt, ge, le,
}
use observable_url_shortener.Prelude.{
  Result, and_then, ok, err, ℤ, pos, negsuc, Text, ℕ, ◌≤◌, ◌<◌, ◌≡◌, refl, ◌↔◌, Option, none, some,
  List, [], ◌∷◌, arith,
}

pub and_then_ok {ℓ κ} :
    {A : Type ℓ} {B : Type κ} (r : Result A) (f : A → Result B) (b : B)
    → and_then r f ≡ ok b
    → (a : A) × (r ≡ ok a) × (f a ≡ ok b)
and_then_ok (ok a) f b h = (a, refl, h)
and_then_ok (err e) f b h = ground arith

-- The text of a field, or its default.
abbrev pub IsText : Text → Option Text → Text → Type 0
IsText default none value = value ≡ default
IsText default (some text) value = value ≡ text

-- What a given text is read as, or the default where there is one.
abbrev pub IsDsn : (Text → Option Text) → Option Text → Option Text → Text → Type 0
IsDsn read none none value = ⊥
IsDsn read (some default) none value = value ≡ default
IsDsn read default (some text) value = read text ≡ some value

-- The number in a range that a given text spells, or the default.
abbrev pub IsNumber : (Text → Option ℤ) → ℕ → (ℕ → Type 0) → Option Text → ℕ → Type 0
IsNumber read default P none value = value ≡ default
IsNumber read default P (some text) value = (read text ≡ some (pos value)) × P value

abbrev pub IsPositive : ℕ → Type 0
IsPositive n = 0 < n

abbrev pub IsCodeLength : ℕ → Type 0
IsCodeLength n = (4 ≤ n) × (n ≤ 10)

within-IsPositive :
    (read : Option ℤ) (value : ℕ)
    → (within (gt 0 ∷ []) read ≡ ok value) ↔ ((read ≡ some (pos value)) × IsPositive value)
unfolding within satisfies holds
within-IsPositive none value = ground arith
within-IsPositive (some (pos i)) value = ground arith
within-IsPositive (some (negsuc i)) value = ground arith

within-IsCodeLength :
    (read : Option ℤ) (value : ℕ)
    → (within (ge 4 ∷ le 10 ∷ []) read ≡ ok value)
      ↔ ((read ≡ some (pos value)) × IsCodeLength value)
unfolding within satisfies holds
within-IsCodeLength none value = ground arith
within-IsCodeLength (some (pos i)) value = ground arith
within-IsCodeLength (some (negsuc i)) value = ground arith

module _ (read : Text → Option ℤ) where
  pub int_field-IsPositive :
      (default value : ℕ) (given : Option Text)
      → (int_field read default (gt 0 ∷ []) given ≡ ok value)
        ↔ IsNumber read default IsPositive given value
  unfolding int_field
  int_field-IsPositive default value none = ground arith
  int_field-IsPositive default value (some text) = within-IsPositive (read text) value

  pub int_field-IsCodeLength :
      (default value : ℕ) (given : Option Text)
      → (int_field read default (ge 4 ∷ le 10 ∷ []) given ≡ ok value)
        ↔ IsNumber read default IsCodeLength given value
  unfolding int_field
  int_field-IsCodeLength default value none = ground arith
  int_field-IsCodeLength default value (some text) = within-IsCodeLength (read text) value

required_iff : (o : Option Text) (value : Text) → (required o ≡ ok value) ↔ (o ≡ some value)
unfolding required
required_iff none value = ground arith
required_iff (some text) value = ground arith

pub dsn_field_iff :
    (read : Text → Option Text) (default given : Option Text) (value : Text)
    → (dsn_field read default given ≡ ok value) ↔ IsDsn read default given value
unfolding dsn_field required
dsn_field_iff read none none value = ground arith
dsn_field_iff read (some default) none value = ground arith
dsn_field_iff read none (some text) value = required_iff (read text) value
dsn_field_iff read (some default) (some text) value = required_iff (read text) value

pub str_field_iff :
    (default : Text) (given : Option Text) (value : Text)
    → (value ≡ str_field default given) ↔ IsText default given value
unfolding str_field
str_field_iff default none value = ground arith
str_field_iff default (some text) value = ground arith

pub no_extra_iff : (names : List Text) (u : Unit {0}) → (no_extra names ≡ ok u) ↔ (names ≡ [])
unfolding no_extra
no_extra_iff [] u = ground arith
no_extra_iff (name ∷ names) u = ground arith

-- A chain of fields that returns has read its first field, and the rest of it returns.
module _ {B : Type 0} (b : B) where
  pub dsn_field_then :
      (read : Text → Option Text) (default given : Option Text) (f : Text → Result B)
      → and_then (dsn_field read default given) f ≡ ok b
      → (a : Text) × IsDsn read default given a × (f a ≡ ok b)
  dsn_field_then read default given f h =
      let (a, done, rest) = and_then_ok (dsn_field read default given) f b h in
      (a, (dsn_field_iff read default given a).0 done, rest)

  module _ (read : Text → Option ℤ) (default : ℕ) (given : Option Text) (f : ℕ → Result B) where
    pub int_field_gt_then :
        and_then (int_field read default (gt 0 ∷ []) given) f ≡ ok b
        → (a : ℕ) × IsNumber read default IsPositive given a × (f a ≡ ok b)
    int_field_gt_then h =
        let (a, done, rest) = and_then_ok (int_field read default (gt 0 ∷ []) given) f b h in
        (a, (int_field-IsPositive read default a given).0 done, rest)

    pub int_field_range_then :
        and_then (int_field read default (ge 4 ∷ le 10 ∷ []) given) f ≡ ok b
        → (a : ℕ) × IsNumber read default IsCodeLength given a × (f a ≡ ok b)
    int_field_range_then h =
        let (a, done, rest) =
          and_then_ok (int_field read default (ge 4 ∷ le 10 ∷ []) given) f b h in
        (a, (int_field-IsCodeLength read default a given).0 done, rest)
