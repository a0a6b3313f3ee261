-- ===== src/Shortener/Digits.antt =====
-- The digits of a number in base 62, as the loop of `encode_base62` writes them and the loop of
-- `decode_base62` reads them.
use mathlib.Core.List.{reverse-append}
use observable_url_shortener.Prelude.{
  ℕ, zero, suc, ◌+◌, ◌*◌, ◌/◌, ◌%◌, ◌<◌, ◌≤◌, ◌≡◌, ◌≢◌, refl, sym, ap, ◌∙◌, [], ◌∷◌, ◌++◌, arith,
  reverse, Text, All, Option-cases, Bool-cases, inl, inr, ◌==◌, if◌then◌else◌,
}
use observable_url_shortener.Shortener.{base, symbol, char_to_value, divide_out}
use observable_url_shortener.Shortener.Symbols.{char_to_value-symbol, symbol-char_to_value}
use observable_url_shortener.Shortener.Decoding.{IsSymbol, digit, spelled}

-- The digits of `n`, most significant first, before `acc`.
pub big_endian : ℕ → ℕ → Text → Text
big_endian zero n acc = acc
big_endian (suc f) n acc =
    let more = big_endian f (n / base) (symbol (n % base) ∷ acc) in if n == 0 then acc else more

pub reverse-divide_out :
    (f n : ℕ) (digits : Text) → reverse (divide_out f n digits) ≡ big_endian f n (reverse digits)
unfolding divide_out big_endian
reverse-divide_out zero n digits = refl
reverse-divide_out (suc f) n digits =
    let ih = reverse-divide_out f (n / base) (digits ++ symbol (n % base) ∷ []) in
    ground (arith, ih, reverse-append digits (symbol (n % base) ∷ []))

pub big_endian_zero : (f : ℕ) (acc : Text) → big_endian f 0 acc ≡ acc
unfolding big_endian
big_endian_zero zero acc = refl
big_endian_zero (suc f) acc = refl

-- More fuel than the number changes nothing.
pub big_endian_fuel :
    (f g n : ℕ) (acc : Text) → n ≤ f → n ≤ g → big_endian f n acc ≡ big_endian g n acc
unfolding big_endian
big_endian_fuel zero g n acc hf hg =
    let e : n ≡ 0 = omega arith in rw e (sym (big_endian_zero g acc))
big_endian_fuel (suc f) zero n acc hf hg = let e : n ≡ 0 = omega arith in rw e refl
big_endian_fuel (suc f) (suc g) n acc hf hg = elim (Bool-cases (n == 0)) [
  | inl is_zero ↦ rw is_zero
  | inr positive ↦
      rw positive
        (big_endian_fuel f g (n / base) (symbol (n % base) ∷ acc) (ground arith) (ground arith))
]

pub big_endian_step :
    (n : ℕ) (acc : Text)
    → 0 < n
    → big_endian n n acc ≡ big_endian (n / base) (n / base) (symbol (n % base) ∷ acc)
unfolding big_endian
big_endian_step zero acc h = absurd (omega arith)
big_endian_step (suc n) acc h =
    let fuel =
      big_endian_fuel n (suc n / base) (suc n / base) (symbol (suc n % base) ∷ acc) (omega arith)
        (omega arith) in
    ground (arith, fuel)

pub digit-symbol : (i : ℕ) → i < base → digit (symbol i) ≡ i
digit-symbol i h = ground (arith, char_to_value-symbol i h)

pub symbol-digit : (c : ℕ) → IsSymbol c → (symbol (digit c) ≡ c) × (digit c < base)
symbol-digit c h = elim (Option-cases (char_to_value c)) [
  | inl missing ↦ absurd (h missing)
  | inr (v, found) ↦ ground (arith, symbol-char_to_value c v found)
]

pub IsSymbol-symbol : (i : ℕ) → i < base → IsSymbol (symbol i)
IsSymbol-symbol i h e = cc (char_to_value-symbol i h)

pub spelled-big_endian :
    (f n : ℕ) (acc : Text) → n ≤ f → spelled 0 (big_endian f n acc) ≡ spelled n acc
unfolding big_endian
spelled-big_endian zero n acc h = let e : n ≡ 0 = omega arith in rw e refl
spelled-big_endian (suc f) n acc h = elim (Bool-cases (n == 0)) [
  | inl is_zero ↦ let e : n ≡ 0 = ground arith in rw e refl
  | inr positive ↦
      let ih = spelled-big_endian f (n / base) (symbol (n % base) ∷ acc) (ground arith) in
      let back : n / base * base + digit (symbol (n % base)) ≡ n =
        omega (arith, digit-symbol (n % base) (omega arith)) in
      rw positive (ih ∙ ap (λ k. spelled k acc) back)
]

pub big_endian-IsSymbol :
    (f n : ℕ) (acc : Text) → All IsSymbol acc → All IsSymbol (big_endian f n acc)
unfolding big_endian
big_endian-IsSymbol zero n acc h = h
big_endian-IsSymbol (suc f) n acc h = elim (Bool-cases (n == 0)) [
  | inl is_zero ↦ rw is_zero h
  | inr positive ↦ rw positive (
      big_endian-IsSymbol f (n / base) (symbol (n % base) ∷ acc)
        (IsSymbol-symbol (n % base) (omega arith), h))
]

pub big_endian-ne-nil : (f n : ℕ) (acc : Text) → acc ≢ [] → big_endian f n acc ≢ []
unfolding big_endian
big_endian-ne-nil zero n acc h = h
big_endian-ne-nil (suc f) n acc h =
    ground (arith, big_endian-ne-nil f (n / base) (symbol (n % base) ∷ acc) (λ e. cc))

pub le-spelled : (code : Text) (n : ℕ) → n ≤ spelled n code
le-spelled [] n = omega arith
le-spelled (c ∷ code) n = omega (arith, le-spelled code (n * base + digit c))

pub big_endian-spelled :
    (code : Text) (n : ℕ) (acc : Text)
    → 0 < n
    → All IsSymbol code
    → big_endian (spelled n code) (spelled n code) acc ≡ big_endian n n (code ++ acc)
big_endian-spelled [] n acc h _ = refl
big_endian-spelled (c ∷ code) n acc h (hc, hs) =
    let m = n * base + digit c in
    let (same, small) = symbol-digit c hc in
    let quotient : m / base ≡ n = omega arith in
    let remainder : m % base ≡ digit c = omega arith in
    let ih = big_endian-spelled code m acc (omega arith) hs in
    let step = big_endian_step m (code ++ acc) (omega arith) in
    ih ∙ step ∙ rw (quotient, remainder, same) refl
