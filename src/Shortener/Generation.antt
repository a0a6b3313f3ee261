-- ===== src/Shortener/Generation.antt =====
-- Random short codes, and the search for one that is free.
use observable_url_shortener.Shortener.{
  base, choice, choose, generate_short_code, attempts, generate_unique_short_code,
}
use observable_url_shortener.Shortener.Decoding.{IsSymbol}
use observable_url_shortener.Shortener.Digits.{IsSymbol-symbol}
use observable_url_shortener.Prelude.{
  ◌==◌, if◌then◌else◌, ==_iff, Bool-cases, Result, Action, ◌>>=◌, Result-cases, value_error,
  short_code_generation_error, ok, err, length, All, ℤ, pos_part, pos, negsuc, Preserves,
  Preserves-pure, Preserves-raise, Preserves-lift, Preserves-bind, Text, ℕ, zero, suc, ◌+◌, ◌%◌,
  ◌≤◌, ◌<◌, ◌≡◌, refl, ap, ◌∙◌, ◌⊎◌, inl, inr, Bool, true, false, arith,
}

choose_lem : (n : ℕ) (draws : ℕ → ℕ) → (length (choose n draws) ≡ n) × All IsSymbol (choose n draws)
unfolding choose choice
choose_lem zero draws = (refl, tt)
choose_lem (suc n) draws =
    let (long, valid) = choose_lem n (λ i. draws (suc i)) in
    (ap suc long, (IsSymbol-symbol (draws 0 % base) (omega arith), valid))

abbrev IsPositive : ℤ → Type 0
IsPositive n = 0 < pos_part n

-- For a positive length `generate_short_code` returns a code of that length over the alphabet,
-- whatever the random draws; for any other length it raises `ValueError`.
generate_short_code_lem :
    (n : ℤ) (draws : ℕ → ℕ)
    → (IsPositive n
        × (code : Text) × (generate_short_code n draws ≡ ok code)
        × (pos (length code) ≡ n)
        × All IsSymbol code)
      ⊎ ((pos_part n ≡ 0) × (generate_short_code n draws ≡ err value_error))
unfolding generate_short_code
generate_short_code_lem (negsuc n) draws = inr (refl, refl)
generate_short_code_lem (pos zero) draws = inr (refl, refl)
generate_short_code_lem (pos (suc n)) draws =
    let (long, valid) = choose_lem (suc n) draws in
    inl (omega arith, choose (suc n) draws, refl, ap pos long, valid)

-- The first code that is not taken among those of attempts `i`, …, `i + n - 1`.
abbrev pub first_free : (Text → Bool) → (ℕ → Text) → ℕ → ℕ → Result Text
first_free taken candidate zero i = err short_code_generation_error
first_free taken candidate (suc n) i =
    let rest = first_free taken candidate n (i + 1) in
    if taken (candidate i) then rest else ok (candidate i)

module _ {S : Type 0} (exists : Text → Action S Bool) (taken : Text → Bool) where
  attempts-first_free :
      (n : ℕ) (draws : ℕ → ℕ → ℕ) (left i : ℕ) (s : S)
      → ((code : Text) (s : S) → (exists code s).0 ≡ ok (taken code))
      → (attempts exists (pos (suc n)) draws left i s).0
        ≡ first_free taken (λ k. choose (suc n) (draws k)) left i
  unfolding attempts generate_short_code ◌>>=◌
  attempts-first_free n draws zero i s answers = refl
  attempts-first_free n draws (suc left) i s answers =
      let candidate = choose (suc n) (draws i) in
      let s' = (exists candidate s).1 in
      ground (arith, answers candidate s, attempts-first_free n draws left (i + 1) s' answers)

-- The search ends with a free code, or every attempt drew a taken one.
first_free_lem :
    (taken : Text → Bool) (candidate : ℕ → Text) (n i : ℕ)
    → ((k : ℕ) × (first_free taken candidate n i ≡ ok (candidate k))
        × (taken (candidate k) ≡ false))
      ⊎ ((first_free taken candidate n i ≡ err short_code_generation_error)
          × ((k : ℕ) → i ≤ k → k < i + n → taken (candidate k) ≡ true))
first_free_lem taken candidate zero i = inr (refl, λ k lo hi. absurd (omega arith))
first_free_lem taken candidate (suc n) i = elim (Bool-cases (taken (candidate i))) [
  | inl busy ↦ elim (first_free_lem taken candidate n (i + 1)) [
    | inl (k, found, free) ↦ inl (k, rw busy found, free)
    | inr (failed, all) ↦ inr (
      rw busy failed,
      λ k lo hi. elim (Bool-cases (k == i)) [
        | inl here ↦ let e : k ≡ i = (==_iff k i).0 here in rw e busy
        | inr later ↦ all k (ground arith) (omega arith)
      ],
    )
  ]
  | inr free ↦ inl (i, rw free, free)
]

module _ {S : Type 0} (exists : Text → Action S Bool) (taken : Text → Bool) where
  -- With a positive length, and an `exists` that always answers whether a code is taken,
  -- `generate_unique_short_code` returns a free code of that length over the alphabet, or raises
  -- `ShortCodeGenerationError` after `max_retries` draws that were all taken.
  pub generate_unique_short_code_lem :
      (n : ℕ) (draws : ℕ → ℕ → ℕ) (max_retries : ℤ) (s : S)
      → ((code : Text) (s : S) → (exists code s).0 ≡ ok (taken code))
      → ((code : Text) × ((generate_unique_short_code exists (pos (suc n)) draws max_retries s).0
            ≡ ok code)
          × (taken code ≡ false)
          × (length code ≡ suc n)
          × All IsSymbol code)
        ⊎ (((generate_unique_short_code exists (pos (suc n)) draws max_retries s).0
              ≡ err short_code_generation_error)
            × ((k : ℕ)
                → k < pos_part max_retries
                → (code : Text) × (generate_short_code (pos (suc n)) (draws k) ≡ ok code)
                  × (taken code ≡ true)))
  unfolding generate_unique_short_code
  generate_unique_short_code_lem n draws max_retries s answers =
      let same = attempts-first_free exists taken n draws (pos_part max_retries) 0 s answers in
      let candidate = λ (k : ℕ). choose (suc n) (draws k) in
      elim (first_free_lem taken candidate (pos_part max_retries) 0) [
        | inl (k, found, free) ↦
            let (long, valid) = choose_lem (suc n) (draws k) in
            inl (candidate k, same ∙ found, free, long, valid)
        | inr (failed, all) ↦ inr (
          same ∙ failed,
          λ k lt.
              (candidate k, unfold generate_short_code in refl, all k (omega arith) (omega arith)),
        )
      ]

-- What every call of `exists` keeps, the search keeps, whether it returns or raises.
module _ {S : Type 0} (P : S → Type 0) (exists : Text → Action S Bool) (length : ℤ) where
  Preserves-attempts :
      (draws : ℕ → ℕ → ℕ) (left i : ℕ)
      → ((code : Text) → Preserves P (exists code))
      → Preserves P (attempts exists length draws left i)
  unfolding attempts
  Preserves-attempts draws zero i keeps = Preserves-raise short_code_generation_error
  Preserves-attempts draws (suc left) i keeps = Preserves-bind _ _ (Preserves-lift _) λ candidate.
      Preserves-bind _ _ (keeps candidate) (elim [
        | true ↦ Preserves-attempts draws left (i + 1) keeps
        | false ↦ Preserves-pure candidate
      ])

  pub Preserves-generate_unique_short_code :
      (draws : ℕ → ℕ → ℕ) (max_retries : ℤ)
      → ((code : Text) → Preserves P (exists code))
      → Preserves P (generate_unique_short_code exists length draws max_retries)
  unfolding generate_unique_short_code
  Preserves-generate_unique_short_code draws max_retries keeps =
      Preserves-attempts draws (pos_part max_retries) 0 keeps

module _ {S : Type 0} (exists : Text → Action S Bool) (n : ℤ) (draws : ℕ → ℕ → ℕ) where
  attempts_ok :
      (left i : ℕ) (s : S) (code : Text)
      → (attempts exists n draws left i s).0 ≡ ok code
      → (pos (length code) ≡ n) × All IsSymbol code
  unfolding attempts ◌>>=◌
  attempts_ok zero i s code done = cc
  attempts_ok (suc left) i s code done = elim (generate_short_code_lem n (draws i)) [
    | inr (bad, failed) ↦ ground (arith, failed)
    | inl (positive, candidate, drawn, long, valid) ↦ elim (Result-cases (exists candidate s).0) [
      | inr (e, failed) ↦ ground (arith, drawn, failed)
      | inl (taken, answered) ↦ elim (Bool-cases taken) [
        | inl busy ↦
            attempts_ok left (i + 1) (exists candidate s).1 code (ground (arith, drawn, answered))
        | inr free ↦
            let same : candidate ≡ code = ground (arith, drawn, answered) in
            (rw (← same) long, rw (← same) valid)
      ]
    ]
  ]

  -- A code that `generate_unique_short_code` returns has the length asked for and is over the
  -- alphabet, whatever `exists` answers and whether it raises.
  pub generate_unique_short_code_ok :
      (max_retries : ℤ) (s : S) (code : Text)
      → (generate_unique_short_code exists n draws max_retries s).0 ≡ ok code
      → (pos (length code) ≡ n) × All IsSymbol code
  unfolding generate_unique_short_code
  generate_unique_short_code_ok max_retries s code done =
      attempts_ok (pos_part max_retries) 0 s code done
