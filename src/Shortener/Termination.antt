-- ===== src/Shortener/Termination.antt =====
-- How often the loop of `generate_unique_short_code` (app/core/shortener.py) asks `exists`.
use observable_url_shortener.Shortener.{attempts, generate_short_code, generate_unique_short_code}
use observable_url_shortener.Prelude.{
  Bool-cases, Action, pure, raise, lift, ◌>>=◌, Result-cases, ℤ, pos_part, Text, ℕ, zero, suc, ◌+◌,
  ◌≤◌, ◌≡◌, inl, inr, Bool, arith,
}

module _ {S : Type 0} (exists : Text → Action S Bool) (length : ℤ) (draws : ℕ → ℕ → ℕ)
    (calls : S → ℕ) where
  -- The attempts that are left bound the further calls.
  attempts_bounded :
      ((code : Text) (s : S) → calls (exists code s).1 ≡ calls s + 1)
      → (left i : ℕ) (s : S) → calls (attempts exists length draws left i s).1 ≤ calls s + left
  unfolding attempts ◌>>=◌ lift raise pure
  attempts_bounded counts zero i s = omega arith
  attempts_bounded counts (suc left) i s =
      elim (Result-cases (generate_short_code length (draws i))) [
        | inr (e, failed) ↦ rw failed (omega arith)
        | inl (candidate, drawn) ↦ elim (Result-cases (exists candidate s).0) [
          | inr (e, failed) ↦ let counted = counts candidate s in rw (drawn, failed) (omega arith)
          | inl (taken, answered) ↦
              let counted = counts candidate s in
              let ih = attempts_bounded counts left (i + 1) (exists candidate s).1 in
              elim (Bool-cases taken) [
                | inl busy ↦ rw (drawn, answered, busy) (omega arith)
                | inr free ↦ rw (drawn, answered, free) (omega arith)
              ]
        ]
      ]

  -- The search for a free code comes to an end after at most `max_retries` calls of `exists`,
  -- whatever they answer or raise; with a negative number of retries there is none. The state
  -- counts the calls: each adds one to `calls`.
  pub generate_unique_short_code_terminates :
      (max_retries : ℤ) (s : S)
      → ((code : Text) (s : S) → calls (exists code s).1 ≡ calls s + 1)
      → calls (generate_unique_short_code exists length draws max_retries s).1
        ≤ calls s + pos_part max_retries
  unfolding generate_unique_short_code
  generate_unique_short_code_terminates max_retries s counts =
      attempts_bounded counts (pos_part max_retries) 0 s
