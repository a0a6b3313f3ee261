-- ===== src/Shortener/Preservation.antt =====
-- The generator of app/core/shortener.py and the state that the existence check works on.
use observable_url_shortener.Shortener.{attempts, generate_unique_short_code}
use observable_url_shortener.Prelude.{
  Action, pure, ℤ, pos_part, Preserves, Preserves-pure, Preserves-raise, Preserves-lift,
  Preserves-bind, Text, ℕ, zero, suc, ◌+◌, Bool, true, false,
}

module _ {W : Type 0} {P : W → Type 0} (exists : Text → Action W Bool)
    (keeps : (code : Text) → Preserves P (exists code)) where
  module _ (n : ℤ) (draws : ℕ → ℕ → ℕ) where
    attempts-Preserves : (left i : ℕ) → Preserves P (attempts exists n draws left i)
    unfolding attempts
    attempts-Preserves zero i = Preserves-raise _
    attempts-Preserves (suc left) i = Preserves-bind _ _ (Preserves-lift _) λ candidate.
        Preserves-bind _ _ (keeps candidate)
          λ taken. next candidate taken (attempts-Preserves left (i + 1))
      where
        next :
            (candidate : Text) (taken : Bool)
            → Preserves P (attempts exists n draws left (i + 1))
            → Preserves P (elim taken [
              | true ↦ attempts exists n draws left (i + 1)
              | false ↦ pure candidate
            ])
        next candidate true rest = rest
        next candidate false rest = Preserves-pure candidate

    pub generate_unique_short_code-Preserves :
        (max_retries : ℤ) → Preserves P (generate_unique_short_code exists n draws max_retries)
    unfolding generate_unique_short_code
    generate_unique_short_code-Preserves max_retries = attempts-Preserves (pos_part max_retries) 0
