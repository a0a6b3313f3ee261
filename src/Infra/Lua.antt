-- ===== src/Infra/Lua.antt =====
-- The numbers of the Lua that Redis runs scripts with. They are C doubles; here each is a natural
-- number of units, `one` of which make up 1, as every finite double is a whole number of the
-- smallest ones. Only numbers from 0 up are needed.
use observable_url_shortener.Prelude.{ℕ, ◌-◌, ◌*◌, ◌≤◌, ◌<◌, ◌≡◌}

-- The operations round as IEEE 754 says; the laws are the cases in which the result is known.
pub record Lua : Type 0 where
  pub one : ℕ
  -- `n / 60000.0`, the product of a whole number and a number, the sum, the difference of a larger
  -- and a smaller number, and `math.ceil(a / b)`
  pub per_ms : ℕ → ℕ
  pub mul : ℕ → ℕ → ℕ
  pub add : ℕ → ℕ → ℕ
  pub sub : ℕ → ℕ → ℕ
  pub ceil_quotient : ℕ → ℕ → ℕ
  pub one_positive : 0 < one
  pub mul_zero : (b : ℕ) → mul 0 b ≡ 0
  pub add_zero : (a : ℕ) → add a 0 ≡ a
  -- Rounding is monotone.
  pub add_upper : (a b : ℕ) → b ≤ add a b
  -- A whole number is taken off exactly, while the numbers have a unit of 1 or less: up to 2 ^ 53.
  pub sub_whole :
      (n a : ℕ) → n * one ≤ a → a ≤ 9007199254740992 * one → sub a (n * one) ≡ a - n * one
