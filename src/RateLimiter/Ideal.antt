-- ===== src/RateLimiter/Ideal.antt =====
-- A token bucket that never expires, as the specification of the script.
use observable_url_shortener.RateLimiter.{scale}
use observable_url_shortener.Prelude.{
  leb, if◌then◌else◌, ℕ, zero, suc, ◌+◌, ◌-◌, ◌*◌, ◌≤◌, min, ◌≡◌, List, [], ◌∷◌, arith,
}

-- The ideal bucket, in 1/60000 of a token: what it answers to requests for one token, each so many
-- milliseconds after the one before. An answer is 1 for allowed and 0 for rejected.
abbrev pub refilled : ℕ → ℕ → ℕ → ℕ → ℕ
refilled capacity rate tokens e = min (capacity * scale) (tokens + e * rate)

abbrev pub take_one : ℕ → ℕ
take_one tokens = if leb scale tokens then tokens - scale else tokens

abbrev pub answer : ℕ → ℕ
answer tokens = if leb scale tokens then 1 else 0

unfoldable pub ideal : ℕ → ℕ → ℕ → List ℕ → List ℕ
ideal capacity rate tokens [] = []
ideal capacity rate tokens (e ∷ gaps) =
    answer (refilled capacity rate tokens e)
    ∷ ideal capacity rate (take_one (refilled capacity rate tokens e)) gaps

abbrev pub sum : List ℕ → ℕ
sum [] = 0
sum (x ∷ xs) = x + sum xs

answer-take_one : (tokens : ℕ) → answer tokens * scale + take_one tokens ≡ tokens
answer-take_one tokens = ground arith

pub ideal_bound :
    (capacity rate tokens : ℕ) (gaps : List ℕ)
    → sum (ideal capacity rate tokens gaps) * scale ≤ tokens + sum gaps * rate
unfolding ideal
ideal_bound capacity rate tokens [] = omega arith
ideal_bound capacity rate tokens (e ∷ gaps) =
    let at_hand = refilled capacity rate tokens e in
    omega (arith, ideal_bound capacity rate (take_one at_hand) gaps, answer-take_one at_hand)

abbrev pub zeros : ℕ → List ℕ
zeros zero = []
zeros (suc n) = 0 ∷ zeros n

refilled_frozen :
    (capacity rate k : ℕ) → k ≤ capacity → refilled capacity rate (k * scale) 0 ≡ k * scale
refilled_frozen capacity rate k h = omega arith

pub ideal_frozen :
    (capacity rate k n : ℕ)
    → k ≤ capacity
    → sum (ideal capacity rate (k * scale) (zeros n)) ≡ min n k
unfolding ideal
ideal_frozen capacity rate k zero h = omega arith
ideal_frozen capacity rate zero (suc n) h =
    rw (refilled_frozen capacity rate 0 h) (omega (arith, ideal_frozen capacity rate 0 n h))
ideal_frozen capacity rate (suc k) (suc n) h =
    let granted : answer (suc k * scale) ≡ 1 = ground arith in
    let left : take_one (suc k * scale) ≡ k * scale = ground arith in
    rw (refilled_frozen capacity rate (suc k) h, granted, left)
      (omega (arith, ideal_frozen capacity rate k n (omega arith)))
