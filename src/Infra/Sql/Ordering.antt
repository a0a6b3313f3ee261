-- ===== src/Infra/Sql/Ordering.antt =====
-- Rows in descending order, and their rearrangements.
use observable_url_shortener.Prelude.{
  length, take, drop, take-append-drop, All, ℕ, zero, suc, ◌+◌, ◌≤◌, ◌<◌, ◌≡◌, refl, ap, ◌∙◌, List,
  [], ◌∷◌, ◌++◌, map, Permᴰ, arith,
}

module _ {A : Type 0} where
  pub All-perm : (P : A → Type 0) {xs ys : List A} → Permᴰ xs ys → All P ys → All P xs
  All-perm P Permᴰ.nil h = h
  All-perm P (Permᴰ.cons e d) h = (rw e h.0, All-perm P d h.1)
  All-perm P (Permᴰ.swap e e') h = (rw e h.1.0, (rw e' h.0, h.1.1))
  All-perm P (Permᴰ.trans d d') h = All-perm P d (All-perm P d' h)

  pub length-perm : {xs ys : List A} → Permᴰ xs ys → length xs ≡ length ys
  length-perm Permᴰ.nil = refl
  length-perm (Permᴰ.cons e d) = omega (arith, length-perm d)
  length-perm (Permᴰ.swap e e') = refl
  length-perm (Permᴰ.trans d d') = length-perm d ∙ length-perm d'

  -- The sum of a number for each element.
  abbrev pub total : (A → ℕ) → List A → ℕ
  total f [] = 0
  total f (x ∷ xs) = f x + total f xs

  pub total-perm : (f : A → ℕ) {xs ys : List A} → Permᴰ xs ys → total f xs ≡ total f ys
  total-perm f Permᴰ.nil = refl
  total-perm f (Permᴰ.cons e d) = omega (arith, total-perm f d, ap f e)
  total-perm f (Permᴰ.swap e e') = omega (arith, ap f e, ap f e')
  total-perm f (Permᴰ.trans d d') = total-perm f d ∙ total-perm f d'

  pub total-append : (f : A → ℕ) (xs ys : List A) → total f (xs ++ ys) ≡ total f xs + total f ys
  total-append f [] ys = omega arith
  total-append f (x ∷ xs) ys = omega (arith, total-append f xs ys)

  pub total-take : (f : A → ℕ) (n : ℕ) (xs : List A) → total f (take n xs) ≤ total f xs
  total-take f n xs =
      omega (arith, ap (total f) (take-append-drop n xs), total-append f (take n xs) (drop n xs))

pub total-map :
    {A B : Type 0} (f : B → ℕ) (g : A → B) (xs : List A)
    → total f (map g xs) ≡ total (λ x. f (g x)) xs
total-map f g [] = refl
total-map f g (x ∷ xs) = omega (arith, total-map f g xs)

pub take_all : {A : Type 0} (n : ℕ) (xs : List A) → length (take n xs) < n → take n xs ≡ xs
take_all zero xs h = absurd (omega arith)
take_all (suc n) [] h = refl
take_all (suc n) (x ∷ xs) h = ap (◌∷◌ x) (take_all n xs (omega arith))
