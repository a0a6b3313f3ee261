-- ===== src/Examples/Sorting.antt =====
-- Rows sorted by insertion, for `ORDER BY`.
use observable_url_shortener.Infra.Sql.{IsDescending, IsOrderOf}
use observable_url_shortener.Infra.Sql.Ordering.{All-perm}
use observable_url_shortener.Prelude.{
  ltb, if◌then◌else◌, Bool-cases, All, ℕ, ◌≤◌, refl, inl, inr, List, [], ◌∷◌, Permᴰ, arith,
}

module _ {A : Type 0} (rank : A → ℕ) where
  abbrev insert : A → List A → List A
  insert x [] = x ∷ []
  insert x (y ∷ ys) = if ltb (rank x) (rank y) then y ∷ insert x ys else x ∷ y ∷ ys

  abbrev pub sort : List A → List A
  sort [] = []
  sort (x ∷ xs) = insert x (sort xs)

  same_perm : (xs : List A) → Permᴰ xs xs
  same_perm [] = Permᴰ.nil
  same_perm (x ∷ xs) = Permᴰ.cons refl (same_perm xs)

  insert_perm : (x : A) (ys : List A) → Permᴰ (insert x ys) (x ∷ ys)
  insert_perm x [] = same_perm (x ∷ [])
  insert_perm x (y ∷ ys) = elim (Bool-cases (ltb (rank x) (rank y))) [
    | inl below ↦ rw below (Permᴰ.trans (Permᴰ.cons refl (insert_perm x ys)) (Permᴰ.swap refl refl))
    | inr above ↦ rw above (same_perm (x ∷ y ∷ ys))
  ]

  sort_perm : (xs : List A) → Permᴰ (sort xs) xs
  sort_perm [] = Permᴰ.nil
  sort_perm (x ∷ xs) = Permᴰ.trans (insert_perm x (sort xs)) (Permᴰ.cons refl (sort_perm xs))

  All-weaken : (n m : ℕ) (ys : List A) → n ≤ m → All (λ y. rank y ≤ n) ys → All (λ y. rank y ≤ m) ys
  All-weaken n m [] le h = tt
  All-weaken n m (y ∷ ys) le h = (omega (arith, h.0), All-weaken n m ys le h.1)

  insert-IsDescending :
      (x : A) (ys : List A) → IsDescending rank ys → IsDescending rank (insert x ys)
  insert-IsDescending x [] h = (tt, tt)
  insert-IsDescending x (y ∷ ys) h = elim (Bool-cases (ltb (rank x) (rank y))) [
    | inl below ↦ rw below (
      All-perm (λ z. rank z ≤ rank y) (insert_perm x ys) (ground arith, h.0),
      insert-IsDescending x ys h.1,
    )
    | inr above ↦ rw above ((ground arith, All-weaken (rank y) (rank x) ys (ground arith) h.0), h)
  ]

  sort-IsDescending : (xs : List A) → IsDescending rank (sort xs)
  sort-IsDescending [] = tt
  sort-IsDescending (x ∷ xs) = insert-IsDescending x (sort xs) (sort-IsDescending xs)

  pub sort-IsOrderOf : (xs : List A) → IsOrderOf rank xs (sort xs)
  sort-IsOrderOf xs = record { rearranged = sort_perm xs; descending = sort-IsDescending xs }
