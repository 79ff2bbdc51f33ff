-- ===== src/Prelude/Rows/Pages.antt =====
-- OFFSET and LIMIT of a query, and what the pages of one query are together.
use bank_fastapi.Prelude.{
  ℕ, zero, suc, ◌+◌, ◌*◌, ◌≤◌, ◌≡◌, refl, sym, ap, ◌∙◌, List, [], ◌∷◌, ◌++◌, map, arith,
}
use bank_fastapi.Prelude.Rows.{length, All}

module _ {ℓ} {A : Type ℓ} where
  -- LIMIT n
  abbrev pub take : ℕ → List A → List A
  take zero xs = []
  take (suc n) [] = []
  take (suc n) (x ∷ xs) = x ∷ take n xs

  -- OFFSET n
  abbrev pub drop : ℕ → List A → List A
  drop zero xs = xs
  drop (suc n) [] = []
  drop (suc n) (x ∷ xs) = drop n xs

  -- `.offset(skip).limit(limit)`
  abbrev pub page : ℕ → ℕ → List A → List A
  page skip limit xs = take limit (drop skip xs)

  -- The rows of the pages 0, 1, ..., m - 1 of `limit` rows each.
  abbrev pub first_pages : ℕ → ℕ → List A → List A
  first_pages limit zero xs = []
  first_pages limit (suc m) xs = first_pages limit m xs ++ page (m * limit) limit xs

  pub append-nil : (xs : List A) → xs ++ [] ≡ xs
  append-nil [] = refl
  append-nil (x ∷ xs) = ap (λ ys. x ∷ ys) (append-nil xs)

  take-nil : (n : ℕ) → take n [] ≡ []
  take-nil zero = refl
  take-nil (suc n) = refl

  drop-nil : (n : ℕ) → drop n [] ≡ []
  drop-nil zero = refl
  drop-nil (suc n) = refl

  take-page : (n m : ℕ) (xs : List A) → take n xs ++ page n m xs ≡ take (n + m) xs
  take-page zero m xs = ap (λ k. take k xs) (omega arith)
  take-page (suc n) m [] = take-nil m ∙ sym (take-nil (suc n + m))
  take-page (suc n) m (x ∷ xs) =
      let grown : suc (n + m) ≡ suc n + m = omega arith in
      ap (λ ys. x ∷ ys) (take-page n m xs) ∙ ap (λ k. take k (x ∷ xs)) grown

  take-all : (n : ℕ) (xs : List A) → length xs ≤ n → take n xs ≡ xs
  take-all zero [] h = refl
  take-all zero (x ∷ xs) h = ground arith
  take-all (suc n) [] h = refl
  take-all (suc n) (x ∷ xs) h = ap (λ ys. x ∷ ys) (take-all n xs (omega arith))

  first_pages-take : (limit m : ℕ) (xs : List A) → first_pages limit m xs ≡ take (m * limit) xs
  first_pages-take limit zero xs =
      let none_yet : 0 ≡ 0 * limit = omega arith in ap (λ k. take k xs) none_yet
  first_pages-take limit (suc m) xs =
      let grown : m * limit + limit ≡ suc m * limit = grind arith in
      rw (first_pages-take limit m xs, take-page (m * limit) limit xs) (ap (λ n. take n xs) grown)

  -- Enough pages are the whole query.
  pub first_pages-all :
      (limit m : ℕ) (xs : List A) → length xs ≤ m * limit → first_pages limit m xs ≡ xs
  first_pages-all limit m xs h = first_pages-take limit m xs ∙ take-all (m * limit) xs h

  pub All-take {κ} : (P : A → Type κ) (n : ℕ) (xs : List A) → All P xs → All P (take n xs)
  All-take P zero xs h = tt
  All-take P (suc n) [] h = tt
  All-take P (suc n) (x ∷ xs) h = (h.0, All-take P n xs h.1)

  pub All-drop {κ} : (P : A → Type κ) (n : ℕ) (xs : List A) → All P xs → All P (drop n xs)
  All-drop P zero xs h = h
  All-drop P (suc n) [] h = tt
  All-drop P (suc n) (x ∷ xs) h = All-drop P n xs h.1

  pub length-take : (n : ℕ) (xs : List A) → length (take n xs) ≤ n
  length-take zero xs = omega arith
  length-take (suc n) [] = omega arith
  length-take (suc n) (x ∷ xs) = ground (arith, length-take n xs)

module _ {ℓ κ} {A : Type ℓ} {B : Type κ} (f : A → B) where
  pub length-map : (xs : List A) → length (map f xs) ≡ length xs
  length-map [] = refl
  length-map (x ∷ xs) = ap suc (length-map xs)

  pub map-append : (xs ys : List A) → map f (xs ++ ys) ≡ map f xs ++ map f ys
  map-append [] ys = refl
  map-append (x ∷ xs) ys = ap (λ zs. f x ∷ zs) (map-append xs ys)

  map-take : (n : ℕ) (xs : List A) → map f (take n xs) ≡ take n (map f xs)
  map-take zero xs = refl
  map-take (suc n) [] = refl
  map-take (suc n) (x ∷ xs) = ap (λ zs. f x ∷ zs) (map-take n xs)

  map-drop : (n : ℕ) (xs : List A) → map f (drop n xs) ≡ drop n (map f xs)
  map-drop zero xs = refl
  map-drop (suc n) [] = refl
  map-drop (suc n) (x ∷ xs) = map-drop n xs

  pub map-page :
      (skip limit : ℕ) (xs : List A) → map f (page skip limit xs) ≡ page skip limit (map f xs)
  map-page skip limit xs = map-take limit (drop skip xs) ∙ ap (take limit) (map-drop skip xs)
