-- ===== src/Prelude/Rows/Counts.antt =====
-- How the number of rows with a property changes.
use bank_fastapi.Prelude.{
  ℕ, ◌+◌, ◌≤◌, ◌≡◌, refl, Bool, true, false, none, some, List, [], ◌∷◌, ◌++◌, arith,
}
use bank_fastapi.Prelude.Rows.{first, count_where, find, modify, delete, Distinct}

-- One for a row that counts.
abbrev pub one_if : Bool → ℕ
one_if true = 1
one_if false = 0

module _ {ℓ} {A : Type ℓ} where
  pub count-none : (p : A → Bool) (xs : List A) → first p xs ≡ none → count_where p xs ≡ 0
  count-none p [] e = refl
  count-none p (x ∷ xs) e = ground (arith, count-none p xs)

  pub count-some : (p : A → Bool) (xs : List A) (x : A) → first p xs ≡ some x → 1 ≤ count_where p xs
  count-some p [] x e = ground arith
  count-some p (y ∷ xs) x e = ground (arith, count-some p xs x)

  pub count_mono :
      (p q : A → Bool) (xs : List A)
      → ((x : A) → p x ≡ true → q x ≡ true)
      → count_where p xs ≤ count_where q xs
  count_mono p q [] h = omega arith
  count_mono p q (x ∷ xs) h = ground (arith, h x, count_mono p q xs h)

  pub count-add :
      (p : A → Bool) (xs : List A) (x : A)
      → count_where p (xs ++ x ∷ []) ≡ count_where p xs + one_if (p x)
  count-add p [] x = ground arith
  count-add p (y ∷ xs) x = ground (arith, count-add p xs x)

module _ {ℓ} {A : Type ℓ} (key : A → ℕ) where
  pub count-modify :
      (p : A → Bool) (k : ℕ) (f : A → A) (rows : List A) (r : A)
      → find key k rows ≡ some r
      → count_where p (modify key k f rows) + one_if (p r) ≡ count_where p rows + one_if (p (f r))
  count-modify p k f [] r e = ground arith
  count-modify p k f (x ∷ rows) r e = ground (arith, count-modify p k f rows r)

  -- A change that does not touch what is counted.
  pub count-modify_same :
      (p : A → Bool) (k : ℕ) (f : A → A) (rows : List A)
      → ((r : A) → p (f r) ≡ p r)
      → count_where p (modify key k f rows) ≡ count_where p rows
  count-modify_same p k f [] h = refl
  count-modify_same p k f (x ∷ rows) h = ground (arith, h x, count-modify_same p k f rows h)

  pub count-delete :
      (p : A → Bool) (k : ℕ) (rows : List A) (r : A)
      → find key k rows ≡ some r
      → count_where p (delete key k rows) + one_if (p r) ≡ count_where p rows
  count-delete p k [] r e = ground arith
  count-delete p k (x ∷ rows) r e = ground (arith, count-delete p k rows r)

  find-delete :
      (j k : ℕ) (rows : List A) → find key j rows ≡ none → find key j (delete key k rows) ≡ none
  find-delete j k [] e = refl
  find-delete j k (x ∷ rows) e = ground (arith, find-delete j k rows)

  pub Distinct-delete :
      (k : ℕ) (rows : List A) → Distinct key rows → Distinct key (delete key k rows)
  Distinct-delete k [] d = tt
  Distinct-delete k (x ∷ rows) d =
      ground (arith, find-delete (key x) k rows d.0, Distinct-delete k rows d.1)
