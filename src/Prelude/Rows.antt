-- ===== src/Prelude/Rows.antt =====
-- Tables: lists of rows with a key, and the statements that the services run on them. A primary
-- key is a number; `find` is `session.get`, `first` is `.where(...)` with `.first()`, `modify`
-- an UPDATE of the row with a key, and `append` an INSERT.
pub mod Counts
pub mod Pages
use bank_fastapi.Prelude.{
  ℕ, suc, ◌+◌, ◌≡◌, refl, ◌≢◌, inl, inr, Bool, true, false, Bool-cases, Option, none, some, List,
  [], ◌∷◌, ◌++◌, arith, ◌==◌, if◌then◌else◌, is_some,
}
use bank_fastapi.Prelude.Int.{ℤ, pos, ◌+ℤ◌, +ℤ_exchange, +ℤ_under}

module _ {ℓ} {A : Type ℓ} where
  abbrev pub length : List A → ℕ
  length [] = 0
  length (x ∷ xs) = suc (length xs)

  -- Python's `not rows`
  abbrev pub no_rows : List A → Bool
  no_rows [] = true
  no_rows (x ∷ xs) = false

  -- `.where(p)` and `.first()`
  abbrev pub first : (A → Bool) → List A → Option A
  first p [] = none
  first p (x ∷ xs) = if p x then some x else first p xs

  -- `.where(p)` and `.all()`
  abbrev pub rows_where : (A → Bool) → List A → List A
  rows_where p [] = []
  rows_where p (x ∷ xs) = if p x then x ∷ rows_where p xs else rows_where p xs

  -- Python's `any` over a generator
  abbrev pub any_row : (A → Bool) → List A → Bool
  any_row p xs = is_some (first p xs)

  abbrev pub count_where : (A → Bool) → List A → ℕ
  count_where p xs = length (rows_where p xs)

  abbrev pub All {κ} : (A → Type κ) → List A → Type κ
  All P [] = Unit
  All P (x ∷ xs) = P x × All P xs

  pub All-append {κ} : (P : A → Type κ) (xs ys : List A) → All P xs → All P ys → All P (xs ++ ys)
  All-append P [] ys hx hy = hy
  All-append P (x ∷ xs) ys hx hy = (hx.0, All-append P xs ys hx.1 hy)

  pub first-append :
      (p : A → Bool) (xs ys : List A)
      → first p (xs ++ ys) ≡ (if any_row p xs then first p xs else first p ys)
  first-append p [] ys = refl
  first-append p (x ∷ xs) ys = ground (arith, first-append p xs ys)

  pub count_where-append :
      (p : A → Bool) (xs ys : List A)
      → count_where p (xs ++ ys) ≡ count_where p xs + count_where p ys
  count_where-append p [] ys = omega arith
  count_where-append p (x ∷ xs) ys = ground (arith, count_where-append p xs ys)

  pub first-holds : (p : A → Bool) (xs : List A) (x : A) → first p xs ≡ some x → p x ≡ true
  first-holds p [] x h = ground arith
  first-holds p (y ∷ xs) x h = ground (arith, first-holds p xs x)

  pub All-first {κ} :
      (P : A → Type κ) (p : A → Bool) (xs : List A) (x : A) → All P xs → first p xs ≡ some x → P x
  All-first P p [] x h e = ground arith
  All-first P p (y ∷ xs) x h e = ground (arith, All-first P p xs x h.1)

abbrev pub map_option {ℓ} : {A : Type ℓ} → (A → A) → Option A → Option A
map_option f none = none
map_option f (some a) = some (f a)

module _ {ℓ} {A : Type ℓ} (key : A → ℕ) where
  -- `session.get(A, k)`
  abbrev pub find : ℕ → List A → Option A
  find k rows = first (λ r. key r == k) rows

  -- UPDATE of the row whose key is `k`
  abbrev pub modify : ℕ → (A → A) → List A → List A
  modify k f [] = []
  modify k f (r ∷ rows) = if key r == k then f r ∷ rows else r ∷ modify k f rows

  -- DELETE of the row whose key is `k`
  abbrev pub delete : ℕ → List A → List A
  delete k [] = []
  delete k (r ∷ rows) = if key r == k then rows else r ∷ delete k rows

  pub find-modify_self :
      (k : ℕ) (f : A → A) (rows : List A) (r : A)
      → find k rows ≡ some r
      → key (f r) ≡ key r
      → find k (modify k f rows) ≡ some (f r)
  find-modify_self k f [] r e h = ground arith
  find-modify_self k f (x ∷ rows) r e h = ground (arith, find-modify_self k f rows r)

  pub find-modify_ne :
      (j k : ℕ) (f : A → A) (rows : List A)
      → j ≢ k
      → ((r : A) → key (f r) ≡ key r)
      → find j (modify k f rows) ≡ find j rows
  find-modify_ne j k f [] ne h = refl
  find-modify_ne j k f (x ∷ rows) ne h = ground (arith, h x, find-modify_ne j k f rows ne h)

  pub find-modify :
      (k j : ℕ) (f : A → A) (rows : List A)
      → ((r : A) → key (f r) ≡ key r)
      → find k (modify j f rows) ≡ (if j == k then map_option f (find k rows) else find k rows)
  find-modify k j f [] h = ground arith
  find-modify k j f (x ∷ rows) h = ground (arith, h x, find-modify k j f rows h)

  pub modify-missing :
      (k : ℕ) (f : A → A) (rows : List A) → find k rows ≡ none → modify k f rows ≡ rows
  modify-missing k f [] e = refl
  modify-missing k f (x ∷ rows) e = ground (arith, modify-missing k f rows)

  pub All-modify {κ} :
      (P : A → Type κ) (k : ℕ) (f : A → A) (rows : List A) (r : A)
      → All P rows
      → find k rows ≡ some r
      → P (f r)
      → All P (modify k f rows)
  All-modify P k f [] r h e p = tt
  All-modify P k f (x ∷ rows) r h e p = ground (arith, All-modify P k f rows r h.1)

  pub All-modify-All {κ} :
      (P : A → Type κ) (k : ℕ) (f : A → A) (rows : List A)
      → All P rows
      → ((r : A) → P r → P (f r))
      → All P (modify k f rows)
  All-modify-All P k f [] h keep = tt
  All-modify-All P k f (x ∷ rows) h keep =
      ground (arith, keep x h.0, All-modify-All P k f rows h.1 keep)

  -- The keys are distinct, as those of a primary key are.
  abbrev pub Distinct : List A → Type ℓ
  Distinct [] = Unit
  Distinct (r ∷ rows) = (find (key r) rows ≡ none) × Distinct rows

  -- So a row that any query returns is the row with its key.
  pub find-first :
      (p : A → Bool) (rows : List A) (r : A)
      → Distinct rows
      → first p rows ≡ some r
      → find (key r) rows ≡ some r
  find-first p [] r d e = ground arith
  find-first p (x ∷ rows) r d e = ground (arith, find-first p rows r d.1)

  pub Distinct-modify :
      (k : ℕ) (f : A → A) (rows : List A)
      → Distinct rows
      → ((r : A) → key (f r) ≡ key r)
      → Distinct (modify k f rows)
  Distinct-modify k f [] d h = tt
  Distinct-modify k f (x ∷ rows) d h =
      ground (arith, h x, find-modify (key x) k f rows h, Distinct-modify k f rows d.1 h)

  pub Distinct-append :
      (rows : List A) (r : A) → Distinct rows → find (key r) rows ≡ none → Distinct (rows ++ r ∷ [])
  Distinct-append [] r d e = (refl, tt)
  Distinct-append (x ∷ rows) r d e =
      ground
        (arith, first-append (λ (y : A). key y == key x) rows (r ∷ []), Distinct-append rows r d.1)

-- The sum of a signed column.
module _ {ℓ} {A : Type ℓ} (key : A → ℕ) (value : A → ℤ) where
  abbrev pub total : List A → ℤ
  total [] = pos 0
  total (r ∷ rows) = value r +ℤ total rows

  pub total-modify :
      (k : ℕ) (f : A → A) (rows : List A) (r : A)
      → find key k rows ≡ some r
      → total (modify key k f rows) +ℤ value r ≡ total rows +ℤ value (f r)
  total-modify k f [] r e = cc
  total-modify k f (x ∷ rows) r e = elim (Bool-cases (key x == k)) [
    | inl hit ↦
        let same : x ≡ r = ground arith in
        rw (hit, modify, ← same) (+ℤ_exchange (value (f x)) (total rows) (value x))
    | inr miss ↦
        let rest : find key k rows ≡ some r = ground arith in
        rw (miss, modify)
          (+ℤ_under (value x) (total (modify key k f rows)) (total rows) (value r) (value (f r))
            (total-modify k f rows r rest))
  ]
