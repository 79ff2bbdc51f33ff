-- ===== src/Transaction/History/Pages.antt =====
-- What the pages of a user's history are together.
use bank_fastapi.Prelude.{
  none, ℕ, zero, suc, ◌*◌, ◌≤◌, ◌≡◌, refl, ◌∙◌, Bool, false, List, [], ◌∷◌, ◌++◌, map, arith, ◌==◌,
}
use bank_fastapi.Prelude.Rows.{no_rows, length, count_where}
use bank_fastapi.Prelude.Rows.Pages.{page, first_pages, first_pages-all, map-page, length-map}
use bank_fastapi.Models.{Transaction, RiskScore}
use bank_fastapi.Core.{Db}
use bank_fastapi.Transaction.History.{
  Filters, RiskRow, accounts_of, user_rows, with_counterparty, get_user_transactions,
  get_user_risk_history,
}

-- The rows are placed anew, and none is lost or doubled: ORDER BY.
abbrev pub IsOrder {ℓ} : {A : Type ℓ} → (List A → List A) → Type ℓ
IsOrder {A} order = (p : A → Bool) (rows : List A) → count_where p (order rows) ≡ count_where p rows

-- What a client has after it has fetched the pages 0, ..., m - 1.
abbrev pub fetched_pages :
    (List Transaction → List Transaction) → ℕ → ℕ → ℕ → Filters → Db → List Transaction
fetched_pages order user_id limit zero f db = []
fetched_pages order user_id limit (suc m) f db =
    fetched_pages order user_id limit m f db
    ++ (get_user_transactions order user_id (m * limit) limit f db).0

abbrev pub fetched_risks :
    (List (Transaction × RiskScore) → List (Transaction × RiskScore))
    → ℕ
    → ℕ
    → ℕ
    → Db
    → List RiskRow
fetched_risks order user_id limit zero db = []
fetched_risks order user_id limit (suc m) db =
    fetched_risks order user_id limit m db
    ++ (get_user_risk_history order user_id none none none (m * limit) limit db).0

module _ (order : List Transaction → List Transaction) (user_id limit : ℕ) (f : Filters) (db : Db)
    (owner : no_rows (accounts_of user_id db) ≡ false) where
  abbrev rows : List Transaction
  rows = map (with_counterparty user_id db) (order (user_rows user_id f db))

  page-rows :
      (skip : ℕ) → (get_user_transactions order user_id skip limit f db).0 ≡ page skip limit rows
  unfolding get_user_transactions
  page-rows skip =
      rw owner (map-page (with_counterparty user_id db) skip limit (order (user_rows user_id f db)))

  fetched-first_pages :
      (m : ℕ) → fetched_pages order user_id limit m f db ≡ first_pages limit m rows
  fetched-first_pages zero = refl
  fetched-first_pages (suc m) = rw (fetched-first_pages m, page-rows (m * limit)) refl

module _ {ℓ κ} {A : Type ℓ} {B : Type κ} (f : A → B) (p : B → Bool) (q : A → Bool)
    (same : (x : A) → p (f x) ≡ q x) where
  count-map : (xs : List A) → count_where p (map f xs) ≡ count_where q xs
  count-map [] = refl
  count-map (x ∷ xs) = ground (arith, same x, count-map xs)

-- Where ORDER BY only places the rows anew: a client of a user with an account who fetches pages up
-- to the count that the first page tells has every transaction that involves the user and meets the
-- filters exactly once, and no other.
pub fetched_pages-Complete :
    (order : List Transaction → List Transaction) (user_id limit m : ℕ) (f : Filters) (db : Db)
    → IsOrder order
    → no_rows (accounts_of user_id db) ≡ false
    → (get_user_transactions order user_id 0 limit f db).1 ≤ m * limit
    → (id : ℕ)
    → count_where (λ t. t.id == id) (fetched_pages order user_id limit m f db)
      ≡ count_where (λ t. t.id == id) (user_rows user_id f db)
unfolding get_user_transactions
fetched_pages-Complete order user_id limit m f db places owner enough id =
    let counted : length (rows order user_id limit f db owner) ≤ m * limit =
      rw (length-map (with_counterparty user_id db) (order (user_rows user_id f db)))
        (rw owner at enough) in
    rw
      (
        fetched-first_pages order user_id limit f db owner m,
        first_pages-all limit m (rows order user_id limit f db owner) counted,
      )
      (count-map (with_counterparty user_id db) (λ t. t.id == id) (λ t. t.id == id) (λ t. refl)
          (order (user_rows user_id f db))
        ∙ places (λ t. t.id == id) (user_rows user_id f db))
