-- ===== src/Transaction/Locks/Order.antt =====
-- The order in which row locks are taken, and what the locked rows are.
use bank_fastapi.Prelude.{
  ℕ, ◌≤◌, ◌≡◌, refl, inl, inr, Bool, true, false, Option, none, some, List, [], ◌∷◌, map, ◌||◌,
  arith, ◌==◌, if◌then◌else◌, Option-cases, subst, sym,
}
use bank_fastapi.Prelude.Rows.{All, find, first-holds}
use bank_fastapi.Models.{BankAccount}
use bank_fastapi.Core.{Db, get_account, get_account?, account_key}
use bank_fastapi.Transaction.Locks.{
  insert_sorted, sorted, fetch_locked, lock_accounts, present_ids, locked_account,
}

abbrev pub contains : ℕ → List ℕ → Bool
contains k [] = false
contains k (j ∷ js) = (j == k) || contains k js

contains-insert_sorted :
    (k j : ℕ) (js : List ℕ) → contains k (insert_sorted j js) ≡ ((j == k) || contains k js)
contains-insert_sorted k j [] = refl
contains-insert_sorted k j (i ∷ is) = ground (arith, contains-insert_sorted k j is)

contains-sorted : (k : ℕ) (ks : List ℕ) → contains k (sorted ks) ≡ contains k ks
contains-sorted k [] = refl
contains-sorted k (j ∷ js) =
    ground (arith, contains-insert_sorted k j (sorted js), contains-sorted k js)

pub get_account-key : (k : ℕ) (db : Db) (a : BankAccount) → get_account k db ≡ some a → a.id ≡ k
get_account-key k db a e =
    ground (arith, first-holds (λ (r : BankAccount). r.id == k) db.accounts a e)

find-fetch_locked :
    (k : ℕ) (ks : List ℕ) (db : Db)
    → find account_key k (fetch_locked ks db) ≡ (if contains k ks then get_account k db else none)
unfolding fetch_locked
find-fetch_locked k [] db = refl
find-fetch_locked k (j ∷ js) db = elim (Option-cases (get_account j db)) [
  | inl gone ↦ rw (gone, fetch_locked) (ground (arith, find-fetch_locked k js db))
  | inr (a, e) ↦
      rw (e, fetch_locked) (ground (arith, get_account-key j db a e, find-fetch_locked k js db))
]

-- A row whose id is asked for is found among the locked rows exactly when it is in the table, and
-- it is the table's row.
pub find-lock_accounts :
    (k : ℕ) (ids : List ℕ) (db : Db)
    → contains k ids ≡ true
    → find account_key k (lock_accounts ids db) ≡ get_account k db
unfolding lock_accounts
find-lock_accounts k ids db h =
    ground (arith, find-fetch_locked k (sorted ids) db, contains-sorted k ids)

-- Ascending.
abbrev pub IsAscending : List ℕ → Type 0
IsAscending [] = Unit {0}
IsAscending (k ∷ []) = Unit {0}
IsAscending (k ∷ j ∷ js) = (k ≤ j) × IsAscending (j ∷ js)

insert_sorted-IsAscending :
    (k : ℕ) (js : List ℕ) → IsAscending js → IsAscending (insert_sorted k js)
insert_sorted-IsAscending k [] h = tt
insert_sorted-IsAscending k (j ∷ []) h = ground arith
insert_sorted-IsAscending k (j ∷ i ∷ is) h =
    ground (arith, insert_sorted-IsAscending k (i ∷ is) h.1)

-- The rows are locked in ascending order of their ids.
pub sorted-IsAscending : (ks : List ℕ) → IsAscending (sorted ks)
sorted-IsAscending [] = tt
sorted-IsAscending (k ∷ ks) = insert_sorted-IsAscending k (sorted ks) (sorted-IsAscending ks)

-- The two lookups that the transfer services make, at the ids that they locked.
pub locked_account-sender :
    (s r : Option ℕ) (db : Db)
    → locked_account s (lock_accounts (present_ids s r) db) ≡ get_account? s db
locked_account-sender none r db = refl
locked_account-sender (some a) none db = find-lock_accounts a (a ∷ []) db (ground arith)
locked_account-sender (some a) (some b) db = find-lock_accounts a (a ∷ b ∷ []) db (ground arith)

pub locked_account-receiver :
    (s r : Option ℕ) (db : Db)
    → locked_account r (lock_accounts (present_ids s r) db) ≡ get_account? r db
locked_account-receiver none none db = refl
locked_account-receiver (some a) none db = refl
locked_account-receiver none (some b) db = find-lock_accounts b (b ∷ []) db (ground arith)
locked_account-receiver (some a) (some b) db = find-lock_accounts b (a ∷ b ∷ []) db (ground arith)

-- Nothing in the list is below `k`.
abbrev Above : ℕ → List ℕ → Type 0
Above k js = All (λ j. k ≤ j) js

Above-lower : (k j : ℕ) (js : List ℕ) → k ≤ j → Above j js → Above k js
Above-lower k j [] h a = tt
Above-lower k j (i ∷ is) h a = (omega (arith, h, a.0), Above-lower k j is h a.1)

IsAscending-Above : (k : ℕ) (js : List ℕ) → IsAscending (k ∷ js) → Above k js
IsAscending-Above k [] h = tt
IsAscending-Above k (j ∷ js) h = (h.0, Above-lower k j js h.0 (IsAscending-Above j js h.1))

Above-IsAscending : (k : ℕ) (js : List ℕ) → Above k js → IsAscending js → IsAscending (k ∷ js)
Above-IsAscending k [] a h = tt
Above-IsAscending k (j ∷ js) a h = (a.0, h)

tail-IsAscending : (k : ℕ) (js : List ℕ) → IsAscending (k ∷ js) → IsAscending js
tail-IsAscending k [] h = tt
tail-IsAscending k (j ∷ js) h = h.1

fetch_locked-Above :
    (k : ℕ) (ks : List ℕ) (db : Db) → Above k ks → Above k (map account_key (fetch_locked ks db))
unfolding fetch_locked
fetch_locked-Above k [] db a = tt
fetch_locked-Above k (j ∷ js) db a = elim (Option-cases (get_account j db)) [
  | inl gone ↦ rw (fetch_locked, gone) (fetch_locked-Above k js db a.1)
  | inr (row, e) ↦
      rw (fetch_locked, e)
        (omega (arith, get_account-key j db row e, a.0), fetch_locked-Above k js db a.1)
]

fetch_locked-IsAscending :
    (ks : List ℕ) (db : Db) → IsAscending ks → IsAscending (map account_key (fetch_locked ks db))
unfolding fetch_locked
fetch_locked-IsAscending [] db h = tt
fetch_locked-IsAscending (j ∷ js) db h =
    let rest = fetch_locked-IsAscending js db (tail-IsAscending j js h) in
    elim (Option-cases (get_account j db)) [
      | inl gone ↦ rw (fetch_locked, gone) rest
      | inr (row, e) ↦
          rw (fetch_locked, e)
            (subst (λ k. IsAscending (k ∷ map account_key (fetch_locked js db)))
              (sym (get_account-key j db row e))
              (Above-IsAscending j (map account_key (fetch_locked js db))
                (fetch_locked-Above j js db (IsAscending-Above j js h)) rest))
    ]

-- The rows are locked in the order of their ids.
pub lock_accounts-IsAscending :
    (ids : List ℕ) (db : Db) → IsAscending (map account_key (lock_accounts ids db))
unfolding lock_accounts
lock_accounts-IsAscending ids db = fetch_locked-IsAscending (sorted ids) db (sorted-IsAscending ids)
