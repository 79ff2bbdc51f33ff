-- ===== src/Transaction/Ledger.antt =====
-- What the money services promise: a ledger of balances, in which money is received, spent and
-- moved, and a debit is always covered.
pub mod Postings
pub mod Refinement
pub mod Approvals
pub mod Calls
use bank_fastapi.Prelude.{ℕ, Option, none, some, ◌≡◌, ◌==◌, if◌then◌else◌}
use bank_fastapi.Prelude.Int.{ℤ, pos, ◌+ℤ◌, ◌-ℤ◌, ◌≤ℤ◌}
use bank_fastapi.Core.{Db, get_account}

-- The balance of an account, if there is one.
abbrev pub Ledger : Type 0
Ledger = ℕ → Option ℤ

abbrev pub received : ℤ → Option ℤ → Option ℤ
received v none = none
received v (some b) = some (b +ℤ v)

abbrev pub spent : ℕ → Option ℤ → Option ℤ
spent amount none = none
spent amount (some b) = some (b -ℤ pos amount)

abbrev pub receive_at : ℕ → ℤ → Ledger → Ledger
receive_at k v ledger j = if k == j then received v (ledger j) else ledger j

abbrev pub spend_at : ℕ → ℕ → Ledger → Ledger
spend_at k amount ledger j = if k == j then spent amount (ledger j) else ledger j

-- The account has the money.
abbrev pub Covers : Ledger → ℕ → ℕ → Type 0
Covers ledger k amount = (b : ℤ) × (ledger k ≡ some b) × (pos amount ≤ℤ b)

pub data LedgerStep (before after : Ledger) : Type 0 where
  idle : ((j : ℕ) → after j ≡ before j) → LedgerStep before after
  receives :
      (k : ℕ) (v : ℤ) → ((j : ℕ) → after j ≡ receive_at k v before j) → LedgerStep before after
  spends :
      (k amount : ℕ)
      → Covers before k amount
      → ((j : ℕ) → after j ≡ spend_at k amount before j)
      → LedgerStep before after
  moves :
      (s r amount : ℕ) (v : ℤ)
      → Covers before s amount
      → ((j : ℕ) → after j ≡ receive_at r v (spend_at s amount before) j)
      → LedgerStep before after

-- The ledger that the tables hold.
abbrev pub book : Db → Ledger
book db k = elim (get_account k db) [ none ↦ none | some a ↦ some a.balance ]
