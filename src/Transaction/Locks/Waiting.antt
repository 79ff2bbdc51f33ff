-- ===== src/Transaction/Locks/Waiting.antt =====
-- Requests that wait for the locks of `lock_accounts`. A request gets the rows of `lock_accounts` one
-- after another, and keeps the locks that it has until its commit. Other locks, as those that an
-- INSERT takes on the rows that its foreign keys name, are not in the model.
use bank_fastapi.Prelude.{
  ℕ, ◌≤◌, ◌<◌, ◌≡◌, inl, inr, true, false, List, [], ◌∷◌, ◌++◌, map, arith, ◌==◌, Bool-cases, subst,
}
use bank_fastapi.Core.{Db, account_key}
use bank_fastapi.Transaction.Locks.{lock_accounts}
use bank_fastapi.Transaction.Locks.Order.{IsAscending, lock_accounts-IsAscending, contains}

-- A request that calls `lock_accounts` for `ids` at `tables`: it has the locks of the rows of `held`
-- and is waiting for that of `wanted`, which it does not have yet.
pub record Waiting : Type 0 where
  pub ids : List ℕ
  pub tables : Db
  pub held : List ℕ
  pub wanted : ℕ
  pub rest : List ℕ
  pub asked : map account_key (lock_accounts ids tables) ≡ held ++ wanted ∷ rest
  pub missing : contains wanted held ≡ false

-- `a` waits for a lock that `b` has, or for one that waits for it, and so on.
pub data WaitsFor (a : Waiting) : Waiting → Type 0 where
  direct : (b : Waiting) → contains a.wanted b.held ≡ true → WaitsFor a b
  through : (b c : Waiting) → WaitsFor a b → contains b.wanted c.held ≡ true → WaitsFor a c

held_below :
    (k w : ℕ) (held rest : List ℕ) → IsAscending (held ++ w ∷ rest) → contains k held ≡ true → k ≤ w
held_below k w [] rest up h = ground arith
held_below k w (x ∷ []) rest up h = ground arith
held_below k w (x ∷ y ∷ held) rest up h =
    ground (
      arith,
      held_below k w (y ∷ held) rest up.1,
      held_below y w (y ∷ held) rest up.1 (ground arith),
    )

-- What a request has is below what it waits for.
held-wanted : (k : ℕ) (b : Waiting) → contains k b.held ≡ true → k < b.wanted
held-wanted k b h =
    let up = subst IsAscending b.asked (lock_accounts-IsAscending b.ids b.tables) in
    let below = held_below k b.wanted b.held b.rest up h in
    elim (Bool-cases (k == b.wanted)) [
      | inl same ↦ ground (arith, b.missing)
      | inr other ↦ ground (arith, below)
    ]

WaitsFor-ascends : (a b : Waiting) → WaitsFor a b → a.wanted < b.wanted
WaitsFor-ascends a b (direct c h) = held-wanted a.wanted c h
WaitsFor-ascends a b (through c d w h) =
    let first_part = WaitsFor-ascends a c w in
    let last_part = held-wanted c.wanted d h in omega (arith, first_part, last_part)

-- There is no deadlock by the locks of `lock_accounts` alone: no request that waits for one of them
-- ever waits, through others that hold and wait for such locks, for itself.
pub WaitsFor-acyclic : (a : Waiting) → ¬ WaitsFor a a
WaitsFor-acyclic a w = let below = WaitsFor-ascends a a w in omega (arith, below)
