-- ===== src/Core/Ends.antt =====
-- Rules for what holds of the tables after an action, however it ends.
use bank_fastapi.Prelude.{◌≡◌, refl, Bool, true, false, Option, none, some, subst, sym, ap, ◌∙◌}
use bank_fastapi.Core.Exceptions.{Error, ok, err}
use bank_fastapi.Core.Database.{Db, Action, ◌>>=◌, >>=-cases, pure, gets, or_raise, raise_if}

-- From `P` before, `Q` after, whether the action returns or raises.
abbrev pub Ends {ℓ κ} : {A : Type ℓ} → (Db → Type κ) → (Db → Type κ) → Action A → Type κ
Ends P Q m = (db : Db) → P db → Q (m db).1

-- The action writes nothing.
abbrev pub Reads {ℓ} : {A : Type ℓ} → Action A → Type 0
Reads m = (db : Db) → (m db).1 ≡ db

module _ {ℓ} {A : Type ℓ} where
  pub pure-Reads : (a : A) → Reads (pure a)
  pure-Reads a db = refl

  pub gets-Reads : (f : Db → A) → Reads (gets f)
  gets-Reads f db = refl

  pub or_raise-Reads : (e : Error) (o : Option A) → Reads (or_raise e o)
  or_raise-Reads e none db = refl
  or_raise-Reads e (some a) db = refl

pub raise_if-Reads : (b : Bool) (e : Error) → Reads (raise_if b e)
raise_if-Reads true e db = refl
raise_if-Reads false e db = refl

module _ {ℓ κ μ} {A : Type ℓ} {B : Type κ} where
  -- After a read the rest starts from the same tables.
  pub read_then :
      (P Q : Db → Type μ) (m : Action A) (k : A → Action B)
      → ((db : Db) → P db → Q db)
      → Reads m
      → ((a : A) → Ends P Q (k a))
      → Ends P Q (m >>= k)
  read_then P Q m k sub reads rest db p =
      >>=-cases (λ r. Q r.1) m k db (λ a db' e. rest a db' (subst P (same db' e) p))
        (λ x db' e. sub db' (subst P (failed db' x e) p))
    where
      same : {a : A} (db' : Db) → m db ≡ (ok a, db') → db ≡ db'
      same db' e = sym (reads db) ∙ ap (λ r. r.1) e

      failed : (db' : Db) (x : Error) → m db ≡ (err x, db') → db ≡ db'
      failed db' x e = sym (reads db) ∙ ap (λ r. r.1) e

  -- A sequence of two actions that both keep `P`.
  pub keep_then :
      (P : Db → Type μ) (m : Action A) (k : A → Action B)
      → Ends P P m
      → ((a : A) → Ends P P (k a))
      → Ends P P (m >>= k)
  keep_then P m k keeps rest db p =
      >>=-cases (λ r. P r.1) m k db (λ a db' e. rest a db' (subst P (ap (λ r. r.1) e) (keeps db p)))
        (λ x db' e. subst P (ap (λ r. r.1) e) (keeps db p))
