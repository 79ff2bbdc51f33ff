-- ===== src/Kin/Limits.antt =====
-- The limits on a user's next of kin.
use bank_fastapi.Prelude.{
  if◌then◌else◌, ◌⊎◌, ℕ, ◌+◌, ◌≤◌, ◌≡◌, refl, inl, inr, Bool, true, false, none, some, String,
  arith, Option-cases, not, ◌&&◌, ◌==◌,
}
use bank_fastapi.Prelude.Rows.{
  delete, find-modify, first, first-holds, count_where, find, find-first, modify, Distinct,
  Distinct-modify, Distinct-append,
}
use bank_fastapi.Prelude.Rows.Counts.{
  count_mono, one_if, count-none, count-add, count-modify, count-modify_same, count-delete,
}
use bank_fastapi.Models.{NextOfKin}
use bank_fastapi.Core.{Db, Context, Result, ok, err, kin_key}
use bank_fastapi.Kin.Service.{
  update_kin, patched, is_kin_of, is_primary_of, get_next_of_kin_count, get_primary_next_of_kin,
  validate_next_of_kin_creation, kin_row, create_next_of_kin, get_user_next_of_kin, Patch,
  unset_primary, patched_row, hand_over, move_primary, update_next_of_kin, delete_next_of_kin,
}

abbrev pub primary_count : ℕ → Db → ℕ
primary_count user_id db = count_where (is_primary_of user_id) db.next_of_kins

-- No user has more than three next of kin, or more than one primary.
pub record KinInv (db : Db) : Type 0 where
  pub few : (user_id : ℕ) → get_next_of_kin_count user_id db ≤ 3
  pub one_primary : (user_id : ℕ) → primary_count user_id db ≤ 1
  pub keys : Distinct kin_key db.next_of_kins

primary_kin : (user_id : ℕ) (db : Db) → primary_count user_id db ≤ get_next_of_kin_count user_id db
primary_kin user_id db =
    count_mono (is_primary_of user_id) (is_kin_of user_id) db.next_of_kins (λ k h. ground arith)

-- A creation under an unused id keeps the limits, whether it returns or raises.
pub create_next_of_kin-KinInv :
    (ctx : Context) (user_id : ℕ) (full_name : String) (is_primary : Bool) (db : Db)
    → find kin_key ctx.new_id db.next_of_kins ≡ none
    → KinInv db
    → KinInv (create_next_of_kin ctx user_id full_name is_primary db).1
unfolding create_next_of_kin validate_next_of_kin_creation
create_next_of_kin-KinInv ctx user_id full_name is_primary db fresh v =
    let rows = db.next_of_kins in
    let k =
      kin_row ctx user_id full_name
        (if get_next_of_kin_count user_id db == 0 then true else is_primary) in
    record {
      few = λ u. ground (arith, v.few u, v.few user_id, count-add (is_kin_of u) rows k);
      one_primary = λ u. ground (
        arith,
        v.one_primary u,
        primary_kin user_id db,
        count-none (is_primary_of user_id) rows,
        count-add (is_primary_of u) rows k,
      );
      keys = ground (arith, v.keys, Distinct-append kin_key rows k v.keys fresh);
    }

-- After a creation that returns, the user has a primary next of kin if there was one before or the
-- user had none at all.
pub create_next_of_kin-primary :
    (ctx : Context) (user_id id : ℕ) (full_name : String) (is_primary : Bool) (db db' : Db)
    → create_next_of_kin ctx user_id full_name is_primary db ≡ (ok id, db')
    → (get_next_of_kin_count user_id db ≡ 0) ⊎ (primary_count user_id db ≡ 1)
    → primary_count user_id db' ≡ 1
unfolding create_next_of_kin validate_next_of_kin_creation
create_next_of_kin-primary ctx user_id id full_name is_primary db db' h before =
    let rows = db.next_of_kins in
    let k =
      kin_row ctx user_id full_name
        (if get_next_of_kin_count user_id db == 0 then true else is_primary) in
    ground (
      arith,
      primary_kin user_id db,
      count-none (is_primary_of user_id) rows,
      count-add (is_primary_of user_id) rows k,
    )

unset-primary_count :
    (user_id u : ℕ) (p : NextOfKin) (db : Db)
    → KinInv db
    → first (is_primary_of user_id) db.next_of_kins ≡ some p
    → count_where (is_primary_of u) (modify kin_key p.id unset_primary db.next_of_kins)
        + one_if (user_id == u)
      ≡ primary_count u db
unset-primary_count user_id u p db v e = ground (
  arith,
  first-holds (is_primary_of user_id) db.next_of_kins p e,
  count-modify kin_key (is_primary_of u) p.id unset_primary db.next_of_kins p
      (find-first kin_key (is_primary_of user_id) db.next_of_kins p v.keys e),
)

-- An update of one row that makes it primary only if no other is.
patch-KinInv :
    (id : ℕ) (full_name : Patch String) (is_primary : Patch Bool) (kin : NextOfKin) (db : Db)
    → KinInv db
    → find kin_key id db.next_of_kins ≡ some kin
    → (primary_count kin.user_id db ≡ 0)
      ⊎ ((patched is_primary kin.is_primary && not kin.is_primary) ≡ false)
    → KinInv (update_kin id (patched_row full_name is_primary) db)
patch-KinInv id full_name is_primary kin db v e free =
    let f = patched_row full_name is_primary in
    record {
      few = λ u. ground (
        arith,
        v.few u,
        count-modify_same kin_key (is_kin_of u) id f db.next_of_kins (λ _. refl),
      );
      one_primary = λ u. ground (
        arith,
        v.one_primary u,
        count-modify kin_key (is_primary_of u) id f db.next_of_kins kin e,
      );
      keys = Distinct-modify kin_key id f db.next_of_kins v.keys (λ _. refl);
    }

unset-KinInv :
    (user_id : ℕ) (p : NextOfKin) (db : Db)
    → KinInv db
    → first (is_primary_of user_id) db.next_of_kins ≡ some p
    → KinInv (update_kin p.id unset_primary db)
unset-KinInv user_id p db v e = record {
  few = λ u. ground (
    arith,
    v.few u,
    count-modify_same kin_key (is_kin_of u) p.id unset_primary db.next_of_kins (λ _. refl),
  );
  one_primary = λ u. ground (arith, v.one_primary u, unset-primary_count user_id u p db v e);
  keys = Distinct-modify kin_key p.id unset_primary db.next_of_kins v.keys (λ _. refl);
}

-- The row and the tables after the hand-over, at the row that becomes primary.
abbrev Free : ℕ → NextOfKin → Db → Type 0
Free id kin db =
    KinInv db
    × (find kin_key id db.next_of_kins ≡ some kin)
    × ((primary_count kin.user_id db ≡ 0) ⊎ (kin.is_primary ≡ true))

hand_over-Free :
    (user_id id : ℕ) (kin : NextOfKin) (db : Db)
    → KinInv db
    → get_user_next_of_kin user_id id db ≡ some kin
    → Free id kin (hand_over id (get_primary_next_of_kin user_id db) db)
hand_over-Free user_id id kin db v e =
    let owned : (find kin_key id db.next_of_kins ≡ some kin) × (kin.user_id ≡ user_id) =
      ground (arith, e) in
    elim (Option-cases (get_primary_next_of_kin user_id db)) [
      | inl no_primary ↦
          ground (arith, v, owned, count-none (is_primary_of user_id) db.next_of_kins no_primary)
      | inr (p, h) ↦
          let row = find-first kin_key (is_primary_of user_id) db.next_of_kins p v.keys h in
          ground (
            arith,
            v,
            owned,
            row,
            v.one_primary user_id,
            first-holds (is_primary_of user_id) db.next_of_kins p h,
            unset-KinInv user_id p db v h,
            unset-primary_count user_id user_id p db v h,
            find-modify kin_key id p.id unset_primary db.next_of_kins (λ _. refl),
          )
    ]

-- An update keeps the limits, whether it returns or raises.
pub update_next_of_kin-KinInv :
    (user_id id : ℕ) (full_name : Patch String) (is_primary : Patch Bool) (db : Db)
    → KinInv db
    → KinInv (update_next_of_kin user_id id full_name is_primary db).1
unfolding update_next_of_kin move_primary
update_next_of_kin-KinInv user_id id full_name is_primary db v =
    elim (Option-cases (get_user_next_of_kin user_id id db)) [
      | inl gone ↦ ground (arith, v)
      | inr (kin, e) ↦
          let free = hand_over-Free user_id id kin db v e in
          let over = hand_over id (get_primary_next_of_kin user_id db) db in
          ground (
            arith,
            v,
            patch-KinInv id full_name is_primary kin db v,
            patch-KinInv id full_name is_primary kin over free.0 free.1,
            free,
          )
    ]

-- What a deletion does to the numbers of next of kin.
abbrev pub Deletes : ℕ → Db → Result ℕ × Db → Type 0
Deletes user_id db (err e, db') = db' ≡ db
Deletes user_id db (ok id, db') =
    (1 ≤ get_next_of_kin_count user_id db')
    × ((u : ℕ) → get_next_of_kin_count u db' + one_if (user_id == u) ≡ get_next_of_kin_count u db)

-- After a deletion that returns the user has one next of kin less than before, but at least one, and
-- every other user as many as before; one that raises changes nothing.
pub delete_next_of_kin-Deletes :
    (user_id id : ℕ) (db : Db) → Deletes user_id db (delete_next_of_kin user_id id db)
unfolding delete_next_of_kin
delete_next_of_kin-Deletes user_id id db =
    elim (Option-cases (get_user_next_of_kin user_id id db)) [
      | inl gone ↦ ground arith
      | inr (kin, e) ↦
          let owned : (find kin_key id db.next_of_kins ≡ some kin) × (kin.user_id ≡ user_id) =
            ground (arith, e) in
          let counts : (u : ℕ)
              → count_where (is_kin_of u) (delete kin_key id db.next_of_kins)
                  + one_if (user_id == u)
                ≡ get_next_of_kin_count u db =
            λ u.
              ground (arith, count-delete kin_key (is_kin_of u) id db.next_of_kins kin owned.0) in
          ground (arith, counts, counts user_id)
    ]
