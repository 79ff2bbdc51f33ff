-- ===== src/Kin/Service.antt =====
-- next_of_kin/service.py, with the columns that its rules read.
use bank_fastapi.Prelude.{
  ◌||◌, ℕ, Bool, true, false, ◌&&◌, Option, none, some, [], ◌∷◌, ◌++◌, String, ◌==◌, leb, is_some,
  if◌then◌else◌,
}
use bank_fastapi.Prelude.Rows.{first, count_where, find, modify, delete}
use bank_fastapi.Models.{NextOfKin}
use bank_fastapi.Core.{
  Db, Context, Action, Error, ◌>>=◌, ◌>>◌, pure, gets, or_raise, raise_if, change, kin_key,
}

abbrev pub max_next_of_kin : ℕ
max_next_of_kin = 3

abbrev pub is_kin_of : ℕ → NextOfKin → Bool
is_kin_of user_id k = k.user_id == user_id

abbrev pub is_primary_of : ℕ → NextOfKin → Bool
is_primary_of user_id k = (k.user_id == user_id) && k.is_primary

abbrev pub get_next_of_kin_count : ℕ → Db → ℕ
get_next_of_kin_count user_id db = count_where (is_kin_of user_id) db.next_of_kins

abbrev pub get_primary_next_of_kin : ℕ → Db → Option NextOfKin
get_primary_next_of_kin user_id db = first (is_primary_of user_id) db.next_of_kins

unfoldable pub validate_next_of_kin_creation : ℕ → Bool → Action ℕ
validate_next_of_kin_creation user_id is_primary = do
  current_count ← gets (get_next_of_kin_count user_id)
  raise_if (leb max_next_of_kin current_count)
      (Error.validation_failed "Maximum number of kin (3) already reached.")
  existing_primary ← gets (get_primary_next_of_kin user_id)
  raise_if (is_primary && is_some existing_primary)
      (Error.validation_failed "A primary next of kin already exists.")
  pure current_count

abbrev pub kin_row : Context → ℕ → String → Bool → NextOfKin
kin_row ctx user_id full_name is_primary = record {
  id = ctx.new_id;
  user_id = user_id;
  full_name = full_name;
  is_primary = is_primary;
}

abbrev pub add_kin : NextOfKin → Db → Db
add_kin k db = record db { next_of_kins = db.next_of_kins ++ k ∷ [] }

abbrev pub update_kin : ℕ → (NextOfKin → NextOfKin) → Db → Db
update_kin id f db = record db { next_of_kins = modify kin_key id f db.next_of_kins }

unfoldable pub create_next_of_kin : Context → ℕ → String → Bool → Action ℕ
create_next_of_kin ctx user_id full_name is_primary = do
  current_count ← validate_next_of_kin_creation user_id is_primary
  let primary = if current_count == 0 then true else is_primary
  change (add_kin (kin_row ctx user_id full_name primary))
  pure ctx.new_id

-- The user's row with this id; ids are a primary key.
abbrev pub get_user_next_of_kin : ℕ → ℕ → Db → Option NextOfKin
get_user_next_of_kin user_id id db = elim (find kin_key id db.next_of_kins) [
  | none ↦ none
  | some k ↦ if k.user_id == user_id then some k else none
]

-- A field of `model_dump(exclude_unset=True)`: left out, given as null, or given.
pub data Patch {ℓ} (A : Type ℓ) : Type ℓ where
  unset null : Patch A
  set_to : A → Patch A

abbrev pub patched {ℓ} : {A : Type ℓ} → Patch A → A → A
patched (Patch.set_to v) old = v
patched _ old = old

-- Both columns are not null: the commit raises at a null.
abbrev pub is_null {ℓ} : {A : Type ℓ} → Patch A → Bool
is_null Patch.null = true
is_null _ = false

abbrev pub unset_primary : NextOfKin → NextOfKin
unset_primary k = record k { is_primary = false }

abbrev pub patched_row : Patch String → Patch Bool → NextOfKin → NextOfKin
patched_row full_name is_primary k = record k {
  full_name = patched full_name k.full_name;
  is_primary = patched is_primary k.is_primary;
}

-- `if existing_primary and existing_primary.id != next_of_kin_id: ...`
abbrev pub hand_over : ℕ → Option NextOfKin → Db → Db
hand_over id none db = db
hand_over id (some p) db = if p.id == id then db else update_kin p.id unset_primary db

-- The branch on `update_data.is_primary`: a refusal, or the pending changes.
unfoldable pub move_primary : ℕ → ℕ → Patch Bool → Action (Unit {0})
move_primary user_id id (Patch.set_to true) =
    change (λ db. hand_over id (get_primary_next_of_kin user_id db) db)
move_primary user_id id (Patch.set_to false) = do
  total_count ← gets (get_next_of_kin_count user_id)
  raise_if (total_count == 1)
      (Error.validation_failed "Cannot unset primary next of kin when there is only one")
move_primary user_id id _ = pure tt

unfoldable pub update_next_of_kin : ℕ → ℕ → Patch String → Patch Bool → Action ℕ
update_next_of_kin user_id id full_name is_primary = do
  kin ←
      or_raise (Error.not_found "Next of kin not found") (← gets (get_user_next_of_kin user_id id))
  raise_if (is_null full_name || is_null is_primary) (Error.system_error "null value in column")
  move_primary user_id id is_primary
  change (update_kin id (patched_row full_name is_primary))
  pure id

unfoldable pub delete_next_of_kin : ℕ → ℕ → Action ℕ
delete_next_of_kin user_id id = do
  total_count ← gets (get_next_of_kin_count user_id)
  raise_if (leb total_count 1) (Error.validation_failed "Cannot delete the only next of kin")
  kin ←
      or_raise (Error.not_found "Next of kin not found") (← gets (get_user_next_of_kin user_id id))
  change (λ db. record db { next_of_kins = delete kin_key id db.next_of_kins })
  pure id
