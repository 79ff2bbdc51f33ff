-- ===== src/Profile.antt =====
-- user_profile/service.py: the profiles of users. A column is a field of a dict.
pub mod Columns
use bank_fastapi.Prelude.{
  ℕ, Bool, true, false, not, ◌||◌, Option, none, some, List, [], ◌∷◌, ◌++◌, String, str_eq, ◌==◌,
  is_some, if◌then◌else◌,
}
use bank_fastapi.Prelude.Rows.{length, first}
use bank_fastapi.Prelude.Rows.Pages.{page}
use bank_fastapi.Models.{User, Profile, Role}
use bank_fastapi.Models.Metadata.{Value, Fields, end, field, set_field}
use bank_fastapi.Core.{
  Db, Context, Action, Error, ok, err, ◌>>=◌, ◌>>◌, pure, gets, or_raise, raise_if, change,
  profile_key, update_profile,
}

-- `get_user_profile`
abbrev pub get_user_profile : ℕ → Db → Option Profile
get_user_profile user_id db = first (λ p. p.user_id == user_id) db.profiles

abbrev pub add_profile : Profile → Db → Db
add_profile p db = record db { profiles = db.profiles ++ p ∷ [] }

abbrev pub new_profile : Context → ℕ → Fields → Profile
new_profile ctx user_id columns = record { id = ctx.new_id; user_id = user_id; columns = columns }

-- Returns the profile's id.
unfoldable pub create_user_profile : Context → ℕ → Fields → Action ℕ
create_user_profile ctx user_id columns = do
  raise_if (is_some (← gets (get_user_profile user_id)))
      (Error.validation_failed "Profile already exists for this user")
  change (add_profile (new_profile ctx user_id columns))
  pure ctx.new_id

-- `ImageTypeEnum`, and `field_mapping`, which has every member.
pub data ImageType : Type 0 where
  profile_photo id_photo signature_photo : ImageType

abbrev pub field_name : ImageType → String
field_name ImageType.profile_photo = "profile_photo_url"
field_name ImageType.id_photo = "id_photo_url"
field_name ImageType.signature_photo = "signature_photo_url"

abbrev pub is_photo : String → Bool
is_photo name =
    str_eq name "profile_photo_url"
    || (str_eq name "id_photo_url" || str_eq name "signature_photo_url")

-- The loop over `update_data.items()`.
abbrev pub set_columns : Fields → Fields → Fields
set_columns columns end = columns
set_columns columns (field name v rest) =
    set_columns (if is_photo name then columns else set_field name v columns) rest

abbrev pub updated_profile : Fields → Profile → Profile
updated_profile values p = record p { columns = set_columns p.columns values }

unfoldable pub update_user_profile : ℕ → Fields → Action ℕ
update_user_profile user_id values = do
  profile ← or_raise (Error.not_found "Profile not found") (← gets (get_user_profile user_id))
  change (update_profile profile.id (updated_profile values))
  pure profile.id

abbrev pub with_image : ImageType → String → Profile → Profile
with_image type url p = record p {
  columns = set_field (field_name type) (Value.text url) p.columns;
}

unfoldable pub update_profile_image_url : ℕ → ImageType → String → Action ℕ
update_profile_image_url user_id type url = do
  profile ← or_raise (Error.not_found "Profile not found") (← gets (get_user_profile user_id))
  change (update_profile profile.id (with_image type url))
  pure profile.id

unfoldable pub get_user_with_profile : ℕ → Action User
get_user_with_profile user_id = do
  user ←
      or_raise (Error.not_found "User not found")
        (← gets (λ db. first (λ u. u.id == user_id) db.users))
  pure user

abbrev pub is_branch_manager : Role → Bool
is_branch_manager Role.branch_manager = true
is_branch_manager _ = false

-- ORDER BY is `order`. The page, and the count of all users.
unfoldable pub get_all_user_profiles :
    (List User → List User) → User → ℕ → ℕ → Action (List User × ℕ)
get_all_user_profiles order current_user skip limit = do
  raise_if (not (is_branch_manager current_user.role)) (Error.forbidden "Access denied")
  gets (λ db. (page skip limit (order db.users), length db.users))
