-- ===== src/Profile/Columns.antt =====
-- What the calls do to the columns of a profile.
use bank_fastapi.Prelude.{
  ℕ, ◌≡◌, refl, inl, inr, true, false, Bool-cases, Option, some, String, str_eq, eq_iff, arith,
  ◌==◌, if◌then◌else◌, sym, ◌∙◌, ap,
}
use bank_fastapi.Prelude.Rows.{Distinct, find, find-first, find-modify_self}
use bank_fastapi.Models.{Profile}
use bank_fastapi.Models.Metadata.{
  Value, Fields, end, field, set_field, get_field, get_field-set_field,
}
use bank_fastapi.Core.{Db, ok, profile_key, update_profile}
use bank_fastapi.Profile.{
  get_user_profile, is_photo, set_columns, updated_profile, update_user_profile,
}

-- The value that the values of an update give a column, if any: the last one.
abbrev pub last_value : String → Fields → Option Value → Option Value
last_value k end old = old
last_value k (field name v rest) old = last_value k rest (if str_eq name k then some v else old)

photo-other : (k name : String) → is_photo k ≡ true → is_photo name ≡ false → str_eq name k ≡ false
photo-other k name h g = elim (Bool-cases (str_eq name k)) [
  | inl s ↦
      let same : name ≡ k = ground (arith, eq_iff name k) in
      let clash : true ≡ false = sym h ∙ ap is_photo (sym same) ∙ g in ground arith
  | inr s ↦ s
]

set_columns-photo :
    (k : String) (columns values : Fields)
    → is_photo k ≡ true
    → get_field k (set_columns columns values) ≡ get_field k columns
set_columns-photo k columns end h = refl
set_columns-photo k columns (field name v rest) h = elim (Bool-cases (is_photo name)) [
  | inl photo ↦ rw photo (set_columns-photo k columns rest h)
  | inr other ↦ rw other (
      set_columns-photo k (set_field name v columns) rest h
      ∙ get_field-set_field name k v columns
      ∙ rw (photo-other k name h other) refl)
]

set_columns-other :
    (k : String) (columns values : Fields)
    → is_photo k ≡ false
    → get_field k (set_columns columns values) ≡ last_value k values (get_field k columns)
set_columns-other k columns end h = refl
set_columns-other k columns (field name v rest) h = elim (Bool-cases (is_photo name)) [
  | inl photo ↦
      let apart : str_eq name k ≡ false = elim (Bool-cases (str_eq name k)) [
        | inl s ↦
            let same : name ≡ k = ground (arith, eq_iff name k) in
            let clash : true ≡ false = sym photo ∙ ap is_photo same ∙ h in ground arith
        | inr s ↦ s
      ] in
      rw (photo, apart) (set_columns-other k columns rest h)
  | inr other ↦ rw other (
      set_columns-other k (set_field name v columns) rest h
      ∙ ap (last_value k rest) (get_field-set_field name k v columns))
]

-- An update that returns, where the ids of the profiles are distinct: the user's profile has each
-- column as the update gives it last, and as it was where the update does not name it; the three
-- photo columns stay as they were, whatever the update says.
pub update_user_profile-columns :
    (user_id id : ℕ) (values : Fields) (db db' : Db) (p : Profile) (k : String)
    → Distinct profile_key db.profiles
    → get_user_profile user_id db ≡ some p
    → update_user_profile user_id values db ≡ (ok id, db')
    → (q : Profile) × (find profile_key p.id db'.profiles ≡ some q)
      × (get_field k q.columns ≡ (
          if is_photo k
          then get_field k p.columns
          else last_value k values (get_field k p.columns)))
unfolding update_user_profile
update_user_profile-columns user_id id values db db' p k d e run =
    let row = find-first profile_key (λ r. r.user_id == user_id) db.profiles p d e in
    let changed : db' ≡ update_profile p.id (updated_profile values) db = ground arith in
    let here : find profile_key p.id db'.profiles ≡ some (updated_profile values p) =
      rw changed
        (find-modify_self profile_key p.id (updated_profile values) db.profiles p row refl) in
    (
      updated_profile values p,
      here,
      elim (Bool-cases (is_photo k)) [
        | inl photo ↦ rw photo (set_columns-photo k p.columns values photo)
        | inr other ↦ rw other (set_columns-other k p.columns values other)
      ],
    )
