-- ===== src/Secrets/Handler.antt =====
-- internal/secret/handler.go: what Create, Update and Delete do to the table of secrets and answer.
-- The database is a parameter: an insertion or an update can fail.
use react_go_workflow.Prelude.{
  not, Option, none, some, List, [], ◌∷◌, ◌++◌, map, keep, Text, ◌==◌, if◌then◌else◌,
}
use react_go_workflow.Engine.Types.{Uuid}
use react_go_workflow.Secrets.Crypto.{CipherLibrary, ok, err, encrypt}

pub record SecretRow : Type 0 where
  pub id : Uuid
  pub key : Text
  pub encrypted_value : Text
  pub description : Text

-- The errors as package ent tells them apart.
pub data SaveError : Type 0 where
  constraint_error not_found database_error : SaveError

-- Creating a row, changing the row of an id, and deleting it; none is success.
pub record SecretTable : Type 0 where
  pub insert_error : SecretRow → List SecretRow → Option SaveError
  pub update_error : Uuid → List SecretRow → Option SaveError
  pub delete_error : Uuid → List SecretRow → Option SaveError

-- The answers, by the status and error that are written; a row is answered without its value.
pub data Answer : Type 0 where
  created updated no_content duplicate_key secret_not_found internal : Answer

-- A request to create, and one to update; a missing field is none.
pub record CreateRequest : Type 0 where
  pub key : Text
  pub value : Text
  pub description : Text

pub record UpdateRequest : Type 0 where
  pub value : Option Text
  pub description : Option Text

abbrev pub insert_answer : SaveError → Answer
insert_answer constraint_error = duplicate_key
insert_answer _ = internal

abbrev pub change_answer : SaveError → Answer
change_answer not_found = secret_not_found
change_answer _ = internal

abbrev or_old : {A : Type 0} → Option A → A → A
or_old none a = a
or_old (some b) a = b

module _ (lib : CipherLibrary) (enc_key : Text) (table : SecretTable) where
  abbrev insert_row : Answer → SecretRow → List SecretRow → Answer × List SecretRow
  insert_row said row rows = elim (table.insert_error row rows) [
    | some e ↦ (insert_answer e, rows)
    | none ↦ (said, rows ++ row ∷ [])
  ]

  -- Create, after the request was decoded and validated.
  unfoldable pub create :
      (random : Option Text)
      → (id : Uuid) → CreateRequest
      → List SecretRow
      → Answer × List SecretRow
  unfolding encrypt
  create random id q rows = elim (encrypt lib random q.value enc_key) [
    | err e ↦ (internal, rows)
    | ok encrypted ↦
        insert_row created
          (record {
            id = id;
            key = q.key;
            encrypted_value = encrypted;
            description = q.description;
          })
          rows
  ]

  abbrev change : Option Text → Option Text → SecretRow → SecretRow
  change encrypted description row = record row {
    encrypted_value = or_old encrypted row.encrypted_value;
    description = or_old description row.description;
  }

  abbrev change_row : Uuid → Option Text → Option Text → List SecretRow → Answer × List SecretRow
  change_row id encrypted description rows = elim (table.update_error id rows) [
    | some e ↦ (change_answer e, rows)
    | none ↦ (updated, map (λ r. if r.id == id then change encrypted description r else r) rows)
  ]

  -- The value of an update: none where there is none or it is empty.
  abbrev new_value : Option Text → Option Text
  new_value (some (c ∷ s)) = some (c ∷ s)
  new_value _ = none

  -- Update, after the request was decoded and validated.
  unfoldable pub update :
      (random : Option Text) → Uuid → UpdateRequest → List SecretRow → Answer × List SecretRow
  unfolding encrypt
  update random id q rows = elim (new_value q.value) [
    | none ↦ change_row id none q.description rows
    | some value ↦ elim (encrypt lib random value enc_key) [
      | err e ↦ (internal, rows)
      | ok encrypted ↦ change_row id (some encrypted) q.description rows
    ]
  ]

  -- Delete
  unfoldable pub delete : Uuid → List SecretRow → Answer × List SecretRow
  delete id rows = elim (table.delete_error id rows) [
    | some e ↦ (change_answer e, rows)
    | none ↦ (no_content, keep (λ r. not (r.id == id)) rows)
  ]
