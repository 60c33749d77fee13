-- ===== src/Entity/Store/Errors.antt =====
-- The errors of the MongoDB driver that entity/entity.go and dbError of entity/store.go tell apart,
-- and the errors that the store returns.
use etre.Base.{ℕ, String, Bool, true, false, Option, none, some, List, [], ◌∷◌, ◌==◌, if◌then◌else◌}

pub record WriteError : Type 0 where
  pub code : ℕ
  pub message : String

-- mongo.ErrNoDocuments, mongo.WriteException, mongo.CommandError, one error of a WriteException, and
-- context.DeadlineExceeded, and any other error by its text.
pub data Error : Type 0 where
  no_documents : Error
  write_exception : List WriteError → Error
  command_error : ℕ → String → Error
  write_error : WriteError → Error
  deadline_exceeded : Error
  other : String → Error

-- etre.ErrEntityNotFound, or a DbError.
pub data StoreError : Type 0 where
  entity_not_found : StoreError
  db : (err : Error) (type entity_id : String) → StoreError

abbrev pub dupe_key_code : ℕ
dupe_key_code = 11000

unfoldable pub first_dupe : List WriteError → Option Error
first_dupe [] = none
first_dupe (e ∷ es) = if e.code == dupe_key_code then some (write_error e) else first_dupe es

unfoldable pub is_dupe_key_error : Error → Option Error
unfolding first_dupe
is_dupe_key_error (write_exception es) = first_dupe es
is_dupe_key_error (command_error code message) =
    if code == dupe_key_code then some (command_error code message) else none
is_dupe_key_error _ = none

not_dupe : Error → String → StoreError
not_dupe no_documents type = entity_not_found
not_dupe err type = db err type ""

unless_dupe : Option Error → Error → String → StoreError
unless_dupe (some dupe) err type = db dupe "duplicate-entity" ""
unless_dupe none err type = not_dupe err type

-- `ctx_err` is s.ctx.Err().
unfoldable pub db_error : Option Error → Error → String → StoreError
unfolding unless_dupe not_dupe
db_error (some ctx_err) err type = db ctx_err type ""
db_error none err type = unless_dupe (is_dupe_key_error err) err type

-- err == mongo.ErrNoDocuments
abbrev pub is_no_documents : Error → Bool
is_no_documents no_documents = true
is_no_documents _ = false
