-- ===== src/Api/Results/Statuses.antt =====
-- The status and the error of the reply to a write, by its error.
use etre.Base.{
  ℕ, String, ◌≡◌, ◌≢◌, refl, sym, inl, inr, eq_iff, arith, Bool-cases, Option, none, some, str_eq,
}
use etre.Entity.Store.Errors.{Error, entity_not_found, db}
use etre.Api.{EtreError, ApiError, etre_error, validation, auth_error, store}
use etre.Api.Reply.{
  Ids, no_ids, diffs, new_ids, diff, error_of, write_status, validation_type, of_store_error,
  to_etre_error,
}

-- The error of a reply, by the error of the write: an error of the API is sent as it is; a validation
-- error is a bad request; a second entity with the key of another is a conflict; any other error of
-- the database is one of the service.
abbrev pub Means : ApiError → EtreError → Type 0
Means (etre_error e) x = x ≡ e
Means (validation v) x = (x.type ≡ validation_type v) × (x.entity_id ≡ "") × (x.http_status ≡ 400)
Means (auth_error type http_status) x =
    (x.type ≡ type) × (x.entity_id ≡ "") × (x.http_status ≡ http_status)
Means (store entity_not_found) x =
    (x.type ≡ "unhandled-error") × (x.entity_id ≡ "") × (x.http_status ≡ 500)
Means (store (db err type entity_id)) x =
    (x.type ≡ type)
    × (x.entity_id ≡ entity_id)
    × (type ≡ "duplicate-entity" → x.http_status ≡ 409)
    × (type ≢ "duplicate-entity" → x.http_status ≡ 503)

-- The status and the error of a reply: 201 for new entities and 200 for other writes where there is
-- no error, else the error and its own status, whatever was written.
abbrev pub Answers : Ids → Option ApiError → ℕ → Option EtreError → Type 0
Answers (new_ids is) none status x = (status ≡ 201) × (x ≡ none)
Answers no_ids none status x = (status ≡ 200) × (x ≡ none)
Answers (diffs es) none status x = (status ≡ 200) × (x ≡ none)
Answers (diff e) none status x = (status ≡ 200) × (x ≡ none)
Answers ids (some err) status x =
    (e : EtreError) × (x ≡ some e) × Means err e × (status ≡ e.http_status)

db_Means :
    (err : Error) (type entity_id : String)
    → Means (store (db err type entity_id)) (of_store_error (db err type entity_id))
unfolding of_store_error
db_Means err type entity_id = elim (Bool-cases (str_eq type "duplicate-entity")) [
  | inl dupe ↦
      let same = (eq_iff type "duplicate-entity").0 dupe in
      rw dupe (sym same, refl, λ e. refl, λ ne. absurd (ne same))
  | inr no_dupe ↦
      rw no_dupe
        (refl, refl, λ e. absurd (ground (arith, no_dupe, (eq_iff type _).1 e)), λ ne. refl)
]

to_etre_error-Means : (err : ApiError) → Means err (to_etre_error err)
unfolding to_etre_error of_store_error
to_etre_error-Means (etre_error e) = refl
to_etre_error-Means (validation v) = (refl, refl, refl)
to_etre_error-Means (auth_error type http_status) = (refl, refl, refl)
to_etre_error-Means (store entity_not_found) = (refl, refl, refl)
to_etre_error-Means (store (db err type entity_id)) = db_Means err type entity_id

pub write_status-Answers :
    (ids : Ids) (error : Option ApiError)
    → Answers ids error (write_status ids error) (error_of error)
unfolding write_status
write_status-Answers ids (some err) = (to_etre_error err, refl, to_etre_error-Means err, refl)
write_status-Answers (new_ids is) none = (refl, refl)
write_status-Answers no_ids none = (refl, refl)
write_status-Answers (diffs es) none = (refl, refl)
write_status-Answers (diff e) none = (refl, refl)
