-- ===== src/Api.antt =====
-- The package api (api/): the types of api_gomux.go and the errors of errors.go.
--
-- An error message and a log line are left out. The Go `error` of a handler is an `ApiError`, a
-- constructor for each dynamic type that readError and WriteResult tell apart.
pub mod Action
pub mod Reply
pub mod Read
pub mod Write
pub mod Wrapper
pub mod Server
pub mod Leads
pub mod Calls
pub mod Handled
pub mod Wrapped
pub mod Loaded
pub mod Streamed
pub mod Served
pub mod Guarded
pub mod Replied
pub mod Answered
pub mod Results
mod Tests
use etre.Base.{ℕ, String, Bool, ◌||◌, Option, none, some, List, [], ◌∷◌, str_eq}
use etre.Base.Dict.{Dict, lookup}
use etre.Base.Bytes.{Bytes}
use etre.Etre.{ObjectId, Entity, Outcome}
use etre.Query.{Query}
use etre.Auth.{Manager}
use etre.Entity.Validate.{Validator, ValidationError}
use etre.Entity.Store.Errors.{Error, StoreError}
use etre.Entity.Store.Partial.{WriteOp}
use etre.Entity.Store.Read.{QueryFilter}

-- etre.Error
pub record EtreError : Type 0 where
  pub type : String
  pub entity_id : String
  pub http_status : ℕ

abbrev etre_err : String → ℕ → EtreError
etre_err type http_status = record { type = type; entity_id = ""; http_status = http_status }

abbrev pub err_duplicate_entity : EtreError
err_duplicate_entity = etre_err "duplicate-entity" 409

abbrev pub err_not_found : EtreError
err_not_found = etre_err "entity-not-found" 404

abbrev pub err_missing_param : EtreError
err_missing_param = etre_err "missing-param" 400

abbrev pub err_invalid_param : EtreError
err_invalid_param = etre_err "invalid-param" 400

abbrev pub err_invalid_query : EtreError
err_invalid_query = etre_err "invalid-query" 400

abbrev pub err_internal : EtreError
err_internal = etre_err "internal-error" 500

abbrev pub err_cdc_disabled : EtreError
err_cdc_disabled = etre_err "cdc-disabled" 501

abbrev pub err_no_content : EtreError
err_no_content = etre_err "no-content" 400

abbrev pub err_invalid_content : EtreError
err_invalid_content = etre_err "invalid-content" 400

abbrev pub err_endpoint_not_found : EtreError
err_endpoint_not_found = etre_err "endpoint-not-found" 404

-- The errors that the wrappers make.
abbrev pub err_bad_request : EtreError
err_bad_request = etre_err "bad-request" 400

abbrev pub err_panic : EtreError
err_panic = etre_err "panic" 500

abbrev pub err_query_timeout : EtreError
err_query_timeout = etre_err "invalid-query-timeout" 400

-- etre.Error, entity.ValidationError, auth.Error by its type and status, and what the store returns.
pub data ApiError : Type 0 where
  etre_error : EtreError → ApiError
  validation : ValidationError → ApiError
  auth_error : (type : String) (http_status : ℕ) → ApiError
  store : StoreError → ApiError

-- A request. `selector` is the query parameter "query" by its bytes, "" if there is none. A body
-- that is not JSON of an entity, or of a list of them, is none there.
pub record Request : Type 0 where
  pub method : String
  pub entity_type : String
  pub id : String
  pub label : String
  pub query_values : Dict (List String)
  pub selector : Bytes
  pub query_timeout : String
  pub trace : String
  pub content_length : ℕ
  pub body_entity : Option Entity
  pub body_entities : Option (List Entity)
  pub remote_addr : String

-- entity.Store. An operation that panics has changed the world as far as it came.
pub record EntityStore : Type 1 where
  pub World : Type 0
  pub read_entities :
      String → Query → QueryFilter → World → World × Outcome (List Entity × Option StoreError)
  pub create_entities :
      WriteOp → List Entity → World → World × Outcome (List String × Option StoreError)
  pub update_entities :
      WriteOp → Query → Entity → World → World × Outcome (List Entity × Option StoreError)
  pub delete_entities : WriteOp → Query → World → World × Outcome (List Entity × Option StoreError)
  -- The entity is none where it is nil.
  pub delete_label : WriteOp → String → World → World × Outcome (Option Entity × Option StoreError)

-- The API value, and what the handlers call outside the package: time.ParseDuration, as far as
-- whether it accepts, primitive.ObjectIDFromHex, the time in nanoseconds from the start of a
-- request, the upgrade to a websocket, and the run of a change stream client. `text` is the text of
-- the bytes of a label.
pub record Api : Type 1 where
  pub addr : String
  pub es : EntityStore
  pub validate : Validator
  pub auth : Manager Request
  pub cdc_disabled : Bool
  pub query_latency_sla : ℕ
  pub is_duration : String → Bool
  pub object_id_from_hex : String → Option ObjectId
  pub query_latency : Request → EntityStore.World es → ℕ
  -- none for an upgrade, else the status of the response that the failed upgrade has sent.
  pub upgrade : Request → Option ℕ
  pub run_client : String → EntityStore.World es → EntityStore.World es × Outcome (Unit {0})
  pub text : Bytes → String

-- isWriteRequest
unfoldable pub is_write_request : String → Bool
is_write_request method = str_eq method "PUT" || (str_eq method "POST" || str_eq method "DELETE")

-- url.Values.Get
unfoldable pub get : String → Dict (List String) → String
get k qv = elim (lookup k qv) [ some (v ∷ vs) ↦ v | _ ↦ "" ]
