-- ===== src/Api/Reply.antt =====
-- readError, WriteResult, writeOp and parseQuery of api/api_gomux.go.
use Prim.Native.String.{◌++◌ as concat}
use etre.Base.{
  ℕ, String, Bool, true, false, Option, none, some, List, [], ◌∷◌, ◌⊎◌, inl, inr, str_eq,
  if◌then◌else◌, map,
}
use etre.Base.Dict.{lookup}
use etre.Base.Bytes.{codes}
use etre.Etre.{ObjectId, Value, Entity, Outcome, returns, panics}
use etre.Auth.{Caller}
use etre.Query.{Query, translate, atoi}
use etre.Query.Kls.Scan.{ParseError}
use etre.Entity.Validate.{
  ValidationError, invalid_entity_type, empty_entity, empty_string_label, label_has_whitespace,
  cannot_set_metalabel, cannot_change_metalabel, invalid_value_type, cannot_delete_metalabel,
}
use etre.Entity.Store.Errors.{deadline_exceeded, StoreError, entity_not_found, db}
use etre.Entity.Store.Partial.{WriteOp}
use etre.Metrics.{Metric}
use etre.Api.{
  EtreError, ApiError, etre_error, validation, auth_error, store, Request, Api, get, err_not_found,
  err_duplicate_entity, err_invalid_query,
}
use etre.Api.Action.{Action, pure, maybe_inc, system_inc, respond, ◌>>=◌, ◌>>◌, Body, Written}

-- v.Type of a ValidationError.
unfoldable pub validation_type : ValidationError → String
validation_type invalid_entity_type = "invalid-entity-type"
validation_type (empty_entity i) = "empty-entity"
validation_type (empty_string_label i) = "empty-string-label"
validation_type (label_has_whitespace i) = "label-has-whitespace"
validation_type (cannot_set_metalabel i) = "cannot-set-metalabel"
validation_type (cannot_change_metalabel i) = "cannot-change-metalabel"
validation_type (invalid_value_type i) = "invalid-value-type"
validation_type cannot_delete_metalabel = "cannot-delete-metalabel"

abbrev pub of_validation : ValidationError → EtreError
of_validation v = record { type = validation_type v; entity_id = ""; http_status = 400 }

-- The metric that counts an error of the store.
unfoldable pub store_metric : StoreError → Metric
store_metric entity_not_found = Metric.api_error
store_metric (db deadline_exceeded type entity_id) = Metric.query_timeout
store_metric (db err type entity_id) = Metric.db_error

-- The error as the body of a read, null for one of no known type.
unfoldable pub read_body : ApiError → Body
read_body (etre_error e) = Body.error e
read_body (validation v) = Body.error (of_validation v)
read_body (auth_error type http_status) =
    Body.error (record { type = type; entity_id = ""; http_status = http_status })
read_body (store entity_not_found) = Body.null
read_body (store (db err type entity_id)) =
    Body.error (record { type = type; entity_id = entity_id; http_status = 503 })

unfoldable pub read_status : ApiError → ℕ
read_status (etre_error e) = e.http_status
read_status (validation v) = 400
read_status (auth_error type http_status) = http_status
read_status (store entity_not_found) = 500
read_status (store (db err type entity_id)) = 503

-- err == ErrNotFound
unfoldable pub is_not_found : EtreError → Bool
is_not_found e = str_eq e.type err_not_found.type

-- wr.Error for an error of the store.
unfoldable pub of_store_error : StoreError → EtreError
of_store_error entity_not_found = record {
  type = "unhandled-error";
  entity_id = "";
  http_status = 500;
}
of_store_error (db err type entity_id) =
    if str_eq type "duplicate-entity"
    then record err_duplicate_entity { entity_id = entity_id }
    else record { type = type; entity_id = entity_id; http_status = 503 }

-- wr.Error
unfoldable pub to_etre_error : ApiError → EtreError
unfolding of_store_error
to_etre_error (etre_error e) = e
to_etre_error (validation v) = of_validation v
to_etre_error (auth_error type http_status) = record {
  type = type;
  entity_id = "";
  http_status = http_status;
}
to_etre_error (store err) = of_store_error err

-- What a write has done: `ids` of WriteResult by its dynamic type. The entity of `diff` is none
-- where it is a nil map, which is no nil interface.
pub data Ids : Type 0 where
  no_ids : Ids
  diffs : List Entity → Ids
  new_ids : List String → Ids
  diff : Option Entity → Ids

-- diff["_id"].(primitive.ObjectID)
abbrev as_object_id : Option Value → Outcome ObjectId
as_object_id (some (Value.object_id o)) = returns o
as_object_id _ = panics

unfoldable pub id_of : Entity → Outcome ObjectId
id_of e = as_object_id (lookup "_id" e)

abbrev pub or_nil : Option Entity → Entity
or_nil none = []
or_nil (some e) = e

abbrev pub error_of : Option ApiError → Option EtreError
error_of none = none
error_of (some err) = some (to_etre_error err)

-- httpStatus of WriteResult.
unfoldable pub write_status : Ids → Option ApiError → ℕ
unfolding to_etre_error
write_status ids (some err) = (to_etre_error err).http_status
write_status (new_ids is) none = 201
write_status ids none = 200

module _ (api : Api) where
  open api use {addr, es}
  open es use {World}

  abbrev pub Handler : Type 0
  Handler = Action World (Unit {0})

  abbrev of_outcome : {A : Type 0} → Outcome A → Action World A
  of_outcome o s = (s, o)

  -- The metrics of an error of a read.
  unfoldable pub count_read_error : ApiError → Handler
  count_read_error (etre_error e) = maybe_inc Metric.client_error 1
  count_read_error (validation v) = maybe_inc Metric.client_error 1
  count_read_error (auth_error type http_status) = pure tt
  count_read_error (store err) = maybe_inc (store_metric err) 1

  unfoldable pub read_error : ApiError → Handler
  unfolding count_read_error read_body read_status
  read_error err = do
    system_inc Metric.error 1
    count_read_error err
    respond (read_status err) (read_body err)

  unfoldable pub count_write_error : Option ApiError → Handler
  count_write_error none = pure tt
  count_write_error (some (etre_error e)) = do
    system_inc Metric.error 1
    if is_not_found e then pure tt else maybe_inc Metric.client_error 1
  count_write_error (some (validation v)) = do
    system_inc Metric.error 1
    maybe_inc Metric.client_error 1
  count_write_error (some (store err)) = do
    system_inc Metric.error 1
    maybe_inc (store_metric err) 1
  count_write_error (some (auth_error type http_status)) = system_inc Metric.error 1

  unfoldable pub uri : String → String
  uri id = concat addr (concat "/api/v1/entity/" id)

  abbrev pub write_of : Option Entity → String → Written
  write_of d id = record { entity_id = id; uri = uri id; diff = d }

  -- The write of a diff.
  unfoldable pub written : Entity → Outcome Written
  unfolding id_of
  written e = etre.Etre.◌>>=◌ (id_of e) λ o. returns (write_of (some e) o.hex)

  -- The loop over the diffs.
  unfoldable pub written_all : List Entity → Outcome (List Written)
  unfolding written
  written_all [] = returns []
  written_all (e ∷ es) =
      etre.Etre.◌>>=◌ (written e) λ wr. etre.Etre.◌>>=◌ (written_all es) λ wrs. returns (wr ∷ wrs)

  -- wr.Writes
  unfoldable pub writes_of : Ids → Outcome (Option (List Written))
  unfolding written_all
  writes_of no_ids = returns none
  writes_of (diffs es) = etre.Etre.◌>>=◌ (written_all es) λ wrs. returns (some wrs)
  writes_of (new_ids is) = returns (some (map (write_of none) is))
  writes_of (diff e) = etre.Etre.◌>>=◌ (written (or_nil e)) λ wr. returns (some (wr ∷ []))

  unfoldable pub write_result : Ids → Option ApiError → Handler
  unfolding count_write_error writes_of write_status
  write_result ids err = do
    count_write_error err
    writes ← of_outcome (writes_of ids)
    respond (write_status ids err) (Body.write_result writes (error_of err))

  -- The error of a request, as its kind wants it.
  unfoldable pub reject : Bool → ApiError → Handler
  unfolding read_error write_result
  reject true err = write_result no_ids (some err)
  reject false err = read_error err

-- writeOp
unfoldable pub write_op : Request → Caller → WriteOp
write_op r caller = record {
  caller = caller.name;
  entity_type = r.entity_type;
  entity_id = r.id;
  set_op = get "setOp" r.query_values;
  set_id = get "setId" r.query_values;
  set_size =
      if str_eq (get "setSize" r.query_values) ""
      then 0
      else atoi (codes (get "setSize" r.query_values));
}

abbrev or_invalid : ParseError ⊎ Query → ApiError ⊎ Query
or_invalid (inr q) = inr q
or_invalid (inl e) = inl (etre_error err_invalid_query)

-- parseQuery
unfoldable pub parse_query : Request → Outcome (ApiError ⊎ Query)
parse_query r = elim r.selector [
  | [] ↦ returns (inl (etre_error err_invalid_query))
  | c ∷ cs ↦ etre.Etre.◌>>=◌ (translate (c ∷ cs)) λ q. returns (or_invalid q)
]
