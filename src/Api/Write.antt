-- ===== src/Api/Write.antt =====
-- The handlers of api/api_gomux.go that write entities. `goto reply` is a call of write_result.
use etre.Base.{
  String, Option, none, some, List, [], ◌∷◌, ◌⊎◌, inl, inr, length, str_eq, if◌then◌else◌,
}
use etre.Etre.{Entity, returns}
use etre.Query.{Query}
use etre.Entity.Validate.{on_create, on_update, ValidationError, entities, delete_label}
use etre.Entity.Store.Errors.{StoreError, entity_not_found, db}
use etre.Entity.Store.Partial.{WriteOp}
use etre.Metrics.{Metric}
use etre.Metrics.Store.{Call}
use etre.Api.{
  ApiError, etre_error, validation, store, Request, Api, err_invalid_content, err_no_content,
  err_not_found, err_missing_param,
}
use etre.Api.Action.{Action, pure, gets, on_gm, on_world, ◌>>=◌, ◌>>◌}
use etre.Api.Reply.{Handler, Ids, diffs, new_ids, diff, write_result, parse_query}
use etre.Api.Read.{of_outcome, count_labels, query_of_id}

abbrev pub of_store : Option StoreError → Option ApiError
of_store none = none
of_store (some error) = some (store error)

-- The patch, validated as the only entity of a list.
abbrev pub validated : List Entity → Entity
validated [] = []
validated (patch ∷ ps) = patch

module _ (api : Api) where
  open api use {es}
  open es use {World}

  -- A call of the store with the write of the request.
  unfoldable pub write_store :
      {A : Type 0} → (WriteOp → World → World × etre.Etre.Outcome A) → Action World A
  write_store f = gets (λ rc. rc.wo) >>= λ wo. on_world (f wo)

  abbrev pub fail : Ids → ApiError → Handler api
  fail ids error = write_result api ids (some error)

  -- Behind CreateEntities in postEntitiesHandler.
  unfoldable pub after_create_many : List String × Option StoreError → Handler api
  after_create_many (ids, error) = do
    on_gm (Call.inc Metric.created (length ids))
    write_result api (new_ids ids) (of_store error)

  -- Behind the validation.
  unfoldable pub create_many : List Entity × Option ValidationError → Handler api
  unfolding write_store after_create_many
  create_many (es', some error) = fail (new_ids []) (validation error)
  create_many (es', none) = write_store (λ wo. es.create_entities wo es') >>= after_create_many

  unfoldable pub post_many : Option (List Entity) → Handler api
  unfolding create_many
  post_many none = fail (new_ids []) (etre_error err_invalid_content)
  post_many (some []) = fail (new_ids []) (etre_error err_no_content)
  post_many (some (e ∷ es')) = do
    on_gm (Call.val Metric.create_bulk (length (e ∷ es')))
    create_many (entities on_create (e ∷ es'))

  unfoldable pub post_entities_handler : Request → Handler api
  unfolding post_many
  post_entities_handler r = do on_gm (Call.inc Metric.create_many 1); post_many r.body_entities

  -- The loop that counts the labels of a patch.
  unfoldable pub count_updates : Entity → Handler api
  count_updates [] = pure tt
  count_updates ((label, v) ∷ e) =
      on_gm (Call.inc_label Metric.label_update label) >> count_updates e

  -- Behind UpdateEntities in putEntitiesHandler.
  unfoldable pub after_update_many : List Entity × Option StoreError → Handler api
  after_update_many (ds, error) = do
    on_gm (Call.val Metric.update_bulk (length ds))
    on_gm (Call.inc Metric.updated (length ds))
    write_result api (diffs ds) (of_store error)

  -- Behind the validation of the patch, which is the only entity of the list.
  unfoldable pub update_many : Query → List Entity × Option ValidationError → Handler api
  unfolding write_store count_updates after_update_many
  update_many q (ps, some error) = fail (diffs []) (validation error)
  update_many q (ps, none) = do
    let patch = validated ps
    on_gm (Call.val Metric.labels (length q.predicates))
    count_labels api q.predicates
    count_updates patch
    updated ← write_store (λ wo. es.update_entities wo q patch)
    after_update_many updated

  unfoldable pub put_many : Option Entity → ApiError ⊎ Query → Handler api
  unfolding update_many
  put_many body (inl error) = fail (diffs []) error
  put_many none (inr q) = fail (diffs []) (etre_error err_invalid_content)
  put_many (some []) (inr q) = fail (diffs []) (etre_error err_no_content)
  put_many (some (l ∷ patch)) (inr q) = update_many q (entities on_update ((l ∷ patch) ∷ []))

  unfoldable pub put_entities_handler : Request → Handler api
  unfolding put_many
  put_entities_handler r = do
    on_gm (Call.inc Metric.update_query 1)
    q ← of_outcome api (parse_query r)
    put_many r.body_entity q

  -- Behind DeleteEntities in deleteEntitiesHandler.
  unfoldable pub after_delete_many : List Entity × Option StoreError → Handler api
  after_delete_many (ds, error) = do
    on_gm (Call.val Metric.delete_bulk (length ds))
    on_gm (Call.inc Metric.deleted (length ds))
    write_result api (diffs ds) (of_store error)

  unfoldable pub delete_many : ApiError ⊎ Query → Handler api
  unfolding write_store after_delete_many
  delete_many (inl error) = fail (diffs []) error
  delete_many (inr q) = do
    on_gm (Call.val Metric.labels (length q.predicates))
    count_labels api q.predicates
    deleted ← write_store (λ wo. es.delete_entities wo q)
    after_delete_many deleted

  unfoldable pub delete_entities_handler : Request → Handler api
  unfolding delete_many
  delete_entities_handler r = do
    on_gm (Call.inc Metric.delete_query 1)
    q ← of_outcome api (parse_query r)
    delete_many q

  -- Behind CreateEntities in postEntityHandler.
  unfoldable pub after_create_one : List String × Option StoreError → Handler api
  after_create_one (ids, some error) = fail (new_ids ids) (store error)
  after_create_one (ids, none) = do
    on_gm (Call.inc Metric.created 1)
    write_result api (new_ids ids) none

  unfoldable pub create_one : List Entity × Option ValidationError → Handler api
  unfolding write_store after_create_one
  create_one (es', some error) = fail (new_ids []) (validation error)
  create_one (es', none) = write_store (λ wo. es.create_entities wo es') >>= after_create_one

  unfoldable pub post_one : Option Entity → Handler api
  unfolding create_one
  post_one none = fail (new_ids []) (etre_error err_invalid_content)
  post_one (some e) = create_one (entities on_create (e ∷ []))

  unfoldable pub post_entity_handler : Request → Handler api
  unfolding post_one
  post_entity_handler r = do on_gm (Call.inc Metric.create_one 1); post_one r.body_entity

  -- Behind a write of one entity by its id, which counts it as `metric`.
  unfoldable pub after_one : Metric → List Entity × Option StoreError → Handler api
  after_one metric (ds, some error) = fail (diffs ds) (store error)
  after_one metric ([], none) = fail (diffs []) (etre_error err_not_found)
  after_one metric (d ∷ ds, none) = do
    on_gm (Call.inc metric 1)
    write_result api (diffs (d ∷ ds)) none

  unfoldable pub update_one : Query → List Entity × Option ValidationError → Handler api
  unfolding write_store count_updates after_one
  update_one q (ps, some error) = fail (diffs []) (validation error)
  update_one q (ps, none) = do
    let patch = validated ps
    count_updates patch
    updated ← write_store (λ wo. es.update_entities wo q patch)
    after_one Metric.updated updated

  unfoldable pub put_one : Option Entity → Query → Handler api
  unfolding update_one
  put_one none q = fail (diffs []) (etre_error err_invalid_content)
  put_one (some patch) q = update_one q (entities on_update (patch ∷ []))

  unfoldable pub put_entity_handler : Request → Handler api
  unfolding put_one
  put_entity_handler r = do
    on_gm (Call.inc Metric.update_id 1)
    id ← gets (λ rc. rc.entity_id)
    q ← query_of_id api id
    put_one r.body_entity q

  unfoldable pub delete_entity_handler : Request → Handler api
  unfolding write_store after_one
  delete_entity_handler r = do
    on_gm (Call.inc Metric.delete_id 1)
    id ← gets (λ rc. rc.entity_id)
    q ← query_of_id api id
    deleted ← write_store (λ wo. es.delete_entities wo q)
    after_one Metric.deleted deleted

  -- Delete is idempotent: an entity that is not there is no error.
  unfoldable pub after_delete_label : Option Entity × Option StoreError → Handler api
  after_delete_label (d, some entity_not_found) = write_result api (diff d) none
  after_delete_label (d, some (db error type entity_id)) =
      fail (diff d) (store (db error type entity_id))
  after_delete_label (d, none) = write_result api (diff d) none

  unfoldable pub delete_valid_label : String → Option ValidationError → Handler api
  unfolding write_store after_delete_label
  delete_valid_label label (some error) = fail (diff none) (validation error)
  delete_valid_label label none =
      write_store (λ wo. es.delete_label wo label) >>= after_delete_label

  unfoldable pub delete_label_of : String → Handler api
  unfolding delete_valid_label
  delete_label_of label =
      if str_eq label "" then fail (diff none) (etre_error err_missing_param) else (do
        on_gm (Call.inc_label Metric.label_delete label)
        delete_valid_label label (delete_label label))

  unfoldable pub delete_label_handler : Request → Handler api
  unfolding delete_label_of
  delete_label_handler r = do on_gm (Call.inc Metric.delete_label 1); delete_label_of r.label
