-- ===== src/Api/Replied/Writes.antt =====
-- Each handler that writes sends a response.
use etre.Base.{String, ◌⊎◌, inl, inr, Option, none, some, List, [], ◌∷◌, length, str_eq}
use etre.Etre.{Entity}
use etre.Query.{Query}
use etre.Entity.Validate.{on_create, on_update, ValidationError, entities, delete_label}
use etre.Entity.Store.Errors.{StoreError, entity_not_found, db}
use etre.Metrics.{Metric}
use etre.Metrics.Store.{Call}
use etre.Api.{
  ApiError, etre_error, validation, store, Request, Api, err_no_content, err_invalid_content,
  err_not_found, err_missing_param,
}
use etre.Api.Action.{on_gm, ◌>>=◌, ◌>>◌}
use etre.Api.Reply.{Handler, Ids, diffs, new_ids, diff, parse_query}
use etre.Api.Read.{of_outcome, count_labels}
use etre.Api.Write.{
  of_store, validated, write_store, fail, after_create_many, create_many, post_many,
  post_entities_handler, count_updates, after_update_many, update_many, put_many,
  put_entities_handler, after_delete_many, delete_many, delete_entities_handler, after_create_one,
  create_one, post_one, post_entity_handler, after_one, update_one, put_one, put_entity_handler,
  delete_entity_handler, after_delete_label, delete_valid_label, delete_label_of,
  delete_label_handler,
}
use etre.Api.Replied.{
  Responds, Responds-bind, Responds-then, Responds-if, write_result-Responds, by_id-Responds,
}

module _ (api : Api) where
  open api use {es}
  open es use {World}

  fail-Responds : (ids : Ids) (error : ApiError) → Responds api (fail api ids error)
  fail-Responds ids error = write_result-Responds api ids (some error)

  after_create_many-Responds :
      (r : List String × Option StoreError) → Responds api (after_create_many api r)
  unfolding after_create_many
  after_create_many-Responds (ids, error) =
      Responds-then api (on_gm (Call.inc Metric.created (length ids))) _
        (write_result-Responds api (new_ids ids) (of_store error))

  create_many-Responds :
      (checked : List Entity × Option ValidationError) → Responds api (create_many api checked)
  unfolding create_many
  create_many-Responds (es', some error) = fail-Responds (new_ids []) (validation error)
  create_many-Responds (es', none) =
      Responds-bind api (write_store api (λ wo. es.create_entities wo es')) (after_create_many api)
        after_create_many-Responds

  post_many-Responds : (body : Option (List Entity)) → Responds api (post_many api body)
  unfolding post_many
  post_many-Responds none = fail-Responds (new_ids []) (etre_error err_invalid_content)
  post_many-Responds (some []) = fail-Responds (new_ids []) (etre_error err_no_content)
  post_many-Responds (some (e ∷ es')) =
      Responds-then api (on_gm (Call.val Metric.create_bulk (length (e ∷ es')))) _
        (create_many-Responds (entities on_create (e ∷ es')))

  pub post_entities_handler-Responds : (r : Request) → Responds api (post_entities_handler api r)
  unfolding post_entities_handler
  post_entities_handler-Responds r =
      Responds-then api (on_gm (Call.inc Metric.create_many 1)) _
        (post_many-Responds r.body_entities)

  after_update_many-Responds :
      (r : List Entity × Option StoreError) → Responds api (after_update_many api r)
  unfolding after_update_many
  after_update_many-Responds (ds, error) =
      Responds-then api (on_gm (Call.val Metric.update_bulk (length ds))) _ (
        Responds-then api (on_gm (Call.inc Metric.updated (length ds))) _
          (write_result-Responds api (diffs ds) (of_store error)))

  -- The labels of a query are counted before the store is called.
  labels-Responds :
      (q : Query) (k : Handler api)
      → Responds api k
      → Responds api (
          on_gm (Call.val Metric.labels (length q.predicates))
          >> (count_labels api q.predicates >> k))
  labels-Responds q k h =
      Responds-then api (on_gm (Call.val Metric.labels (length q.predicates)))
        (count_labels api q.predicates >> k) (Responds-then api (count_labels api q.predicates) k h)

  update_many-Responds :
      (q : Query) (checked : List Entity × Option ValidationError)
      → Responds api (update_many api q checked)
  unfolding update_many
  update_many-Responds q (ps, some error) = fail-Responds (diffs []) (validation error)
  update_many-Responds q (ps, none) = labels-Responds q _ (
      Responds-then api (count_updates api (validated ps)) _ (
        Responds-bind api (write_store api (λ wo. es.update_entities wo q (validated ps)))
          (after_update_many api) after_update_many-Responds))

  put_many-Responds :
      (body : Option Entity) (q : ApiError ⊎ Query) → Responds api (put_many api body q)
  unfolding put_many
  put_many-Responds body (inl error) = fail-Responds (diffs []) error
  put_many-Responds none (inr q) = fail-Responds (diffs []) (etre_error err_invalid_content)
  put_many-Responds (some []) (inr q) = fail-Responds (diffs []) (etre_error err_no_content)
  put_many-Responds (some (l ∷ patch)) (inr q) =
      update_many-Responds q (entities on_update ((l ∷ patch) ∷ []))

  pub put_entities_handler-Responds : (r : Request) → Responds api (put_entities_handler api r)
  unfolding put_entities_handler
  put_entities_handler-Responds r = Responds-then api (on_gm (Call.inc Metric.update_query 1)) _ (
      Responds-bind api (of_outcome api (parse_query r)) (put_many api r.body_entity)
        (put_many-Responds r.body_entity))

  after_delete_many-Responds :
      (r : List Entity × Option StoreError) → Responds api (after_delete_many api r)
  unfolding after_delete_many
  after_delete_many-Responds (ds, error) =
      Responds-then api (on_gm (Call.val Metric.delete_bulk (length ds))) _ (
        Responds-then api (on_gm (Call.inc Metric.deleted (length ds))) _
          (write_result-Responds api (diffs ds) (of_store error)))

  delete_many-Responds : (q : ApiError ⊎ Query) → Responds api (delete_many api q)
  unfolding delete_many
  delete_many-Responds (inl error) = fail-Responds (diffs []) error
  delete_many-Responds (inr q) = labels-Responds q _ (
      Responds-bind api (write_store api (λ wo. es.delete_entities wo q)) (after_delete_many api)
        after_delete_many-Responds)

  pub delete_entities_handler-Responds :
      (r : Request) → Responds api (delete_entities_handler api r)
  unfolding delete_entities_handler
  delete_entities_handler-Responds r =
      Responds-then api (on_gm (Call.inc Metric.delete_query 1)) _
        (Responds-bind api (of_outcome api (parse_query r)) (delete_many api) delete_many-Responds)

  after_create_one-Responds :
      (r : List String × Option StoreError) → Responds api (after_create_one api r)
  unfolding after_create_one
  after_create_one-Responds (ids, some error) = fail-Responds (new_ids ids) (store error)
  after_create_one-Responds (ids, none) =
      Responds-then api (on_gm (Call.inc Metric.created 1)) _
        (write_result-Responds api (new_ids ids) none)

  create_one-Responds :
      (checked : List Entity × Option ValidationError) → Responds api (create_one api checked)
  unfolding create_one
  create_one-Responds (es', some error) = fail-Responds (new_ids []) (validation error)
  create_one-Responds (es', none) =
      Responds-bind api (write_store api (λ wo. es.create_entities wo es')) (after_create_one api)
        after_create_one-Responds

  post_one-Responds : (body : Option Entity) → Responds api (post_one api body)
  unfolding post_one
  post_one-Responds none = fail-Responds (new_ids []) (etre_error err_invalid_content)
  post_one-Responds (some e) = create_one-Responds (entities on_create (e ∷ []))

  pub post_entity_handler-Responds : (r : Request) → Responds api (post_entity_handler api r)
  unfolding post_entity_handler
  post_entity_handler-Responds r =
      Responds-then api (on_gm (Call.inc Metric.create_one 1)) _ (post_one-Responds r.body_entity)

  after_one-Responds :
      (mn : Metric) (r : List Entity × Option StoreError) → Responds api (after_one api mn r)
  unfolding after_one
  after_one-Responds mn (ds, some error) = fail-Responds (diffs ds) (store error)
  after_one-Responds mn ([], none) = fail-Responds (diffs []) (etre_error err_not_found)
  after_one-Responds mn (d ∷ ds, none) =
      Responds-then api (on_gm (Call.inc mn 1)) _ (write_result-Responds api (diffs (d ∷ ds)) none)

  update_one-Responds :
      (q : Query) (checked : List Entity × Option ValidationError)
      → Responds api (update_one api q checked)
  unfolding update_one
  update_one-Responds q (ps, some error) = fail-Responds (diffs []) (validation error)
  update_one-Responds q (ps, none) = Responds-then api (count_updates api (validated ps)) _ (
      Responds-bind api (write_store api (λ wo. es.update_entities wo q (validated ps)))
        (after_one api Metric.updated) (after_one-Responds Metric.updated))

  put_one-Responds : (body : Option Entity) (q : Query) → Responds api (put_one api body q)
  unfolding put_one
  put_one-Responds none q = fail-Responds (diffs []) (etre_error err_invalid_content)
  put_one-Responds (some patch) q = update_one-Responds q (entities on_update (patch ∷ []))

  pub put_entity_handler-Responds : (r : Request) → Responds api (put_entity_handler api r)
  unfolding put_entity_handler
  put_entity_handler-Responds r =
      Responds-then api (on_gm (Call.inc Metric.update_id 1)) _
        (by_id-Responds api (put_one api r.body_entity) (put_one-Responds r.body_entity))

  pub delete_entity_handler-Responds : (r : Request) → Responds api (delete_entity_handler api r)
  unfolding delete_entity_handler
  delete_entity_handler-Responds r = Responds-then api (on_gm (Call.inc Metric.delete_id 1)) _ (
      by_id-Responds api
        (λ q. write_store api (λ wo. es.delete_entities wo q) >>= after_one api Metric.deleted)
        λ q.
          Responds-bind api (write_store api (λ wo. es.delete_entities wo q))
            (after_one api Metric.deleted) (after_one-Responds Metric.deleted))

  after_delete_label-Responds :
      (r : Option Entity × Option StoreError) → Responds api (after_delete_label api r)
  unfolding after_delete_label
  after_delete_label-Responds (d, some entity_not_found) = write_result-Responds api (diff d) none
  after_delete_label-Responds (d, some (db error t i)) =
      fail-Responds (diff d) (store (db error t i))
  after_delete_label-Responds (d, none) = write_result-Responds api (diff d) none

  delete_valid_label-Responds :
      (label : String) (checked : Option ValidationError)
      → Responds api (delete_valid_label api label checked)
  unfolding delete_valid_label
  delete_valid_label-Responds label (some error) = fail-Responds (diff none) (validation error)
  delete_valid_label-Responds label none =
      Responds-bind api (write_store api (λ wo. es.delete_label wo label)) (after_delete_label api)
        after_delete_label-Responds

  pub delete_label_handler-Responds : (r : Request) → Responds api (delete_label_handler api r)
  unfolding delete_label_handler delete_label_of
  delete_label_handler-Responds r =
      let missing = fail api (diff none) (etre_error err_missing_param) in
      let valid = delete_valid_label api r.label (delete_label r.label) in
      let count = on_gm (Call.inc_label Metric.label_delete r.label) in
      Responds-then api (on_gm (Call.inc Metric.delete_label 1)) _ (
        Responds-if api (str_eq r.label "") missing (count >> valid)
          (fail-Responds (diff none) (etre_error err_missing_param))
          (Responds-then api count valid
            (delete_valid_label-Responds r.label (delete_label r.label))))
