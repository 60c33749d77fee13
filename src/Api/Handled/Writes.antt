-- ===== src/Api/Handled/Writes.antt =====
-- The calls on metrics of the handlers that write.
use etre.Base.{
  ℕ, String, ◌≡◌, refl, true, ◌⊎◌, inl, inr, Option, none, some, List, [], ◌∷◌, length, str_eq,
}
use etre.Etre.{Entity, Outcome}
use etre.Query.{Query}
use etre.Metrics.{Metric}
use etre.Metrics.Group.Counts.{counts_query, counts_global}
use etre.Metrics.Store.{Call}
use etre.Metrics.Store.Fit.{fits}
use etre.Entity.Validate.{on_create, on_update, ValidationError, entities, delete_label}
use etre.Entity.Store.Errors.{StoreError, entity_not_found, db}
use etre.Entity.Store.Partial.{WriteOp}
use etre.Api.{
  ApiError, etre_error, validation, store, Request, Api, err_invalid_content, err_no_content,
  err_not_found, err_missing_param,
}
use etre.Api.Action.{gets, on_gm, on_world, ◌>>=◌, ◌>>◌}
use etre.Api.Reply.{Handler, Ids, diffs, new_ids, diff, write_result, parse_query}
use etre.Api.Read.{of_outcome, count_labels, query_of_id}
use etre.Api.Write.{
  of_store, validated, write_store, fail, after_create_many, create_many, post_many,
  post_entities_handler, count_updates, after_update_many, update_many, put_many,
  put_entities_handler, after_delete_many, delete_many, delete_entities_handler, after_create_one,
  create_one, post_one, post_entity_handler, after_one, update_one, put_one, put_entity_handler,
  delete_entity_handler, after_delete_label, delete_valid_label, delete_label_of,
  delete_label_handler,
}
use etre.Api.Handled.{
  Stays, Stays-bind, Stays-call, Stays-if, write_result-Stays, outcome-Stays, on_world-Stays,
  count_labels-Stays, query_of_id-Stays,
}

module _ (api : Api) (ls : List ℕ) where
  open api use {es}
  open es use {World}

  reply-Stays :
      (ids : Ids) (error : Option StoreError)
      → Stays api ls true (write_result api ids (of_store error))
  reply-Stays ids none = write_result-Stays api ls true ids none refl
  reply-Stays ids (some error) = write_result-Stays api ls true ids (some (store error)) refl

  fail-Stays : (ids : Ids) (error : ApiError) → Stays api ls true (fail api ids error)
  fail-Stays ids error = write_result-Stays api ls true ids (some error) refl

  -- A call of the store, and what is behind it.
  store-Stays :
      {A : Type 0} (f : WriteOp → World → World × Outcome A) (k : A → Handler api)
      → ((a : A) → Stays api ls true (k a))
      → Stays api ls true (write_store api f >>= k)
  unfolding write_store
  store-Stays f k h =
      Stays-bind api ls true (write_store api f) k
        (Stays-bind api ls true (gets (λ rc. rc.wo)) (λ wo. on_world (f wo)) (λ s l. l)
          λ wo. on_world-Stays api ls true (f wo))
        h

  after_create_many-Stays :
      (r : List String × Option StoreError) → Stays api ls true (after_create_many api r)
  unfolding after_create_many counts_query counts_global
  after_create_many-Stays (ids, error) =
      Stays-call api ls (Call.inc Metric.created (length ids)) _ refl refl
        (reply-Stays (new_ids ids) error)

  create_many-Stays :
      (checked : List Entity × Option ValidationError) → Stays api ls true (create_many api checked)
  unfolding create_many
  create_many-Stays (es', some error) = fail-Stays (new_ids []) (validation error)
  create_many-Stays (es', none) =
      store-Stays (λ wo. es.create_entities wo es') (after_create_many api) after_create_many-Stays

  post_many-Stays : (body : Option (List Entity)) → Stays api ls true (post_many api body)
  unfolding post_many
  post_many-Stays none = fail-Stays (new_ids []) (etre_error err_invalid_content)
  post_many-Stays (some []) = fail-Stays (new_ids []) (etre_error err_no_content)
  post_many-Stays (some (e ∷ es')) =
      Stays-call api ls (Call.val Metric.create_bulk (length (e ∷ es'))) _ refl refl
        (create_many-Stays (entities on_create (e ∷ es')))

  pub post_entities_handler-Stays : (r : Request) → Stays api ls true (post_entities_handler api r)
  unfolding post_entities_handler counts_query counts_global
  post_entities_handler-Stays r =
      Stays-call api ls (Call.inc Metric.create_many 1) _ refl refl
        (post_many-Stays r.body_entities)

  count_updates-Stays : (patch : Entity) → Stays api ls true (count_updates api patch)
  unfolding count_updates
  count_updates-Stays [] = λ s l. l
  count_updates-Stays ((label, v) ∷ patch) =
      Stays-call api ls (Call.inc_label Metric.label_update label) (count_updates api patch) refl
        refl (count_updates-Stays patch)

  after_update_many-Stays :
      (r : List Entity × Option StoreError) → Stays api ls true (after_update_many api r)
  unfolding after_update_many counts_query counts_global
  after_update_many-Stays (ds, error) =
      Stays-call api ls (Call.val Metric.update_bulk (length ds)) _ refl refl (
        Stays-call api ls (Call.inc Metric.updated (length ds)) _ refl refl
          (reply-Stays (diffs ds) error))

  -- The labels of a query are counted before the store is called.
  labels-Stays :
      (q : Query) (k : Handler api)
      → Stays api ls true k
      → Stays api ls true (
          on_gm (Call.val Metric.labels (length q.predicates))
          >> (count_labels api q.predicates >> k))
  labels-Stays q k h =
      Stays-call api ls (Call.val Metric.labels (length q.predicates))
        (count_labels api q.predicates >> k) refl refl
        (Stays-bind api ls true (count_labels api q.predicates) (λ _. k)
          (count_labels-Stays api ls q.predicates) λ u. h)

  -- The labels of a patch too.
  patch-Stays :
      (wo_update : WriteOp → World → World × Outcome (List Entity × Option StoreError))
      (patch : Entity) (k : List Entity × Option StoreError → Handler api)
      → ((a : List Entity × Option StoreError) → Stays api ls true (k a))
      → Stays api ls true (count_updates api patch >> (write_store api wo_update >>= k))
  patch-Stays f patch k h =
      Stays-bind api ls true (count_updates api patch) (λ _. write_store api f >>= k)
        (count_updates-Stays patch) λ u. store-Stays f k h

  update_many-Stays :
      (q : Query) (checked : List Entity × Option ValidationError)
      → Stays api ls true (update_many api q checked)
  unfolding update_many
  update_many-Stays q (ps, some error) = fail-Stays (diffs []) (validation error)
  update_many-Stays q (ps, none) = labels-Stays q _ (
      patch-Stays (λ wo. es.update_entities wo q (validated ps)) (validated ps)
        (after_update_many api) after_update_many-Stays)

  put_many-Stays :
      (body : Option Entity) (q : ApiError ⊎ Query) → Stays api ls true (put_many api body q)
  unfolding put_many
  put_many-Stays body (inl error) = fail-Stays (diffs []) error
  put_many-Stays none (inr q) = fail-Stays (diffs []) (etre_error err_invalid_content)
  put_many-Stays (some []) (inr q) = fail-Stays (diffs []) (etre_error err_no_content)
  put_many-Stays (some (l ∷ patch)) (inr q) =
      update_many-Stays q (entities on_update ((l ∷ patch) ∷ []))

  -- A query of the request, and what is behind it.
  query-Stays :
      (r : Request) (k : ApiError ⊎ Query → Handler api)
      → ((q : ApiError ⊎ Query) → Stays api ls true (k q))
      → Stays api ls true (of_outcome api (parse_query r) >>= k)
  query-Stays r k h =
      Stays-bind api ls true (of_outcome api (parse_query r)) k
        (outcome-Stays api ls true (parse_query r)) h

  pub put_entities_handler-Stays : (r : Request) → Stays api ls true (put_entities_handler api r)
  unfolding put_entities_handler counts_query counts_global
  put_entities_handler-Stays r =
      Stays-call api ls (Call.inc Metric.update_query 1) _ refl refl
        (query-Stays r (put_many api r.body_entity) (put_many-Stays r.body_entity))

  after_delete_many-Stays :
      (r : List Entity × Option StoreError) → Stays api ls true (after_delete_many api r)
  unfolding after_delete_many counts_query counts_global
  after_delete_many-Stays (ds, error) =
      Stays-call api ls (Call.val Metric.delete_bulk (length ds)) _ refl refl (
        Stays-call api ls (Call.inc Metric.deleted (length ds)) _ refl refl
          (reply-Stays (diffs ds) error))

  delete_many-Stays : (q : ApiError ⊎ Query) → Stays api ls true (delete_many api q)
  unfolding delete_many
  delete_many-Stays (inl error) = fail-Stays (diffs []) error
  delete_many-Stays (inr q) =
      labels-Stays q _ (
        store-Stays (λ wo. es.delete_entities wo q) (after_delete_many api) after_delete_many-Stays)

  pub delete_entities_handler-Stays :
      (r : Request) → Stays api ls true (delete_entities_handler api r)
  unfolding delete_entities_handler counts_query counts_global
  delete_entities_handler-Stays r =
      Stays-call api ls (Call.inc Metric.delete_query 1) _ refl refl
        (query-Stays r (delete_many api) delete_many-Stays)

  after_create_one-Stays :
      (r : List String × Option StoreError) → Stays api ls true (after_create_one api r)
  unfolding after_create_one counts_query counts_global
  after_create_one-Stays (ids, some error) = fail-Stays (new_ids ids) (store error)
  after_create_one-Stays (ids, none) =
      Stays-call api ls (Call.inc Metric.created 1) _ refl refl (reply-Stays (new_ids ids) none)

  create_one-Stays :
      (checked : List Entity × Option ValidationError) → Stays api ls true (create_one api checked)
  unfolding create_one
  create_one-Stays (es', some error) = fail-Stays (new_ids []) (validation error)
  create_one-Stays (es', none) =
      store-Stays (λ wo. es.create_entities wo es') (after_create_one api) after_create_one-Stays

  post_one-Stays : (body : Option Entity) → Stays api ls true (post_one api body)
  unfolding post_one
  post_one-Stays none = fail-Stays (new_ids []) (etre_error err_invalid_content)
  post_one-Stays (some e) = create_one-Stays (entities on_create (e ∷ []))

  pub post_entity_handler-Stays : (r : Request) → Stays api ls true (post_entity_handler api r)
  unfolding post_entity_handler counts_query counts_global
  post_entity_handler-Stays r =
      Stays-call api ls (Call.inc Metric.create_one 1) _ refl refl (post_one-Stays r.body_entity)

  after_one-Stays :
      (mn : Metric) (r : List Entity × Option StoreError)
      → fits true (Call.inc mn 1) ≡ true
      → Stays api ls true (after_one api mn r)
  unfolding after_one
  after_one-Stays mn (ds, some error) f = fail-Stays (diffs ds) (store error)
  after_one-Stays mn ([], none) f = fail-Stays (diffs []) (etre_error err_not_found)
  after_one-Stays mn (d ∷ ds, none) f =
      Stays-call api ls (Call.inc mn 1) _ f refl (reply-Stays (diffs (d ∷ ds)) none)

  update_one-Stays :
      (q : Query) (checked : List Entity × Option ValidationError)
      → Stays api ls true (update_one api q checked)
  unfolding update_one counts_query counts_global
  update_one-Stays q (ps, some error) = fail-Stays (diffs []) (validation error)
  update_one-Stays q (ps, none) =
      patch-Stays (λ wo. es.update_entities wo q (validated ps)) (validated ps)
        (after_one api Metric.updated) λ r. after_one-Stays Metric.updated r refl

  put_one-Stays : (body : Option Entity) (q : Query) → Stays api ls true (put_one api body q)
  unfolding put_one
  put_one-Stays none q = fail-Stays (diffs []) (etre_error err_invalid_content)
  put_one-Stays (some patch) q = update_one-Stays q (entities on_update (patch ∷ []))

  -- The query for the entity of the request, and what is behind it.
  id-Stays :
      (k : Query → Handler api)
      → ((q : Query) → Stays api ls true (k q))
      → Stays api ls true (gets (λ rc. rc.entity_id) >>= λ id. query_of_id api id >>= k)
  id-Stays k h =
      Stays-bind api ls true (gets (λ rc. rc.entity_id)) (λ id. query_of_id api id >>= k) (λ s l. l)
        λ id. Stays-bind api ls true (query_of_id api id) k (query_of_id-Stays api ls true id) h

  pub put_entity_handler-Stays : (r : Request) → Stays api ls true (put_entity_handler api r)
  unfolding put_entity_handler counts_query counts_global
  put_entity_handler-Stays r =
      Stays-call api ls (Call.inc Metric.update_id 1) _ refl refl
        (id-Stays (put_one api r.body_entity) (put_one-Stays r.body_entity))

  pub delete_entity_handler-Stays : (r : Request) → Stays api ls true (delete_entity_handler api r)
  unfolding delete_entity_handler counts_query counts_global
  delete_entity_handler-Stays r = Stays-call api ls (Call.inc Metric.delete_id 1) _ refl refl (
      id-Stays
        (λ q. write_store api (λ wo. es.delete_entities wo q) >>= after_one api Metric.deleted)
        λ q.
          store-Stays (λ wo. es.delete_entities wo q) (after_one api Metric.deleted)
            λ r. after_one-Stays Metric.deleted r refl)

  after_delete_label-Stays :
      (r : Option Entity × Option StoreError) → Stays api ls true (after_delete_label api r)
  unfolding after_delete_label
  after_delete_label-Stays (d, some entity_not_found) = reply-Stays (diff d) none
  after_delete_label-Stays (d, some (db error t i)) = fail-Stays (diff d) (store (db error t i))
  after_delete_label-Stays (d, none) = reply-Stays (diff d) none

  delete_valid_label-Stays :
      (label : String) (checked : Option ValidationError)
      → Stays api ls true (delete_valid_label api label checked)
  unfolding delete_valid_label
  delete_valid_label-Stays label (some error) = fail-Stays (diff none) (validation error)
  delete_valid_label-Stays label none =
      store-Stays (λ wo. es.delete_label wo label) (after_delete_label api) after_delete_label-Stays

  pub delete_label_handler-Stays : (r : Request) → Stays api ls true (delete_label_handler api r)
  unfolding delete_label_handler delete_label_of counts_query counts_global
  delete_label_handler-Stays r =
      let delete =
        on_gm (Call.inc_label Metric.label_delete r.label)
        >> delete_valid_label api r.label (delete_label r.label) in
      Stays-call api ls (Call.inc Metric.delete_label 1) _ refl refl (
        Stays-if api ls true (str_eq r.label "")
          (fail api (diff none) (etre_error err_missing_param)) delete
          (fail-Stays (diff none) (etre_error err_missing_param))
          (Stays-call api ls (Call.inc_label Metric.label_delete r.label)
            (delete_valid_label api r.label (delete_label r.label)) refl refl
            (delete_valid_label-Stays r.label (delete_label r.label))))
