-- ===== src/Api/Handled/Reads.antt =====
-- The calls on metrics of the handlers that read.
use etre.Base.{
  ℕ, String, refl, true, ◌&&◌, ◌⊎◌, inl, inr, Option, none, some, List, [], ◌∷◌, length, ltb,
}
use etre.Base.Dict.{has_key}
use etre.Etre.{Entity}
use etre.Query.{Query}
use etre.Metrics.{Metric}
use etre.Metrics.Group.Counts.{counts_query, counts_global}
use etre.Metrics.Store.{Call}
use etre.Entity.Store.Errors.{StoreError}
use etre.Entity.Store.Read.{QueryFilter}
use etre.Api.{ApiError, etre_error, store, Request, Api, err_invalid_query}
use etre.Api.Action.{Body, gets, ◌>>=◌, ◌>>◌}
use etre.Api.Reply.{Handler, read_error, parse_query}
use etre.Api.Read.{
  of_outcome, count_labels, query_of_id, read_store, after_read_many, read_filtered, read_query,
  get_entities_handler, after_read_one, get_entity_handler, get_labels_handler, return_labels,
}
use etre.Api.Calls.{respond-Leads}
use etre.Api.Handled.{
  Stays, Stays-bind, Stays-call, Stays-if, read_error-Stays, outcome-Stays, count_labels-Stays,
  on_world-Stays, query_of_id-Stays,
}

module _ (api : Api) (ls : List ℕ) where
  open api use {es}
  open es use {World}

  read_store-Stays : (q : Query) (f : QueryFilter) → Stays api ls true (read_store api q f)
  unfolding read_store
  read_store-Stays q f =
      Stays-bind api ls true (gets (λ rc. rc.entity_type)) _ (λ s l. l)
        λ t. on_world-Stays api ls true (es.read_entities t q f)

  after_read_many-Stays :
      (read : List Entity × Option StoreError) → Stays api ls true (after_read_many api read)
  unfolding after_read_many
  after_read_many-Stays (es', some error) = read_error-Stays api ls true (store error) refl
  after_read_many-Stays (es', none) =
      Stays-call api ls (Call.val Metric.read_match (length es')) _ refl refl
        (respond-Leads true ls 200 (Body.entities es'))

  read_filtered-Stays : (q : Query) (f : QueryFilter) → Stays api ls true (read_filtered api q f)
  unfolding read_filtered
  read_filtered-Stays q f =
      Stays-if api ls true (f.distinct && ltb 1 (length f.return_labels))
        (read_error api (etre_error err_invalid_query)) (read_store api q f >>= after_read_many api)
        (read_error-Stays api ls true (etre_error err_invalid_query) refl)
        (Stays-bind api ls true (read_store api q f) (after_read_many api) (read_store-Stays q f)
          after_read_many-Stays)

  abbrev filter_of : Request → List String → QueryFilter
  filter_of r labels = record {
    return_labels = labels;
    distinct = has_key "distinct" r.query_values;
  }

  read_query-Stays : (r : Request) (q : ApiError ⊎ Query) → Stays api ls true (read_query api r q)
  unfolding read_query
  read_query-Stays r (inl error) = read_error-Stays api ls true error refl
  read_query-Stays r (inr q) =
      let read : List String → Handler api = λ labels. read_filtered api q (filter_of r labels) in
      Stays-call api ls (Call.val Metric.labels (length q.predicates))
        (count_labels api q.predicates >> (of_outcome api (return_labels r) >>= read)) refl refl
        (Stays-bind api ls true (count_labels api q.predicates)
          (λ _. of_outcome api (return_labels r) >>= read) (count_labels-Stays api ls q.predicates)
          λ u.
            Stays-bind api ls true (of_outcome api (return_labels r)) read
              (outcome-Stays api ls true (return_labels r))
              λ labels. read_filtered-Stays q (filter_of r labels))

  pub get_entities_handler-Stays : (r : Request) → Stays api ls true (get_entities_handler api r)
  unfolding get_entities_handler counts_query counts_global
  get_entities_handler-Stays r = Stays-call api ls (Call.inc Metric.read_query 1) _ refl refl (
      Stays-bind api ls true (of_outcome api (parse_query r)) _
        (outcome-Stays api ls true (parse_query r)) (read_query-Stays r))

  after_read_one-Stays :
      (body : Entity → Body) (read : List Entity × Option StoreError)
      → Stays api ls true (after_read_one api body read)
  unfolding after_read_one
  after_read_one-Stays body (es', some error) = read_error-Stays api ls true (store error) refl
  after_read_one-Stays body ([], none) = respond-Leads true ls 404 Body.nothing
  after_read_one-Stays body (e ∷ es', none) = respond-Leads true ls 200 (body e)

  -- The end of a read by id.
  read_one-Stays :
      (f : QueryFilter) (body : Entity → Body)
      → Stays api ls true (
          gets (λ rc. rc.entity_id) >>= λ id.
          query_of_id api id >>= λ q. read_store api q f >>= after_read_one api body)
  read_one-Stays f body =
      Stays-bind api ls true (gets (λ rc. rc.entity_id)) _ (λ s l. l)
        λ id. Stays-bind api ls true (query_of_id api id) _ (query_of_id-Stays api ls true id) λ q.
          Stays-bind api ls true (read_store api q f) _ (read_store-Stays q f)
            (after_read_one-Stays body)

  pub get_entity_handler-Stays : (r : Request) → Stays api ls true (get_entity_handler api r)
  unfolding get_entity_handler counts_query counts_global
  get_entity_handler-Stays r = Stays-call api ls (Call.inc Metric.read_id 1) _ refl refl (
      Stays-bind api ls true (of_outcome api (return_labels r)) _
        (outcome-Stays api ls true (return_labels r)) λ labels. read_one-Stays _ Body.entity)

  pub get_labels_handler-Stays : (r : Request) → Stays api ls true (get_labels_handler api r)
  unfolding get_labels_handler counts_query counts_global
  get_labels_handler-Stays r =
      Stays-call api ls (Call.inc Metric.read_labels 1) _ refl refl (read_one-Stays _ _)
