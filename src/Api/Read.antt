-- ===== src/Api/Read.antt =====
-- The handlers of api/api_gomux.go that read entities: getEntitiesHandler, getEntityHandler and
-- getLabelsHandler. The encoding of a response, with gzip or without, is left out.
use Prim.Native.Nat.{Ordering}
use Prim.Native.String.{compare}
use etre.Base.{
  String, Bool, true, false, ◌&&◌, Option, none, some, List, [], ◌∷◌, ◌++◌, ◌⊎◌, inl, inr, length,
  ltb, if◌then◌else◌,
}
use etre.Base.Dict.{lookup, has_key}
use etre.Base.Bytes.{codes}
use etre.Base.Text.{split}
use etre.Etre.{Entity, Outcome, returns, panics}
use etre.Query.{Query, Predicate, translate}
use etre.Entity.Filter.{query_or_empty}
use etre.Entity.Store.Errors.{StoreError}
use etre.Entity.Store.Read.{QueryFilter}
use etre.Metrics.{Metric}
use etre.Metrics.Store.{Call}
use etre.Api.{ApiError, etre_error, store, Request, Api, err_invalid_query}
use etre.Api.Action.{Action, pure, gets, on_gm, on_world, respond, ◌>>=◌, ◌>>◌, Body}
use etre.Api.Reply.{Handler, read_error, parse_query}

-- strings.Split(csv[0], ","), which panics on an empty slice.
unfoldable pub split_first : List String → Outcome (List String)
split_first [] = panics
split_first (csv ∷ more) = returns (split b',' csv)

-- f.ReturnLabels
unfoldable pub return_labels : Request → Outcome (List String)
unfolding split_first
return_labels r = elim (lookup "labels" r.query_values) [
  | none ↦ returns []
  | some vs ↦ split_first vs
]

-- sort.Strings, by the order of texts.
abbrev at_or_before : String → String → Bool
at_or_before s t = elim (compare s t) [ Ordering.gt ↦ false | _ ↦ true ]

unfoldable pub insert_label : String → List String → List String
insert_label l [] = l ∷ []
insert_label l (x ∷ xs) =
    let rest = insert_label l xs in if at_or_before l x then l ∷ x ∷ xs else x ∷ rest

-- Entity.Labels
unfoldable pub labels_of : Entity → List String
unfolding insert_label
labels_of [] = []
labels_of ((label, v) ∷ e) = insert_label label (labels_of e)

module _ (api : Api) where
  open api use {es, text}
  open es use {World}

  abbrev pub of_outcome : {A : Type 0} → Outcome A → Action World A
  of_outcome o s = (s, o)

  -- The loop that counts the labels of a query.
  unfoldable pub count_labels : List Predicate → Handler api
  count_labels [] = pure tt
  count_labels (p ∷ ps) = on_gm (Call.inc_label Metric.label_read (text p.label)) >> count_labels ps

  -- The query for one entity.
  unfoldable pub query_of_id : String → Action World Query
  query_of_id id =
      of_outcome (translate (codes "_id=" ++ codes id)) >>= λ q. pure (query_or_empty q)

  -- ReadEntities of the store.
  unfoldable pub read_store : Query → QueryFilter → Action World (List Entity × Option StoreError)
  read_store q f = gets (λ rc. rc.entity_type) >>= λ t. on_world (es.read_entities t q f)

  -- Behind ReadEntities in getEntitiesHandler.
  unfoldable pub after_read_many : List Entity × Option StoreError → Handler api
  after_read_many (entities, some error) = read_error api (store error)
  after_read_many (entities, none) = do
    on_gm (Call.val Metric.read_match (length entities))
    respond 200 (Body.entities entities)

  unfoldable pub read_filtered : Query → QueryFilter → Handler api
  unfolding read_store after_read_many
  read_filtered q f =
      if f.distinct && ltb 1 (length f.return_labels)
      then read_error api (etre_error err_invalid_query)
      else read_store q f >>= after_read_many

  -- Behind parseQuery in getEntitiesHandler.
  unfoldable pub read_query : Request → ApiError ⊎ Query → Handler api
  unfolding count_labels read_filtered
  read_query r (inl error) = read_error api error
  read_query r (inr q) = do
    on_gm (Call.val Metric.labels (length q.predicates))
    count_labels q.predicates
    labels ← of_outcome (return_labels r)
    read_filtered q
        (record { return_labels = labels; distinct = has_key "distinct" r.query_values })

  unfoldable pub get_entities_handler : Request → Handler api
  unfolding read_query
  get_entities_handler r = do
    on_gm (Call.inc Metric.read_query 1)
    q ← of_outcome (parse_query r)
    read_query r q

  -- The first entity read, or 404 with an empty body.
  unfoldable pub after_read_one : (Entity → Body) → List Entity × Option StoreError → Handler api
  after_read_one body (entities, some error) = read_error api (store error)
  after_read_one body ([], none) = respond 404 Body.nothing
  after_read_one body (e ∷ entities, none) = respond 200 (body e)

  unfoldable pub get_entity_handler : Request → Handler api
  unfolding query_of_id read_store after_read_one
  get_entity_handler r = do
    on_gm (Call.inc Metric.read_id 1)
    labels ← of_outcome (return_labels r)
    id ← gets (λ rc. rc.entity_id)
    q ← query_of_id id
    read ← read_store q (record { return_labels = labels; distinct = false })
    after_read_one Body.entity read

  unfoldable pub get_labels_handler : Request → Handler api
  unfolding query_of_id read_store after_read_one labels_of
  get_labels_handler r = do
    on_gm (Call.inc Metric.read_labels 1)
    id ← gets (λ rc. rc.entity_id)
    q ← query_of_id id
    read ← read_store q (record { return_labels = []; distinct = false })
    after_read_one (λ e. Body.labels (labels_of e)) read
