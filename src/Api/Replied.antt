-- ===== src/Api/Replied.antt =====
-- The handlers that read, and the replies, send a response.
pub mod Writes
pub mod Wrapped
use etre.Base.{
  ℕ, ◌-◌, String, ◌≡◌, refl, Bool, true, false, ◌&&◌, ◌⊎◌, inl, inr, Option, none, some, List, [],
  ◌∷◌, length, ltb, if◌then◌else◌,
}
use etre.Base.Dict.{has_key}
use etre.Etre.{Entity, Outcome, returns, panics}
use etre.Query.{Query}
use etre.Entity.Validate.{entities}
use etre.Entity.Store.Errors.{StoreError}
use etre.Entity.Store.Read.{QueryFilter}
use etre.Metrics.{Metric}
use etre.Metrics.Store.{Call}
use etre.Api.{ApiError, etre_error, store, Request, Api, err_invalid_query}
use etre.Api.Action.{
  Response, Written, Action, State, Body, gets, on_gm, system_inc, respond, ◌>>=◌, ◌>>◌,
}
use etre.Api.Leads.{After, Leads, Leads-bind, Leads-if}
use etre.Api.Reply.{
  Handler, Ids, error_of, no_ids, read_error, count_read_error, read_status, read_body,
  write_result, count_write_error, writes_of, write_status, reject, parse_query,
}
use etre.Api.Read.{
  of_outcome, count_labels, query_of_id, read_store, after_read_many, read_filtered, read_query,
  get_entities_handler, after_read_one, get_entity_handler, get_labels_handler, return_labels,
  labels_of,
}

module _ (api : Api) where
  open api use {es}
  open es use {World}

  abbrev pub Any : State World → Type 0
  Any s = Unit

  -- A response was sent.
  pub record HasResponse (s : State World) : Type 0 where
    pub sent : Response
    pub is_sent : s.response ≡ some sent

  -- Unless it panics, the handler sends a response.
  abbrev pub Responds : Handler api → Type 0
  Responds m = Leads Any Any HasResponse m

  pub Leads-Any : {A : Type 0} (m : Action World A) → Leads Any Any Any m
  Leads-Any {A = A} m s p = at (m s)
    where
      at : (r : State World × Outcome A) → After Any Any r
      at (s', returns a) = tt
      at (s', panics) = tt

  pub Responds-bind :
      {A : Type 0} (m : Action World A) (f : A → Handler api)
      → ((a : A) → Responds (f a))
      → Responds (m >>= f)
  Responds-bind m f = Leads-bind Any Any Any HasResponse m f (Leads-Any m)

  pub Responds-then : (m k : Handler api) → Responds k → Responds (m >> k)
  Responds-then m k h = Responds-bind m (λ _. k) λ u. h

  pub Responds-if :
      (b : Bool) (m k : Handler api) → Responds m → Responds k → Responds (if b then m else k)
  Responds-if = Leads-if Any Any HasResponse

  pub respond-Responds : (status : ℕ) (body : Body) → Responds (respond status body)
  unfolding respond
  respond-Responds status body s p = record {
    sent = (sent s.response).0;
    is_sent = (sent s.response).1;
  }
    where
      sent :
          (o : Option Response)
          → (x : Response) × ((elim o [ some r ↦ some r | none ↦ some (status, body) ]) ≡ some x)
      sent none = ((status, body), refl)
      sent (some r) = (r, refl)

  pub read_error-Responds : (error : ApiError) → Responds (read_error api error)
  unfolding read_error
  read_error-Responds error =
      Responds-then (system_inc Metric.error 1)
        (count_read_error api error >> respond (read_status error) (read_body error))
        (Responds-then (count_read_error api error) (respond (read_status error) (read_body error))
          (respond-Responds (read_status error) (read_body error)))

  pub write_result-Responds :
      (ids : Ids) (error : Option ApiError) → Responds (write_result api ids error)
  unfolding write_result
  write_result-Responds ids error =
      let reply : Option (List Written) → Handler api =
        λ writes. respond (write_status ids error) (Body.write_result writes (error_of error)) in
      Responds-then (count_write_error api error) (of_outcome api (writes_of api ids) >>= reply) (
        Responds-bind (of_outcome api (writes_of api ids)) reply λ writes.
          respond-Responds (write_status ids error) (Body.write_result writes (error_of error)))

  pub reject-Responds : (write : Bool) (error : ApiError) → Responds (reject api write error)
  unfolding reject
  reject-Responds true error = write_result-Responds no_ids (some error)
  reject-Responds false error = read_error-Responds error

  after_read_many-Responds :
      (read : List Entity × Option StoreError) → Responds (after_read_many api read)
  unfolding after_read_many
  after_read_many-Responds (es', some error) = read_error-Responds (store error)
  after_read_many-Responds (es', none) =
      Responds-then (on_gm (Call.val Metric.read_match (length es')))
        (respond 200 (Body.entities es')) (respond-Responds 200 (Body.entities es'))

  read_filtered-Responds : (q : Query) (f : QueryFilter) → Responds (read_filtered api q f)
  unfolding read_filtered
  read_filtered-Responds q f =
      Responds-if (f.distinct && ltb 1 (length f.return_labels))
        (read_error api (etre_error err_invalid_query)) (read_store api q f >>= after_read_many api)
        (read_error-Responds (etre_error err_invalid_query))
        (Responds-bind (read_store api q f) (after_read_many api) after_read_many-Responds)

  abbrev filter_of : Request → List String → QueryFilter
  filter_of r labels = record {
    return_labels = labels;
    distinct = has_key "distinct" r.query_values;
  }

  read_query-Responds : (r : Request) (q : ApiError ⊎ Query) → Responds (read_query api r q)
  unfolding read_query
  read_query-Responds r (inl error) = read_error-Responds error
  read_query-Responds r (inr q) =
      let read : List String → Handler api = λ labels. read_filtered api q (filter_of r labels) in
      let rest = of_outcome api (return_labels r) >>= read in
      Responds-then (on_gm (Call.val Metric.labels (length q.predicates)))
        (count_labels api q.predicates >> rest)
        (Responds-then (count_labels api q.predicates) rest (
          Responds-bind (of_outcome api (return_labels r)) read
            λ labels. read_filtered-Responds q (filter_of r labels)))

  pub get_entities_handler-Responds : (r : Request) → Responds (get_entities_handler api r)
  unfolding get_entities_handler
  get_entities_handler-Responds r =
      Responds-then (on_gm (Call.inc Metric.read_query 1))
        (of_outcome api (parse_query r) >>= read_query api r)
        (Responds-bind (of_outcome api (parse_query r)) (read_query api r) (read_query-Responds r))

  after_read_one-Responds :
      (body : Entity → Body) (read : List Entity × Option StoreError)
      → Responds (after_read_one api body read)
  unfolding after_read_one
  after_read_one-Responds body (es', some error) = read_error-Responds (store error)
  after_read_one-Responds body ([], none) = respond-Responds 404 Body.nothing
  after_read_one-Responds body (e ∷ es', none) = respond-Responds 200 (body e)

  -- The query for the entity of the request, and what is behind it.
  pub by_id-Responds :
      (k : Query → Handler api)
      → ((q : Query) → Responds (k q))
      → Responds (gets (λ rc. rc.entity_id) >>= λ id. query_of_id api id >>= k)
  by_id-Responds k h =
      Responds-bind (gets (λ rc. rc.entity_id)) (λ id. query_of_id api id >>= k)
        λ id. Responds-bind (query_of_id api id) k h

  read_one-Responds :
      (f : QueryFilter) (body : Entity → Body)
      → Responds (
          gets (λ rc. rc.entity_id) >>= λ id.
          query_of_id api id >>= λ q. read_store api q f >>= after_read_one api body)
  read_one-Responds f body =
      by_id-Responds (λ q. read_store api q f >>= after_read_one api body)
        λ q.
          Responds-bind (read_store api q f) (after_read_one api body)
            (after_read_one-Responds body)

  abbrev filter_by : List String → QueryFilter
  filter_by labels = record { return_labels = labels; distinct = false }

  pub get_entity_handler-Responds : (r : Request) → Responds (get_entity_handler api r)
  unfolding get_entity_handler
  get_entity_handler-Responds r =
      let read : List String → Handler api = λ labels. gets (λ rc. rc.entity_id) >>= λ id.
      query_of_id api id >>= λ q.
      read_store api q (filter_by labels) >>= after_read_one api Body.entity in
      Responds-then (on_gm (Call.inc Metric.read_id 1)) (of_outcome api (return_labels r) >>= read)
        (Responds-bind (of_outcome api (return_labels r)) read
          λ labels. read_one-Responds (filter_by labels) Body.entity)

  pub get_labels_handler-Responds : (r : Request) → Responds (get_labels_handler api r)
  unfolding get_labels_handler
  get_labels_handler-Responds r =
      Responds-then (on_gm (Call.inc Metric.read_labels 1))
        (gets (λ rc. rc.entity_id) >>= λ id. query_of_id api id >>= λ q.
          read_store api q (filter_by []) >>= after_read_one api (λ e. Body.labels (labels_of e)))
        (read_one-Responds (filter_by []) (λ e. Body.labels (labels_of e)))
