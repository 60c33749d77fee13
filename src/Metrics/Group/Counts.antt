-- ===== src/Metrics/Group/Counts.antt =====
-- Inc adds to the field of the report that has the metric's name, and to no other.
use etre.Base.{
  ℕ, String, ◌≡◌, refl, Bool, true, false, ◌&&◌, ◌||◌, Option, none, some, arith, ◌==◌, str_eq,
  eq_iff, if◌then◌else◌, Bool-cases, sym, ◌∙◌, ap, inl, inr,
}
use etre.Base.Dict.{Dict, lookup, insert, lookup-insert}
use etre.Base.Int64.{add64}
use etre.Etre.{Outcome, returns, panics, ◌>>=◌, Returns}
use etre.Metrics.{Metric, number, GoMetrics}
use etre.Metrics.Group.Types.{QueryMetrics, EntityMetrics, GroupMetrics}
use etre.Metrics.Group.Report.{QueryReport, RequestReport, query_report, request_report}
use etre.Metrics.Group.{inc, inc_query, inc_global, inc_other, on_entity}

-- The fields of the reports by the metric of their name.
abbrev pub query_field : Metric → QueryReport → Option ℕ
query_field Metric.query r = some r.query
query_field Metric.read r = some r.read
query_field Metric.read_query r = some r.read_query
query_field Metric.read_id r = some r.read_id
query_field Metric.read_labels r = some r.read_labels
query_field Metric.write r = some r.write
query_field Metric.create_one r = some r.create_one
query_field Metric.create_many r = some r.create_many
query_field Metric.update_id r = some r.update_id
query_field Metric.update_query r = some r.update_query
query_field Metric.delete_id r = some r.delete_id
query_field Metric.delete_query r = some r.delete_query
query_field Metric.delete_label r = some r.delete_label
query_field Metric.set_op r = some r.set_op
query_field Metric.miss_sla r = some r.miss_sla
query_field Metric.created r = some r.created
query_field Metric.updated r = some r.updated
query_field Metric.deleted r = some r.deleted
query_field Metric.query_timeout r = some r.query_timeout
query_field _ r = none

abbrev pub request_field : Metric → RequestReport → Option ℕ
request_field Metric.authorization_failed r = some r.authorization_failed
request_field Metric.invalid_entity_type r = some r.invalid_entity_type
request_field Metric.db_error r = some r.db_error
request_field Metric.api_error r = some r.api_error
request_field Metric.client_error r = some r.client_error
request_field _ r = none

abbrev pub added : Bool → ℕ → Option ℕ → Option ℕ
added b n none = none
added b n (some c) = some (if b then add64 c n else c)

-- The metrics that Inc takes: those of queries, and those that need no entity type.
unfoldable pub counts_query : Metric → Bool
counts_query Metric.query = true
counts_query Metric.read = true
counts_query Metric.read_query = true
counts_query Metric.read_id = true
counts_query Metric.read_labels = true
counts_query Metric.write = true
counts_query Metric.create_one = true
counts_query Metric.create_many = true
counts_query Metric.update_id = true
counts_query Metric.update_query = true
counts_query Metric.delete_id = true
counts_query Metric.delete_query = true
counts_query Metric.delete_label = true
counts_query Metric.set_op = true
counts_query Metric.miss_sla = true
counts_query Metric.created = true
counts_query Metric.updated = true
counts_query Metric.deleted = true
counts_query Metric.query_timeout = true
counts_query _ = false

unfoldable pub counts_global : Metric → Bool
counts_global Metric.authorization_failed = true
counts_global Metric.invalid_entity_type = true
counts_global Metric.db_error = true
counts_global Metric.api_error = true
counts_global Metric.client_error = true
counts_global Metric.cdc_clients = true
counts_global _ = false

module _ (M : GoMetrics) where
  abbrev pub QueryAdds : Metric → ℕ → QueryMetrics M → QueryMetrics M → Type 0
  QueryAdds mn n q q' =
      (k : Metric)
      → query_field k (query_report M q')
        ≡ added (number mn == number k) n (query_field k (query_report M q))

  pub inc_query-QueryAdds :
      (mn : Metric) (n : ℕ) (q : QueryMetrics M)
      → counts_query mn ≡ true
      → Returns (QueryAdds mn n q) (inc_query M mn n q)
  unfolding inc_query query_report number counts_query
  inc_query-QueryAdds Metric.query n q h = λ k. ground (arith, M.count-add q.query n)
  inc_query-QueryAdds Metric.read n q h = λ k. ground (arith, M.count-add q.read n)
  inc_query-QueryAdds Metric.read_query n q h = λ k. ground (arith, M.count-add q.read_query n)
  inc_query-QueryAdds Metric.read_id n q h = λ k. ground (arith, M.count-add q.read_id n)
  inc_query-QueryAdds Metric.read_labels n q h = λ k. ground (arith, M.count-add q.read_labels n)
  inc_query-QueryAdds Metric.write n q h = λ k. ground (arith, M.count-add q.write n)
  inc_query-QueryAdds Metric.create_one n q h = λ k. ground (arith, M.count-add q.create_one n)
  inc_query-QueryAdds Metric.create_many n q h = λ k. ground (arith, M.count-add q.create_many n)
  inc_query-QueryAdds Metric.update_id n q h = λ k. ground (arith, M.count-add q.update_id n)
  inc_query-QueryAdds Metric.update_query n q h = λ k. ground (arith, M.count-add q.update_query n)
  inc_query-QueryAdds Metric.delete_id n q h = λ k. ground (arith, M.count-add q.delete_id n)
  inc_query-QueryAdds Metric.delete_query n q h = λ k. ground (arith, M.count-add q.delete_query n)
  inc_query-QueryAdds Metric.delete_label n q h = λ k. ground (arith, M.count-add q.delete_label n)
  inc_query-QueryAdds Metric.set_op n q h = λ k. ground (arith, M.count-add q.set_op n)
  inc_query-QueryAdds Metric.miss_sla n q h = λ k. ground (arith, M.count-add q.miss_sla n)
  inc_query-QueryAdds Metric.created n q h = λ k. ground (arith, M.count-add q.created n)
  inc_query-QueryAdds Metric.updated n q h = λ k. ground (arith, M.count-add q.updated n)
  inc_query-QueryAdds Metric.deleted n q h = λ k. ground (arith, M.count-add q.deleted n)
  inc_query-QueryAdds Metric.query_timeout n q h =
      λ k. ground (arith, M.count-add q.query_timeout n)
  inc_query-QueryAdds _ n q h = cc

  -- The fields of the report for an entity type, and of the request, by the metric of their name.
  abbrev pub reported_query : Metric → Option (EntityMetrics M) → Option ℕ
  reported_query k none = none
  reported_query k (some e) = query_field k (query_report M e.query)

  abbrev pub reported : String → Metric → GroupMetrics M → Option ℕ
  reported t Metric.cdc_clients m = some (M.count m.clients)
  reported t k m =
      if counts_global k
      then request_field k (request_report M m.request)
      else reported_query k (lookup t m.entity)

  -- The metrics after `mn` was incremented by n for the entity type t.
  abbrev pub Adds : String → Metric → ℕ → GroupMetrics M → GroupMetrics M → Type 0
  Adds t mn n m m' =
      (u : String) (k : Metric)
      → reported u k m'
        ≡ added (number mn == number k && (counts_global mn || str_eq t u)) n (reported u k m)

  inc_global-Adds :
      (mn : Metric) (n : ℕ) (m : GroupMetrics M) (t : String) (em : Option String)
      → counts_global mn ≡ true
      → Returns (Adds t mn n m) (inc M em mn n m)
  unfolding inc inc_global inc_other request_report number counts_global
  inc_global-Adds Metric.authorization_failed n m t em h =
      λ u k. ground (arith, M.count-add m.request.authorization_failed n)
  inc_global-Adds Metric.invalid_entity_type n m t em h =
      λ u k. ground (arith, M.count-add m.request.invalid_entity_type n)
  inc_global-Adds Metric.db_error n m t em h =
      λ u k. ground (arith, M.count-add m.request.db_error n)
  inc_global-Adds Metric.api_error n m t em h =
      λ u k. ground (arith, M.count-add m.request.api_error n)
  inc_global-Adds Metric.client_error n m t em h =
      λ u k. ground (arith, M.count-add m.request.client_error n)
  inc_global-Adds Metric.cdc_clients n m t em h = λ u k. ground (arith, M.count-add m.clients n)
  inc_global-Adds _ n m t em h = cc

  pub inc-on_entity :
      (em : Option String) (mn : Metric) (n : ℕ) (m : GroupMetrics M)
      → counts_query mn ≡ true
      → inc M em mn n m
        ≡ on_entity M em (λ e. inc_query M mn n e.query >>= λ q. returns (record e { query = q })) m
  unfolding inc inc_global inc_other counts_query
  inc-on_entity em mn n m h = ground (arith, h)

  -- A metric of queries is none of requests, and has another number.
  kinds_differ :
      (mn k : Metric)
      → counts_query mn ≡ true
      → (counts_global mn ≡ false) × (counts_global k ≡ true → (number mn == number k) ≡ false)
  unfolding number counts_query counts_global
  kinds_differ mn k h = (ground (arith, h), λ g. ground (arith, h, g))

  reported-query :
      (t : String) (k : Metric) (m : GroupMetrics M)
      → counts_global k ≡ false
      → reported t k m ≡ reported_query k (lookup t m.entity)
  unfolding counts_global
  reported-query t k m h = ground (arith, h)

  reported-global :
      (t : String) (k : Metric) (m : GroupMetrics M) (es : Dict (EntityMetrics M))
      → counts_global k ≡ true
      → reported t k (record m { entity = es }) ≡ reported t k m
  unfolding counts_global
  reported-global t k m es h = ground (arith, h)

  added-false : (n : ℕ) (o : Option ℕ) → added false n o ≡ o
  added-false n none = refl
  added-false n (some c) = refl

  query-Adds :
      (t : String) (mn : Metric) (n : ℕ) (m : GroupMetrics M) (e : EntityMetrics M)
      (q' : QueryMetrics M)
      → lookup t m.entity ≡ some e
      → counts_query mn ≡ true
      → QueryAdds mn n e.query q'
      → Adds t mn n m (record m { entity = insert t (record e { query = q' }) m.entity })
  query-Adds t mn n m e q' here h adds u k = elim (Bool-cases (counts_global k)) [
    | inl g ↦
        reported-global u k m _ g
        ∙ sym (rw ((kinds_differ mn k h).1 g) (added-false n (reported u k m)))
    | inr g ↦
        reported-query u k _ g
        ∙ query_at (str_eq t u) refl
        ∙ sym (
            ap (added (number mn == number k && (counts_global mn || str_eq t u)) n)
              (reported-query u k m g))
  ]
    where
      e' : EntityMetrics M
      e' = record e { query = q' }

      same_entry : str_eq t u ≡ true → lookup u m.entity ≡ some e
      same_entry b = ap (λ x. lookup x m.entity) (sym ((eq_iff t u).0 b)) ∙ here

      query_at :
          (b : Bool)
          → str_eq t u ≡ b
          → reported_query k (lookup u (insert t e' m.entity))
            ≡ added
                (number mn == number k && (counts_global mn || str_eq t u))
                n
                (reported_query k (lookup u m.entity))
      query_at true b =
          ap (reported_query k) (lookup-insert t u e' m.entity)
          ∙ rw (b, same_entry b, (kinds_differ mn k h).0) (ground (arith, adds k))
      query_at false b =
          ap (reported_query k) (lookup-insert t u e' m.entity)
          ∙ rw (b, (kinds_differ mn k h).0)
              (ground (arith, added-false n (reported_query k (lookup u m.entity))))

  -- Inc of a counter, bound to an entity type whose metrics exist, adds to the field of the reports
  -- with the counter's name, under that entity type where it counts queries, and to no other field.
  pub inc-Adds :
      (t : String) (mn : Metric) (n : ℕ) (m : GroupMetrics M) (e : EntityMetrics M)
      → lookup t m.entity ≡ some e
      → (counts_query mn || counts_global mn) ≡ true
      → Returns (Adds t mn n m) (inc M (some t) mn n m)
  unfolding on_entity
  inc-Adds t mn n m e here h = elim (Bool-cases (counts_query mn)) [
    | inl q ↦
        rw (inc-on_entity (some t) mn n m q, on_entity, here)
          (bound q (inc_query M mn n e.query) (inc_query-QueryAdds mn n e.query q))
    | inr g ↦ inc_global-Adds mn n m t (some t) (ground (arith, h, g))
  ]
    where
      bound :
          counts_query mn ≡ true
          → (o : Outcome (QueryMetrics M)) → Returns (QueryAdds mn n e.query) o
          → Returns (Adds t mn n m) (
              (o >>= λ q'. returns (record e { query = q' })) >>= λ e'.
              returns (record m { entity = insert t e' m.entity }))
      bound q (returns q') adds = query-Adds t mn n m e q' here q adds
      bound q panics adds = absurd adds
