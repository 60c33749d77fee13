-- ===== src/Metrics/Group.antt =====
-- metrics/group.go: the operations of a group's metrics for a request that is bound to an entity
-- type. The code's pointer `em` into the map of entity metrics is that entity type, none for nil.
pub mod Types
pub mod Report
pub mod Counts
use etre.Base.{ℕ, String, Option, none, some, List, [], ◌∷◌, if◌then◌else◌}
use etre.Base.Dict.{Dict, lookup, insert, has_key}
use etre.Etre.{Outcome, returns, panics, ◌>>=◌}
use etre.Metrics.{Metric, GoMetrics}
use Types.{
  GlobalMetrics, QueryMetrics, LabelMetrics, EntityMetrics, GroupMetrics, new_label_metrics,
  new_entity_metrics,
}

module _ (M : GoMetrics) where
  open M use {Counter, new_counter, add, sample}

  -- EntityType: the metrics of a new entity type are made.
  unfoldable pub bind_entity_type : String → GroupMetrics M → GroupMetrics M
  unfolding new_entity_metrics
  bind_entity_type t m =
      if has_key t m.entity
      then m
      else record m { entity = insert t (new_entity_metrics M) m.entity }

  -- What is done to m.em: a nil pointer panics.
  unfoldable pub on_entity :
      Option String
      → (EntityMetrics M → Outcome (EntityMetrics M))
      → GroupMetrics M
      → Outcome (GroupMetrics M)
  on_entity none f m = panics
  on_entity (some t) f m = elim (lookup t m.entity) [
    | none ↦ panics
    | some e ↦ f e >>= λ e'. returns (record m { entity = insert t e' m.entity })
  ]

  -- The cases of Inc that count queries.
  unfoldable pub inc_query : Metric → ℕ → QueryMetrics M → Outcome (QueryMetrics M)
  inc_query Metric.query n q = returns (record q { query = add q.query n })
  inc_query Metric.read n q = returns (record q { read = add q.read n })
  inc_query Metric.read_query n q = returns (record q { read_query = add q.read_query n })
  inc_query Metric.read_id n q = returns (record q { read_id = add q.read_id n })
  inc_query Metric.read_labels n q = returns (record q { read_labels = add q.read_labels n })
  inc_query Metric.write n q = returns (record q { write = add q.write n })
  inc_query Metric.create_one n q = returns (record q { create_one = add q.create_one n })
  inc_query Metric.create_many n q = returns (record q { create_many = add q.create_many n })
  inc_query Metric.update_id n q = returns (record q { update_id = add q.update_id n })
  inc_query Metric.update_query n q = returns (record q { update_query = add q.update_query n })
  inc_query Metric.delete_id n q = returns (record q { delete_id = add q.delete_id n })
  inc_query Metric.delete_query n q = returns (record q { delete_query = add q.delete_query n })
  inc_query Metric.delete_label n q = returns (record q { delete_label = add q.delete_label n })
  inc_query Metric.set_op n q = returns (record q { set_op = add q.set_op n })
  inc_query Metric.miss_sla n q = returns (record q { miss_sla = add q.miss_sla n })
  inc_query Metric.created n q = returns (record q { created = add q.created n })
  inc_query Metric.updated n q = returns (record q { updated = add q.updated n })
  inc_query Metric.deleted n q = returns (record q { deleted = add q.deleted n })
  inc_query Metric.query_timeout n q = returns (record q { query_timeout = add q.query_timeout n })
  inc_query _ n q = panics

  -- The cases of Inc that count requests, and CDC clients.
  unfoldable pub inc_global : Metric → ℕ → GlobalMetrics M → Option (GlobalMetrics M)
  inc_global Metric.authorization_failed n r =
      some (record r { authorization_failed = add r.authorization_failed n })
  inc_global Metric.invalid_entity_type n r =
      some (record r { invalid_entity_type = add r.invalid_entity_type n })
  inc_global Metric.db_error n r = some (record r { db_error = add r.db_error n })
  inc_global Metric.api_error n r = some (record r { api_error = add r.api_error n })
  inc_global Metric.client_error n r = some (record r { client_error = add r.client_error n })
  inc_global _ n r = none

  unfoldable pub inc_other :
      Option String
      → Metric
      → ℕ
      → GroupMetrics M
      → Option (GlobalMetrics M)
      → Outcome (GroupMetrics M)
  unfolding on_entity inc_query
  inc_other em mn n m (some r) = returns (record m { request = r })
  inc_other em mn n m none =
      on_entity em (λ e. inc_query mn n e.query >>= λ q. returns (record e { query = q })) m

  -- groupEntityMetrics.Inc, with the bound entity type.
  unfoldable pub inc : Option String → Metric → ℕ → GroupMetrics M → Outcome (GroupMetrics M)
  unfolding inc_other inc_global
  inc em Metric.cdc_clients n m = returns (record m { clients = add m.clients n })
  inc em mn n m = inc_other em mn n m (inc_global mn n m.request)

  unfoldable pub get_label_metrics : String → EntityMetrics M → LabelMetrics M
  unfolding new_label_metrics
  get_label_metrics label e = elim (lookup label e.label) [
    | some l ↦ l
    | none ↦ new_label_metrics M
  ]

  unfoldable pub inc_label_metrics : Metric → LabelMetrics M → Outcome (LabelMetrics M)
  inc_label_metrics Metric.label_read l = returns (record l { read = add l.read 1 })
  inc_label_metrics Metric.label_update l = returns (record l { update = add l.update 1 })
  inc_label_metrics Metric.label_delete l = returns (record l { delete = add l.delete 1 })
  inc_label_metrics _ l = panics

  unfoldable pub inc_label :
      Option String → Metric → String → GroupMetrics M → Outcome (GroupMetrics M)
  unfolding on_entity get_label_metrics inc_label_metrics
  inc_label em mn label = on_entity em λ e. do
    l ← inc_label_metrics mn (get_label_metrics label e)
    returns (record e { label = insert label l e.label })

  unfoldable pub val_query : Metric → ℕ → QueryMetrics M → Outcome (QueryMetrics M)
  val_query Metric.read_match n q = returns (record q { read_match = sample q.read_match n })
  val_query Metric.create_bulk n q = returns (record q { create_bulk = sample q.create_bulk n })
  val_query Metric.update_bulk n q = returns (record q { update_bulk = sample q.update_bulk n })
  val_query Metric.delete_bulk n q = returns (record q { delete_bulk = sample q.delete_bulk n })
  val_query Metric.labels n q = returns (record q { labels = sample q.labels n })
  val_query Metric.latency_ms n q = returns (record q { latency = sample q.latency n })
  val_query _ n q = panics

  unfoldable pub val : Option String → Metric → ℕ → GroupMetrics M → Outcome (GroupMetrics M)
  unfolding on_entity val_query
  val em mn n = on_entity em λ e. val_query mn n e.query >>= λ q. returns (record e { query = q })

  abbrev or_new : Option Counter → Counter
  or_new none = new_counter
  or_new (some c) = c

  abbrev or_empty : Option (Dict Counter) → Dict Counter
  or_empty none = []
  or_empty (some d) = d

  -- One turn of the loop of Trace.
  unfoldable pub trace_one : String → String → Dict (Dict Counter) → Dict (Dict Counter)
  trace_one k v trace =
      let values = or_empty (lookup k trace) in
      insert k (insert v (add (or_new (lookup v values)) 1) values) trace

  unfoldable pub trace_all : Dict String → Dict (Dict Counter) → Dict (Dict Counter)
  unfolding trace_one
  trace_all [] trace = trace
  trace_all ((k, v) ∷ kvs) trace = trace_all kvs (trace_one k v trace)

  -- An empty trace does not touch m.em.
  unfoldable pub trace : Option String → Dict String → GroupMetrics M → Outcome (GroupMetrics M)
  unfolding on_entity trace_all
  trace em [] m = returns m
  trace em (kv ∷ kvs) m =
      on_entity em (λ e. returns (record e { trace = trace_all (kv ∷ kvs) e.trace })) m
