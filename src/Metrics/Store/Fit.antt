-- ===== src/Metrics/Store/Fit.antt =====
-- Which calls on the metrics of a group do not panic.
use etre.Base.{
  ℕ, String, ◌≡◌, refl, sym, subst, Bool, true, false, ◌||◌, ◌&&◌, not, Option, none, some, List,
  [], ◌∷◌, arith, eq_iff, Bool-cases, inl, inr,
}
use etre.Base.Dict.{Dict, lookup, insert, has_key, lookup-insert, has_key-lookup}
use etre.Etre.{Outcome, returns, panics, ◌>>=◌, Returns, Returns-bind, Returns-map}
use etre.Metrics.{Metric, GoMetrics}
use etre.Metrics.Group.Types.{
  GroupMetrics, EntityMetrics, QueryMetrics, LabelMetrics, new_entity_metrics,
}
use etre.Metrics.Group.{
  bind_entity_type, on_entity, inc, inc_query, inc_global, inc_other, inc_label, inc_label_metrics,
  get_label_metrics, val, val_query, trace, trace_all,
}
use etre.Metrics.Group.Counts.{
  counts_query, counts_global, inc-on_entity, QueryAdds, inc_query-QueryAdds,
}
use etre.Metrics.Store.{Call, call, bound_by}

-- The metrics that IncLabel and Val take.
abbrev pub counts_label : Metric → Bool
counts_label Metric.label_read = true
counts_label Metric.label_update = true
counts_label Metric.label_delete = true
counts_label _ = false

abbrev pub is_histogram : Metric → Bool
is_histogram Metric.latency_ms = true
is_histogram Metric.labels = true
is_histogram Metric.read_match = true
is_histogram Metric.create_bulk = true
is_histogram Metric.update_bulk = true
is_histogram Metric.delete_bulk = true
is_histogram _ = false

abbrev pub is_bound : Option String → Bool
is_bound none = false
is_bound (some t) = true

-- A call that fits: its metric is of the method's kind, and the request is bound to an entity type
-- unless the method needs none; a request is bound once.
abbrev pub fits : Bool → Call → Bool
fits bound (Call.entity_type t) = not bound
fits bound (Call.inc mn n) = counts_global mn || (bound && counts_query mn)
fits bound (Call.inc_label mn label) = bound && counts_label mn
fits bound (Call.val mn n) = bound && is_histogram mn
fits bound (Call.trace kvs) = bound

abbrev pub binds : Bool → Call → Bool
binds bound (Call.entity_type t) = true
binds bound _ = bound

abbrev pub Fit : Bool → List Call → Type 0
Fit bound [] = Unit
Fit bound (c ∷ cs) = (fits bound c ≡ true) × Fit (binds bound c) cs

module _ (M : GoMetrics) where
  -- The group has metrics for the entity type that the request is bound to.
  abbrev pub HasKey : Option String → Dict (EntityMetrics M) → Type 0
  HasKey none d = Unit
  HasKey (some t) d = has_key t d ≡ true

  abbrev pub HasType : Option String → GroupMetrics M → Type 0
  HasType em m = HasKey em m.entity

  has_key-insert_self :
      {V : Type 0} (k : String) (v : V) (d : Dict V) → has_key k (insert k v d) ≡ true
  has_key-insert_self k v d =
      ground (arith, has_key-lookup k (insert k v d), lookup-insert k k v d, eq_iff k k)

  on_entity-Returns :
      (t : String) (f : EntityMetrics M → Outcome (EntityMetrics M)) (m : GroupMetrics M)
      → ((e : EntityMetrics M) → Returns (λ _. Unit) (f e))
      → HasType (some t) m
      → Returns (HasType (some t)) (on_entity M (some t) f m)
  unfolding on_entity
  on_entity-Returns t f m k h = at (lookup t m.entity) refl
    where
      at :
          (o : Option (EntityMetrics M))
          → lookup t m.entity ≡ o
          → Returns (HasType (some t)) (elim o [
            | none ↦ panics
            | some e ↦ f e >>= λ e'. returns (record m { entity = insert t e' m.entity })
          ])
      at none e = absurd (ground (arith, h, e, has_key-lookup t m.entity))
      at (some e) _ =
          Returns-bind (λ _. Unit) (HasType (some t)) (f e) _ (k e)
            λ e' u. has_key-insert_self t e' m.entity

  inc_query-Returns :
      (mn : Metric) (n : ℕ) (q : QueryMetrics M)
      → counts_query mn ≡ true
      → Returns (λ _. Unit) (inc_query M mn n q)
  inc_query-Returns mn n q h =
      Returns-map (QueryAdds M mn n q) (λ _. Unit) (inc_query M mn n q) (λ q' a. tt)
        (inc_query-QueryAdds M mn n q h)

  inc_global-HasType :
      (em : Option String) (mn : Metric) (n : ℕ) (m : GroupMetrics M)
      → counts_global mn ≡ true
      → HasType em m
      → Returns (HasType em) (inc M em mn n m)
  unfolding inc inc_global inc_other counts_global
  inc_global-HasType em Metric.authorization_failed n m h k = k
  inc_global-HasType em Metric.invalid_entity_type n m h k = k
  inc_global-HasType em Metric.db_error n m h k = k
  inc_global-HasType em Metric.api_error n m h k = k
  inc_global-HasType em Metric.client_error n m h k = k
  inc_global-HasType em Metric.cdc_clients n m h k = k
  inc_global-HasType em _ n m h k = cc

  inc_label_metrics-Returns :
      (mn : Metric) (l : LabelMetrics M)
      → counts_label mn ≡ true
      → Returns (λ _. Unit) (inc_label_metrics M mn l)
  unfolding inc_label_metrics
  inc_label_metrics-Returns mn l h = ground (arith, h)

  val_query-Returns :
      (mn : Metric) (n : ℕ) (q : QueryMetrics M)
      → is_histogram mn ≡ true
      → Returns (λ _. Unit) (val_query M mn n q)
  unfolding val_query
  val_query-Returns mn n q h = ground (arith, h)

  inc_label-HasType :
      (t : String) (mn : Metric) (label : String) (m : GroupMetrics M)
      → counts_label mn ≡ true
      → HasType (some t) m
      → Returns (HasType (some t)) (inc_label M (some t) mn label m)
  unfolding inc_label
  inc_label-HasType t mn label m h =
      on_entity-Returns t
        (λ e. inc_label_metrics M mn (get_label_metrics M label e) >>= λ l.
          returns (record e { label = insert label l e.label }))
        m
        (λ e.
          Returns-bind (λ _. Unit) (λ _. Unit)
            (inc_label_metrics M mn (get_label_metrics M label e)) _
            (inc_label_metrics-Returns mn (get_label_metrics M label e) h) λ l u. tt)

  val-HasType :
      (t : String) (mn : Metric) (n : ℕ) (m : GroupMetrics M)
      → is_histogram mn ≡ true
      → HasType (some t) m
      → Returns (HasType (some t)) (val M (some t) mn n m)
  unfolding val
  val-HasType t mn n m h =
      on_entity-Returns t (λ e. val_query M mn n e.query >>= λ q. returns (record e { query = q }))
        m
        (λ e.
          Returns-bind (λ _. Unit) (λ _. Unit) (val_query M mn n e.query) _
            (val_query-Returns mn n e.query h) λ q u. tt)

  trace-HasType :
      (t : String) (kvs : Dict String) (m : GroupMetrics M)
      → HasType (some t) m
      → Returns (HasType (some t)) (trace M (some t) kvs m)
  unfolding trace
  trace-HasType t [] m k = k
  trace-HasType t (kv ∷ kvs) m k =
      on_entity-Returns t (λ e. returns (record e { trace = trace_all M (kv ∷ kvs) e.trace })) m
        (λ e. tt) k

  bind-HasType : (t : String) (m : GroupMetrics M) → HasType (some t) (bind_entity_type M t m)
  unfolding bind_entity_type
  bind-HasType t m = elim (Bool-cases (has_key t m.entity)) [
    | inl there ↦ rw there there
    | inr new ↦ rw new (has_key-insert_self t (new_entity_metrics M) m.entity)
  ]

  inc-HasType :
      (em : Option String) (mn : Metric) (n : ℕ) (m : GroupMetrics M)
      → fits (is_bound em) (Call.inc mn n) ≡ true
      → HasType em m
      → Returns (HasType em) (inc M em mn n m)
  inc-HasType em mn n m h k = elim (Bool-cases (counts_global mn)) [
    | inl g ↦ inc_global-HasType em mn n m g k
    | inr q ↦ at em (ground (arith, h, q)) k
  ]
    where
      at :
          (em : Option String)
          → (is_bound em && counts_query mn) ≡ true
          → HasType em m
          → Returns (HasType em) (inc M em mn n m)
      at none b k = cc
      at (some t) b k =
          subst (Returns (HasType (some t))) (sym (inc-on_entity M (some t) mn n m b)) (
            on_entity-Returns t
              (λ e. inc_query M mn n e.query >>= λ q. returns (record e { query = q })) m
              (λ e.
                Returns-bind (λ _. Unit) (λ _. Unit) (inc_query M mn n e.query) _
                  (inc_query-Returns mn n e.query b) λ q u. tt)
              k)

  pub call-HasType :
      (em : Option String) (c : Call) (m : GroupMetrics M)
      → fits (is_bound em) c ≡ true
      → HasType em m
      → Returns (HasType (bound_by em c)) (call M em c m)
  unfolding call
  call-HasType em (Call.entity_type t) m h k = bind-HasType t m
  call-HasType em (Call.inc mn n) m h k = inc-HasType em mn n m h k
  call-HasType none (Call.inc_label mn label) m h k = cc
  call-HasType none (Call.val mn n) m h k = cc
  call-HasType none (Call.trace kvs) m h k = cc
  call-HasType (some t) (Call.inc_label mn label) m h k = inc_label-HasType t mn label m h k
  call-HasType (some t) (Call.val mn n) m h k = val-HasType t mn n m h k
  call-HasType (some t) (Call.trace kvs) m h k = trace-HasType t kvs m k
