-- ===== src/Metrics/Store.antt =====
-- metrics/store.go, and the Group of metrics/group.go, which passes each call on to the metrics of
-- all groups of a caller. The code's pointers to group metrics are the names of the groups in the
-- store. Requests that make the metrics of a new group at the same time are not modelled.
pub mod Fit
pub mod Shared
use etre.Base.{ℕ, String, Bool, true, false, Option, none, some, List, [], ◌∷◌, map, if◌then◌else◌}
use etre.Base.Dict.{Dict, lookup, insert, has_key}
use etre.Etre.{Outcome, returns, panics, ◌>>=◌}
use etre.Metrics.{Metric, GoMetrics}
use etre.Metrics.Group.Types.{GroupMetrics, new_group_metrics}
use etre.Metrics.Group.{bind_entity_type}

-- What is called on the Metrics of a request.
pub data Call : Type 0 where
  entity_type : String → Call
  inc : Metric → ℕ → Call
  inc_label : Metric → String → Call
  val : Metric → ℕ → Call
  trace : Dict String → Call

-- The entity type that a Group is bound to after a call.
abbrev pub bound_by : Option String → Call → Option String
bound_by em (Call.entity_type t) = some t
bound_by em _ = em

module _ (M : GoMetrics) where
  abbrev pub MetricsStore : Type 0
  MetricsStore = Dict (GroupMetrics M)

  -- Add: false for the error that the name is there already.
  unfoldable pub add : GroupMetrics M → String → MetricsStore → MetricsStore × Bool
  add m name s = if has_key name s then (s, false) else (insert name m s, true)

  unfoldable pub names : MetricsStore → List String
  names s = map (λ kv. kv.0) s

  -- The metrics of a group, new if the store has none.
  unfoldable pub ensure : String → MetricsStore → MetricsStore
  unfolding add
  ensure g s = elim (lookup g s) [ some m ↦ s | none ↦ (add (new_group_metrics M) g s).0 ]

  -- The loop of NewGroup.
  unfoldable pub new_group : List String → MetricsStore → MetricsStore
  unfolding ensure
  new_group [] s = s
  new_group (g ∷ gs) s = new_group gs (ensure g s)

  -- A call on the metrics of one group, bound to an entity type or not yet.
  unfoldable pub call : Option String → Call → GroupMetrics M → Outcome (GroupMetrics M)
  call em (Call.entity_type t) m = returns (bind_entity_type M t m)
  call em (Call.inc mn n) m = etre.Metrics.Group.inc M em mn n m
  call em (Call.inc_label mn label) m = etre.Metrics.Group.inc_label M em mn label m
  call em (Call.val mn n) m = etre.Metrics.Group.val M em mn n m
  call em (Call.trace kvs) m = etre.Metrics.Group.trace M em kvs m

  -- The loop of each method of Group.
  unfoldable pub call_all : Option String → Call → List String → MetricsStore → Outcome MetricsStore
  unfolding call
  call_all em c [] s = returns s
  call_all em c (g ∷ gs) s = elim (lookup g s) [
    | none ↦ panics
    | some m ↦ call em c m >>= λ m'. call_all em c gs (insert g m' s)
  ]

  -- The calls of one request, in order.
  unfoldable pub run_calls :
      List String → Option String → List Call → MetricsStore → Outcome MetricsStore
  unfolding call_all
  run_calls gs em [] s = returns s
  run_calls gs em (c ∷ cs) s = call_all em c gs s >>= λ s'. run_calls gs (bound_by em c) cs s'
