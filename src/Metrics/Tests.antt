-- ===== src/Metrics/Tests.antt =====
-- Metrics over counters that are numbers, and instances of the theorems.
use etre.Base.{ℕ, ◌≡◌, refl, none, some, List, [], ◌∷◌, false}
use etre.Base.Dict.{lookup, insert, has_key}
use etre.Base.Int64.{add64}
use etre.Etre.{Returns}
use etre.Metrics.{Metric, GoMetrics}
use etre.Metrics.Group.Types.{GroupMetrics, EntityMetrics, new_group_metrics, new_entity_metrics}
use etre.Metrics.Group.{bind_entity_type, inc}
use etre.Metrics.Group.Counts.{Adds, inc-Adds, counts_query, counts_global}
use etre.Metrics.Store.{Call, run_calls, new_group}
use etre.Metrics.Store.Fit.{Fit}
use etre.Metrics.Store.Shared.{run_calls-Fit}

abbrev pub numbers : GoMetrics
numbers = record {
  Counter = ℕ;
  Gauge = ℕ;
  Histogram = List ℕ;
  new_counter = 0;
  add = add64;
  count = λ c. c;
  new_gauge = 0;
  add_gauge = add64;
  last = λ g. g;
  med_histogram = [];
  latency_histogram = [];
  sample = λ h n. n ∷ h;
  count-new_counter = refl;
  count-add = λ c n. refl;
}

abbrev node_metrics : GroupMetrics numbers
node_metrics = bind_entity_type numbers "node" (new_group_metrics numbers)

abbrev zeros : EntityMetrics numbers
zeros = new_entity_metrics numbers

lookup-node_metrics : lookup "node" node_metrics.entity ≡ some zeros
unfolding bind_entity_type new_group_metrics lookup insert has_key
lookup-node_metrics = refl

inc-Adds_example :
    Returns
      (Adds numbers "node" Metric.read_id 5 node_metrics)
      (inc numbers (some "node") Metric.read_id 5 node_metrics)
unfolding counts_query counts_global
inc-Adds_example =
    inc-Adds numbers "node" Metric.read_id 5 node_metrics zeros lookup-node_metrics refl

-- The same group twice, and one more.
abbrev some_calls : List Call
some_calls =
    Call.inc Metric.invalid_entity_type 1
    ∷ Call.entity_type "node"
    ∷ Call.inc Metric.query 1
    ∷ Call.inc_label Metric.label_read "zone"
    ∷ Call.val Metric.latency_ms 12
    ∷ []

some_calls-Fit : Fit false some_calls
unfolding counts_query counts_global
some_calls-Fit = (refl, (refl, (refl, (refl, (refl, tt)))))

run_calls-Fit_example :
    Returns
      (λ _. Unit)
      (run_calls numbers
        ("ods" ∷ "finch" ∷ "ods" ∷ [])
        none
        some_calls
        (new_group numbers ("ods" ∷ "finch" ∷ "ods" ∷ []) []))
run_calls-Fit_example =
    run_calls-Fit numbers ("ods" ∷ "finch" ∷ "ods" ∷ []) some_calls [] some_calls-Fit
