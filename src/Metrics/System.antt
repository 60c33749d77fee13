-- ===== src/Metrics/System.antt =====
-- metrics/system.go. Its other methods of Metrics always panic, and nothing calls them.
use etre.Base.{ℕ}
use etre.Etre.{Outcome, returns, panics}
use etre.Metrics.{Metric, GoMetrics}

module _ (M : GoMetrics) where
  open M use {Counter, Gauge, new_counter, new_gauge, add, count, add_gauge, last}

  pub record SystemMetrics : Type 0 where
    pub query : Counter
    pub auth_fail : Counter
    pub invalid_entity_type : Counter
    pub load : Gauge
    pub error : Counter

  unfoldable pub new_system_metrics : SystemMetrics
  new_system_metrics = record {
    query = new_counter;
    auth_fail = new_counter;
    invalid_entity_type = new_counter;
    load = new_gauge;
    error = new_counter;
  }

  unfoldable pub inc : Metric → ℕ → SystemMetrics → Outcome SystemMetrics
  inc Metric.query n m = returns (record m { query = add m.query n })
  inc Metric.authentication_failed n m = returns (record m { auth_fail = add m.auth_fail n })
  inc Metric.load n m = returns (record m { load = add_gauge m.load n })
  inc Metric.error n m = returns (record m { error = add m.error n })
  inc _ n m = panics

  pub record SystemReport : Type 0 where
    pub query : ℕ
    pub authentication_failed : ℕ
    pub load : ℕ
    pub error : ℕ

  unfoldable pub report : SystemMetrics → SystemReport
  report m = record {
    query = count m.query;
    authentication_failed = count m.auth_fail;
    load = last m.load;
    error = count m.error;
  }
