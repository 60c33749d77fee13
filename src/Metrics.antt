-- ===== src/Metrics.antt =====
-- The package metrics (metrics/): the metric numbers of metrics.go, and the counters of the library
-- go-metrics as far as the package uses them.
pub mod Group
pub mod Store
pub mod System
pub mod Tests
use etre.Base.{ℕ, ◌+◌, ◌≡◌, Bool}
use etre.Base.Int64.{add64}

-- The constants of metrics.go, which are numbered in this order.
pub data Metric : Type 0 where
  query set_op labels latency_ms miss_sla read read_query read_id read_match : Metric
  read_labels write create_one create_many create_bulk update_id update_query : Metric
  update_bulk delete_id delete_query delete_bulk delete_label label_read : Metric
  label_update label_delete db_error api_error client_error cdc_clients created : Metric
  updated deleted authentication_failed authorization_failed invalid_entity_type : Metric
  query_timeout load error : Metric

unfoldable pub number : Metric → ℕ
number query = 0
number set_op = 1
number labels = 2
number latency_ms = 3
number miss_sla = 4
number read = 5
number read_query = 6
number read_id = 7
number read_match = 8
number read_labels = 9
number write = 10
number create_one = 11
number create_many = 12
number create_bulk = 13
number update_id = 14
number update_query = 15
number update_bulk = 16
number delete_id = 17
number delete_query = 18
number delete_bulk = 19
number delete_label = 20
number label_read = 21
number label_update = 22
number label_delete = 23
number db_error = 24
number api_error = 25
number client_error = 26
number cdc_clients = 27
number created = 28
number updated = 29
number deleted = 30
number authentication_failed = 31
number authorization_failed = 32
number invalid_entity_type = 33
number query_timeout = 34
number load = 35
number error = 36

-- github.com/daniel-nichter/go-metrics. A value is the bit pattern of an int64.
pub record GoMetrics : Type 1 where
  pub Counter : Type 0
  pub Gauge : Type 0
  pub Histogram : Type 0
  -- NewCounter, Add and Count
  pub new_counter : Counter
  pub add : Counter → ℕ → Counter
  pub count : Counter → ℕ
  -- NewGauge, Add and int64(Last())
  pub new_gauge : Gauge
  pub add_gauge : Gauge → ℕ → Gauge
  pub last : Gauge → ℕ
  -- NewHistogram with medConfig and with latencyConfig, and Record of the float64 of a value
  pub med_histogram : Histogram
  pub latency_histogram : Histogram
  pub sample : Histogram → ℕ → Histogram
  -- A counter counts what is added to it.
  pub count-new_counter : count new_counter ≡ 0
  pub count-add : (c : Counter) (n : ℕ) → count (add c n) ≡ add64 (count c) n
