-- ===== src/Metrics/Group/Types.antt =====
-- metrics/group.go: the types of the metrics of a group, and the metrics that start at zero.
use etre.Base.{[]}
use etre.Base.Dict.{Dict}
use etre.Metrics.{GoMetrics}

module _ (M : GoMetrics) where
  open M use {Counter, Histogram, new_counter, med_histogram, latency_histogram}

  pub record GlobalMetrics : Type 0 where
    pub authorization_failed : Counter
    pub invalid_entity_type : Counter
    pub db_error : Counter
    pub api_error : Counter
    pub client_error : Counter

  pub record QueryMetrics : Type 0 where
    pub query : Counter
    pub read : Counter
    pub read_query : Counter
    pub read_id : Counter
    pub read_labels : Counter
    pub write : Counter
    pub create_one : Counter
    pub create_many : Counter
    pub update_id : Counter
    pub update_query : Counter
    pub delete_id : Counter
    pub delete_query : Counter
    pub delete_label : Counter
    pub set_op : Counter
    pub miss_sla : Counter
    pub created : Counter
    pub updated : Counter
    pub deleted : Counter
    pub query_timeout : Counter
    pub read_match : Histogram
    pub create_bulk : Histogram
    pub update_bulk : Histogram
    pub delete_bulk : Histogram
    pub labels : Histogram
    pub latency : Histogram

  pub record LabelMetrics : Type 0 where
    pub read : Counter
    pub update : Counter
    pub delete : Counter

  pub record EntityMetrics : Type 0 where
    pub query : QueryMetrics
    pub label : Dict LabelMetrics
    pub trace : Dict (Dict Counter)

  -- groupMetrics without its report, which Report makes afresh.
  pub record GroupMetrics : Type 0 where
    pub request : GlobalMetrics
    pub entity : Dict EntityMetrics
    pub clients : Counter

  unfoldable pub new_group_metrics : GroupMetrics
  new_group_metrics = record {
    request = record {
      authorization_failed = new_counter;
      invalid_entity_type = new_counter;
      db_error = new_counter;
      api_error = new_counter;
      client_error = new_counter;
    };
    entity = [];
    clients = new_counter;
  }

  unfoldable pub new_label_metrics : LabelMetrics
  new_label_metrics = record { read = new_counter; update = new_counter; delete = new_counter }

  unfoldable pub new_query_metrics : QueryMetrics
  new_query_metrics = record {
    query = new_counter;
    read = new_counter;
    read_query = new_counter;
    read_id = new_counter;
    read_labels = new_counter;
    write = new_counter;
    create_one = new_counter;
    create_many = new_counter;
    update_id = new_counter;
    update_query = new_counter;
    delete_id = new_counter;
    delete_query = new_counter;
    delete_label = new_counter;
    set_op = new_counter;
    miss_sla = new_counter;
    created = new_counter;
    updated = new_counter;
    deleted = new_counter;
    query_timeout = new_counter;
    read_match = med_histogram;
    create_bulk = med_histogram;
    update_bulk = med_histogram;
    delete_bulk = med_histogram;
    labels = med_histogram;
    latency = latency_histogram;
  }

  unfoldable pub new_entity_metrics : EntityMetrics
  unfolding new_query_metrics
  new_entity_metrics = record { query = new_query_metrics; label = []; trace = [] }
