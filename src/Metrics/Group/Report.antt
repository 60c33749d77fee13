-- ===== src/Metrics/Group/Report.antt =====
-- metrics/group.go: the counters of Report. The fields of histograms are left out.
use etre.Base.{ℕ, map}
use etre.Base.Dict.{Dict}
use etre.Metrics.{GoMetrics}
use etre.Metrics.Group.Types.{GlobalMetrics, QueryMetrics, LabelMetrics}

pub record QueryReport : Type 0 where
  pub query : ℕ
  pub read : ℕ
  pub read_query : ℕ
  pub read_id : ℕ
  pub read_labels : ℕ
  pub write : ℕ
  pub create_one : ℕ
  pub create_many : ℕ
  pub update_id : ℕ
  pub update_query : ℕ
  pub delete_id : ℕ
  pub delete_query : ℕ
  pub delete_label : ℕ
  pub set_op : ℕ
  pub miss_sla : ℕ
  pub created : ℕ
  pub updated : ℕ
  pub deleted : ℕ
  pub query_timeout : ℕ

pub record RequestReport : Type 0 where
  pub authorization_failed : ℕ
  pub invalid_entity_type : ℕ
  pub db_error : ℕ
  pub api_error : ℕ
  pub client_error : ℕ

module _ (M : GoMetrics) where
  open M use {Counter, count}

  unfoldable pub query_report : QueryMetrics M → QueryReport
  query_report q = record {
    query = count q.query;
    read = count q.read;
    read_query = count q.read_query;
    read_id = count q.read_id;
    read_labels = count q.read_labels;
    write = count q.write;
    create_one = count q.create_one;
    create_many = count q.create_many;
    update_id = count q.update_id;
    update_query = count q.update_query;
    delete_id = count q.delete_id;
    delete_query = count q.delete_query;
    delete_label = count q.delete_label;
    set_op = count q.set_op;
    miss_sla = count q.miss_sla;
    created = count q.created;
    updated = count q.updated;
    deleted = count q.deleted;
    query_timeout = count q.query_timeout;
  }

  unfoldable pub request_report : GlobalMetrics M → RequestReport
  request_report r = record {
    authorization_failed = count r.authorization_failed;
    invalid_entity_type = count r.invalid_entity_type;
    db_error = count r.db_error;
    api_error = count r.api_error;
    client_error = count r.client_error;
  }

  unfoldable pub label_report : LabelMetrics M → ℕ × ℕ × ℕ
  label_report l = (count l.read, count l.update, count l.delete)

  unfoldable pub trace_report : Dict (Dict Counter) → Dict (Dict ℕ)
  trace_report = map λ kv. (kv.0, map (λ vc. (vc.0, count vc.1)) kv.1)
