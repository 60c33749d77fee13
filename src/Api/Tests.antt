-- ===== src/Api/Tests.antt =====
-- An API over a store in memory, and instances of the theorems.
use etre.Base.{ℕ, ◌≡◌, refl, true, false, ◌⊎◌, none, some, [], ◌∷◌}
use etre.Base.Dict.{lookup}
use etre.Etre.{object_id, string, Entity, returns, panics, Returns}
use etre.Auth.{new_manager, allow_all}
use etre.Entity.Store.Errors.{entity_not_found}
use etre.Metrics.Tests.{numbers}
use etre.Metrics.Store.{run_calls, new_group}
use etre.Api.{Request, Api, EntityStore, etre_error, err_not_found}
use etre.Api.Action.{State}
use etre.Api.Reply.{diffs, write_result}
use etre.Api.Write.{delete_label_handler}
use etre.Api.Wrapper.{new_rc, request_wrapper}
use etre.Api.Server.{delete_label, serve}
use etre.Api.Calls.{loads}
use etre.Api.Loaded.{up_and_down}
use etre.Api.Served.{serve-Accounted}
use etre.Api.Guarded.Refusals.{Refused}
use etre.Api.Guarded.{IsAdmitted, request_wrapper-IsAdmitted}
use etre.Api.Answered.{Answered, serve-Answered}
use etre.Api.Results.{Reports, write_result-Reports, delete_label_handler-panics}

abbrev node : Entity
node = ("_id", object_id (record { hex = "a0" })) ∷ ("zone", string "z1") ∷ []

-- A store with one entity and no labels to delete, whose world counts its calls.
abbrev one_node : EntityStore
one_node = record {
  World = ℕ;
  read_entities = λ t q f w. (w, returns (node ∷ [], none));
  create_entities = λ wo es w. (1, returns ("a1" ∷ [], none));
  update_entities = λ wo q e w. (1, returns (node ∷ [], none));
  delete_entities = λ wo q w. (1, returns (node ∷ [], none));
  delete_label = λ wo l w. (1, returns (none, some entity_not_found));
}

abbrev api : Api
api = record {
  addr = "http://etre";
  es = one_node;
  validate = record { entity_types = "node" ∷ [] };
  auth = new_manager Request [] (allow_all Request);
  cdc_disabled = false;
  query_latency_sla = 0;
  is_duration = λ s. true;
  object_id_from_hex = λ s. some (record { hex = "a0" });
  query_latency = λ r w. 5000000;
  upgrade = λ r. none;
  run_client = λ name w. (w, returns tt);
  text = λ b. "zone";
}

abbrev delete_zone : Request
delete_zone = record {
  method = "DELETE";
  entity_type = "node";
  id = "a0";
  label = "zone";
  query_values = [];
  selector = [];
  query_timeout = "";
  trace = "";
  content_length = 0;
  body_entity = none;
  body_entities = none;
  remote_addr = "10.0.0.1";
}

abbrev start : State ℕ
start = record { world = 0; rc = new_rc "node" true; calls = []; system = []; response = none }

serve-Accounted_example :
    Returns
      (λ _. Unit)
      (run_calls numbers
        ("ods" ∷ [])
        none
        (serve api delete_label delete_zone start).0.calls
        (new_group numbers ("ods" ∷ []) []))
    × ((loads (serve api delete_label delete_zone start).0.system ≡ [])
        ⊎ (loads (serve api delete_label delete_zone start).0.system ≡ up_and_down))
serve-Accounted_example =
    serve-Accounted api delete_label delete_zone start numbers ("ods" ∷ []) [] refl refl

serve-Answered_example : Answered api (serve api delete_label delete_zone start)
serve-Answered_example = serve-Answered api delete_label delete_zone start

request_wrapper-IsAdmitted_example :
    IsAdmitted api delete_zone
    ⊎ Refused api 0 (request_wrapper api (delete_label_handler api delete_zone) delete_zone start).0
request_wrapper-IsAdmitted_example =
    request_wrapper-IsAdmitted api (delete_label_handler api delete_zone) delete_zone start refl

write_result-Reports_example :
    Reports api
      (diffs (node ∷ []))
      (some (etre_error err_not_found))
      (write_result api (diffs (node ∷ [])) (some (etre_error err_not_found)) start)
unfolding lookup
write_result-Reports_example =
    write_result-Reports api (diffs (node ∷ [])) (some (etre_error err_not_found)) start
      ((record { hex = "a0" }, refl), tt) refl

delete_label_handler-panics_example : (delete_label_handler api delete_zone start).1 ≡ panics
delete_label_handler-panics_example =
    delete_label_handler-panics api delete_zone start 1 (some entity_not_found) refl
