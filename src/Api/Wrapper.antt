-- ===== src/Api/Wrapper.antt =====
-- requestWrapper, cdcWrapper and id of api/api_gomux.go: what is done around the handler `next`. The
-- query profile and the logs are left out. The timeout of the context is an error of the store.
use etre.Base.{
  ◌/◌, ◌-◌, ◌^◌, String, Bool, true, false, not, ◌&&◌, Option, none, some, [], str_eq, ltb, ◌==◌,
  if◌then◌else◌,
}
use etre.Base.Dict.{Dict}
use etre.Etre.{ObjectId, Outcome, returns, panics}
use etre.Auth.{Caller, AuthError, authenticate, authorize, op_read, op_write, op_cdc}
use etre.Entity.Validate.{ValidationError, entity_type}
use etre.Entity.Store.Partial.{WriteOp}
use etre.Metrics.{Metric}
use etre.Metrics.Store.{Call}
use etre.Api.{
  etre_error, validation, auth_error, Request, Api, is_write_request, err_bad_request, err_panic,
  err_query_timeout, err_no_content, err_missing_param, err_invalid_param,
}
use etre.Api.Action.{State, Rc, pure, gets, set_rc, on_gm, system_inc, ◌>>=◌, ◌>>◌}
use etre.Api.Reply.{Handler, reject, write_op}

abbrev no_caller : Caller
no_caller = record { name = ""; roles = []; metric_groups = []; trace = none }

abbrev no_write_op : WriteOp
no_write_op = record {
  caller = "";
  entity_type = "";
  entity_id = "";
  set_op = "";
  set_id = "";
  set_size = 0;
}

-- A new context of a request.
abbrev pub new_rc : String → Bool → Rc
new_rc type write = record {
  caller = no_caller;
  wo = no_write_op;
  has_gm = false;
  entity_type = type;
  entity_id = "";
  write = write;
}

abbrev pub with_caller : Caller → Rc → Rc
with_caller caller rc = record rc { caller = caller; has_gm = true }

module _ (api : Api) where
  open api use {es, validate, auth, query_latency_sla, is_duration, object_id_from_hex}
  open es use {World}

  -- The deferred function that recovers from a panic.
  unfoldable pub recovered :
      Bool → State World × Outcome (Unit {0}) → State World × Outcome (Unit {0})
  recovered write (s, returns u) = (s, returns u)
  recovered write (s, panics) = reject api write (etre_error err_panic) s

  unfoldable pub recovering : Bool → Handler api → Handler api
  unfolding recovered
  recovering write m s = recovered write (m s)

  -- The load, which a deferred call takes back, after a panic too.
  unfoldable pub with_load : Handler api → Handler api
  with_load m s =
      let before = (system_inc Metric.load 1 s).0 in
      let (after, o) = m before in ((system_inc Metric.load (2 ^ 64 - 1) after).0, o)

  -- What requestWrapper does after the handler.
  unfoldable pub measure : Request → Handler api
  measure r s =
      let latency = api.query_latency r s.world in
      (on_gm (Call.val Metric.latency_ms (latency / 1000000))
          >> (if ltb 0 query_latency_sla && ltb query_latency_sla latency
              then on_gm (Call.inc Metric.miss_sla 1)
              else pure tt))
        s

  -- Behind the authorization.
  unfoldable pub authorized : Bool → Handler api → Request → Option AuthError → Handler api
  unfolding measure
  authorized write next r (some error) = do
    on_gm (Call.inc Metric.authorization_failed 1)
    reject api write (auth_error "not-authorized" 403)
  authorized write next r none = next >> measure r

  unfoldable pub authorize_op : Bool → String → Handler api → Request → Handler api
  unfolding authorized
  authorize_op write op next r = gets (λ rc. rc.caller) >>= λ caller.
      authorized write next r
        (authorize Request auth caller (record { entity_type = r.entity_type; op = op }))

  unfoldable pub count_set_op : WriteOp → Handler api
  count_set_op wo = if str_eq wo.set_op "" then pure tt else on_gm (Call.inc Metric.set_op 1)

  -- Behind the validation of the write op.
  unfoldable pub valid_write :
      Handler api → Request → WriteOp → Option ValidationError → Handler api
  unfolding count_set_op authorize_op
  valid_write next r wo (some error) = reject api true (validation error)
  valid_write next r wo none = count_set_op wo >> authorize_op true op_write next r

  unfoldable pub check_write : Handler api → Request → Handler api
  unfolding valid_write
  check_write next r = do
    on_gm (Call.inc Metric.write 1)
    caller ← gets (λ rc. rc.caller)
    let wo = write_op r caller
    if not (str_eq r.method "DELETE") && r.content_length == 0
        then reject api true (etre_error err_no_content)
        else (do
          set_rc (λ rc. record rc { wo = wo })
          valid_write next r wo (entity_type validate wo.entity_type))

  unfoldable pub check_read : Handler api → Request → Handler api
  unfolding authorize_op
  check_read next r = do on_gm (Call.inc Metric.read 1); authorize_op false op_read next r

  unfoldable pub trace_caller : Option (Dict String) → Handler api
  trace_caller none = pure tt
  trace_caller (some kvs) = on_gm (Call.trace kvs)

  -- Behind the validation of the entity type.
  unfoldable pub typed :
      Bool → Handler api → Request → Caller → Option ValidationError → Handler api
  unfolding trace_caller check_write check_read
  typed write next r caller (some error) = do
    on_gm (Call.inc Metric.invalid_entity_type 1)
    reject api write (validation error)
  typed write next r caller none = do
    on_gm (Call.entity_type r.entity_type)
    on_gm (Call.inc Metric.query 1)
    trace_caller caller.trace
    if write then check_write next r else check_read next r

  -- Behind the authentication.
  unfoldable pub authenticated :
      Bool → Handler api → Request → Caller × Option AuthError → Handler api
  unfolding typed
  authenticated write next r (caller, some error) = do
    system_inc Metric.authentication_failed 1
    reject api write (auth_error "access-denied" 401)
  authenticated write next r (caller, none) = do
    set_rc (with_caller caller)
    typed write next r caller (entity_type validate r.entity_type)

  unfoldable pub admit_request : Bool → Handler api → Request → Handler api
  unfolding authenticated
  admit_request write next r = do
    system_inc Metric.query 1
    if not (str_eq r.query_timeout "") && not (is_duration r.query_timeout)
        then reject api write (etre_error err_query_timeout)
        else authenticated write next r (authenticate Request (λ r. r.trace) auth r)

  unfoldable pub request_wrapper : Handler api → Request → Handler api
  unfolding recovering with_load admit_request
  request_wrapper next r =
      let write = is_write_request r.method in
      set_rc (λ rc. new_rc r.entity_type write)
      >> (if str_eq r.entity_type ""
          then reject api write (etre_error err_bad_request)
          else recovering write (with_load (admit_request write next r)))

  -- Behind the authorization for the changes.
  unfoldable pub authorized_cdc : Handler api → Option AuthError → Handler api
  authorized_cdc next (some error) = do
    on_gm (Call.inc Metric.authorization_failed 1)
    reject api false (auth_error "not-authorized" 403)
  authorized_cdc next none = next

  unfoldable pub authenticated_cdc : Handler api → Caller × Option AuthError → Handler api
  unfolding authorized_cdc
  authenticated_cdc next (caller, some error) = do
    system_inc Metric.authentication_failed 1
    reject api false (auth_error "access-denied" 401)
  authenticated_cdc next (caller, none) = do
    set_rc (with_caller caller)
    authorized_cdc next (authorize Request auth caller (record { entity_type = ""; op = op_cdc }))

  unfoldable pub cdc_wrapper : Handler api → Request → Handler api
  unfolding recovering with_load authenticated_cdc
  cdc_wrapper next r =
      set_rc (λ rc. new_rc "" false)
      >> recovering false (
          with_load (
            system_inc Metric.query 1
            >> authenticated_cdc next (authenticate Request (λ r. r.trace) auth r)))

  -- The id of the request, if it is one.
  unfoldable pub with_id : Handler api → Bool → Option ObjectId → Handler api
  with_id next write none = reject api write (etre_error err_invalid_param)
  with_id next write (some o) = set_rc (λ rc. record rc { entity_id = o.hex }) >> next

  unfoldable pub id : Handler api → Request → Handler api
  unfolding with_id
  id next r = gets (λ rc. rc.write) >>= λ write.
      if str_eq r.id ""
      then reject api write (etre_error err_missing_param)
      else with_id next write (object_id_from_hex r.id)
