-- ===== src/Api/Replied/Wrapped.antt =====
-- What requestWrapper and id do around a handler sends a response, if the handler does.
use etre.Base.{
  ◌/◌, String, Bool, true, false, not, ◌&&◌, Option, none, some, ltb, ◌==◌, str_eq, if◌then◌else◌,
}
use etre.Etre.{ObjectId, Outcome, returns, panics}
use etre.Auth.{Caller, AuthError, authenticate, authorize, op_read, op_write}
use etre.Entity.Validate.{ValidationError, entity_type}
use etre.Entity.Store.Partial.{WriteOp}
use etre.Metrics.{Metric}
use etre.Metrics.Store.{Call}
use etre.Api.{
  etre_error, validation, auth_error, Request, Api, err_query_timeout, err_no_content,
  err_missing_param, err_invalid_param,
}
use etre.Api.Action.{Action, pure, gets, set_rc, call_if, on_gm, system_inc, on_world, ◌>>=◌, ◌>>◌}
use etre.Api.Leads.{After, Leads, Leads-bind, Leads-if}
use etre.Api.Reply.{Handler, reject, write_op}
use etre.Api.Wrapper.{
  measure, authorized, authorize_op, count_set_op, valid_write, check_write, check_read,
  trace_caller, typed, authenticated, admit_request, with_id, id, with_caller,
}
use etre.Api.Replied.{
  Any, HasResponse, Responds, Responds-bind, Responds-then, Responds-if, reject-Responds,
}

module _ (api : Api) where
  open api use {es, validate, auth}
  open es use {World}

  -- What leaves a response that was sent.
  abbrev pub Leaves : {A : Type 0} → Action World A → Type 0
  Leaves m = Leads (Any api) (HasResponse api) (HasResponse api) m

  pub Leaves-on_gm : (c : Call) → Leaves (on_gm c)
  unfolding on_gm
  Leaves-on_gm c s h = at s.rc.has_gm
    where
      at : (g : Bool) → After (Any api) (HasResponse api) (call_if g s c)
      at true = record { sent = h.sent; is_sent = h.is_sent }
      at false = tt

  pub Leaves-on_world : {A : Type 0} (f : World → World × Outcome A) → Leaves (on_world f)
  unfolding on_world
  Leaves-on_world {A = A} f s h = at (f s.world).1
    where
      at :
          (o : Outcome A)
          → After (Any api) (HasResponse api) (record s { world = (f s.world).0 }, o)
      at (returns a) = record { sent = h.sent; is_sent = h.is_sent }
      at panics = tt

  measure-Leaves : (r : Request) → Leaves (measure api r)
  unfolding measure
  measure-Leaves r s h =
      let latency = api.query_latency r s.world in
      let slow : Handler api =
        if ltb 0 api.query_latency_sla && ltb api.query_latency_sla latency
        then on_gm (Call.inc Metric.miss_sla 1)
        else pure tt in
      Leads-bind (Any api) (HasResponse api) (HasResponse api) (HasResponse api)
        (on_gm (Call.val Metric.latency_ms (latency / 1000000))) (λ _. slow)
        (Leaves-on_gm (Call.val Metric.latency_ms (latency / 1000000)))
        (λ u.
          Leads-if (Any api) (HasResponse api) (HasResponse api)
            (ltb 0 api.query_latency_sla && ltb api.query_latency_sla latency)
            (on_gm (Call.inc Metric.miss_sla 1)) (pure tt)
            (Leaves-on_gm (Call.inc Metric.miss_sla 1)) (λ s h. h))
        s h

  module _ (next : Handler api) (next-Responds : Responds api next) where
    authorized-Responds :
        (write : Bool) (r : Request) (error : Option AuthError)
        → Responds api (authorized api write next r error)
    unfolding authorized
    authorized-Responds write r (some error) =
        Responds-then api (on_gm (Call.inc Metric.authorization_failed 1)) _
          (reject-Responds api write (auth_error "not-authorized" 403))
    authorized-Responds write r none =
        Leads-bind (Any api) (Any api) (HasResponse api) (HasResponse api) next (λ _. measure api r)
          next-Responds λ u. measure-Leaves r

    authorize_op-Responds :
        (write : Bool) (op : String) (r : Request) → Responds api (authorize_op api write op next r)
    unfolding authorize_op
    authorize_op-Responds write op r = Responds-bind api (gets (λ rc. rc.caller)) _ λ caller.
        authorized-Responds write r
          (authorize Request auth caller (record { entity_type = r.entity_type; op = op }))

    valid_write-Responds :
        (r : Request) (wo : WriteOp) (error : Option ValidationError)
        → Responds api (valid_write api next r wo error)
    unfolding valid_write
    valid_write-Responds r wo (some error) = reject-Responds api true (validation error)
    valid_write-Responds r wo none =
        Responds-then api (count_set_op api wo) (authorize_op api true op_write next r)
          (authorize_op-Responds true op_write r)

    check_write-Responds : (r : Request) → Responds api (check_write api next r)
    unfolding check_write
    check_write-Responds r =
        let go_on : WriteOp → Handler api = λ wo.
          set_rc (λ rc. record rc { wo = wo })
          >> valid_write api next r wo (entity_type validate wo.entity_type) in
        let test = not (str_eq r.method "DELETE") && r.content_length == 0 in
        let empty = reject api true (etre_error err_no_content) in
        Responds-then api (on_gm (Call.inc Metric.write 1))
          (gets (λ rc. rc.caller) >>= λ caller. if test then empty else go_on (write_op r caller))
          (Responds-bind api (gets (λ rc. rc.caller))
            (λ caller. if test then empty else go_on (write_op r caller))
            λ caller.
              Responds-if api test empty (go_on (write_op r caller))
                (reject-Responds api true (etre_error err_no_content))
                (Responds-then api (set_rc (λ rc. record rc { wo = write_op r caller })) _ (
                  valid_write-Responds r (write_op r caller)
                    (entity_type validate (write_op r caller).entity_type))))

    check_read-Responds : (r : Request) → Responds api (check_read api next r)
    unfolding check_read
    check_read-Responds r =
        Responds-then api (on_gm (Call.inc Metric.read 1)) _ (authorize_op-Responds false op_read r)

    typed-Responds :
        (write : Bool) (r : Request) (caller : Caller) (error : Option ValidationError)
        → Responds api (typed api write next r caller error)
    unfolding typed
    typed-Responds write r caller (some error) =
        Responds-then api (on_gm (Call.inc Metric.invalid_entity_type 1)) _
          (reject-Responds api write (validation error))
    typed-Responds write r caller none =
        let check = if write then check_write api next r else check_read api next r in
        Responds-then api (on_gm (Call.entity_type r.entity_type))
          (on_gm (Call.inc Metric.query 1) >> (trace_caller api caller.trace >> check))
          (Responds-then api (on_gm (Call.inc Metric.query 1))
            (trace_caller api caller.trace >> check)
            (Responds-then api (trace_caller api caller.trace) check (
              Responds-if api write (check_write api next r) (check_read api next r)
                (check_write-Responds r) (check_read-Responds r))))

    authenticated-Responds :
        (write : Bool) (r : Request) (a : Caller × Option AuthError)
        → Responds api (authenticated api write next r a)
    unfolding authenticated
    authenticated-Responds write r (caller, some error) =
        Responds-then api (system_inc Metric.authentication_failed 1) _
          (reject-Responds api write (auth_error "access-denied" 401))
    authenticated-Responds write r (caller, none) =
        Responds-then api (set_rc (with_caller caller)) _
          (typed-Responds write r caller (entity_type validate r.entity_type))

    pub admit_request-Responds :
        (write : Bool) (r : Request) → Responds api (admit_request api write next r)
    unfolding admit_request
    admit_request-Responds write r =
        let asked = authenticated api write next r (authenticate Request (λ r. r.trace) auth r) in
        let bad = not (str_eq r.query_timeout "") && not (api.is_duration r.query_timeout) in
        let timeout = reject api write (etre_error err_query_timeout) in
        Responds-then api (system_inc Metric.query 1) (if bad then timeout else asked) (
          Responds-if api bad timeout asked
            (reject-Responds api write (etre_error err_query_timeout))
            (authenticated-Responds write r (authenticate Request (λ r. r.trace) auth r)))

    with_id-Responds :
        (write : Bool) (o : Option ObjectId) → Responds api (with_id api next write o)
    unfolding with_id
    with_id-Responds write none = reject-Responds api write (etre_error err_invalid_param)
    with_id-Responds write (some o) =
        Responds-then api (set_rc (λ rc. record rc { entity_id = o.hex })) next next-Responds

    pub id-Responds : (r : Request) → Responds api (id api next r)
    unfolding id
    id-Responds r =
        let go_on : Bool → Handler api = λ write.
          if str_eq r.id ""
          then reject api write (etre_error err_missing_param)
          else with_id api next write (api.object_id_from_hex r.id) in
        Responds-bind api (gets (λ rc. rc.write)) go_on λ write.
          Responds-if api (str_eq r.id "") (reject api write (etre_error err_missing_param))
            (with_id api next write (api.object_id_from_hex r.id))
            (reject-Responds api write (etre_error err_missing_param))
            (with_id-Responds write (api.object_id_from_hex r.id))
