-- ===== src/Api/Wrapped.antt =====
-- The calls on metrics of a request behind requestWrapper and id.
use etre.Base.{
  ℕ, ◌/◌, String, ◌≡◌, refl, ap, subst, ◌∙◌, Bool, true, false, not, ◌&&◌, Option, none, some, List,
  [], ◌++◌, ltb, ◌==◌, str_eq, if◌then◌else◌,
}
use etre.Base.Dict.{Dict}
use etre.Etre.{ObjectId, Outcome, returns, panics}
use etre.Auth.{Caller, AuthError, authenticate, authorize, op_read, op_write}
use etre.Entity.Validate.{ValidationError, entity_type}
use etre.Entity.Store.Partial.{WriteOp}
use etre.Metrics.{Metric}
use etre.Metrics.Group.Counts.{counts_query, counts_global}
use etre.Metrics.Store.{Call}
use etre.Api.{
  etre_error, validation, auth_error, Request, Api, err_query_timeout, err_no_content,
  err_missing_param, err_invalid_param,
}
use etre.Api.Action.{State, pure, gets, set_rc, on_gm, system_inc, ◌>>◌}
use etre.Api.Reply.{Handler, reject, write_op}
use etre.Api.Wrapper.{
  measure, authorized, authorize_op, count_set_op, valid_write, check_write, check_read,
  trace_caller, typed, authenticated, admit_request, with_id, id, with_caller,
}
use etre.Api.Leads.{After, Leads, Leads-bind, Leads-if}
use etre.Api.Calls.{Logged, Sound, on_gm-Leads, system_inc-Leads, set_rc-Leads, load_of, append-nil}
use etre.Api.Handled.{Stays, Stays-bind, Stays-call, Stays-if, reject-Stays}

module _ (api : Api) (ls : List ℕ) where
  open api use {es, validate, auth}
  open es use {World}

  pub Sound-After :
      {A : Type 0} (Q : State World → Type 0) (r : State World × Outcome A)
      → ((s : State World) → Q s → Sound ls s)
      → After (Sound ls) Q r
      → Sound ls r.0
  Sound-After Q (s, returns a) f h = f s h
  Sound-After Q (s, panics) f h = h

  pub Sound-Logged : (b : Bool) (s : State World) → Logged b ls s → Sound ls s
  Sound-Logged b s l = record { bound = b; logged = l }

  -- What ends in a sound state, from one that is bound or not.
  abbrev pub Ends : Bool → Handler api → Type 0
  Ends b m = Leads (Sound ls) (Logged b ls) (Sound ls) m

  pub Ends-Stays : (b : Bool) (m : Handler api) → Stays api ls b m → Ends b m
  Ends-Stays b m h s l = at (m s) (h s l)
    where
      at :
          (r : State World × Outcome (Unit {0}))
          → After (Sound ls) (Logged b ls) r
          → After (Sound ls) (Sound ls) r
      at (s', returns u) k = Sound-Logged b s' k
      at (s', panics) k = k

  -- A system metric that is not the load.
  pub other-Stays : (b : Bool) (mn : Metric) → load_of mn 1 ≡ [] → Stays api ls b (system_inc mn 1)
  other-Stays b mn h s l =
      subst (λ x. After (Sound ls) (Logged b x) (system_inc mn 1 s))
        (ap (λ x. ls ++ x) h ∙ append-nil ls) (system_inc-Leads b ls mn 1 s l)

  measure-Stays : (r : Request) → Stays api ls true (measure api r)
  unfolding measure counts_query counts_global
  measure-Stays r s l =
      Stays-call api ls (Call.val Metric.latency_ms (api.query_latency r s.world / 1000000)) _ refl
        refl
        (Stays-if api ls true
          (ltb 0 api.query_latency_sla && ltb api.query_latency_sla (api.query_latency r s.world))
          (on_gm (Call.inc Metric.miss_sla 1)) (pure tt)
          (on_gm-Leads true ls (Call.inc Metric.miss_sla 1) refl) (λ s l. l))
        s l

  module _ (next : Handler api) (next-Stays : Stays api ls true next) where
    authorized-Stays :
        (write : Bool) (r : Request) (error : Option AuthError)
        → Stays api ls true (authorized api write next r error)
    unfolding authorized counts_query counts_global
    authorized-Stays write r (some error) =
        Stays-call api ls (Call.inc Metric.authorization_failed 1) _ refl refl
          (reject-Stays api ls true write (auth_error "not-authorized" 403) refl)
    authorized-Stays write r none =
        Stays-bind api ls true next (λ _. measure api r) next-Stays λ u. measure-Stays r

    authorize_op-Stays :
        (write : Bool) (op : String) (r : Request)
        → Stays api ls true (authorize_op api write op next r)
    unfolding authorize_op
    authorize_op-Stays write op r =
        Stays-bind api ls true (gets (λ rc. rc.caller))
          (λ caller.
            authorized api write next r
              (authorize Request auth caller (record { entity_type = r.entity_type; op = op })))
          (λ s l. l)
          λ caller.
            authorized-Stays write r
              (authorize Request auth caller (record { entity_type = r.entity_type; op = op }))

    valid_write-Stays :
        (r : Request) (wo : WriteOp) (error : Option ValidationError)
        → Stays api ls true (valid_write api next r wo error)
    unfolding valid_write count_set_op counts_query counts_global
    valid_write-Stays r wo (some error) = reject-Stays api ls true true (validation error) refl
    valid_write-Stays r wo none =
        Stays-bind api ls true (count_set_op api wo) (λ _. authorize_op api true op_write next r)
          (Stays-if api ls true (str_eq wo.set_op "") (pure tt) (on_gm (Call.inc Metric.set_op 1))
            (λ s l. l) (on_gm-Leads true ls (Call.inc Metric.set_op 1) refl))
          λ u. authorize_op-Stays true op_write r

    check_write-Stays : (r : Request) → Stays api ls true (check_write api next r)
    unfolding check_write counts_query counts_global
    check_write-Stays r =
        let go_on : WriteOp → Handler api = λ wo.
          set_rc (λ rc. record rc { wo = wo })
          >> valid_write api next r wo (entity_type validate wo.entity_type) in
        let test = not (str_eq r.method "DELETE") && r.content_length == 0 in
        Stays-call api ls (Call.inc Metric.write 1) _ refl refl (
          Stays-bind api ls true (gets (λ rc. rc.caller))
            (λ caller.
              if test
              then reject api true (etre_error err_no_content)
              else go_on (write_op r caller))
            (λ s l. l)
            λ caller.
              Stays-if api ls true test (reject api true (etre_error err_no_content))
                (go_on (write_op r caller))
                (reject-Stays api ls true true (etre_error err_no_content) refl)
                (Stays-bind api ls true (set_rc (λ rc. record rc { wo = write_op r caller }))
                  (λ _.
                    valid_write api next r (write_op r caller)
                      (entity_type validate (write_op r caller).entity_type))
                  (set_rc-Leads true ls _)
                  λ u.
                    valid_write-Stays r (write_op r caller)
                      (entity_type validate (write_op r caller).entity_type)))

    check_read-Stays : (r : Request) → Stays api ls true (check_read api next r)
    unfolding check_read counts_query counts_global
    check_read-Stays r =
        Stays-call api ls (Call.inc Metric.read 1) _ refl refl (authorize_op-Stays false op_read r)

    trace_caller-Stays : (t : Option (Dict String)) → Stays api ls true (trace_caller api t)
    unfolding trace_caller
    trace_caller-Stays none = λ s l. l
    trace_caller-Stays (some kvs) = on_gm-Leads true ls (Call.trace kvs) refl

    typed-Ends :
        (write : Bool) (r : Request) (caller : Caller) (error : Option ValidationError)
        → Ends false (typed api write next r caller error)
    unfolding typed counts_query counts_global
    typed-Ends write r caller (some error) =
        Leads-bind (Sound ls) (Logged false ls) (Logged false ls) (Sound ls)
          (on_gm (Call.inc Metric.invalid_entity_type 1)) (λ _. reject api write (validation error))
          (on_gm-Leads false ls (Call.inc Metric.invalid_entity_type 1) refl)
          λ u.
            Ends-Stays false (reject api write (validation error))
              (reject-Stays api ls false write (validation error) refl)
    typed-Ends write r caller none =
        let check = if write then check_write api next r else check_read api next r in
        let bound = on_gm (Call.inc Metric.query 1) >> (trace_caller api caller.trace >> check) in
        Leads-bind (Sound ls) (Logged false ls) (Logged true ls) (Sound ls)
          (on_gm (Call.entity_type r.entity_type)) (λ _. bound)
          (on_gm-Leads false ls (Call.entity_type r.entity_type) refl)
          λ u. Ends-Stays true bound (
            Stays-call api ls (Call.inc Metric.query 1) _ refl refl (
              Stays-bind api ls true (trace_caller api caller.trace) (λ _. check)
                (trace_caller-Stays caller.trace)
                λ u.
                  Stays-if api ls true write (check_write api next r) (check_read api next r)
                    (check_write-Stays r) (check_read-Stays r)))

    authenticated-Ends :
        (write : Bool) (r : Request) (a : Caller × Option AuthError)
        → Ends false (authenticated api write next r a)
    unfolding authenticated
    authenticated-Ends write r (caller, some error) =
        Ends-Stays false
          (system_inc Metric.authentication_failed 1
            >> reject api write (auth_error "access-denied" 401))
          (Stays-bind api ls false (system_inc Metric.authentication_failed 1)
            (λ _. reject api write (auth_error "access-denied" 401))
            (other-Stays false Metric.authentication_failed refl)
            λ u. reject-Stays api ls false write (auth_error "access-denied" 401) refl)
    authenticated-Ends write r (caller, none) =
        Leads-bind (Sound ls) (Logged false ls) (Logged false ls) (Sound ls)
          (set_rc (with_caller caller))
          (λ _. typed api write next r caller (entity_type validate r.entity_type))
          (set_rc-Leads false ls (with_caller caller))
          λ u. typed-Ends write r caller (entity_type validate r.entity_type)

    pub admit_request-Ends :
        (write : Bool) (r : Request) → Ends false (admit_request api write next r)
    unfolding admit_request
    admit_request-Ends write r =
        let auth_all =
          authenticated api write next r (authenticate Request (λ r. r.trace) auth r) in
        let bad = not (str_eq r.query_timeout "") && not (api.is_duration r.query_timeout) in
        Leads-bind (Sound ls) (Logged false ls) (Logged false ls) (Sound ls)
          (system_inc Metric.query 1)
          (λ _. if bad then reject api write (etre_error err_query_timeout) else auth_all)
          (other-Stays false Metric.query refl)
          λ u.
            Leads-if (Sound ls) (Logged false ls) (Sound ls) bad
              (reject api write (etre_error err_query_timeout)) auth_all
              (Ends-Stays false (reject api write (etre_error err_query_timeout))
                (reject-Stays api ls false write (etre_error err_query_timeout) refl))
              (authenticated-Ends write r (authenticate Request (λ r. r.trace) auth r))

    with_id-Stays :
        (write : Bool) (o : Option ObjectId) → Stays api ls true (with_id api next write o)
    unfolding with_id
    with_id-Stays write none = reject-Stays api ls true write (etre_error err_invalid_param) refl
    with_id-Stays write (some o) =
        Stays-bind api ls true (set_rc (λ rc. record rc { entity_id = o.hex })) (λ _. next)
          (set_rc-Leads true ls _) λ u. next-Stays

    pub id-Stays : (r : Request) → Stays api ls true (id api next r)
    unfolding id
    id-Stays r =
        Stays-bind api ls true (gets (λ rc. rc.write))
          (λ write.
            if str_eq r.id ""
            then reject api write (etre_error err_missing_param)
            else with_id api next write (api.object_id_from_hex r.id))
          (λ s l. l)
          λ write.
            Stays-if api ls true (str_eq r.id "") (reject api write (etre_error err_missing_param))
              (with_id api next write (api.object_id_from_hex r.id))
              (reject-Stays api ls true write (etre_error err_missing_param) refl)
              (with_id-Stays write (api.object_id_from_hex r.id))
