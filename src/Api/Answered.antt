-- ===== src/Api/Answered.antt =====
-- Every request is answered.
use Prim.Native.String.{◌++◌ as concat}
use etre.Base.{
  ℕ, ◌^◌, ◌-◌, String, ◌≡◌, refl, Bool, true, false, Option, none, some, str_eq, if◌then◌else◌,
}
use etre.Etre.{Outcome, returns, panics}
use etre.Auth.{Caller, AuthError, authenticate, authorize, op_cdc}
use etre.Metrics.{Metric}
use etre.Metrics.Store.{Call}
use etre.Api.{
  EtreError, etre_error, auth_error, Request, Api, is_write_request, err_bad_request, err_panic,
  err_cdc_disabled, err_internal,
}
use etre.Api.Action.{
  State, Body, gets, set_rc, call_if, on_gm, maybe_inc, system_inc, respond, on_world, ◌>>=◌, ◌>>◌,
}
use etre.Api.Leads.{After, Leads-bind}
use etre.Api.Reply.{
  Handler, reject, read_error, write_result, count_read_error, count_write_error, writes_of,
  is_not_found,
}
use etre.Api.Read.{get_entities_handler, get_entity_handler, get_labels_handler}
use etre.Api.Write.{
  post_entities_handler, put_entities_handler, delete_entities_handler, post_entity_handler,
  put_entity_handler, delete_entity_handler, delete_label_handler,
}
use etre.Api.Wrapper.{
  recovered, recovering, with_load, admit_request, request_wrapper, authorized_cdc,
  authenticated_cdc, cdc_wrapper, id, new_rc, with_caller,
}
use etre.Api.Server.{
  Endpoint, get_entities, post_entities, put_entities, delete_entities, post_entity, get_entity,
  put_entity, delete_entity, get_labels, delete_label, changes, unknown, deferring, stream_changes,
  after_upgrade, changes_handler, not_found, serve,
}
use etre.Api.Replied.{
  Any, HasResponse, Responds, Responds-then, Responds-if, respond-Responds, reject-Responds,
  read_error-Responds, get_entities_handler-Responds, get_entity_handler-Responds,
  get_labels_handler-Responds,
}
use etre.Api.Replied.Writes.{
  post_entities_handler-Responds, put_entities_handler-Responds, delete_entities_handler-Responds,
  post_entity_handler-Responds, put_entity_handler-Responds, delete_entity_handler-Responds,
  delete_label_handler-Responds,
}
use etre.Api.Replied.Wrapped.{
  Leaves, Leaves-on_gm, Leaves-on_world, admit_request-Responds, id-Responds,
}

module _ (api : Api) where
  open api use {es, auth}
  open es use {World}

  sent_if_returned :
      (o : State World × Outcome (Unit {0}))
      → o.1 ≡ returns tt
      → After (Any api) (HasResponse api) o
      → HasResponse api o.0
  sent_if_returned (s, returns u) e h = h
  sent_if_returned (s, panics) e h = cc

  reject-returns :
      (write : Bool) (e : EtreError) (s : State World)
      → is_not_found e ≡ false
      → (reject api write (etre_error e) s).1 ≡ returns tt
  unfolding reject read_error write_result count_read_error count_write_error writes_of system_inc
      maybe_inc respond
  reject-returns true e s h = rw h refl
  reject-returns false e s h = refl

  -- The request was answered, and its handler has come back.
  pub record Answered (o : State World × Outcome (Unit {0})) : Type 0 where
    pub returned : o.1 ≡ returns tt
    pub response : HasResponse api o.0

  reject-Answered :
      (write : Bool) (e : EtreError) (s : State World)
      → is_not_found e ≡ false
      → Answered (reject api write (etre_error e) s)
  reject-Answered write e s h = record {
    returned = reject-returns write e s h;
    response =
        sent_if_returned (reject api write (etre_error e) s) (reject-returns write e s h)
          (reject-Responds api write (etre_error e) s tt);
  }

  recovered-Answered :
      (write : Bool) (o : State World × Outcome (Unit {0}))
      → After (Any api) (HasResponse api) o
      → Answered (recovered api write o)
  unfolding recovered is_not_found
  recovered-Answered write (s, returns u) h = record { returned = refl; response = h }
  recovered-Answered write (s, panics) h = reject-Answered write err_panic s refl

  with_load-Responds : (m : Handler api) → Responds api m → Responds api (with_load api m)
  unfolding with_load system_inc
  with_load-Responds m h s p =
      at (m (system_inc Metric.load 1 s).0) (h (system_inc Metric.load 1 s).0 tt)
    where
      at :
          (o : State World × Outcome (Unit {0}))
          → After (Any api) (HasResponse api) o
          → After (Any api) (HasResponse api) ((system_inc Metric.load (2 ^ 64 - 1) o.0).0, o.1)
      at (s', returns u) k = record { sent = k.sent; is_sent = k.is_sent }
      at (s', panics) k = tt

  recovering-Answered :
      (write : Bool) (m : Handler api) (s : State World)
      → Responds api m
      → Answered (recovering api write (with_load api m) s)
  unfolding recovering
  recovering-Answered write m s h =
      recovered-Answered write (with_load api m s) (with_load-Responds m h s tt)

  request_wrapper-Answered :
      (next : Handler api) (r : Request) (s : State World)
      → Responds api next
      → Answered (request_wrapper api next r s)
  unfolding request_wrapper is_not_found
  request_wrapper-Answered next r s h = at (str_eq r.entity_type "")
    where
      write : Bool
      write = is_write_request r.method

      s' : State World
      s' = record s { rc = new_rc r.entity_type write }

      at :
          (b : Bool)
          → Answered (
              (if b
                  then reject api write (etre_error err_bad_request)
                  else recovering api write (with_load api (admit_request api write next r)))
                s')
      at true = reject-Answered write err_bad_request s' refl
      at false =
          recovering-Answered write (admit_request api write next r) s'
            (admit_request-Responds api next h write r)

  call_if-HasResponse :
      (c : Call) (g : Bool) (s : State World)
      → HasResponse api s
      → HasResponse api (call_if g s c).0
  call_if-HasResponse c true s h = record { sent = h.sent; is_sent = h.is_sent }
  call_if-HasResponse c false s h = h

  on_gm-HasResponse :
      (c : Call) (s : State World) → HasResponse api s → HasResponse api (on_gm c s).0
  unfolding on_gm
  on_gm-HasResponse c s = call_if-HasResponse c s.rc.has_gm s

  deferring-Responds : (c : Call) (m : Handler api) → Leaves api m → Leaves api (deferring api c m)
  unfolding deferring
  deferring-Responds c m h s k = at (m s) (h s k)
    where
      at :
          (o : State World × Outcome (Unit {0}))
          → After (Any api) (HasResponse api) o
          → After (Any api) (HasResponse api) ((on_gm c o.0).0, o.1)
      at (s', returns u) i = on_gm-HasResponse c s' i
      at (s', panics) i = tt

  stream_changes-Responds : (r : Request) → Responds api (stream_changes api r)
  unfolding stream_changes
  stream_changes-Responds r =
      let run : String → Handler api =
        λ name. on_world (api.run_client (concat name (concat "@" r.remote_addr))) in
      let stream : String → Handler api =
        λ name. deferring api (Call.inc Metric.cdc_clients (2 ^ 64 - 1)) (run name) in
      let named = gets (λ rc. rc.caller.name) >>= stream in
      Leads-bind (Any api) (Any api) (HasResponse api) (HasResponse api) (respond 101 Body.hijacked)
        (λ _. on_gm (Call.inc Metric.cdc_clients 1) >> named)
        (respond-Responds api 101 Body.hijacked)
        λ u.
          Leads-bind (Any api) (HasResponse api) (HasResponse api) (HasResponse api)
            (on_gm (Call.inc Metric.cdc_clients 1)) (λ _. named)
            (Leaves-on_gm api (Call.inc Metric.cdc_clients 1))
            λ u.
              Leads-bind (Any api) (HasResponse api) (HasResponse api) (HasResponse api)
                (gets (λ rc. rc.caller.name)) stream (λ s k. k)
                λ name.
                  deferring-Responds (Call.inc Metric.cdc_clients (2 ^ 64 - 1)) (run name)
                    (Leaves-on_world api (api.run_client (concat name (concat "@" r.remote_addr))))

  after_upgrade-Responds :
      (r : Request) (failed : Option ℕ) → Responds api (after_upgrade api r failed)
  unfolding after_upgrade
  after_upgrade-Responds r none = stream_changes-Responds r
  after_upgrade-Responds r (some status) =
      Responds-then api (respond status Body.hijacked) (read_error api (etre_error err_internal))
        (read_error-Responds api (etre_error err_internal))

  changes_handler-Responds : (r : Request) → Responds api (changes_handler api r)
  unfolding changes_handler
  changes_handler-Responds r =
      Responds-if api api.cdc_disabled (read_error api (etre_error err_cdc_disabled))
        (after_upgrade api r (api.upgrade r))
        (read_error-Responds api (etre_error err_cdc_disabled))
        (after_upgrade-Responds r (api.upgrade r))

  authorized_cdc-Responds :
      (next : Handler api) (error : Option AuthError)
      → Responds api next
      → Responds api (authorized_cdc api next error)
  unfolding authorized_cdc
  authorized_cdc-Responds next none h = h
  authorized_cdc-Responds next (some error) h =
      Responds-then api (on_gm (Call.inc Metric.authorization_failed 1)) _
        (reject-Responds api false (auth_error "not-authorized" 403))

  authenticated_cdc-Responds :
      (next : Handler api) (a : Caller × Option AuthError)
      → Responds api next
      → Responds api (authenticated_cdc api next a)
  unfolding authenticated_cdc
  authenticated_cdc-Responds next (caller, some error) h =
      Responds-then api (system_inc Metric.authentication_failed 1) _
        (reject-Responds api false (auth_error "access-denied" 401))
  authenticated_cdc-Responds next (caller, none) h =
      Responds-then api (set_rc (with_caller caller)) _ (
        authorized_cdc-Responds next
          (authorize Request auth caller (record { entity_type = ""; op = op_cdc })) h)

  cdc_wrapper-Answered :
      (next : Handler api) (r : Request) (s : State World)
      → Responds api next
      → Answered (cdc_wrapper api next r s)
  unfolding cdc_wrapper
  cdc_wrapper-Answered next r s h =
      let asked = authenticate Request (λ r. r.trace) auth r in
      recovering-Answered false (system_inc Metric.query 1 >> authenticated_cdc api next asked)
        (record s { rc = new_rc "" false })
        (Responds-then api (system_inc Metric.query 1) (authenticated_cdc api next asked)
          (authenticated_cdc-Responds next asked h))

  by_id :
      (handler : Handler api) (r : Request) (s : State World)
      → Responds api handler
      → Answered (request_wrapper api (id api handler r) r s)
  by_id handler r s h =
      request_wrapper-Answered (id api handler r) r s (id-Responds api handler h r)

  answer : (status : ℕ) (body : Body) (s : State World) → Answered (respond status body s)
  unfolding respond
  answer status body s = record {
    returned = refl;
    response = respond-Responds api status body s tt;
  }

  -- Every request to the endpoints of entities and of changes, or to a path that is no endpoint, is
  -- answered where the plugin of the site returns: the handler comes back and a response was sent,
  -- whatever the store and the client of the change stream do, a panic of theirs included.
  pub serve-Answered : (e : Endpoint) (r : Request) (s : State World) → Answered (serve api e r s)
  unfolding serve not_found
  serve-Answered get_entities r s =
      request_wrapper-Answered (get_entities_handler api r) r s
        (get_entities_handler-Responds api r)
  serve-Answered post_entities r s =
      request_wrapper-Answered (post_entities_handler api r) r s
        (post_entities_handler-Responds api r)
  serve-Answered put_entities r s =
      request_wrapper-Answered (put_entities_handler api r) r s
        (put_entities_handler-Responds api r)
  serve-Answered delete_entities r s =
      request_wrapper-Answered (delete_entities_handler api r) r s
        (delete_entities_handler-Responds api r)
  serve-Answered post_entity r s =
      request_wrapper-Answered (post_entity_handler api r) r s (post_entity_handler-Responds api r)
  serve-Answered get_entity r s =
      by_id (get_entity_handler api r) r s (get_entity_handler-Responds api r)
  serve-Answered put_entity r s =
      by_id (put_entity_handler api r) r s (put_entity_handler-Responds api r)
  serve-Answered delete_entity r s =
      by_id (delete_entity_handler api r) r s (delete_entity_handler-Responds api r)
  serve-Answered get_labels r s =
      by_id (get_labels_handler api r) r s (get_labels_handler-Responds api r)
  serve-Answered delete_label r s =
      by_id (delete_label_handler api r) r s (delete_label_handler-Responds api r)
  serve-Answered changes r s =
      cdc_wrapper-Answered (changes_handler api r) r s (changes_handler-Responds r)
  serve-Answered unknown r s = answer 404 _ s
