-- ===== src/Api/Streamed.antt =====
-- The calls on metrics of a request for the change stream.
use Prim.Native.String.{◌++◌ as concat}
use etre.Base.{ℕ, ◌-◌, ◌^◌, String, ◌≡◌, refl, Bool, true, false, Option, none, some, []}
use etre.Etre.{Outcome, returns, panics}
use etre.Auth.{Caller, AuthError, authenticate, authorize, op_cdc}
use etre.Metrics.{Metric}
use etre.Metrics.Group.Counts.{counts_global}
use etre.Metrics.Store.{Call}
use etre.Metrics.Store.Fit.{fits}
use etre.Api.{ApiError, etre_error, auth_error, Request, Api, err_cdc_disabled, err_internal}
use etre.Api.Action.{
  Action, State, Body, gets, set_rc, on_gm, system_inc, respond, on_world, ◌>>=◌, ◌>>◌,
}
use etre.Api.Reply.{Handler, reject, read_error}
use etre.Api.Wrapper.{authorized_cdc, authenticated_cdc, cdc_wrapper, new_rc, with_caller}
use etre.Api.Server.{deferring, stream_changes, after_upgrade, changes_handler}
use etre.Api.Leads.{After, Leads-bind, Leads-if}
use etre.Api.Calls.{Logged, Sound, on_gm-Leads, set_rc-Leads, respond-Leads}
use etre.Api.Handled.{Stays, may_count, reject-Stays, read_error-Stays, on_world-Stays}
use etre.Api.Wrapped.{Ends, Ends-Stays, Sound-After, Sound-Logged, other-Stays}
use etre.Api.Loaded.{up, Balanced, loaded-Balanced}

module _ (api : Api) where
  open api use {es, auth}
  open es use {World}

  cdc_clients-fits : (b : Bool) (n : ℕ) → fits b (Call.inc Metric.cdc_clients n) ≡ true
  unfolding counts_global
  cdc_clients-fits b n = refl

  count-Sound :
      (n : ℕ) (s : State World) → Sound up s → Sound up (on_gm (Call.inc Metric.cdc_clients n) s).0
  count-Sound n s h =
      Sound-After api up (Logged h.bound up) (on_gm (Call.inc Metric.cdc_clients n) s)
        (Sound-Logged api up h.bound)
        (on_gm-Leads h.bound up (Call.inc Metric.cdc_clients n) (cdc_clients-fits h.bound n) s
          h.logged)

  After-Sound :
      {A : Type 0} (s : State World) (o : Outcome A)
      → Sound up s
      → After (Sound up) (Sound up) (s, o)
  After-Sound s (returns a) h = h
  After-Sound s panics h = h

  deferring-Ends :
      (n : ℕ) (m : Handler api)
      → Stays api up false m
      → Ends api up false (deferring api (Call.inc Metric.cdc_clients n) m)
  unfolding deferring
  deferring-Ends n m h s l = After-Sound (on_gm (Call.inc Metric.cdc_clients n) (m s).0).0 (m s).1 (
      count-Sound n (m s).0
        (Sound-After api up (Logged false up) (m s) (Sound-Logged api up false) (h s l)))

  Ends-bind :
      {A : Type 0} (m : Action World A) (f : A → Handler api)
      → Stays api up false m
      → ((a : A) → Ends api up false (f a))
      → Ends api up false (m >>= f)
  Ends-bind m f = Leads-bind (Sound up) (Logged false up) (Logged false up) (Sound up) m f

  stream_changes-Ends : (r : Request) → Ends api up false (stream_changes api r)
  unfolding stream_changes
  stream_changes-Ends r =
      let run : String → Handler api =
        λ name. on_world (api.run_client (concat name (concat "@" r.remote_addr))) in
      let stream : String → Handler api =
        λ name. deferring api (Call.inc Metric.cdc_clients (2 ^ 64 - 1)) (run name) in
      let named = gets (λ rc. rc.caller.name) >>= stream in
      Ends-bind (respond 101 Body.hijacked) (λ _. on_gm (Call.inc Metric.cdc_clients 1) >> named)
        (respond-Leads false up 101 Body.hijacked)
        λ u.
          Ends-bind (on_gm (Call.inc Metric.cdc_clients 1)) (λ _. named)
            (on_gm-Leads false up (Call.inc Metric.cdc_clients 1) (cdc_clients-fits false 1))
            λ u.
              Ends-bind (gets (λ rc. rc.caller.name)) stream (λ s l. l)
                λ name. deferring-Ends (2 ^ 64 - 1) (run name) (
                  on_world-Stays api up false
                    (api.run_client (concat name (concat "@" r.remote_addr))))

  read_error-Ends :
      (error : ApiError) → may_count false error ≡ true → Ends api up false (read_error api error)
  read_error-Ends error h =
      Ends-Stays api up false (read_error api error) (read_error-Stays api up false error h)

  after_upgrade-Ends :
      (r : Request) (failed : Option ℕ) → Ends api up false (after_upgrade api r failed)
  unfolding after_upgrade
  after_upgrade-Ends r none = stream_changes-Ends r
  after_upgrade-Ends r (some status) =
      Ends-bind (respond status Body.hijacked) (λ _. read_error api (etre_error err_internal))
        (respond-Leads false up status Body.hijacked)
        λ u. read_error-Ends (etre_error err_internal) refl

  pub changes_handler-Ends : (r : Request) → Ends api up false (changes_handler api r)
  unfolding changes_handler
  changes_handler-Ends r =
      Leads-if (Sound up) (Logged false up) (Sound up) api.cdc_disabled
        (read_error api (etre_error err_cdc_disabled)) (after_upgrade api r (api.upgrade r))
        (read_error-Ends (etre_error err_cdc_disabled) refl) (after_upgrade-Ends r (api.upgrade r))

  authorized_cdc-Ends :
      (next : Handler api) (error : Option AuthError)
      → Ends api up false next
      → Ends api up false (authorized_cdc api next error)
  unfolding authorized_cdc counts_global
  authorized_cdc-Ends next none h = h
  authorized_cdc-Ends next (some error) h =
      Ends-bind (on_gm (Call.inc Metric.authorization_failed 1))
        (λ _. reject api false (auth_error "not-authorized" 403))
        (on_gm-Leads false up (Call.inc Metric.authorization_failed 1) refl)
        λ u.
          Ends-Stays api up false (reject api false (auth_error "not-authorized" 403))
            (reject-Stays api up false false (auth_error "not-authorized" 403) refl)

  authenticated_cdc-Ends :
      (next : Handler api) (a : Caller × Option AuthError)
      → Ends api up false next
      → Ends api up false (authenticated_cdc api next a)
  unfolding authenticated_cdc
  authenticated_cdc-Ends next (caller, some error) h =
      Ends-bind (system_inc Metric.authentication_failed 1)
        (λ _. reject api false (auth_error "access-denied" 401))
        (other-Stays api up false Metric.authentication_failed refl)
        λ u.
          Ends-Stays api up false (reject api false (auth_error "access-denied" 401))
            (reject-Stays api up false false (auth_error "access-denied" 401) refl)
  authenticated_cdc-Ends next (caller, none) h =
      let allowed = authorize Request auth caller (record { entity_type = ""; op = op_cdc }) in
      Ends-bind (set_rc (with_caller caller)) (λ _. authorized_cdc api next allowed)
        (set_rc-Leads false up (with_caller caller)) λ u. authorized_cdc-Ends next allowed h

  pub cdc_wrapper-Balanced :
      (next : Handler api) (r : Request) (s : State World)
      → Ends api up false next
      → Logged false [] s
      → Balanced api (cdc_wrapper api next r s).0
  unfolding cdc_wrapper
  cdc_wrapper-Balanced next r s h l =
      let asked = authenticate Request (λ r. r.trace) auth r in
      loaded-Balanced api false (system_inc Metric.query 1 >> authenticated_cdc api next asked)
        (record s { rc = new_rc "" false })
        (Ends-bind (system_inc Metric.query 1) (λ _. authenticated_cdc api next asked)
          (other-Stays api up false Metric.query refl) λ u. authenticated_cdc-Ends next asked h)
        (record { fit = l.fit; bound = l.bound; changes = l.changes })
