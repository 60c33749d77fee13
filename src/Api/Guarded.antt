-- ===== src/Api/Guarded.antt =====
-- What requestWrapper requires before it runs the handler.
pub mod Refusals
pub mod Checks
use etre.Base.{
  ◌-◌, ◌^◌, ◌≡◌, refl, Bool, true, false, not, ◌&&◌, ◌⊎◌, inl, inr, Option, none, some, [], ◌∷◌,
  str_eq, if◌then◌else◌, Bool-cases,
}
use etre.Etre.{Outcome, returns, panics}
use etre.Auth.{Caller, AuthError, authenticate, authorize}
use etre.Entity.Validate.{entity_type}
use etre.Metrics.{Metric}
use etre.Api.{
  etre_error, auth_error, store, Request, Api, is_write_request, err_bad_request, err_query_timeout,
}
use etre.Api.Action.{State, set_rc, system_inc, ◌>>◌}
use etre.Api.Leads.{After}
use etre.Api.Reply.{Handler, read_status, to_etre_error, reject}
use etre.Api.Wrapper.{
  recovered, recovering, with_load, authorized, typed, authenticated, admit_request,
  request_wrapper, new_rc, with_caller,
}
use etre.Api.Guarded.Refusals.{
  Untouched, Refused, Never, Refuses, Keeps-system_inc, Refuses-bind, Refuses-reject, Refuses-if,
}
use etre.Api.Guarded.Checks.{op_of, typed-cases}

-- The request of an authenticated caller who may do this with entities of a type that is known.
pub record IsAdmitted (api : Api) (r : Request) : Type 0 where
  pub caller : Caller
  pub is_authenticated : authenticate Request (λ r. r.trace) (Api.auth api) r ≡ (caller, none)
  pub is_typed : entity_type (Api.validate api) r.entity_type ≡ none
  pub is_authorized :
      authorize Request
        (Api.auth api)
        caller
        (record { entity_type = r.entity_type; op = op_of (is_write_request r.method) })
      ≡ none

module _ (api : Api) where
  open api use {es, validate, auth}
  open es use {World}

  module _ (w : World) where
    Refuses-set_rc :
        (gm : Bool) (c : Caller) (caller : Caller) (m : Handler api)
        → Refuses api w true caller m
        → Refuses api w gm c (set_rc (with_caller caller) >> m)
    Refuses-set_rc gm c caller m h s u =
        h (record s { rc = with_caller caller s.rc })
          (record { world = u.world; response = u.response; has_gm = refl; caller_is = refl })

    authenticated-cases :
        (next : Handler api) (r : Request) (gm : Bool) (c : Caller)
        → IsAdmitted api r
          ⊎ Refuses api w gm c (
              authenticated api
                (is_write_request r.method)
                next
                r
                (authenticate Request (λ r. r.trace) auth r))
    unfolding authenticated read_status to_etre_error
    authenticated-cases next r gm c = at (authenticate Request (λ r. r.trace) auth r) refl
      where
        write : Bool
        write = is_write_request r.method

        at :
            (a : Caller × Option AuthError)
            → authenticate Request (λ r. r.trace) auth r ≡ a
            → IsAdmitted api r ⊎ Refuses api w gm c (authenticated api write next r a)
        at (caller, some error) e = inr (
            Refuses-bind api w gm c (system_inc Metric.authentication_failed 1)
              (reject api write (auth_error "access-denied" 401))
              (Keeps-system_inc api w gm c Metric.authentication_failed 1)
              (Refuses-reject api w gm c write (auth_error "access-denied" 401) (inr (inl refl))
                (inr (inl refl))))
        at (caller, none) e = elim (typed-cases api w next r caller write) [
          | inl (known, allowed) ↦ inl (record {
            caller = caller;
            is_authenticated = e;
            is_typed = known;
            is_authorized = allowed;
          })
          | inr refused ↦ inr (
              Refuses-set_rc gm c caller
                (typed api write next r caller (entity_type validate r.entity_type)) refused)
        ]

    admit_request-cases :
        (next : Handler api) (r : Request) (gm : Bool) (c : Caller)
        → IsAdmitted api r
          ⊎ Refuses api w gm c (admit_request api (is_write_request r.method) next r)
    unfolding admit_request read_status to_etre_error
    admit_request-cases next r gm c = elim (authenticated-cases next r gm c) [
      | inl admitted ↦ inl admitted
      | inr refused ↦ inr (
          Refuses-bind api w gm c (system_inc Metric.query 1) (if bad then timeout else asked)
            (Keeps-system_inc api w gm c Metric.query 1)
            (Refuses-if api w gm c bad timeout asked
              (Refuses-reject api w gm c (is_write_request r.method) (etre_error err_query_timeout)
                (inl refl) (inl refl))
              refused))
    ]
      where
        bad : Bool
        bad = not (str_eq r.query_timeout "") && not (api.is_duration r.query_timeout)

        timeout : Handler api
        timeout = reject api (is_write_request r.method) (etre_error err_query_timeout)

        asked : Handler api
        asked =
            authenticated api (is_write_request r.method) next r
              (authenticate Request (λ r. r.trace) auth r)

    recovering-Refused :
        (m : Handler api) (write : Bool) (s : State World)
        → After (Never api) (Refused api w) (m (system_inc Metric.load 1 s).0)
        → Refused api w (recovering api write (with_load api m) s).0
    unfolding recovering recovered with_load system_inc
    recovering-Refused m write s h = at (m (system_inc Metric.load 1 s).0) h
      where
        at :
            (o : State World × Outcome (Unit {0}))
            → After (Never api) (Refused api w) o
            → Refused api w
                (recovered api write ((system_inc Metric.load (2 ^ 64 - 1) o.0).0, o.1)).0
        at (s', returns u) k = record {
          world = k.world;
          status = k.status;
          body = k.body;
          response = k.response;
          is_refusal = k.is_refusal;
        }
        at (s', panics) k = absurd k

    recovering-Refuses :
        (m : Handler api) (write gm : Bool) (c : Caller) (s : State World)
        → Refuses api w gm c m
        → Untouched api w gm c s
        → Refused api w (recovering api write (with_load api m) s).0
    unfolding system_inc
    recovering-Refuses m write gm c s h u =
        recovering-Refused m write s
          (h (system_inc Metric.load 1 s).0 (Keeps-system_inc api w gm c Metric.load 1 s u))

    Refused-After :
        (o : State World × Outcome (Unit {0}))
        → After (Never api) (Refused api w) o
        → Refused api w o.0
    Refused-After (s, returns u) h = h
    Refused-After (s, panics) h = absurd h

  -- Whatever the handler does, it runs only for an authenticated caller, an entity type that is known,
  -- and an action that the caller is authorized for; any other request is refused with the status 400,
  -- 401 or 403 and changes nothing in the store.
  pub request_wrapper-IsAdmitted :
      (next : Handler api) (r : Request) (s : State World)
      → s.response ≡ none
      → IsAdmitted api r ⊎ Refused api s.world (request_wrapper api next r s).0
  unfolding request_wrapper read_status to_etre_error
  request_wrapper-IsAdmitted next r s h = elim (Bool-cases (str_eq r.entity_type "")) [
    | inl missing ↦ inr (
        rw missing (
          Refused-After s.world (missing_type s') (
            Refuses-reject api s.world false c write (etre_error err_bad_request) (inl refl)
              (inl refl) s' untouched)))
    | inr present ↦ elim (admit_request-cases s.world next r false c) [
      | inl admitted ↦ inl admitted
      | inr refused ↦ inr (
          rw present (
            recovering-Refuses s.world (admit_request api write next r) write false c s' refused
              untouched))
    ]
  ]
    where
      write : Bool
      write = is_write_request r.method

      c : Caller
      c = (new_rc r.entity_type write).caller

      s' : State World
      s' = record s { rc = new_rc r.entity_type write }

      missing_type : Handler api
      missing_type = reject api write (etre_error err_bad_request)

      untouched : Untouched api s.world false c s'
      untouched = record { world = refl; response = h; has_gm = refl; caller_is = refl }
