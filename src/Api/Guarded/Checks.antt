-- ===== src/Api/Guarded/Checks.antt =====
-- The checks of requestWrapper behind the authentication.
use etre.Base.{
  String, ◌≡◌, refl, sym, subst, Bool, true, false, not, ◌&&◌, ◌⊎◌, inl, inr, Option, none, some,
  ◌==◌, str_eq, if◌then◌else◌, Option-cases,
}
use etre.Base.Dict.{Dict}
use etre.Auth.{Action as AuthAction, Caller, authorize, op_read, op_write}
use etre.Entity.Validate.{ValidationError, entity_type}
use etre.Entity.Store.Partial.{WriteOp}
use etre.Metrics.{Metric}
use etre.Metrics.Store.{Call}
use etre.Api.{etre_error, validation, auth_error, Request, Api, err_no_content}
use etre.Api.Action.{pure, gets, set_rc, on_gm, ◌>>=◌, ◌>>◌}
use etre.Api.Leads.{After}
use etre.Api.Reply.{Handler, read_status, to_etre_error, reject, write_op}
use etre.Api.Wrapper.{
  authorized, authorize_op, count_set_op, valid_write, check_write, check_read, trace_caller, typed,
}
use etre.Api.Guarded.Refusals.{
  Refused, Never, Keeps, Refuses, Keeps-on_gm, Keeps-pure, Refuses-bind, Keeps-if, Refuses-reject,
  Refuses-if,
}

-- The action that a request needs.
abbrev pub op_of : Bool → String
op_of true = op_write
op_of false = op_read

module _ (api : Api) where
  open api use {es, validate, auth}
  open es use {World}

  module _ (w : World) where
    module _ (next : Handler api) (r : Request) (caller : Caller) where
      -- Whether the caller may do it, and what the request comes to if not.
      authorize_op-cases :
          (write : Bool) (op : String)
          → (authorize Request auth caller (record { entity_type = r.entity_type; op = op }) ≡ none)
            ⊎ Refuses api w true caller (authorize_op api write op next r)
      unfolding authorize_op authorized read_status to_etre_error
      authorize_op-cases write op = elim (Option-cases (authorize Request auth caller action)) [
        | inl allowed ↦ inl allowed
        | inr (error, e) ↦ inr λ s u.
            subst
              (λ x.
                After (Never api) (Refused api w)
                  (authorized api write next r (authorize Request auth x action) s))
              (sym u.caller_is) (rw e (refuse s u))
      ]
        where
          action : AuthAction
          action = record { entity_type = r.entity_type; op = op }

          refuse : Refuses api w true caller (
              on_gm (Call.inc Metric.authorization_failed 1)
              >> reject api write (auth_error "not-authorized" 403))
          refuse =
              Refuses-bind api w true caller (on_gm (Call.inc Metric.authorization_failed 1))
                (reject api write (auth_error "not-authorized" 403))
                (Keeps-on_gm api w caller (Call.inc Metric.authorization_failed 1))
                (Refuses-reject api w true caller write (auth_error "not-authorized" 403)
                  (inr (inr refl)) (inr (inr refl)))

      valid_write-Refuses :
          (wo : WriteOp) (error : Option ValidationError)
          → Refuses api w true caller (authorize_op api true op_write next r)
          → Refuses api w true caller (valid_write api next r wo error)
      unfolding valid_write count_set_op read_status to_etre_error
      valid_write-Refuses wo (some error) h =
          Refuses-reject api w true caller true (validation error) (inl refl) (inl refl)
      valid_write-Refuses wo none h =
          Refuses-bind api w true caller (count_set_op api wo)
            (authorize_op api true op_write next r)
            (Keeps-if api w true caller (str_eq wo.set_op "") (pure tt)
              (on_gm (Call.inc Metric.set_op 1)) (Keeps-pure api w true caller)
              (Keeps-on_gm api w caller (Call.inc Metric.set_op 1)))
            h

      Keeps-set_wo : (wo : WriteOp) → Keeps api w true caller (set_rc (λ rc. record rc { wo = wo }))
      Keeps-set_wo wo s u = record {
        world = u.world;
        response = u.response;
        has_gm = u.has_gm;
        caller_is = u.caller_is;
      }

      check_write-Refuses :
          Refuses api w true caller (authorize_op api true op_write next r)
          → Refuses api w true caller (check_write api next r)
      unfolding check_write read_status to_etre_error
      check_write-Refuses h =
          Refuses-bind api w true caller (on_gm (Call.inc Metric.write 1))
            (gets (λ rc. rc.caller) >>= rest) (Keeps-on_gm api w caller (Call.inc Metric.write 1))
            (rest-Refuses λ c. rest-refused c)
        where
          test : Bool
          test = not (str_eq r.method "DELETE") && r.content_length == 0

          go_on : WriteOp → Handler api
          go_on wo =
              set_rc (λ rc. record rc { wo = wo })
              >> valid_write api next r wo (entity_type validate wo.entity_type)

          rest : Caller → Handler api
          rest c =
              if test then reject api true (etre_error err_no_content) else go_on (write_op r c)

          rest-Refuses :
              ((c : Caller) → Refuses api w true caller (rest c))
              → Refuses api w true caller (gets (λ rc. rc.caller) >>= rest)
          rest-Refuses k s u = k s.rc.caller s u

          rest-refused : (c : Caller) → Refuses api w true caller (rest c)
          rest-refused c =
              Refuses-if api w true caller test (reject api true (etre_error err_no_content))
                (go_on (write_op r c))
                (Refuses-reject api w true caller true (etre_error err_no_content) (inl refl)
                  (inl refl))
                (Refuses-bind api w true caller (set_rc (λ rc. record rc { wo = write_op r c }))
                  (valid_write api next r (write_op r c)
                    (entity_type validate (write_op r c).entity_type))
                  (Keeps-set_wo (write_op r c))
                  (valid_write-Refuses (write_op r c)
                    (entity_type validate (write_op r c).entity_type) h))

      check_read-Refuses :
          Refuses api w true caller (authorize_op api false op_read next r)
          → Refuses api w true caller (check_read api next r)
      unfolding check_read
      check_read-Refuses h =
          Refuses-bind api w true caller (on_gm (Call.inc Metric.read 1))
            (authorize_op api false op_read next r)
            (Keeps-on_gm api w caller (Call.inc Metric.read 1)) h

      Keeps-trace_caller : (t : Option (Dict String)) → Keeps api w true caller (trace_caller api t)
      unfolding trace_caller
      Keeps-trace_caller none = Keeps-pure api w true caller
      Keeps-trace_caller (some kvs) = Keeps-on_gm api w caller (Call.trace kvs)

      checked : Bool → Handler api
      checked write = if write then check_write api next r else check_read api next r

      checked-cases :
          (write : Bool)
          → (authorize Request auth caller
                (record { entity_type = r.entity_type; op = op_of write })
              ≡ none)
            ⊎ Refuses api w true caller (checked write)
      unfolding checked
      checked-cases true = elim (authorize_op-cases true op_write) [
        | inl allowed ↦ inl allowed
        | inr refused ↦ inr (check_write-Refuses refused)
      ]
      checked-cases false = elim (authorize_op-cases false op_read) [
        | inl allowed ↦ inl allowed
        | inr refused ↦ inr (check_read-Refuses refused)
      ]

      typed-none-Refuses :
          (write : Bool)
          → Refuses api w true caller (checked write)
          → Refuses api w true caller (typed api write next r caller none)
      unfolding typed checked
      typed-none-Refuses write h =
          let counted =
            on_gm (Call.inc Metric.query 1) >> (trace_caller api caller.trace >> checked write) in
          Refuses-bind api w true caller (on_gm (Call.entity_type r.entity_type)) counted
            (Keeps-on_gm api w caller (Call.entity_type r.entity_type))
            (Refuses-bind api w true caller (on_gm (Call.inc Metric.query 1))
              (trace_caller api caller.trace >> checked write)
              (Keeps-on_gm api w caller (Call.inc Metric.query 1))
              (Refuses-bind api w true caller (trace_caller api caller.trace) (checked write)
                (Keeps-trace_caller caller.trace) h))

      typed-some-Refuses :
          (write : Bool) (error : ValidationError)
          → Refuses api w true caller (typed api write next r caller (some error))
      unfolding typed read_status to_etre_error
      typed-some-Refuses write error =
          Refuses-bind api w true caller (on_gm (Call.inc Metric.invalid_entity_type 1))
            (reject api write (validation error))
            (Keeps-on_gm api w caller (Call.inc Metric.invalid_entity_type 1))
            (Refuses-reject api w true caller write (validation error) (inl refl) (inl refl))

      -- Behind the authentication, a request is authorized for a known type, or refused.
      pub typed-cases :
          (write : Bool)
          → ((entity_type validate r.entity_type ≡ none)
              × (authorize Request auth caller
                    (record { entity_type = r.entity_type; op = op_of write })
                  ≡ none))
            ⊎ Refuses api w true caller
                (typed api write next r caller (entity_type validate r.entity_type))
      typed-cases write = elim (Option-cases (entity_type validate r.entity_type)) [
        | inr (error, e) ↦ inr (rw e (typed-some-Refuses write error))
        | inl known ↦ elim (checked-cases write) [
          | inl allowed ↦ inl (known, allowed)
          | inr refused ↦ inr (rw known (typed-none-Refuses write refused))
        ]
      ]
