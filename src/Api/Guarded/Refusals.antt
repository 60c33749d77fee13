-- ===== src/Api/Guarded/Refusals.antt =====
-- What a request does that is refused: the calls that leave the world alone, and the refusals.
use etre.Base.{ℕ, ◌≡◌, refl, Bool, true, false, ◌⊎◌, none, some, [], ◌∷◌, ◌++◌, if◌then◌else◌}
use etre.Auth.{Caller}
use etre.Metrics.{Metric}
use etre.Metrics.Store.{Call}
use etre.Api.{ApiError, etre_error, validation, auth_error, store, Api}
use etre.Api.Action.{State, Body, pure, call_if, on_gm, maybe_inc, system_inc, respond, ◌>>◌}
use etre.Api.Leads.{After, Leads, Leads-bind}
use etre.Api.Reply.{
  Handler, count_read_error, read_error, read_status, read_body, count_write_error, write_result,
  to_etre_error, writes_of, write_status, reject, is_not_found, store_metric,
}

-- Bad request, unauthorized or forbidden.
abbrev pub IsRefusal : ℕ → Type 0
IsRefusal status = (status ≡ 400) ⊎ ((status ≡ 401) ⊎ (status ≡ 403))

module _ (api : Api) where
  open api use {es, validate, auth}
  open es use {World}

  -- Nothing was done and no response sent.
  pub record Untouched (w : World) (gm : Bool) (caller : Caller) (s : State World) : Type 0 where
    pub world : s.world ≡ w
    pub response : s.response ≡ none
    pub has_gm : s.rc.has_gm ≡ gm
    pub caller_is : s.rc.caller ≡ caller

  -- The response is a refusal, and the world is as it was.
  pub record Refused (w : World) (s : State World) : Type 0 where
    pub world : s.world ≡ w
    pub status : ℕ
    pub body : Body
    pub response : s.response ≡ some (status, body)
    pub is_refusal : IsRefusal status

  abbrev pub Never : State World → Type 0
  Never s = ⊥

  module _ (w : World) where
    abbrev pub Keeps : Bool → Caller → Handler api → Type 0
    Keeps gm caller m = Leads Never (Untouched w gm caller) (Untouched w gm caller) m

    abbrev pub Refuses : Bool → Caller → Handler api → Type 0
    Refuses gm caller m = Leads Never (Untouched w gm caller) (Refused w) m

    pub Keeps-system_inc :
        (gm : Bool) (c : Caller) (mn : Metric) (n : ℕ) → Keeps gm c (system_inc mn n)
    unfolding system_inc
    Keeps-system_inc gm c mn n s u = record {
      world = u.world;
      response = u.response;
      has_gm = u.has_gm;
      caller_is = u.caller_is;
    }

    pub Keeps-maybe_inc :
        (gm : Bool) (c : Caller) (mn : Metric) (n : ℕ) → Keeps gm c (maybe_inc mn n)
    unfolding maybe_inc
    Keeps-maybe_inc gm c mn n s u = at s.rc.has_gm
      where
        at :
            (g : Bool)
            → Untouched w gm c (if g then record s { calls = s.calls ++ Call.inc mn n ∷ [] } else s)
        at true = record {
          world = u.world;
          response = u.response;
          has_gm = u.has_gm;
          caller_is = u.caller_is;
        }
        at false = u

    Keeps-call_if :
        (c : Caller) (call : Call) (g : Bool) (s : State World)
        → g ≡ true
        → Untouched w true c s
        → After Never (Untouched w true c) (call_if g s call)
    Keeps-call_if c call true s h u = record {
      world = u.world;
      response = u.response;
      has_gm = u.has_gm;
      caller_is = u.caller_is;
    }
    Keeps-call_if c call false s h u = cc

    pub Keeps-on_gm : (c : Caller) (call : Call) → Keeps true c (on_gm call)
    unfolding on_gm
    Keeps-on_gm c call s u = Keeps-call_if c call s.rc.has_gm s u.has_gm u

    pub Keeps-pure : (gm : Bool) (c : Caller) → Keeps gm c (pure tt)
    Keeps-pure gm c s u = u

    pub Refuses-bind :
        (gm : Bool) (c : Caller) (m k : Handler api)
        → Keeps gm c m
        → Refuses gm c k
        → Refuses gm c (m >> k)
    Refuses-bind gm c m k h i =
        Leads-bind Never (Untouched w gm c) (Untouched w gm c) (Refused w) m (λ _. k) h λ u. i

    pub Keeps-bind :
        (gm : Bool) (c : Caller) (m k : Handler api)
        → Keeps gm c m
        → Keeps gm c k
        → Keeps gm c (m >> k)
    Keeps-bind gm c m k h i =
        Leads-bind Never (Untouched w gm c) (Untouched w gm c) (Untouched w gm c) m (λ _. k) h
          λ u. i

    pub Keeps-if :
        (gm : Bool) (c : Caller) (b : Bool) (m k : Handler api)
        → Keeps gm c m
        → Keeps gm c k
        → Keeps gm c (if b then m else k)
    Keeps-if gm c true m k h i = h
    Keeps-if gm c false m k h i = i

    Refuses-respond :
        (gm : Bool) (c : Caller) (status : ℕ) (body : Body)
        → IsRefusal status
        → Refuses gm c (respond status body)
    unfolding respond
    Refuses-respond gm c status body h s u = record {
      world = u.world;
      status = status;
      body = body;
      response = rw u.response refl;
      is_refusal = h;
    }

    Keeps-count_read_error :
        (gm : Bool) (c : Caller) (error : ApiError) → Keeps gm c (count_read_error api error)
    unfolding count_read_error
    Keeps-count_read_error gm c (etre_error e) = Keeps-maybe_inc gm c Metric.client_error 1
    Keeps-count_read_error gm c (validation v) = Keeps-maybe_inc gm c Metric.client_error 1
    Keeps-count_read_error gm c (auth_error t n) = Keeps-pure gm c
    Keeps-count_read_error gm c (store error) = Keeps-maybe_inc gm c (store_metric error) 1

    Keeps-count_write_error :
        (gm : Bool) (c : Caller) (error : ApiError)
        → Keeps gm c (count_write_error api (some error))
    unfolding count_write_error
    Keeps-count_write_error gm c (etre_error e) =
        Keeps-bind gm c _ (if is_not_found e then pure tt else maybe_inc Metric.client_error 1)
          (Keeps-system_inc gm c Metric.error 1)
          (Keeps-if gm c (is_not_found e) (pure tt) (maybe_inc Metric.client_error 1)
            (Keeps-pure gm c) (Keeps-maybe_inc gm c Metric.client_error 1))
    Keeps-count_write_error gm c (validation v) =
        Keeps-bind gm c (system_inc Metric.error 1) (maybe_inc Metric.client_error 1)
          (Keeps-system_inc gm c Metric.error 1) (Keeps-maybe_inc gm c Metric.client_error 1)
    Keeps-count_write_error gm c (auth_error t n) = Keeps-system_inc gm c Metric.error 1
    Keeps-count_write_error gm c (store error) =
        Keeps-bind gm c (system_inc Metric.error 1) (maybe_inc (store_metric error) 1)
          (Keeps-system_inc gm c Metric.error 1) (Keeps-maybe_inc gm c (store_metric error) 1)

    pub Refuses-reject :
        (gm : Bool) (c : Caller) (write : Bool) (error : ApiError)
        → IsRefusal (read_status error)
        → IsRefusal (to_etre_error error).http_status
        → Refuses gm c (reject api write error)
    unfolding reject read_error write_result writes_of write_status
    Refuses-reject gm c true error h k =
        Refuses-bind gm c (count_write_error api (some error))
          (respond (to_etre_error error).http_status
            (Body.write_result none (some (to_etre_error error))))
          (Keeps-count_write_error gm c error)
          (Refuses-respond gm c (to_etre_error error).http_status _ k)
    Refuses-reject gm c false error h k =
        Refuses-bind gm c (system_inc Metric.error 1)
          (count_read_error api error >> respond (read_status error) (read_body error))
          (Keeps-system_inc gm c Metric.error 1)
          (Refuses-bind gm c (count_read_error api error)
            (respond (read_status error) (read_body error)) (Keeps-count_read_error gm c error)
            (Refuses-respond gm c (read_status error) (read_body error) h))

    pub Refuses-if :
        (gm : Bool) (c : Caller) (b : Bool) (m k : Handler api)
        → Refuses gm c m
        → Refuses gm c k
        → Refuses gm c (if b then m else k)
    Refuses-if gm c true m k h i = h
    Refuses-if gm c false m k h i = i
