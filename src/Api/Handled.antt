-- ===== src/Api/Handled.antt =====
-- The calls on metrics of the replies, and of what the handlers share.
pub mod Reads
pub mod Writes
use etre.Base.{
  ℕ, String, ◌≡◌, refl, Bool, true, false, Option, none, some, List, [], ◌∷◌, ◌++◌, if◌then◌else◌,
}
use etre.Etre.{Outcome, returns, panics}
use etre.Base.Bytes.{codes}
use etre.Entity.Filter.{query_or_empty}
use etre.Query.{Predicate, translate}
use etre.Metrics.{Metric}
use etre.Metrics.Group.Counts.{counts_query, counts_global}
use etre.Metrics.Store.{Call}
use etre.Metrics.Store.Fit.{fits, binds}
use etre.Entity.Store.Errors.{
  no_documents, write_exception, command_error, write_error, deadline_exceeded, other, StoreError,
  entity_not_found, db,
}
use etre.Api.{ApiError, etre_error, validation, auth_error, store, Api}
use etre.Api.Action.{Action, Body, pure, on_gm, on_world, respond, ◌>>=◌, ◌>>◌}
use etre.Api.Reply.{
  Ids, count_read_error, read_error, count_write_error, write_result, reject, is_not_found,
  store_metric, no_ids, writes_of, write_status, error_of, read_status, read_body,
}
use etre.Api.Read.{of_outcome, count_labels, query_of_id}
use etre.Api.Leads.{After, Leads, Leads-bind, Leads-if}
use etre.Api.Calls.{Logged, on_gm-Leads, maybe_inc-Leads, error-Leads, respond-Leads, Sound}

-- An error that is counted needs no entity type, unless it is the store's.
abbrev pub needs_no_type : ApiError → Bool
needs_no_type (store error) = false
needs_no_type _ = true

abbrev pub may_count : Bool → ApiError → Bool
may_count true error = true
may_count false error = needs_no_type error

store_metric-fits :
    (error : StoreError) (n : ℕ) → fits true (Call.inc (store_metric error) n) ≡ true
unfolding store_metric counts_query counts_global
store_metric-fits entity_not_found n = refl
store_metric-fits (db no_documents t i) n = refl
store_metric-fits (db (write_exception es) t i) n = refl
store_metric-fits (db (command_error c m) t i) n = refl
store_metric-fits (db (write_error e) t i) n = refl
store_metric-fits (db deadline_exceeded t i) n = refl
store_metric-fits (db (other m) t i) n = refl

client_error-fits : (b : Bool) → fits b (Call.inc Metric.client_error 1) ≡ true
unfolding counts_global
client_error-fits b = refl

module _ (api : Api) (ls : List ℕ) where
  open api use {es}
  open es use {World}

  -- What keeps the calls as they ought to be, for a request that is bound or not.
  abbrev pub Stays : {A : Type 0} → Bool → Action World A → Type 0
  Stays b m = Leads (Sound ls) (Logged b ls) (Logged b ls) m

  pub Stays-bind :
      {A B : Type 0} (b : Bool) (m : Action World A) (f : A → Action World B)
      → Stays b m
      → ((a : A) → Stays b (f a))
      → Stays b (m >>= f)
  Stays-bind b m f = Leads-bind (Sound ls) (Logged b ls) (Logged b ls) (Logged b ls) m f

  -- A call on the metrics of a bound request, and more.
  pub Stays-call :
      {B : Type 0} (c : Call) (m : Action World B)
      → fits true c ≡ true
      → binds true c ≡ true
      → Stays true m
      → Stays true (on_gm c >> m)
  Stays-call c m f b h =
      Leads-bind (Sound ls) (Logged true ls) (Logged (binds true c) ls) (Logged true ls) (on_gm c)
        (λ _. m) (on_gm-Leads true ls c f) λ u. rw b h

  pub count_read_error-Stays :
      (b : Bool) (error : ApiError)
      → may_count b error ≡ true
      → Stays b (count_read_error api error)
  unfolding count_read_error
  count_read_error-Stays b (etre_error e) h =
      maybe_inc-Leads b ls Metric.client_error 1 (client_error-fits b)
  count_read_error-Stays b (validation v) h =
      maybe_inc-Leads b ls Metric.client_error 1 (client_error-fits b)
  count_read_error-Stays b (auth_error t n) h = λ s l. l
  count_read_error-Stays true (store error) h =
      maybe_inc-Leads true ls (store_metric error) 1 (store_metric-fits error 1)
  count_read_error-Stays false (store error) h = cc

  pub read_error-Stays :
      (b : Bool) (error : ApiError) → may_count b error ≡ true → Stays b (read_error api error)
  unfolding read_error
  read_error-Stays b error h =
      Stays-bind b _
        (λ _. count_read_error api error >> respond (read_status error) (read_body error))
        (error-Leads b ls)
        λ u.
          Stays-bind b (count_read_error api error)
            (λ _. respond (read_status error) (read_body error)) (count_read_error-Stays b error h)
            λ u. respond-Leads b ls (read_status error) (read_body error)

  count_write_error-Stays :
      (b : Bool) (error : ApiError)
      → may_count b error ≡ true
      → Stays b (count_write_error api (some error))
  unfolding count_write_error
  count_write_error-Stays b (etre_error e) h = Stays-bind b _ _ (error-Leads b ls) λ u.
      Leads-if (Sound ls) _ _ (is_not_found e) (pure tt) _ (λ s l. l)
        (maybe_inc-Leads b ls Metric.client_error 1 (client_error-fits b))
  count_write_error-Stays b (validation v) h =
      Stays-bind b _ _ (error-Leads b ls)
        λ u. maybe_inc-Leads b ls Metric.client_error 1 (client_error-fits b)
  count_write_error-Stays b (auth_error t n) h = error-Leads b ls
  count_write_error-Stays true (store error) h =
      Stays-bind true _ _ (error-Leads true ls)
        λ u. maybe_inc-Leads true ls (store_metric error) 1 (store_metric-fits error 1)
  count_write_error-Stays false (store error) h = cc

  abbrev may_count_option : Bool → Option ApiError → Bool
  may_count_option b none = true
  may_count_option b (some error) = may_count b error

  count-Stays :
      (b : Bool) (error : Option ApiError)
      → may_count_option b error ≡ true
      → Stays b (count_write_error api error)
  unfolding count_write_error
  count-Stays b none h = λ s l. l
  count-Stays b (some error) h = count_write_error-Stays b error h

  pub outcome-Stays : {A : Type 0} (b : Bool) (o : Outcome A) → Stays b (of_outcome api o)
  outcome-Stays b (returns a) s l = l
  outcome-Stays b panics s l = record { bound = b; logged = l }

  pub write_result-Stays :
      (b : Bool) (ids : Ids) (error : Option ApiError)
      → may_count_option b error ≡ true
      → Stays b (write_result api ids error)
  unfolding write_result
  write_result-Stays b ids error h =
      Stays-bind b (count_write_error api error) _ (count-Stays b error h) λ u.
        Stays-bind b (of_outcome api (writes_of api ids)) _ (outcome-Stays b (writes_of api ids))
          λ ws. respond-Leads b ls (write_status ids error) (Body.write_result ws (error_of error))

  pub reject-Stays :
      (b write : Bool) (error : ApiError)
      → may_count b error ≡ true
      → Stays b (reject api write error)
  unfolding reject
  reject-Stays b true error h = write_result-Stays b no_ids (some error) h
  reject-Stays b false error h = read_error-Stays b error h

  pub count_labels-Stays : (ps : List Predicate) → Stays true (count_labels api ps)
  unfolding count_labels
  count_labels-Stays [] = λ s l. l
  count_labels-Stays (p ∷ ps) =
      Stays-call (Call.inc_label Metric.label_read (api.text p.label)) (count_labels api ps) refl
        refl (count_labels-Stays ps)

  -- The store leaves the calls alone.
  pub on_world-Stays :
      {A : Type 0} (b : Bool) (f : World → World × Outcome A) → Stays b (on_world f)
  unfolding on_world
  on_world-Stays {A = A} b f s l = at (f s.world).1
    where
      at : (o : Outcome A) → After (Sound ls) (Logged b ls) (record s { world = (f s.world).0 }, o)
      at (returns a) = record { fit = l.fit; bound = l.bound; changes = l.changes }
      at panics = record {
        bound = b;
        logged = record { fit = l.fit; bound = l.bound; changes = l.changes };
      }

  pub query_of_id-Stays : (b : Bool) (id : String) → Stays b (query_of_id api id)
  unfolding query_of_id
  query_of_id-Stays b id =
      Stays-bind b (of_outcome api (translate (codes "_id=" ++ codes id)))
        (λ q. pure (query_or_empty q)) (outcome-Stays b (translate (codes "_id=" ++ codes id)))
        λ q s l. l

  pub Stays-if :
      {A : Type 0} (b test : Bool) (m k : Action World A)
      → Stays b m
      → Stays b k
      → Stays b (if test then m else k)
  Stays-if b test m k = Leads-if (Sound ls) (Logged b ls) (Logged b ls) test m k
