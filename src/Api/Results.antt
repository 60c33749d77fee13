-- ===== src/Api/Results.antt =====
-- What WriteResult reports, and where it panics.
pub mod Statuses
use etre.Base.{
  ℕ, String, ◌≡◌, refl, ap, ◌∙◌, Bool, true, false, Option, none, some, List, [], ◌∷◌, ◌++◌, map,
  All, str_eq, if◌then◌else◌,
}
use etre.Base.Dict.{lookup}
use etre.Etre.{ObjectId, Value, Entity, Outcome, returns, panics}
use etre.Entity.Validate.{ValidationError, delete_label}
use etre.Entity.Store.Errors.{StoreError, entity_not_found, db}
use etre.Metrics.{Metric}
use etre.Metrics.Store.{Call}
use etre.Api.{
  EtreError, ApiError, etre_error, validation, auth_error, store, Request, Api, err_missing_param,
}
use etre.Api.Action.{
  Written, State, Body, pure, call_if, on_gm, maybe_inc, system_inc, respond, on_world, continue,
  ◌>>=◌, ◌>>◌,
}
use etre.Api.Reply.{
  Handler, Ids, no_ids, diffs, new_ids, diff, id_of, error_of, write_status, count_write_error,
  writes_of, written, written_all, write_of, write_result, is_not_found, store_metric,
}
use etre.Api.Read.{of_outcome}
use etre.Api.Write.{
  fail, write_store, after_delete_label, delete_valid_label, delete_label_of, delete_label_handler,
}
use etre.Api.Results.Statuses.{write_status-Answers, Answers}

-- The id of an entity from the store.
abbrev HasId : Entity → Type 0
HasId e = (o : ObjectId) × (lookup "_id" e ≡ some (Value.object_id o))

abbrev HasIds : Ids → Type 0
HasIds no_ids = Unit
HasIds (diffs es) = All HasId es
HasIds (new_ids is) = Unit
HasIds (diff none) = ⊥
HasIds (diff (some e)) = HasId e

abbrev hex_of_value : Option Value → String
hex_of_value (some (Value.object_id o)) = o.hex
hex_of_value _ = ""

abbrev hex_of : Entity → String
hex_of e = hex_of_value (lookup "_id" e)

-- The ids that are to be reported.
abbrev reported_ids : Ids → Option (List String)
reported_ids no_ids = none
reported_ids (diffs es) = some (map hex_of es)
reported_ids (new_ids is) = some is
reported_ids (diff none) = none
reported_ids (diff (some e)) = some (hex_of e ∷ [])

abbrev ids_of : Option (List Written) → Option (List String)
ids_of none = none
ids_of (some ws) = some (map (λ w. w.entity_id) ws)

module _ (api : Api) where
  open api use {es}
  open es use {World}

  Written-HasId :
      (e : Entity)
      → HasId e
      → (w : Written) × (written api e ≡ returns w) × (w.entity_id ≡ hex_of e)
  unfolding written id_of
  Written-HasId e (o, h) = (write_of api (some e) o.hex, rw h refl, rw h refl)

  Written-All :
      (es : List Entity)
      → All HasId es
      → (ws : List Written) × (written_all api es ≡ returns ws)
        × (map (λ w. w.entity_id) ws ≡ map hex_of es)
  unfolding written_all
  Written-All [] h = ([], refl, refl)
  Written-All (e ∷ es) (h, hs) =
      let (w, is_w, same) = Written-HasId e h in
      let (ws, are_ws, all_same) = Written-All es hs in
      (w ∷ ws, rw (is_w, are_ws) refl, rw (same, all_same) refl)

  Writes-HasIds :
      (ids : Ids)
      → HasIds ids
      → (ws : Option (List Written)) × (writes_of api ids ≡ returns ws)
        × (ids_of ws ≡ reported_ids ids)
  unfolding writes_of
  Writes-HasIds no_ids h = (none, refl, refl)
  Writes-HasIds (diffs es) h =
      let (ws, are_ws, same) = Written-All es h in (some ws, rw are_ws refl, ap some same)
  Writes-HasIds (new_ids is) h = (some (map (write_of api none) is), refl, ap some (map-ids is))
    where
      map-ids : (is : List String) → map (λ w. w.entity_id) (map (write_of api none) is) ≡ is
      map-ids [] = refl
      map-ids (i ∷ is) = ap (◌∷◌ i) (map-ids is)
  Writes-HasIds (diff none) h = absurd h
  Writes-HasIds (diff (some e)) h =
      let (w, is_w, same) = Written-HasId e h in (some (w ∷ []), rw is_w refl, rw same refl)

  -- Counting an error sends nothing and comes back.
  abbrev Counted : State World → State World × Outcome (Unit {0}) → Type 0
  Counted s r = (r.1 ≡ returns tt) × (r.0.response ≡ s.response)

  maybe_inc-Counted :
      (mn : Metric) (s s' : State World) → s'.response ≡ s.response → Counted s (maybe_inc mn 1 s')
  unfolding maybe_inc
  maybe_inc-Counted mn s s' h = (refl, at s'.rc.has_gm)
    where
      at :
          (g : Bool)
          → State.response (if g then record s' { calls = s'.calls ++ Call.inc mn 1 ∷ [] } else s')
            ≡ s.response
      at true = h
      at false = h

  if-Counted :
      (b : Bool) (s s' : State World)
      → s'.response ≡ s.response
      → Counted s ((if b then pure tt else maybe_inc Metric.client_error 1) s')
  if-Counted true s s' h = (refl, h)
  if-Counted false s s' h = maybe_inc-Counted Metric.client_error s s' h

  count-Counted :
      (error : Option ApiError) (s : State World) → Counted s (count_write_error api error s)
  unfolding count_write_error system_inc
  count-Counted none s = (refl, refl)
  count-Counted (some (etre_error e)) s =
      if-Counted (is_not_found e) s (system_inc Metric.error 1 s).0 refl
  count-Counted (some (validation v)) s =
      maybe_inc-Counted Metric.client_error s (system_inc Metric.error 1 s).0 refl
  count-Counted (some (auth_error t n)) s = (refl, refl)
  count-Counted (some (store error)) s =
      maybe_inc-Counted (store_metric error) s (system_inc Metric.error 1 s).0 refl

  -- The answer to a write.
  pub record Reports (ids : Ids) (error : Option ApiError) (r : State World × Outcome (Unit {0}))
      : Type 0 where
    pub returned : r.1 ≡ returns tt
    pub writes : Option (List Written)
    pub status : ℕ
    pub sent : Option EtreError
    pub response : r.0.response ≡ some (status, Body.write_result writes sent)
    pub answers : Answers ids error status sent
    pub ids_are : ids_of writes ≡ reported_ids ids

  respond-Reports :
      (ids : Ids) (error : Option ApiError) (ws : Option (List Written)) (s : State World)
      → s.response ≡ none
      → ids_of ws ≡ reported_ids ids
      → Reports ids error
          (respond (write_status ids error) (Body.write_result ws (error_of error)) s)
  unfolding respond
  respond-Reports ids error ws s n same = record {
    returned = refl;
    writes = ws;
    status = write_status ids error;
    sent = error_of error;
    response = rw n refl;
    answers = write_status-Answers ids error;
    ids_are = same;
  }

  -- Where every entity has its id and nothing was sent before, WriteResult comes back and sends one
  -- write for each id, in order, also beside an error. Without an error the status is 201 for new
  -- entities and 200 for other writes; else it is that of the error in the reply: an error of the API
  -- or of the authorization itself, 400 for a validation error, 409 for a duplicate entity, 503 for
  -- any other error of the database, 500 for an unknown one.
  pub write_result-Reports :
      (ids : Ids) (error : Option ApiError) (s : State World)
      → HasIds ids
      → s.response ≡ none
      → Reports ids error (write_result api ids error s)
  unfolding write_result
  write_result-Reports ids error s h first =
      let (ws, are_ws, same) = Writes-HasIds ids h in
      at ws are_ws same (count_write_error api error s) (count-Counted error s)
    where
      reply : Option (List Written) → Handler api
      reply ws = respond (write_status ids error) (Body.write_result ws (error_of error))

      at :
          (ws : Option (List Written))
          → writes_of api ids ≡ returns ws
          → ids_of ws ≡ reported_ids ids
          → (r : State World × Outcome (Unit {0})) → Counted s r
          → Reports ids error (continue (λ _. of_outcome api (writes_of api ids) >>= reply) r)
      at ws are same (s', returns u) c = rw are (respond-Reports ids error ws s' (c.1 ∙ first) same)
      at ws are same (s', panics) c = cc

  -- A call on the metrics, and what panics behind it.
  on_gm-panics :
      (c : Call) (m : Handler api) (s : State World)
      → (m (record s { calls = s.calls ++ c ∷ [] })).1 ≡ panics
      → ((on_gm c >> m) s).1 ≡ panics
  unfolding on_gm
  on_gm-panics c m s h = at s.rc.has_gm
    where
      at : (g : Bool) → (continue (λ _. m) (call_if g s c)).1 ≡ panics
      at true = h
      at false = refl

  count-panics :
      (error : Option ApiError) (m : Handler api) (s : State World)
      → ((s' : State World) → (m s').1 ≡ panics)
      → ((count_write_error api error >> m) s).1 ≡ panics
  count-panics error m s h = at (count_write_error api error s)
    where
      at : (r : State World × Outcome (Unit {0})) → (continue (λ _. m) r).1 ≡ panics
      at (s', returns u) = h s'
      at (s', panics) = refl

  -- A nil entity is reported by its id, which it has not.
  write_result-nil :
      (error : Option ApiError) (s : State World)
      → (write_result api (diff none) error s).1 ≡ panics
  unfolding write_result writes_of written id_of lookup
  write_result-nil error s =
      let reply : Option (List Written) → Handler api =
        λ ws. respond (write_status (diff none) error) (Body.write_result ws (error_of error)) in
      count-panics error (of_outcome api (writes_of api (diff none)) >>= reply) s λ s'. refl

  after_delete_label-nil :
      (error : Option StoreError) (s : State World)
      → (after_delete_label api (none, error) s).1 ≡ panics
  unfolding after_delete_label
  after_delete_label-nil none s = write_result-nil none s
  after_delete_label-nil (some entity_not_found) s = write_result-nil none s
  after_delete_label-nil (some (db error t i)) s = write_result-nil (some (store (db error t i))) s

  delete_valid_label-panics :
      (label : String) (invalid : Option ValidationError) (s : State World) (w : World)
      (error : Option StoreError)
      → es.delete_label s.rc.wo label s.world ≡ (w, returns (none, error))
      → (delete_valid_label api label invalid s).1 ≡ panics
  unfolding delete_valid_label write_store on_world
  delete_valid_label-panics label (some v) s w error h = write_result-nil (some (validation v)) s
  delete_valid_label-panics label none s w error h =
      rw h (after_delete_label-nil error (record s { world = w }))

  -- DELETE of a label panics where the store has no entity to report, also where that is because there
  -- is no such entity, which the handler means to be no error.
  pub delete_label_handler-panics :
      (r : Request) (s : State World) (w : World) (error : Option StoreError)
      → es.delete_label s.rc.wo r.label s.world ≡ (w, returns (none, error))
      → (delete_label_handler api r s).1 ≡ panics
  unfolding delete_label_handler delete_label_of
  delete_label_handler-panics r s w error h =
      on_gm-panics (Call.inc Metric.delete_label 1) (delete_label_of api r.label) s
        (at (str_eq r.label ""))
    where
      counted : State World
      counted = record s { calls = s.calls ++ Call.inc Metric.delete_label 1 ∷ [] }

      count : Call
      count = Call.inc_label Metric.label_delete r.label

      at :
          (b : Bool)
          → ((if b
                then fail api (diff none) (etre_error err_missing_param)
                else (on_gm count >> delete_valid_label api r.label (delete_label r.label)))
              counted).1
            ≡ panics
      at true = write_result-nil (some (etre_error err_missing_param)) counted
      at false =
          on_gm-panics count (delete_valid_label api r.label (delete_label r.label)) counted (
            delete_valid_label-panics r.label (delete_label r.label)
              (record counted { calls = counted.calls ++ count ∷ [] }) w error h)
