-- ===== src/Api/Action.antt =====
-- The state of a request, and the actions of a handler on it.
--
-- The request's context `rc` is a record of the state, since the handlers share it by a pointer.
-- The calls on the group metrics are recorded: etre.Metrics.Store.run_calls makes them. So are those
-- of the system metrics. The state comes back after a panic too.
use etre.Base.{ℕ, String, Bool, true, false, Option, none, some, List, [], ◌∷◌, ◌++◌, if◌then◌else◌}
use etre.Etre.{Entity, Outcome, returns, panics}
use etre.Auth.{Caller}
use etre.Entity.Store.Partial.{WriteOp}
use etre.Metrics.{Metric}
use etre.Metrics.Store.{Call}
use etre.Api.{EtreError}

-- The request's context. The metrics are nil before they are made.
pub record Rc : Type 0 where
  pub caller : Caller
  pub wo : WriteOp
  pub has_gm : Bool
  pub entity_type : String
  pub entity_id : String
  pub write : Bool

-- etre.Write, and the body of a response.
pub record Written : Type 0 where
  pub entity_id : String
  pub uri : String
  pub diff : Option Entity

pub data Body : Type 0 where
  nothing : Body
  error : EtreError → Body
  null : Body
  entities : List Entity → Body
  entity : Entity → Body
  labels : List String → Body
  write_result : Option (List Written) → Option EtreError → Body
  hijacked : Body

-- A status with a body.
abbrev pub Response : Type 0
Response = ℕ × Body

module _ (World : Type 0) where
  pub record State : Type 0 where
    pub world : World
    pub rc : Rc
    pub calls : List Call
    pub system : List (Metric × ℕ)
    pub response : Option Response

  abbrev pub Action : Type 0 → Type 0
  Action A = State → State × Outcome A

module _ {World : Type 0} where
  abbrev pub continue :
      {A B : Type 0} → (A → Action World B) → State World × Outcome A → State World × Outcome B
  continue f (s, returns a) = f a s
  continue f (s, panics) = (s, panics)

  abbrev pub pure : {A : Type 0} → A → Action World A
  pure a s = (s, returns a)

  abbrev pub panic : {A : Type 0} → Action World A
  panic s = (s, panics)

  abbrev pub gets : {A : Type 0} → (Rc → A) → Action World A
  gets f s = (s, returns (f s.rc))

  abbrev pub set_rc : (Rc → Rc) → Action World (Unit {0})
  set_rc f s = (record s { rc = f s.rc }, returns tt)

  abbrev pub call_if : Bool → State World → Call → State World × Outcome (Unit {0})
  call_if true s c = (record s { calls = s.calls ++ c ∷ [] }, returns tt)
  call_if false s c = (s, panics)

  -- A call on rc.gm, which panics where it is nil.
  unfoldable pub on_gm : Call → Action World (Unit {0})
  on_gm c s = call_if s.rc.has_gm s c

  -- maybeInc with rc.gm.
  unfoldable pub maybe_inc : Metric → ℕ → Action World (Unit {0})
  maybe_inc metric n s =
      let s' = record s { calls = s.calls ++ Call.inc metric n ∷ [] } in
      (if s.rc.has_gm then s' else s, returns tt)

  -- api.systemMetrics.Inc
  unfoldable pub system_inc : Metric → ℕ → Action World (Unit {0})
  system_inc metric n s = (record s { system = s.system ++ (metric, n) ∷ [] }, returns tt)

  -- The first response of a request is sent; a later one is not.
  unfoldable pub respond : ℕ → Body → Action World (Unit {0})
  respond status body s = (
    record s { response = elim s.response [ some r ↦ some r | none ↦ some (status, body) ] },
    returns tt,
  )

  abbrev pub of_store : {A : Type 0} → State World → World × Outcome A → State World × Outcome A
  of_store s (w, o) = (record s { world = w }, o)

  -- A call of the store.
  unfoldable pub on_world : {A : Type 0} → (World → World × Outcome A) → Action World A
  on_world f s = of_store s (f s.world)

infixl 10 ◌>>=◌ ◌>>◌
abbrev pub ◌>>=◌ : {World A B : Type 0} → Action World A → (A → Action World B) → Action World B
◌>>=◌ m f s = continue f (m s)

abbrev pub ◌>>◌ : {World B : Type 0} → Action World (Unit {0}) → Action World B → Action World B
m >> k = m >>= λ _. k
