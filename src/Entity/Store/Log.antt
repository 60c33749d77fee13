-- ===== src/Entity/Store/Log.antt =====
-- cdcWrite: the event it makes, and what the CDC store has recorded after it.
use etre.Base.{ℕ, ◌≡◌, refl, sym, ap, ◌∙◌, Option, none, some, [], ◌∷◌, ◌++◌}
use etre.Etre.{CdcEvent, Set, set, Entity, Ensures, Ensures-bind, Returns, Returns-bind}
use etre.Entity.Store.Errors.{Error, StoreError, db}
use etre.Entity.Store.Driver.{Backend, Laws}
use etre.Entity.Store.Partial.{WriteOp, CdcPartial, event_of, set_of}
use etre.Entity.Store.{cdc_write, wrote}

-- The event says what the operation and the partial event say.
pub record Records (wo : WriteOp) (cp : CdcPartial) (ev : CdcEvent) : Type 0 where
  pub op : ev.op ≡ cp.op
  pub entity_id : ev.entity_id ≡ cp.id.hex
  pub entity_rev : ev.entity_rev ≡ cp.rev
  pub old : ev.old ≡ cp.old
  pub new : ev.new ≡ cp.new
  pub caller : ev.caller ≡ wo.caller
  pub entity_type : ev.entity_type ≡ wo.entity_type

module _ (B : Backend) (laws : Laws B) where
  open B use {World, Collection}
  open laws use {events}

  -- What cdcWrite leaves.
  abbrev pub Wrote : WriteOp → CdcPartial → World → World × Option StoreError → Type 0
  Wrote wo cp w (w', none) = (ev : CdcEvent) × (events w' ≡ events w ++ ev ∷ []) × Records wo cp ev
  Wrote wo cp w (w', some err) =
      (events w' ≡ events w) × (e : Error) × (err ≡ db e "cdc-write" cp.id.hex)

  event_of-Records :
      (wo : WriteOp) (cp : CdcPartial) (s : Set) (now : ℕ) → Records wo cp (event_of wo cp s now)
  unfolding event_of
  event_of-Records wo cp s now = record {
    op = refl;
    entity_id = refl;
    entity_rev = refl;
    old = refl;
    new = refl;
    caller = refl;
    entity_type = refl;
  }

  wrote-Wrote :
      (wo : WriteOp) (cp : CdcPartial) (w : World) (ev : CdcEvent)
      → Records wo cp ev
      → (r : World × Option Error) → B.cdc_write ev w ≡ r
      → Wrote wo cp w (wrote B cp.id.hex r)
  wrote-Wrote wo cp w ev rec (w', none) e =
      (ev, ap (λ r. events r.0) (sym e) ∙ laws.events-write ev w (ap (λ r. r.1) e), rec)
  wrote-Wrote wo cp w ev rec (w', some err) e = (
    ap (λ r. events r.0) (sym e) ∙ laws.events-write_failed ev w err (ap (λ r. r.1) e),
    err,
    refl,
  )

  pub cdc_write-Wrote :
      (e : Entity) (wo : WriteOp) (cp : CdcPartial) (w : World)
      → Ensures (Wrote wo cp w) (cdc_write B e wo cp w)
  unfolding cdc_write
  cdc_write-Wrote e wo cp w = Ensures-bind (Wrote wo cp w) (set e) _ λ s _.
      wrote-Wrote wo cp w (event_of wo cp (set_of wo s) (B.now w)) (event_of-Records wo cp _ _) _
        refl

  pub cdc_write-Returns :
      (e : Entity) (wo : WriteOp) (cp : CdcPartial) (w : World)
      → Returns (λ _. Unit) (set e)
      → Returns (λ _. Unit) (cdc_write B e wo cp w)
  unfolding cdc_write
  cdc_write-Returns e wo cp w h = Returns-bind (λ _. Unit) (λ _. Unit) (set e) _ h λ s _. tt
