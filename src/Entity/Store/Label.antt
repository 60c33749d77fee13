-- ===== src/Entity/Store/Label.antt =====
-- DeleteLabel: what it returns, and the CDC event that it leaves.
use etre.Base.{
  ℕ, String, ◌≡◌, ◌≢◌, refl, sym, ap, ◌∙◌, ◌⊎◌, inl, inr, Option, none, some, [], ◌∷◌, ◌++◌, eq_iff,
  arith,
}
use etre.Base.Dict.{Dict, lookup, insert, delete, lookup-insert, lookup-delete}
use etre.Base.Int64.{add64}
use etre.Etre.{
  ObjectId, Value, int64, Entity, CdcEvent, set, rev, returns, Returns, returned, of_Ensures,
}
use etre.Entity.Store.Errors.{Error, StoreError, db}
use etre.Entity.Store.Driver.{Backend, Laws, unset_label}
use etre.Entity.Store.Partial.{WriteOp, CdcPartial, next_rev, label_deleted_partial}
use etre.Entity.Store.{cdc_write, label_deleted, delete_label, by_id, label_projection}
use etre.Entity.Store.Log.{Records, Wrote, cdc_write-Wrote, cdc_write-Returns}

-- The event of a deleted label, with the revision after that of the entity: the entity before, and
-- the entity after, which lacks the label, has the revision of the event, and is the same elsewhere.
pub record IsLabelDeletion (wo : WriteOp) (label : String) (old : Entity) (ev : CdcEvent)
    : Type 0 where
  pub op : ev.op ≡ "u"
  pub caller : ev.caller ≡ wo.caller
  pub entity_type : ev.entity_type ≡ wo.entity_type
  pub before : ev.old ≡ some old
  pub after : Entity
  pub new : ev.new ≡ some after
  pub label_gone : lookup label after ≡ none
  pub next : (r : ℕ) × (rev old ≡ returns r) × (ev.entity_rev ≡ add64 r 1)
  pub rev_after : rev after ≡ returns ev.entity_rev
  pub others : (l : String) → l ≢ label → l ≢ "_rev" → lookup l after ≡ lookup l old

label_deleted_partial-returns :
    (label : String) (old : Entity) (r : ℕ) (o : ObjectId)
    → label ≢ "_rev"
    → lookup "_rev" old ≡ some (int64 r)
    → lookup "_id" old ≡ some (Value.object_id o)
    → (p : CdcPartial) × (label_deleted_partial label old ≡ returns p)
      × (p.id ≡ o)
      × ((wo : WriteOp) (ev : CdcEvent) → Records wo p ev → IsLabelDeletion wo label old ev)
unfolding label_deleted_partial rev next_rev
label_deleted_partial-returns label old r o ne is_rev is_id = (
  record { op = "u"; id = o; old = some old; new = some after; rev = add64 r 1 },
  rw (is_rev, is_id) refl,
  refl,
  λ wo ev rec. record {
    op = rec.op;
    caller = rec.caller;
    entity_type = rec.entity_type;
    before = rec.old;
    after = after;
    new = rec.new;
    label_gone = gone;
    next = (r, rw is_rev refl, rec.entity_rev);
    rev_after =
        rw (lookup-insert "_rev" "_rev" (int64 (add64 r 1)) (delete label old))
          (ap returns (sym rec.entity_rev));
    others = λ l l_label l_rev. ground (
      arith,
      l_label,
      l_rev,
      eq_iff "_rev" l,
      eq_iff label l,
      lookup-insert "_rev" l (int64 (add64 r 1)) (delete label old),
      lookup-delete label l old,
    );
  },
)
  where
    after : Entity
    after = insert "_rev" (int64 (add64 r 1)) (delete label old)

    gone : lookup label after ≡ none
    gone = ground (
      arith,
      ne,
      eq_iff "_rev" label,
      eq_iff label label,
      lookup-insert "_rev" label (int64 (add64 r 1)) (delete label old),
      lookup-delete label label old,
    )

module _ (B : Backend) (laws : Laws B) where
  open B use {World, Collection, find_one_and_update}
  open laws use {events}

  -- The old entity, with its event recorded or with the error of the CDC write.
  abbrev pub Report :
      WriteOp
      → String
      → ObjectId
      → Entity
      → World
      → World × (Option Entity × Option StoreError)
      → Type 0
  Report wo label o old w (w', (res, err)) =
      (res ≡ some old)
      × (((ev : CdcEvent) × (err ≡ none)
            × (events w' ≡ events w ++ ev ∷ [])
            × IsLabelDeletion wo label old ev)
          ⊎ ((e : Error) × (err ≡ some (db e "cdc-write" o.hex)) × (events w' ≡ events w)))

  Wrote-Report :
      (wo : WriteOp) (label : String) (o : ObjectId) (old : Entity) (p : CdcPartial) (w w1 : World)
      → events w1 ≡ events w
      → p.id ≡ o
      → ((ev : CdcEvent) → Records wo p ev → IsLabelDeletion wo label old ev)
      → (r : World × Option StoreError) → Wrote B laws wo p w1 r
      → Report wo label o old w (r.0, (some old, r.1))
  Wrote-Report wo label o old p w w1 same is_o del (w', none) (ev, logged, rec) =
      (refl, inl (ev, refl, logged ∙ ap (λ x. x ++ ev ∷ []) same, del ev rec))
  Wrote-Report wo label o old p w w1 same is_o del (w', some err) (kept, e, failed) =
      (refl, inr (e, ap some failed ∙ ap (λ i. some (db e "cdc-write" i.hex)) is_o, kept ∙ same))

  -- Where the driver finds the entity, with an ObjectID and an int64 revision, and the label is not
  -- `_rev`, DeleteLabel returns the entity as it was. Either its event is acknowledged: the
  -- entity before and after, without the label and with the next revision; or none is, and the error
  -- names the entity.
  pub delete_label-Report :
      (coll : Dict Collection) (c : Collection) (wo : WriteOp) (label : String) (w w1 : World)
      (old : Entity) (r : ℕ) (o : ObjectId)
      → lookup wo.entity_type coll ≡ some c
      → find_one_and_update c (by_id B wo) (unset_label label) (label_projection B label) w
        ≡ (w1, inr old)
      → label ≢ "_rev"
      → lookup "_rev" old ≡ some (int64 r)
      → lookup "_id" old ≡ some (Value.object_id o)
      → Returns (Report wo label o old w) (delete_label B coll wo label w)
  unfolding delete_label label_deleted set lookup
  delete_label-Report coll c wo label w w1 old r o here found ne is_rev is_id =
      let (p, is_p, is_o, del) = label_deleted_partial-returns label old r o ne is_rev is_id in
      let (reply, is_r) =
        returned (cdc_write B [] wo p w1) (cdc_write-Returns B laws [] wo p w1 no_set) in
      let same =
        ap (λ x. events x.0) (sym found)
        ∙ laws.events-update c (by_id B wo) (unset_label label) (label_projection B label) w in
      rw (here, found, is_p, is_r)
        (Wrote-Report wo label o old p w w1 same is_o (del wo) reply
          (of_Ensures (Wrote B laws wo p w1) _ is_r (cdc_write-Wrote B laws [] wo p w1)))
    where
      no_set : Returns (λ _. Unit) (set [])
      no_set = tt
