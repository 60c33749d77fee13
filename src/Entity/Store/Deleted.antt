-- ===== src/Entity/Store/Deleted.antt =====
-- DeleteEntities: that it ends, what it returns, and the CDC events that it leaves.
use mathlib.Core.List.{append-nil, append_assoc}
use etre.Base.{
  ℕ, zero, suc, String, if◌then◌else◌, ◌<◌, ◌≡◌, refl, sym, ap, subst, ◌∙◌, ◌⊎◌, inl, inr, Option,
  none, some, List, [], ◌∷◌, ◌++◌, arith,
}
use etre.Base.Dict.{Dict, lookup}
use etre.Base.Int64.{add64}
use etre.Etre.{
  ObjectId, Entity, CdcEvent, set, rev, Outcome, returns, Returns, Ensures, Ensures-bind,
  of_Ensures, Returns-map, returned,
}
use etre.Query.{Query}
use etre.Entity.Filter.{Filter, filter}
use etre.Entity.Store.Errors.{
  Error, no_documents, write_exception, command_error, write_error, deadline_exceeded, other,
  StoreError, db, is_no_documents,
}
use etre.Entity.Store.Driver.{Backend, Laws}
use etre.Entity.Store.Partial.{WriteOp, CdcPartial, as_object_id, deleted_partial}
use etre.Entity.Store.{wrote, cdc_write, deleted, delete_loop, after_delete, delete_entities}
use etre.Entity.Store.Log.{Records, Wrote, cdc_write-Wrote, cdc_write-Returns}

-- A document that CreateEntities has written: it has an ObjectID, a revision and set labels.
pub record IsStored (d : Entity) : Type 0 where
  pub id : (o : ObjectId) × (as_object_id (lookup "_id" d) ≡ returns o)
  pub rev_of : (r : ℕ) × (rev d ≡ returns r)
  pub set_ok : Returns (λ _. Unit) (set d)

-- The event of a deleted entity: all its labels as the old value, and the revision after its own.
pub record IsDelete (wo : WriteOp) (d : Entity) (ev : CdcEvent) : Type 0 where
  pub op : ev.op ≡ "d"
  pub caller : ev.caller ≡ wo.caller
  pub entity_type : ev.entity_type ≡ wo.entity_type
  pub entity_id :
      (o : ObjectId) × (as_object_id (lookup "_id" d) ≡ returns o) × (ev.entity_id ≡ o.hex)
  pub entity_rev : (r : ℕ) × (rev d ≡ returns r) × (ev.entity_rev ≡ add64 r 1)
  pub old : ev.old ≡ some d
  pub new : ev.new ≡ none

-- One event for each entity, in order.
abbrev pub Deletes : WriteOp → List Entity → List CdcEvent → Type 0
Deletes wo [] [] = Unit
Deletes wo [] (ev ∷ evs) = ⊥
Deletes wo (d ∷ ds) [] = ⊥
Deletes wo (d ∷ ds) (ev ∷ evs) = IsDelete wo d ev × Deletes wo ds evs

module _ (B : Backend) (laws : Laws B) where
  open B use {World, Collection, find_one_and_delete}
  open laws use {events, documents}

  -- What holds of the database while DeleteEntities runs: the documents that its search finds have
  -- an ObjectID, a revision and set labels that are texts.
  pub record Keeps (c : Collection) (f : Filter) (Good : World → Type 0) : Type 0 where
    pub stored :
        (u : World) (d : Entity) → Good u → (find_one_and_delete c f u).1 ≡ inr d → IsStored d
    pub on_delete : (u : World) → Good u → Good (find_one_and_delete c f u).0
    pub on_write : (ev : CdcEvent) (u : World) → Good u → Good (B.cdc_write ev u).0

  -- The last search found nothing.
  abbrev pub NoneLeft : Collection → Filter → World → Type 0
  NoneLeft c f w =
      (u : World) × ((find_one_and_delete c f u).1 ≡ inl no_documents)
      × (w ≡ (find_one_and_delete c f u).0)

  -- The entities returned beside an error, after those of `before`.
  abbrev pub Accounts :
      Collection
      → WriteOp
      → Filter
      → List Entity
      → World
      → List Entity
      → Option StoreError
      → List CdcEvent
      → Type 0
  Accounts c wo f before w' ds err evs =
      (new : List Entity) × Deletes wo new evs
      × (((ds ≡ before ++ new) × (err ≡ none → NoneLeft c f w'))
          ⊎ ((d : Entity) × (e : Error) × (id : String) × (ds ≡ (before ++ new) ++ d ∷ [])
              × (err ≡ some (db e "cdc-write" id))))

  abbrev pub Report :
      Collection
      → WriteOp
      → Filter
      → List Entity
      → World
      → Option (World × (List Entity × Option StoreError))
      → Type 0
  Report c wo f before w none = ⊥
  Report c wo f before w (some (w', (ds, err))) =
      (evs : List CdcEvent) × (events w' ≡ events w ++ evs) × Accounts c wo f before w' ds err evs

  deleted_partial-returns :
      (old : Entity)
      → IsStored old
      → (p : CdcPartial) × (deleted_partial old ≡ returns p)
        × ((wo : WriteOp) (ev : CdcEvent) → Records wo p ev → IsDelete wo old ev)
  unfolding deleted_partial
  deleted_partial-returns old stored =
      let (o, is_id) = stored.id in
      let (r, is_rev) = stored.rev_of in
      (
        record { op = "d"; id = o; old = some old; new = none; rev = add64 r 1 },
        rw (is_id, is_rev) refl,
        λ wo ev rec. record {
          op = rec.op;
          caller = rec.caller;
          entity_type = rec.entity_type;
          entity_id = (o, is_id, rec.entity_id);
          entity_rev = (r, is_rev, rec.entity_rev);
          old = rec.old;
          new = rec.new;
        },
      )

  after_delete-Report :
      (c : Collection) (wo : WriteOp) (f : Filter) (before : List Entity) (d : Entity)
      (p : CdcPartial) (w : World)
      (go_on : World → Outcome (Option (World × (List Entity × Option StoreError))))
      → ((ev : CdcEvent) → Records wo p ev → IsDelete wo d ev)
      → (r : World × Option StoreError)
      → (r.1 ≡ none → Returns (Report c wo f (before ++ d ∷ []) r.0) (go_on r.0))
      → Wrote B laws wo p w r
      → Returns (Report c wo f before w) (after_delete B (before ++ d ∷ []) go_on r)
  after_delete-Report c wo f before d p w go_on del (w', some err) k (same, e, failed) = (
    [],
    same ∙ sym (append-nil (events w)),
    ([], tt, inr (d, e, p.id.hex, ap (λ x. x ++ d ∷ []) (sym (append-nil before)), ap some failed)),
  )
  after_delete-Report c wo f before d p w go_on del (w', none) k (ev, logged, rec) =
      Returns-map (Report c wo f (before ++ d ∷ []) w') (Report c wo f before w) (go_on w') grow
        (k refl)
    where
      shift : (xs : List Entity) → (before ++ d ∷ []) ++ xs ≡ before ++ d ∷ xs
      shift xs = append_assoc before (d ∷ []) xs

      accounts :
          (w'' : World) (ds : List Entity) (err : Option StoreError) (evs : List CdcEvent)
          → Accounts c wo f (before ++ d ∷ []) w'' ds err evs
          → Accounts c wo f before w'' ds err (ev ∷ evs)
      accounts w'' ds err evs (new, each, inl (all, left)) =
          (d ∷ new, (del ev rec, each), inl (all ∙ shift new, left))
      accounts w'' ds err evs (new, each, inr (x, e, id, lost, failed)) = (
        d ∷ new,
        (del ev rec, each),
        inr (x, e, id, lost ∙ ap (λ y. y ++ x ∷ []) (shift new), failed),
      )

      grow :
          (r : Option (World × (List Entity × Option StoreError)))
          → Report c wo f (before ++ d ∷ []) w' r
          → Report c wo f before w r
      grow none h = h
      grow (some (w'', (ds, err))) (evs, more, acc) = (
        ev ∷ evs,
        more ∙ ap (λ x. x ++ evs) logged ∙ append_assoc (events w) (ev ∷ []) evs,
        accounts w'' ds err evs acc,
      )

  documents-cdc_write :
      (c : Collection) (e : Entity) (wo : WriteOp) (p : CdcPartial) (w : World)
      → Ensures (λ r. documents c r.0 ≡ documents c w) (cdc_write B e wo p w)
  unfolding cdc_write
  documents-cdc_write c e wo p w =
      Ensures-bind (λ r. documents c r.0 ≡ documents c w) (set e) _
        λ s _. kept _ (laws.documents-write c _ w)
    where
      kept :
          (r : World × Option Error)
          → documents c r.0 ≡ documents c w
          → documents c (wrote B p.id.hex r).0 ≡ documents c w
      kept (w', none) h = h
      kept (w', some err) h = h

  Good-cdc_write :
      (c : Collection) (f : Filter) (Good : World → Type 0) (keeps : Keeps c f Good) (e : Entity)
      (wo : WriteOp) (p : CdcPartial) (w : World)
      → Good w
      → Ensures (λ r. Good r.0) (cdc_write B e wo p w)
  unfolding cdc_write
  Good-cdc_write c f Good keeps e wo p w good =
      Ensures-bind (λ r. Good r.0) (set e) _ λ s _. kept _ (keeps.on_write _ w good)
    where
      kept : (r : World × Option Error) → Good r.0 → Good (wrote B p.id.hex r).0
      kept (w', none) h = h
      kept (w', some err) h = h

  Report-moved :
      (c : Collection) (wo : WriteOp) (f : Filter) (before : List Entity) (w w1 : World)
      → events w1 ≡ events w
      → (r : Option (World × (List Entity × Option StoreError))) → Report c wo f before w1 r
      → Report c wo f before w r
  Report-moved c wo f before w w1 same none h = h
  Report-moved c wo f before w w1 same (some (w', (ds, err))) (evs, more, acc) =
      (evs, more ∙ ap (λ x. x ++ evs) same, acc)

  -- The loop ends without an error only where the search found nothing.
  ended :
      (err : Error) (failed : StoreError)
      → ◌≡◌ {A = Option StoreError} (if is_no_documents err then none else some failed) none
      → err ≡ no_documents
  ended no_documents failed h = refl
  ended (write_exception es) failed h = cc
  ended (command_error code m) failed h = cc
  ended (write_error e) failed h = cc
  ended deadline_exceeded failed h = cc
  ended (other t) failed h = cc

  deleted-Report :
      (c : Collection) (wo : WriteOp) (f : Filter) (before : List Entity) (w : World)
      (go_on : List Entity → World → Outcome (Option (World × (List Entity × Option StoreError))))
      (Good : World → Type 0)
      → Keeps c f Good
      → Good w
      → ((ds : List Entity) (w' : World)
          → Good w'
          → documents c w' < documents c w
          → Returns (Report c wo f ds w') (go_on ds w'))
      → (w' : World) (res : Error ⊎ Entity) → find_one_and_delete c f w ≡ (w', res)
      → Returns (Report c wo f before w) (deleted B wo before go_on w' res)
  unfolding deleted
  deleted-Report c wo f before w go_on Good keeps good k w' (inl err) e = (
    [],
    sym (ap (λ r. events r.0) e) ∙ laws.events-delete c f w ∙ sym (append-nil (events w)),
    (
      [],
      tt,
      inl (
        sym (append-nil before),
        λ h. (w, ap (λ r. r.1) e ∙ ap inl (ended err _ h), sym (ap (λ r. r.0) e)),
      ),
    ),
  )
  deleted-Report c wo f before w go_on Good keeps good k w' (inr old) e =
      let is_stored = keeps.stored w old good (ap (λ r. r.1) e) in
      let (p, is_p, del) = deleted_partial-returns old is_stored in
      let (r, is_r) =
        returned (cdc_write B old wo p w')
          (cdc_write-Returns B laws old wo p w' is_stored.set_ok) in
      let good' =
        of_Ensures (λ r. Good r.0) _ is_r
          (Good-cdc_write c f Good keeps old wo p w'
            (subst Good (ap (λ r. r.0) e) (keeps.on_delete w good))) in
      let same_documents =
        of_Ensures (λ r. documents c r.0 ≡ documents c w') _ is_r
          (documents-cdc_write c old wo p w') in
      let fewer : documents c r.0 < documents c w = omega (
        arith,
        same_documents,
        laws.documents-delete c f w old (ap (λ r. r.1) e),
        ap (λ r. documents c r.0) e,
      ) in
      rw (is_p, is_r)
        (Returns-map (Report c wo f before w') (Report c wo f before w) _
          (Report-moved c wo f before w w'
            (sym (ap (λ r. events r.0) e) ∙ laws.events-delete c f w))
          (after_delete-Report c wo f before old p w' (go_on (before ++ old ∷ [])) (del wo) r
            (λ _. k (before ++ old ∷ []) r.0 good' fewer)
            (of_Ensures (Wrote B laws wo p w') _ is_r (cdc_write-Wrote B laws old wo p w'))))

  delete_loop-Report :
      (fuel : ℕ) (c : Collection) (wo : WriteOp) (f : Filter) (before : List Entity) (w : World)
      (Good : World → Type 0)
      → Keeps c f Good
      → Good w
      → documents c w < fuel
      → Returns (Report c wo f before w) (delete_loop B fuel c wo f before w)
  unfolding delete_loop
  delete_loop-Report zero c wo f before w Good keeps good h = absurd (omega (arith, h))
  delete_loop-Report (suc fuel) c wo f before w Good keeps good h =
      deleted-Report c wo f before w (λ ds. delete_loop B fuel c wo f ds) Good keeps good
        (λ ds w' good' fewer.
          delete_loop-Report fuel c wo f ds w' Good keeps good' (omega (arith, h, fewer)))
        (find_one_and_delete c f w).0 (find_one_and_delete c f w).1 refl

  -- Let the filter be made without a panic, and let the documents that the search finds have an
  -- ObjectID, an int64 revision and set labels that are texts (an invariant of the database that
  -- deletions and CDC writes keep and that holds at the call). With more fuel than there are
  -- documents DeleteEntities returns. Each entity that it returns has its delete event acknowledged,
  -- in order, with the revision after its own, but for the last one after an error of the CDC write;
  -- without an error the last search found no document.
  pub delete_entities-Report :
      (fuel : ℕ) (coll : Dict Collection) (c : Collection) (wo : WriteOp) (q : Query) (f : Filter)
      (w : World) (Good : World → Type 0)
      → lookup wo.entity_type coll ≡ some c
      → filter B.object_id_from_hex q ≡ returns f
      → Keeps c f Good
      → Good w
      → documents c w < fuel
      → Returns (Report c wo f [] w) (delete_entities B fuel coll wo q w)
  unfolding delete_entities
  delete_entities-Report fuel coll c wo q f w Good here made keeps good h =
      rw (here, made) (delete_loop-Report fuel c wo f [] w Good keeps good h)
