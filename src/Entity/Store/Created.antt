-- ===== src/Entity/Store/Created.antt =====
-- CreateEntities: what it returns, and the CDC events that it leaves.
use mathlib.Core.List.{append-nil, append_assoc}
use etre.Base.{
  ℕ, suc, ◌||◌, false, str_eq, String, ◌≡◌, refl, sym, ap, subst, ◌∙◌, ◌⊎◌, inl, inr, Option, none,
  some, List, [], ◌∷◌, ◌++◌, map, length, All, arith,
}
use etre.Base.Dict.{Dict, lookup, insert, lookup-insert}
use etre.Etre.{
  ObjectId, object_id, string, int64, Entity, CdcEvent, set, Outcome, Ensures, Returns,
  Returns-bind, Returns-Ensures, of_Ensures, Ensures-bind, Ensures-map,
}
use etre.Entity.Store.Errors.{Error, StoreError, db}
use etre.Entity.Store.Driver.{Backend, Laws}
use etre.Entity.Store.Partial.{WriteOp, stamp, inserted}
use etre.Entity.Store.{cdc_write, after, created, create_loop, create_entities}
use etre.Entity.Store.Log.{Wrote, cdc_write-Wrote, cdc_write-Returns}

-- The event of a created entity: its new value has the type of the operation and revision 0.
pub record IsInsert (wo : WriteOp) (ev : CdcEvent) : Type 0 where
  pub op : ev.op ≡ "i"
  pub entity_rev : ev.entity_rev ≡ 0
  pub caller : ev.caller ≡ wo.caller
  pub entity_type : ev.entity_type ≡ wo.entity_type
  pub old : ev.old ≡ none
  pub new :
      (e : Entity) × (ev.new ≡ some e)
      × (lookup "_type" e ≡ some (string wo.entity_type))
      × (lookup "_rev" e ≡ some (int64 0))

abbrev pub ids_of : List CdcEvent → List String
ids_of = map (λ ev. ev.entity_id)

-- How the ids that are returned beside an error relate to the events: every id has its event, but
-- for the last one after an error of cdcWrite, which names it; without an error none is missing.
abbrev pub Accounts : List String → ℕ → List String → Option StoreError → List CdcEvent → Type 0
Accounts before n ids err evs =
    ((ids ≡ before ++ ids_of evs) × (err ≡ none → length evs ≡ n))
    ⊎ ((id : String) × (e : Error) × (ids ≡ before ++ ids_of evs ++ id ∷ [])
        × (err ≡ some (db e "cdc-write" id)))

stamp-labels :
    (wo : WriteOp) (o : ObjectId) (e : Entity)
    → (lookup "_type" (stamp wo o e) ≡ some (string wo.entity_type))
      × (lookup "_rev" (stamp wo o e) ≡ some (int64 0))
unfolding stamp
stamp-labels wo o e = (
  lookup-insert "_rev" "_type" (int64 0) _
      ∙ lookup-insert "_type" "_type" (string wo.entity_type) _,
  lookup-insert "_rev" "_rev" (int64 0) _,
)

-- Entity.Set does not panic.
abbrev pub HasSet : Entity → Type 0
HasSet e = Returns (λ _. Unit) (set e)

set-stamp : (wo : WriteOp) (o : ObjectId) (e : Entity) → set (stamp wo o e) ≡ set e
unfolding set stamp
set-stamp wo o e = rw (unset "_setId" refl, unset "_setOp" refl, unset "_setSize" refl) refl
  where
    unset :
        (l : String)
        → (str_eq "_rev" l || (str_eq "_type" l || str_eq "_id" l)) ≡ false
        → lookup l (stamp wo o e) ≡ lookup l e
    unset l h = ground (
      arith,
      h,
      lookup-insert "_rev" l (int64 0)
          (insert "_type" (string wo.entity_type) (insert "_id" (object_id o) e)),
      lookup-insert "_type" l (string wo.entity_type) (insert "_id" (object_id o) e),
      lookup-insert "_id" l (object_id o) e,
    )

module _ (B : Backend) (laws : Laws B) where
  open B use {World, Collection}
  open laws use {events}

  abbrev pub Report :
      WriteOp → List String → ℕ → World → World × (List String × Option StoreError) → Type 0
  Report wo before n w (w', (ids, err)) =
      (evs : List CdcEvent) × (events w' ≡ events w ++ evs)
      × All (IsInsert wo) evs
      × Accounts before n ids err evs

  after-Report :
      (wo : WriteOp) (before : List String) (n : ℕ) (e : Entity) (id : ObjectId) (w : World)
      (go_on : World → Outcome (World × (List String × Option StoreError)))
      → (lookup "_type" e ≡ some (string wo.entity_type)) × (lookup "_rev" e ≡ some (int64 0))
      → ((w' : World) → Ensures (Report wo (before ++ id.hex ∷ []) n w') (go_on w'))
      → (r : World × Option StoreError) → Wrote B laws wo (inserted e id) w r
      → Ensures (Report wo before (suc n) w) (after B (before ++ id.hex ∷ []) go_on r)
  after-Report wo before n e id w go_on labels k (w', some err) (same, e', failed) = (
    [],
    same ∙ sym (append-nil (events w)),
    tt,
    inr (id.hex, e', ap (λ x. x ++ id.hex ∷ []) (sym (append-nil before)), ap some failed),
  )
  after-Report wo before n e id w go_on labels k (w', none) (ev, logged, rec) =
      Ensures-map (Report wo (before ++ id.hex ∷ []) n w') (Report wo before (suc n) w) (go_on w')
        grow (k w')
    where
      here : IsInsert wo ev
      here = record {
        op = rec.op;
        entity_rev = rec.entity_rev;
        caller = rec.caller;
        entity_type = rec.entity_type;
        old = rec.old;
        new = (e, rec.new, labels.0, labels.1);
      }

      shift : (xs : List String) → (before ++ id.hex ∷ []) ++ xs ≡ before ++ ev.entity_id ∷ xs
      shift xs =
          append_assoc before (id.hex ∷ []) xs ∙ ap (λ i. before ++ i ∷ xs) (sym rec.entity_id)

      accounts :
          (ids : List String) (err : Option StoreError) (evs : List CdcEvent)
          → Accounts (before ++ id.hex ∷ []) n ids err evs
          → Accounts before (suc n) ids err (ev ∷ evs)
      accounts ids err evs (inl (all, count)) =
          inl (all ∙ shift (ids_of evs), λ h. omega (arith, count h))
      accounts ids err evs (inr (last, e', lost, failed)) =
          inr (last, e', lost ∙ ap (λ x. x ++ last ∷ []) (shift (ids_of evs)), failed)

      grow :
          (r : World × (List String × Option StoreError))
          → Report wo (before ++ id.hex ∷ []) n w' r
          → Report wo before (suc n) w r
      grow (w'', (ids, err)) (evs, more, inserts, acc) = (
        ev ∷ evs,
        more ∙ ap (λ x. x ++ evs) logged ∙ append_assoc (events w) (ev ∷ []) evs,
        (here, inserts),
        accounts ids err evs acc,
      )

  created-Report :
      (wo : WriteOp) (before : List String) (n : ℕ) (e : Entity) (w : World)
      (go_on : List String → World → Outcome (World × (List String × Option StoreError)))
      → (lookup "_type" e ≡ some (string wo.entity_type)) × (lookup "_rev" e ≡ some (int64 0))
      → ((ids : List String) (w' : World) → Ensures (Report wo ids n w') (go_on ids w'))
      → (res : Error ⊎ ObjectId)
      → Ensures (Report wo before (suc n) w) (created B wo before e go_on w res)
  unfolding created
  created-Report wo before n e w go_on labels k (inl err) =
      ([], sym (append-nil (events w)), tt, inl (sym (append-nil before), λ h. cc))
  created-Report wo before n e w go_on labels k (inr id) =
      Ensures-bind (Report wo before (suc n) w) (cdc_write B e wo (inserted e id) w) _ λ r eq.
        after-Report wo before n e id w (go_on (before ++ id.hex ∷ [])) labels
          (k (before ++ id.hex ∷ [])) r
          (of_Ensures (Wrote B laws wo (inserted e id) w) _ eq
            (cdc_write-Wrote B laws e wo (inserted e id) w))

  Report-moved :
      (wo : WriteOp) (before : List String) (n : ℕ) (w w1 : World)
      (o : Outcome (World × (List String × Option StoreError)))
      → events w1 ≡ events w
      → Ensures (Report wo before n w1) o
      → Ensures (Report wo before n w) o
  Report-moved wo before n w w1 o same h =
      Ensures-map (Report wo before n w1) (Report wo before n w) o
        (λ r (evs, more, inserts, acc). (evs, more ∙ ap (λ x. x ++ evs) same, inserts, acc)) h

  create_loop-Report :
      (c : Collection) (wo : WriteOp) (before : List String) (es : List Entity) (w : World)
      → Ensures (Report wo before (length es) w) (create_loop B c wo before es w)
  unfolding create_loop
  create_loop-Report c wo before [] w =
      ([], sym (append-nil (events w)), tt, inl (sym (append-nil before), λ h. refl))
  create_loop-Report c wo before (e ∷ es) w =
      let (w1, o) = B.new_object_id w in
      let e' = stamp wo o e in
      let (w2, res) = B.insert_one c e' w1 in
      Report-moved wo before (length (e ∷ es)) w w2 _
        (laws.events-insert_one c e' w1 ∙ laws.events-new_object_id w)
        (created-Report wo before (length es) e' w2 (λ ids. create_loop B c wo ids es)
          (stamp-labels wo o e) (λ ids w'. create_loop-Report c wo ids es w') res)

  after-Returns :
      (ids : List String) (go_on : World → Outcome (World × (List String × Option StoreError)))
      → ((w : World) → Returns (λ _. Unit) (go_on w))
      → (r : World × Option StoreError) → Returns (λ _. Unit) (after B ids go_on r)
  after-Returns ids go_on k (w, none) = k w
  after-Returns ids go_on k (w, some err) = tt

  created-Returns :
      (wo : WriteOp) (before : List String) (e : Entity) (w : World)
      (go_on : List String → World → Outcome (World × (List String × Option StoreError)))
      → Returns (λ _. Unit) (set e)
      → ((ids : List String) (w' : World) → Returns (λ _. Unit) (go_on ids w'))
      → (res : Error ⊎ ObjectId) → Returns (λ _. Unit) (created B wo before e go_on w res)
  unfolding created
  created-Returns wo before e w go_on h k (inl err) = tt
  created-Returns wo before e w go_on h k (inr id) =
      Returns-bind (λ _. Unit) (λ _. Unit) (cdc_write B e wo (inserted e id) w) _
        (cdc_write-Returns B laws e wo (inserted e id) w h)
        λ r _. after-Returns (before ++ id.hex ∷ []) _ (k (before ++ id.hex ∷ [])) r

  create_loop-Returns :
      (c : Collection) (wo : WriteOp) (before : List String) (es : List Entity) (w : World)
      → All HasSet es
      → Returns (λ _. Unit) (create_loop B c wo before es w)
  unfolding create_loop
  create_loop-Returns c wo before [] w h = tt
  create_loop-Returns c wo before (e ∷ es) w h =
      let o = (B.new_object_id w).1 in
      created-Returns wo before (stamp wo o e) _ (λ ids. create_loop B c wo ids es)
        (subst (Returns (λ _. Unit)) (sym (set-stamp wo o e)) h.0)
        (λ ids w'. create_loop-Returns c wo ids es w' h.1) _

  -- For an entity type with a collection, and entities whose set labels `_setId` and `_setOp` are
  -- texts where present, CreateEntities returns, and the CDC store has then acknowledged the events of
  -- the ids that it returns, in order and one for each, as inserts of revision 0 with the entity's
  -- type. Without an error these are as many as the entities. Only after an error of the CDC write
  -- there is one more id, the last one, whose event was not acknowledged and which the error names.
  pub create_entities-Report :
      (coll : Dict Collection) (c : Collection) (wo : WriteOp) (es : List Entity) (w : World)
      → lookup wo.entity_type coll ≡ some c
      → All HasSet es
      → Returns (Report wo [] (length es) w) (create_entities B coll wo es w)
  unfolding create_entities
  create_entities-Report coll c wo es w here h = rw here (
      Returns-Ensures (Report wo [] (length es) w) (create_loop B c wo [] es w)
        (create_loop-Returns c wo [] es w h) (create_loop-Report c wo [] es w))
