-- ===== src/Entity/Store.antt =====
-- entity/store.go: the operations of the entity store over a `Backend`, and the CDC event that each
-- write makes. Decode of a document cannot fail here but with the error of the call. An operation
-- on an entity type without a collection panics.
pub mod Errors
pub mod Driver
pub mod Partial
pub mod Log
pub mod Created
pub mod Deleted
pub mod Label
pub mod Read
mod Memory
mod Tests
use etre.Base.{
  ℕ, zero, suc, ◌/◌, ◌+◌, ◌^◌, ◌%◌, String, Bool, true, false, ◌&&◌, ◌||◌, Option, none, some, List,
  [], ◌∷◌, ◌++◌, ◌⊎◌, inl, inr, str_eq, map, ◌==◌, if◌then◌else◌,
}
use etre.Base.Dict.{Dict, lookup, insert, delete}
use etre.Base.Int64.{add64, lt64}
use etre.Base.Bytes.{Bytes, codes}
use etre.Etre.{ObjectId, Value, Entity, CdcEvent, Set, set, rev, Outcome, returns, panics, ◌>>=◌}
use etre.Query.{Query}
use etre.Entity.Filter.{Filter, filter, id_filter, Condition, equals, object_id}
use Errors.{Error, no_documents, is_no_documents, StoreError, db, db_error}
use Driver.{Backend, Update, patch_labels, unset_label}
use Partial.{
  WriteOp, CdcPartial, set_of, event_of, stamp, inserted, as_object_id, deleted_partial,
  updated_partial, label_deleted_partial,
}

module _ (B : Backend) where
  open B use {
    World, Collection, new_object_id, now, context_error, insert_one, find_ids, cursor_error,
    find_one_and_update, find_one_and_delete,
  }

  abbrev pub Reply {ℓ} : Type ℓ → Type ℓ
  Reply A = Outcome (World × (A × Option StoreError))

  abbrev pub wrote : String → World × Option Error → World × Option StoreError
  wrote entity_id (w, none) = (w, none)
  wrote entity_id (w, some err) = (w, some (db err "cdc-write" entity_id))

  unfoldable pub cdc_write :
      Entity → WriteOp → CdcPartial → World → Outcome (World × Option StoreError)
  unfolding set_of event_of
  cdc_write e wo cp w = do
    s ← set e
    returns (wrote cp.id.hex (B.cdc_write (event_of wo cp (set_of wo s) (now w)) w))

  pub fail {ℓ} : {A : Type ℓ} → A → World → Error → String → Reply A
  fail a w err type = returns (w, (a, some (db_error (context_error w) err type)))

  -- Go on after cdcWrite, unless it failed.
  abbrev pub after {ℓ} : {A : Type ℓ} → A → (World → Reply A) → World × Option StoreError → Reply A
  after a k (w, none) = k w
  after a k (w, some err) = returns (w, (a, some err))

  -- After InsertOne of the stamped entity `e`: `go_on` is the rest of the loop.
  pub created :
      WriteOp
      → List String
      → Entity
      → (List String → World → Reply (List String))
      → World
      → Error ⊎ ObjectId
      → Reply (List String)
  unfolding fail
  created wo new_ids e go_on w (inl err) = fail new_ids w err "db-insert"
  created wo new_ids e go_on w (inr id) =
      let ids = new_ids ++ id.hex ∷ [] in cdc_write e wo (inserted e id) w >>= after ids (go_on ids)

  -- The loop of CreateEntities with the ids so far. The entities are stamped in place, which only
  -- the driver and the event see.
  pub create_loop : Collection → WriteOp → List String → List Entity → World → Reply (List String)
  unfolding created
  create_loop c wo new_ids [] w = returns (w, (new_ids, none))
  create_loop c wo new_ids (e ∷ es) w =
      let (w1, o) = new_object_id w in
      let e' = stamp wo o e in
      let (w2, res) = insert_one c e' w1 in
      created wo new_ids e' (λ ids. create_loop c wo ids es) w2 res

  pub on_collection {ℓ} : {A : Type ℓ} → Option Collection → (Collection → Outcome A) → Outcome A
  on_collection none k = panics
  on_collection (some c) k = k c

  unfoldable pub create_entities :
      Dict Collection → WriteOp → List Entity → World → Reply (List String)
  unfolding on_collection create_loop
  create_entities coll wo es w =
      on_collection (lookup wo.entity_type coll) λ c. create_loop c wo [] es w

  -- How a loop ends that may run out of fuel, which is `none`.
  abbrev pub Fueled {ℓ} : Type ℓ → Type ℓ
  Fueled A = Outcome (Option (World × (A × Option StoreError)))

  abbrev pub after_delete :
      List Entity
      → (World → Fueled (List Entity))
      → World × Option StoreError
      → Fueled (List Entity)
  after_delete ds go_on (w, none) = go_on w
  after_delete ds go_on (w, some err) = returns (some (w, (ds, some err)))

  -- After FindOneAndDelete.
  pub deleted :
      WriteOp
      → List Entity
      → (List Entity → World → Fueled (List Entity))
      → World
      → Error ⊎ Entity
      → Fueled (List Entity)
  deleted wo ds go_on w (inl err) =
      let failed = some (db_error (context_error w) err "db-delete") in
      returns (some (w, (ds, if is_no_documents err then none else failed)))
  deleted wo ds go_on w (inr old) = do
    p ← deleted_partial old
    r ← cdc_write old wo p w
    after_delete (ds ++ old ∷ []) (go_on (ds ++ old ∷ [])) r

  -- The loop of DeleteEntities, for at most `fuel` turns.
  pub delete_loop : ℕ → Collection → WriteOp → Filter → List Entity → World → Fueled (List Entity)
  unfolding deleted
  delete_loop zero c wo f ds w = returns none
  delete_loop (suc fuel) c wo f ds w =
      let (w', res) = find_one_and_delete c f w in
      deleted wo ds (λ ds. delete_loop fuel c wo f ds) w' res

  unfoldable pub delete_entities :
      ℕ → Dict Collection → WriteOp → Query → World → Fueled (List Entity)
  unfolding on_collection delete_loop
  delete_entities fuel coll wo q w =
      on_collection (lookup wo.entity_type coll)
        λ c. filter B.object_id_from_hex q >>= λ f. delete_loop fuel c wo f [] w

  -- After the loop over the cursor.
  cursor_end : List Entity → World → Reply (List Entity)
  unfolding fail
  cursor_end diffs w = elim (cursor_error w) [
    | some err ↦ fail diffs w err "db-cursor-next"
    | none ↦ returns (w, (diffs, none))
  ]

  -- After FindOneAndUpdate: `go_on` is the rest of the loop, which ends where the entity is gone.
  pub updated :
      WriteOp
      → Entity
      → List Entity
      → (List Entity → World → Reply (List Entity))
      → World
      → Error ⊎ Entity
      → Reply (List Entity)
  unfolding fail cursor_end
  updated wo patch diffs go_on w (inl err) =
      if is_no_documents err then cursor_end diffs w else fail diffs w err "db-update"
  updated wo patch diffs go_on w (inr orig) = do
    p ← updated_partial patch orig
    r ← cdc_write patch wo p w
    after (diffs ++ orig ∷ []) (go_on (diffs ++ orig ∷ [])) r

  -- The loop over the documents of the cursor.
  pub update_loop :
      Collection
      → WriteOp
      → Entity
      → List Entity
      → List (Error ⊎ ObjectId)
      → World
      → Reply (List Entity)
  unfolding fail cursor_end updated
  update_loop c wo patch diffs [] w = cursor_end diffs w
  update_loop c wo patch diffs (inl err ∷ ids) w = fail diffs w err "db-cursor-decode"
  update_loop c wo patch diffs (inr o ∷ ids) w = do
    f ← id_filter B.object_id_from_hex (codes o.hex)
    let labels = "_id" ∷ "_type" ∷ "_rev" ∷ map (λ p. p.0) patch
    let (w', res) = find_one_and_update c f (patch_labels patch) labels w
    updated wo patch diffs (λ diffs. update_loop c wo patch diffs ids) w' res

  found :
      Collection
      → WriteOp
      → Entity
      → World × (Error ⊎ List (Error ⊎ ObjectId))
      → Reply (List Entity)
  unfolding fail
  found c wo patch (w, inl err) = fail [] w err "db-query"
  found c wo patch (w, inr ids) = update_loop c wo patch [] ids w

  unfoldable pub update_entities :
      Dict Collection → WriteOp → Query → Entity → World → Reply (List Entity)
  unfolding on_collection found
  update_entities coll wo q patch w =
      on_collection (lookup wo.entity_type coll)
        λ c. do f ← filter B.object_id_from_hex q; found c wo patch (find_ids c f w)

  -- After FindOneAndUpdate of DeleteLabel: the old entity, none if there is none.
  pub label_deleted : WriteOp → String → World × (Error ⊎ Entity) → Reply (Option Entity)
  unfolding fail
  label_deleted wo label (w, inl err) = fail none w err "db-update"
  label_deleted wo label (w, inr old) = do
    p ← label_deleted_partial label old
    r ← cdc_write [] wo p w
    returns (r.0, (some old, r.1))

  -- bson.M{"_id": id}
  abbrev pub by_id : WriteOp → Filter
  by_id wo = (codes "_id", equals (object_id (B.object_id_from_hex (codes wo.entity_id)))) ∷ []

  abbrev pub label_projection : String → List String
  label_projection label = "_id" ∷ "_type" ∷ "_rev" ∷ label ∷ []

  unfoldable pub delete_label : Dict Collection → WriteOp → String → World → Reply (Option Entity)
  unfolding on_collection label_deleted
  delete_label coll wo label w = on_collection (lookup wo.entity_type coll) λ c.
      label_deleted wo label
        (find_one_and_update c (by_id wo) (unset_label label) (label_projection label) w)
