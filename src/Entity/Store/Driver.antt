-- ===== src/Entity/Store/Driver.antt =====
-- What the entity store calls: the collections of the MongoDB driver, the context, the clock, and
-- the CDC store. `World` is all that these calls read and change.
use etre.Base.{ℕ, String, ◌≡◌, Option, none, some, List, [], ◌∷◌, ◌++◌, ◌⊎◌, inr, ◌<◌}
use etre.Base.Dict.{Dict}
use etre.Base.Bytes.{Bytes}
use etre.Etre.{ObjectId, Value, Entity, CdcEvent}
use etre.Entity.Filter.{Filter}
use etre.Entity.Store.Errors.{Error}

-- $set with $inc of _rev, or $unset with $inc of _rev.
pub data Update : Type 0 where
  patch_labels : Entity → Update
  unset_label : String → Update

pub record Backend : Type 1 where
  pub World : Type 0
  pub Collection : Type 0
  -- primitive.ObjectIDFromHex: the zero ObjectID for a text that is none.
  pub object_id_from_hex : Bytes → ObjectId
  pub new_object_id : World → World × ObjectId
  -- time.Now().UnixNano()
  pub now : World → ℕ
  -- s.ctx.Err()
  pub context_error : World → Option Error
  -- The document's `_id`, or an error.
  pub insert_one : Collection → Entity → World → World × (Error ⊎ ObjectId)
  -- Distinct values of a label.
  pub distinct : Collection → String → Filter → World → World × (Error ⊎ List Value)
  -- Find with a projection and a batch size: an error, or what cursor.All gives.
  pub find : Collection → Filter → Dict ℕ → ℕ → World → World × (Error ⊎ (Error ⊎ List Entity))
  -- Find with a projection to `_id`: what Decode gives for each document of the cursor.
  pub find_ids : Collection → Filter → World → World × (Error ⊎ List (Error ⊎ ObjectId))
  -- cursor.Err() after the last document.
  pub cursor_error : World → Option Error
  -- The document as it was, projected to the labels.
  pub find_one_and_update :
      Collection → Filter → Update → List String → World → World × (Error ⊎ Entity)
  -- The document that was deleted.
  pub find_one_and_delete : Collection → Filter → World → World × (Error ⊎ Entity)
  -- s.cdcs.Write
  pub cdc_write : CdcEvent → World → World × Option Error

module _ (B : Backend) where
  open B use {
    World, Collection, new_object_id, insert_one, find_ids, find_one_and_update,
    find_one_and_delete, cdc_write,
  }

  -- `events` are the CDC events that the CDC store has acknowledged as written. They change by Write
  -- alone, which acknowledges the event unless it returns an error (the store may hold the event of a
  -- Write that failed all the same, which is not counted here). Each deletion leaves fewer documents.
  pub record Laws : Type 0 where
    pub events : World → List CdcEvent
    pub documents : Collection → World → ℕ
    pub events-new_object_id : (w : World) → events (new_object_id w).0 ≡ events w
    pub events-insert_one :
        (c : Collection) (e : Entity) (w : World) → events (insert_one c e w).0 ≡ events w
    pub events-find_ids :
        (c : Collection) (f : Filter) (w : World) → events (find_ids c f w).0 ≡ events w
    pub events-update :
        (c : Collection) (f : Filter) (u : Update) (ls : List String) (w : World)
        → events (find_one_and_update c f u ls w).0 ≡ events w
    pub events-delete :
        (c : Collection) (f : Filter) (w : World) → events (find_one_and_delete c f w).0 ≡ events w
    pub events-write :
        (e : CdcEvent) (w : World)
        → (cdc_write e w).1 ≡ none
        → events (cdc_write e w).0 ≡ events w ++ e ∷ []
    pub events-write_failed :
        (e : CdcEvent) (w : World) (err : Error)
        → (cdc_write e w).1 ≡ some err
        → events (cdc_write e w).0 ≡ events w
    pub documents-write :
        (c : Collection) (e : CdcEvent) (w : World) → documents c (cdc_write e w).0 ≡ documents c w
    pub documents-delete :
        (c : Collection) (f : Filter) (w : World) (e : Entity)
        → (find_one_and_delete c f w).1 ≡ inr e
        → documents c (find_one_and_delete c f w).0 < documents c w
