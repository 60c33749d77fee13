-- ===== src/Entity/Store/Memory.antt =====
-- A backend in memory that meets the laws of `Driver`: one collection of ids, revisions and labels,
-- whose searches match every document, and a log of events that takes at most three.
use etre.Base.{
  ℕ, zero, suc, ◌<◌, String, ◌≡◌, refl, ◌⊎◌, inl, inr, Option, none, some, List, [], ◌∷◌, ◌++◌,
  length, map, ltb, arith, if◌then◌else◌,
}
use etre.Base.Int64.{add64}
use etre.Etre.{ObjectId, object_id, int64, Entity, CdcEvent}
use etre.Entity.Store.Errors.{Error, no_documents, other}
use etre.Entity.Store.Driver.{Backend, Laws}

pub record Memory : Type 0 where
  pub docs : List (ObjectId × ℕ × Entity)
  pub log : List CdcEvent

abbrev pub capacity : ℕ
capacity = 3

abbrev hex_of : ℕ → String
hex_of zero = "a0"
hex_of (suc n) = "a1"

abbrev pub document : ObjectId × ℕ × Entity → Entity
document (o, r, labels) = ("_id", object_id o) ∷ ("_rev", int64 r) ∷ labels

abbrev pub search_delete : Memory → List (ObjectId × ℕ × Entity) → Memory × (Error ⊎ Entity)
search_delete w [] = (w, inl no_documents)
search_delete w (d ∷ ds) = (record w { docs = ds }, inr (document d))

abbrev search_update : Memory → List (ObjectId × ℕ × Entity) → Memory × (Error ⊎ Entity)
search_update w [] = (w, inl no_documents)
search_update w ((o, r, labels) ∷ ds) =
    (record w { docs = (o, add64 r 1, labels) ∷ ds }, inr (document (o, r, labels)))

abbrev append_event : CdcEvent → Memory → Memory × Option Error
append_event ev w =
    if ltb (length w.log) capacity
    then (record w { log = w.log ++ ev ∷ [] }, none)
    else (w, some (other "log is full"))

abbrev new_id : Memory → ObjectId
new_id w = record { hex = hex_of (length w.docs) }

abbrev pub memory : Backend
memory = record {
  World = Memory;
  Collection = Unit {0};
  object_id_from_hex = λ s. record { hex = "a0" };
  new_object_id = λ w. (w, new_id w);
  now = λ w. 1700000000000000000;
  context_error = λ w. none;
  insert_one = λ c e w. (record w { docs = w.docs ++ (new_id w, 0, e) ∷ [] }, inr (new_id w));
  distinct = λ c l f w. (w, inr (map (λ d. object_id d.0) w.docs));
  find = λ c f p n w. (w, inr (inr (map document w.docs)));
  find_ids = λ c f w. (w, inr (map (λ d. inr d.0) w.docs));
  cursor_error = λ w. none;
  find_one_and_update = λ c f u ls w. search_update w w.docs;
  find_one_and_delete = λ c f w. search_delete w w.docs;
  cdc_write = append_event;
}

log-search_delete :
    (w : Memory) (ds : List (ObjectId × ℕ × Entity)) → (search_delete w ds).0.log ≡ w.log
log-search_delete w [] = refl
log-search_delete w (d ∷ ds) = refl

log-search_update :
    (w : Memory) (ds : List (ObjectId × ℕ × Entity)) → (search_update w ds).0.log ≡ w.log
log-search_update w [] = refl
log-search_update w ((o, r, labels) ∷ ds) = refl

fewer :
    (w : Memory) (ds : List (ObjectId × ℕ × Entity)) (e : Entity)
    → (search_delete w ds).1 ≡ inr e
    → w.docs ≡ ds
    → length (search_delete w ds).0.docs < length w.docs
fewer w [] e h same = cc
fewer w (d ∷ ds) e h same = rw same (omega arith)

pub memory_laws : Laws memory
memory_laws = record {
  events = λ w. w.log;
  documents = λ c w. length w.docs;
  events-new_object_id = λ w. refl;
  events-insert_one = λ c e w. refl;
  events-find_ids = λ c f w. refl;
  events-update = λ c f u ls w. log-search_update w w.docs;
  events-delete = λ c f w. log-search_delete w w.docs;
  events-write = λ ev w h. ground (arith, h);
  events-write_failed = λ ev w err h. ground (arith, h);
  documents-write = λ c ev w. ground arith;
  documents-delete = λ c f w e h. fewer w w.docs e h refl;
}

pub documents-length : (w : Memory) → memory_laws.documents tt w ≡ length w.docs
unfolding memory_laws
documents-length w = refl
