-- ===== src/Entity/Store/Partial.antt =====
-- entity/store.go: WriteOp of entity.go, and the part of a CDC event that each write makes.
use etre.Base.{
  ℕ, ◌-◌, ltb, ◌/◌, ◌+◌, ◌^◌, ◌%◌, String, ◌&&◌, ◌||◌, Option, none, some, [], ◌∷◌, str_eq, ◌==◌,
  if◌then◌else◌,
}
use etre.Base.Dict.{lookup, insert, delete}
use etre.Base.Int64.{add64, lt64}
use etre.Etre.{
  ObjectId, Value, string, int, int32, int64, object_id, Entity, CdcEvent, Set, rev, Outcome,
  returns, panics, ◌>>=◌,
}

pub record WriteOp : Type 0 where
  pub caller : String
  pub entity_type : String
  pub entity_id : String
  pub set_op : String
  pub set_id : String
  pub set_size : ℕ

pub record CdcPartial : Type 0 where
  pub op : String
  pub id : ObjectId
  pub old : Option Entity
  pub new : Option Entity
  pub rev : ℕ

-- The set of the entity, or that of the operation if the entity's has size 0.
unfoldable pub set_of : WriteOp → Set → Set
set_of wo s =
    if s.size == 0 && lt64 0 wo.set_size
    then (record { id = wo.set_id; op = wo.set_op; size = wo.set_size })
    else s

-- The event that cdcWrite makes; `now` is in nanoseconds.
unfoldable pub event_of : WriteOp → CdcPartial → Set → ℕ → CdcEvent
event_of wo cp s now = record {
  id = "";
  ts = now / 1000000;
  op = cp.op;
  caller = wo.caller;
  entity_id = cp.id.hex;
  entity_type = wo.entity_type;
  entity_rev = cp.rev;
  old = cp.old;
  new = cp.new;
  set_id = s.id;
  set_op = s.op;
  set_size = s.size;
}

-- The meta labels that CreateEntities sets.
unfoldable pub stamp : WriteOp → ObjectId → Entity → Entity
stamp wo o e =
    insert "_rev" (int64 0) (insert "_type" (string wo.entity_type) (insert "_id" (object_id o) e))

abbrev pub inserted : Entity → ObjectId → CdcPartial
inserted e o = record { op = "i"; id = o; old = none; new = some e; rev = 0 }

-- v.(primitive.ObjectID)
abbrev pub as_object_id : Option Value → Outcome ObjectId
as_object_id (some (object_id o)) = returns o
as_object_id _ = panics

-- The partial event of DeleteEntities.
unfoldable pub deleted_partial : Entity → Outcome CdcPartial
deleted_partial old = do
  o ← as_object_id (lookup "_id" old)
  r ← rev old
  returns (record { op = "d"; id = o; old = some old; new = none; rev = add64 r 1 })

-- The loop that copies the old values of a patch, without `_id`, `_type` and `_rev`.
unfoldable pub old_values : Entity → Entity
old_values [] = []
old_values ((k, v) ∷ e) =
    let rest = old_values e in
    if str_eq k "_id" || (str_eq k "_type" || str_eq k "_rev") then rest else (k, v) ∷ rest

-- The partial event of UpdateEntities.
unfoldable pub updated_partial : Entity → Entity → Outcome CdcPartial
unfolding old_values
updated_partial patch orig = do
  o ← as_object_id (lookup "_id" orig)
  r ← rev orig
  returns
      (record { op = "u"; id = o; old = some (old_values orig); new = some patch; rev = add64 r 1 })

-- An int32 that grows by one wraps at 2^31 and stays sign-extended.
unfoldable pub add32_one : ℕ → ℕ
add32_one n = let m = (n + 1) % 2 ^ 32 in if ltb m (2 ^ 31) then m else m + (2 ^ 64 - 2 ^ 32)

-- The revision after the old one, of the same type.
unfoldable pub next_rev : Option Value → Outcome Value
unfolding add32_one
next_rev (some (int n)) = returns (int (add64 n 1))
next_rev (some (int32 n)) = returns (int32 (add32_one n))
next_rev (some (int64 n)) = returns (int64 (add64 n 1))
next_rev _ = panics

-- The partial event of DeleteLabel.
unfoldable pub label_deleted_partial : String → Entity → Outcome CdcPartial
unfolding next_rev
label_deleted_partial label old = do
  v ← next_rev (lookup "_rev" old)
  o ← as_object_id (lookup "_id" old)
  r ← rev old
  let new = insert "_rev" v (delete label old)
  returns (record { op = "u"; id = o; old = some old; new = some new; rev = add64 r 1 })
