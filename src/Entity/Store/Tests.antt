-- ===== src/Entity/Store/Tests.antt =====
-- Runs of the store in memory, and instances of the theorems.
use mathlib.Core.Sum.{inr-injective}
use etre.Base.{true, ℕ, ◌≡◌, refl, subst, inr, some, List, [], ◌∷◌, All, arith, eq_iff}
use etre.Base.Dict.{Dict, lookup}
use etre.Etre.{ObjectId, int64, object_id, string, Entity, set, rev, returns, Returns}
use etre.Query.{Query}
use etre.Entity.Filter.{filter, filter_from}
use etre.Entity.Store.Partial.{WriteOp}
use etre.Entity.Store.{create_entities, delete_label, delete_entities}
use etre.Entity.Store.Created.{Report, HasSet, create_entities-Report}
use etre.Entity.Store.Label.{delete_label-Report}
use etre.Entity.Store.Deleted.{IsStored, Keeps, delete_entities-Report}
use etre.Entity.Store.Read.{projection, distinct_label, lookup-projection}
use etre.Entity.Store.Memory.{
  Memory, document, search_delete, memory, memory_laws, documents-length,
}

abbrev by_alice : WriteOp
by_alice = record {
  caller = "alice";
  entity_type = "node";
  entity_id = "";
  set_op = "";
  set_id = "";
  set_size = 0;
}

abbrev collections : Dict (Unit {0})
collections = ("node", tt) ∷ []

abbrev empty_store : Memory
empty_store = record { docs = []; log = [] }

abbrev host : Entity
host = ("hostname", string "db1") ∷ ("_setId", string "s") ∷ []

node_has_collection : lookup "node" collections ≡ some tt
unfolding lookup
node_has_collection = refl

host-HasSet : HasSet host
unfolding set lookup
host-HasSet = tt

create_entities-Report_example :
    Returns
      (Report memory memory_laws by_alice [] 2 empty_store)
      (create_entities memory collections by_alice (host ∷ host ∷ []) empty_store)
create_entities-Report_example =
    create_entities-Report memory memory_laws collections tt by_alice (host ∷ host ∷ []) empty_store
      node_has_collection (host-HasSet, (host-HasSet, tt))

abbrev everything : Query
everything = record { predicates = [] }

filter-everything : filter memory.object_id_from_hex everything ≡ returns []
unfolding filter filter_from
filter-everything = refl

-- Every document of the memory is one that DeleteEntities can report.
abbrev Good : Memory → Type 0
Good u = All (λ d. IsStored (document d)) u.docs

memory_keeps : Keeps memory memory_laws tt [] Good
memory_keeps = record {
  stored = λ u d good h. found u.docs u d good h;
  on_delete = λ u good. rest u.docs u good good;
  on_write = λ ev u good. ground (arith, good);
}
  where
    found :
        (ds : List (ObjectId × ℕ × Entity)) (u : Memory) (d : Entity)
        → All (λ x. IsStored (document x)) ds
        → (search_delete u ds).1 ≡ inr d
        → IsStored d
    found [] u d good h = cc
    found (x ∷ ds) u d good h = subst IsStored (inr-injective _ d h) good.0

    rest :
        (ds : List (ObjectId × ℕ × Entity)) (u : Memory)
        → All (λ x. IsStored (document x)) ds
        → Good u
        → Good (search_delete u ds).0
    rest [] u good all = all
    rest (x ∷ ds) u good all = good.1

abbrev two_docs : Memory
two_docs = record {
  docs =
      (record { hex = "a0" }, 0, ("_setId", string "s") ∷ [])
      ∷ (record { hex = "a1" }, 4, ("zone", string "east") ∷ [])
      ∷ [];
  log = [];
}

two_docs-Good : Good two_docs
unfolding lookup set rev
two_docs-Good = (
  record { id = (record { hex = "a0" }, refl); rev_of = (0, refl); set_ok = tt },
  (record { id = (record { hex = "a1" }, refl); rev_of = (4, refl); set_ok = tt }, tt),
)

delete_entities-Report_example :
    Returns
      (etre.Entity.Store.Deleted.Report memory memory_laws tt by_alice [] [] two_docs)
      (delete_entities memory 3 collections by_alice everything two_docs)
delete_entities-Report_example =
    delete_entities-Report memory memory_laws 3 collections tt by_alice everything [] two_docs Good
      node_has_collection filter-everything memory_keeps two_docs-Good
      (omega (arith, documents-length two_docs))

-- The memory's answer to DeleteLabel of its first document.
abbrev updated_docs : Memory
updated_docs = record two_docs {
  docs =
      (record { hex = "a0" }, 1, ("_setId", string "s") ∷ [])
      ∷ (record { hex = "a1" }, 4, ("zone", string "east") ∷ [])
      ∷ [];
}

abbrev first_document : Entity
first_document =
    ("_id", object_id (record { hex = "a0" })) ∷ ("_rev", int64 0) ∷ ("_setId", string "s") ∷ []

first_rev : lookup "_rev" first_document ≡ some (int64 0)
unfolding lookup
first_rev = refl

first_id : lookup "_id" first_document ≡ some (object_id (record { hex = "a0" }))
unfolding lookup
first_id = refl

delete_label-Report_example :
    Returns
      (etre.Entity.Store.Label.Report memory memory_laws by_alice "zone"
        (record { hex = "a0" })
        first_document
        two_docs)
      (delete_label memory collections by_alice "zone" two_docs)
delete_label-Report_example =
    delete_label-Report memory memory_laws collections tt by_alice "zone" two_docs updated_docs
      first_document 0 (record { hex = "a0" }) node_has_collection refl
      (λ e. ground (arith, (eq_iff "zone" "_rev").1 e)) first_rev first_id

lookup-projection_example : lookup "_id" (projection ("zone" ∷ "env" ∷ [])) ≡ some 0
lookup-projection_example = lookup-projection ("zone" ∷ "env" ∷ []) "_id" (λ e. cc)

-- Without return labels nothing is excluded, not even `_id`; one label can be read as distinct.
projections :
    (projection [] ≡ [])
    × (distinct_label (record { return_labels = "zone" ∷ []; distinct = true }) ≡ some "zone")
unfolding projection distinct_label
projections = (refl, refl)
