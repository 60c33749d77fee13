-- ===== src/Entity/Store/Read.antt =====
-- ReadEntities of entity/store.go, and the projection that it asks the driver for.
use etre.Base.{
  ℕ, String, ◌≡◌, ◌≢◌, refl, subst, Bool, Option, none, some, List, [], ◌∷◌, ◌⊎◌, inl, inr, any,
  map, str_eq, eq_iff, arith, if◌then◌else◌, Bool-cases,
}
use etre.Base.Dict.{Dict, lookup, insert, has_key, lookup-insert, has_key-lookup}
use etre.Etre.{Value, Entity, ◌>>=◌, returns}
use etre.Query.{Query}
use etre.Entity.Filter.{Filter, filter}
use etre.Entity.Store.Errors.{Error}
use etre.Entity.Store.Driver.{Backend}
use etre.Entity.Store.{Reply, fail, on_collection}

pub record QueryFilter : Type 0 where
  pub return_labels : List String
  pub distinct : Bool

unfoldable pub add_labels : Dict ℕ → List String → Dict ℕ
add_labels p [] = p
add_labels p (label ∷ labels) = add_labels (insert label 1 p) labels

-- MongoDB returns `_id` unless it is excluded.
unfoldable pub exclude_id : Dict ℕ → Dict ℕ
exclude_id p = if has_key "_id" p then p else insert "_id" 0 p

-- All labels are returned when none is given.
unfoldable pub projection : List String → Dict ℕ
unfolding add_labels exclude_id
projection [] = []
projection (label ∷ labels) = exclude_id (add_labels [] (label ∷ labels))

-- The label of the distinct optimization.
unfoldable pub distinct_label : QueryFilter → Option String
distinct_label f = elim f.return_labels [
  | label ∷ [] ↦ if f.distinct then some label else none
  | _ ↦ none
]

module _ (B : Backend) where
  open B use {World, Collection, distinct, find}

  pub read_distinct : String → World × (Error ⊎ List Value) → Reply B (List Entity)
  unfolding fail
  read_distinct label (w, inl err) = fail B [] w err "db-read-distinct"
  read_distinct label (w, inr values) = returns (w, (map (λ v. (label, v) ∷ []) values, none))

  pub read_all : World × (Error ⊎ (Error ⊎ List Entity)) → Reply B (List Entity)
  unfolding fail
  read_all (w, inl err) = fail B [] w err "db-query"
  read_all (w, inr (inl err)) = fail B [] w err "db-read-cursor"
  read_all (w, inr (inr entities)) = returns (w, (entities, none))

  pub read_by :
      Option String → ℕ → Collection → Filter → List String → World → Reply B (List Entity)
  unfolding read_distinct read_all projection
  read_by (some label) batch_size c q labels w = read_distinct label (distinct c label q w)
  read_by none batch_size c q labels w = read_all (find c q (projection labels) batch_size w)

  -- An error leaves the nil slice, which is empty.
  unfoldable pub read_entities :
      Dict Collection → ℕ → String → Query → QueryFilter → World → Reply B (List Entity)
  unfolding on_collection read_by distinct_label
  read_entities coll batch_size entity_type q f w = on_collection B (lookup entity_type coll) λ c.
      do
        q' ← filter B.object_id_from_hex q
        read_by (distinct_label f) batch_size c q' f.return_labels w

lookup-add_labels :
    (p : Dict ℕ) (labels : List String) (l : String)
    → lookup l (add_labels p labels) ≡ (if any (λ x. str_eq x l) labels then some 1 else lookup l p)
unfolding add_labels
lookup-add_labels p [] l = refl
lookup-add_labels p (label ∷ labels) l =
    ground (arith, lookup-add_labels (insert label 1 p) labels l, lookup-insert label l 1 p)

or_excluded : String → Option ℕ → Option ℕ
or_excluded l none = if str_eq "_id" l then some 0 else none
or_excluded l (some n) = some n

lookup-exclude_id : (p : Dict ℕ) (l : String) → lookup l (exclude_id p) ≡ or_excluded l (lookup l p)
unfolding exclude_id or_excluded
lookup-exclude_id p l = elim (Bool-cases (str_eq "_id" l)) [
  | inl e ↦
      subst (λ l. lookup l (exclude_id p) ≡ or_excluded l (lookup l p)) ((eq_iff "_id" l).0 e) at_id
  | inr e ↦ ground (arith, e, lookup-insert "_id" l 0 p)
]
  where
    at_id : lookup "_id" (exclude_id p) ≡ or_excluded "_id" (lookup "_id" p)
    at_id = ground (arith, has_key-lookup "_id" p, lookup-insert "_id" "_id" 0 p)

-- With return labels given, the projection includes these and no other, and excludes `_id` if it is
-- not among them.
pub lookup-projection :
    (labels : List String) (l : String)
    → labels ≢ []
    → lookup l (projection labels)
      ≡ (if any (λ x. str_eq x l) labels then some 1 else if str_eq "_id" l then some 0 else none)
unfolding projection or_excluded lookup
lookup-projection [] l h = absurd (h refl)
lookup-projection (label ∷ labels) l h = ground (
  arith,
  lookup-exclude_id (add_labels [] (label ∷ labels)) l,
  lookup-add_labels [] (label ∷ labels) l,
)
