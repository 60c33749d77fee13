-- ===== src/Entity/Filter.antt =====
-- entity/entity.go: the translation of a query into a filter of the MongoDB driver. The filter, a
-- bson.M, is a list of labels with their conditions. primitive.ObjectIDFromHex is a parameter.
pub mod Last
pub mod ById
mod Tests
use etre.Base.{
  Bool, true, false, Option, none, some, List, [], ◌∷◌, ◌++◌, map, if◌then◌else◌, ◌⊎◌, inl, inr,
}
use etre.Base.Bytes.{Bytes, codes, bytes_eq}
use etre.Etre.{ObjectId, Outcome, returns, panics, ◌>>=◌}
use etre.Query.Kls.Scan.{ParseError}
use etre.Query.{QueryValue, Predicate, Query, translate}

-- What the driver is given for a value.
pub data FilterValue : Type 0 where
  value : QueryValue → FilterValue
  object_id : ObjectId → FilterValue
  object_ids : List ObjectId → FilterValue

-- bson.M{"$exists": b}, bson.M{op: v}, or the value itself, which Filter does not make.
pub data Condition : Type 0 where
  exists : Bool → Condition
  compares : Bytes → FilterValue → Condition
  equals : FilterValue → Condition

abbrev pub Filter : Type 0
Filter = List (Bytes × Condition)

-- filter[label]
unfoldable pub condition_on : Bytes → Filter → Option Condition
condition_on l [] = none
condition_on l ((k, c) ∷ f) = if bytes_eq k l then some c else condition_on l f

-- filter[label] = c
unfoldable pub set_condition : Bytes → Condition → Filter → Filter
set_condition l c [] = (l, c) ∷ []
set_condition l c ((k, d) ∷ f) = if bytes_eq k l then (l, c) ∷ f else (k, d) ∷ set_condition l c f

abbrev pub operator_map : List (Bytes × Bytes)
operator_map =
    (codes "in", codes "$in")
    ∷ (codes "notin", codes "$nin")
    ∷ (codes "=", codes "$eq")
    ∷ (codes "==", codes "$eq")
    ∷ (codes "!=", codes "$ne")
    ∷ (codes "<", codes "$lt")
    ∷ (codes "<=", codes "$lte")
    ∷ (codes ">", codes "$gt")
    ∷ (codes ">=", codes "$gte")
    ∷ []

-- operatorMap[op]: "" for an operator that is not there.
unfoldable pub operator_of : List (Bytes × Bytes) → Bytes → Bytes
operator_of [] op = []
operator_of ((o, m) ∷ os) op = if bytes_eq o op then m else operator_of os op

-- The query of `q, _ :=`: an error leaves the empty one.
unfoldable pub query_or_empty : ParseError ⊎ Query → Query
query_or_empty (inr q) = q
query_or_empty (inl e) = record { predicates = [] }

module _ (object_id_from_hex : Bytes → ObjectId) where
  -- The switch on the type of a value for `_id`. Translate makes no ObjectID value.
  unfoldable pub id_value : QueryValue → Outcome FilterValue
  id_value (QueryValue.string s) = returns (object_id (object_id_from_hex s))
  id_value (QueryValue.strings vs) = returns (object_ids (map object_id_from_hex vs))
  id_value (QueryValue.int n) = panics
  id_value QueryValue.nil = panics

  unfoldable pub value_of : Predicate → Outcome FilterValue
  unfolding id_value
  value_of p = if bytes_eq p.label (codes "_id") then id_value p.value else returns (value p.value)

  -- The switch on the operator.
  unfoldable pub condition : Predicate → Outcome Condition
  unfolding value_of
  condition p =
      if bytes_eq p.operator (codes "exists")
      then returns (exists true)
      else if bytes_eq p.operator (codes "notexists")
      then returns (exists false)
      else (do v ← value_of p; returns (compares (operator_of operator_map p.operator) v))

  unfoldable pub filter_from : Filter → List Predicate → Outcome Filter
  filter_from f [] = returns f
  filter_from f (p ∷ ps) = condition p >>= λ c. filter_from (set_condition p.label c f) ps

  unfoldable pub filter : Query → Outcome Filter
  filter q = filter_from [] q.predicates

  -- uq, _ := query.Translate("_id=" + hex), and Filter(uq).
  unfoldable pub id_filter : Bytes → Outcome Filter
  unfolding query_or_empty
  id_filter hex = translate (codes "_id=" ++ hex) >>= λ r. filter (query_or_empty r)
