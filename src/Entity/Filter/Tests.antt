-- ===== src/Entity/Filter/Tests.antt =====
-- Filters of small queries, and instances of the theorems, with an ObjectIDFromHex that accepts all.
use etre.Base.{◌≡◌, refl, true, false, none, [], ◌∷◌, any, arith}
use etre.Base.Bytes.{Bytes, codes}
use etre.Etre.{ObjectId, returns, panics, Returns}
use etre.Query.{QueryValue, Query}
use etre.Entity.Filter.{
  compares, value, object_id, filter, filter_from, condition, value_of, id_value, operator_of,
  set_condition, condition_on, id_filter,
}
use etre.Entity.Filter.Last.{misuses_id, Kept, last_on, filter_keeps_last}
use etre.Entity.Filter.ById.{id_filter-hex}

abbrev same_id : Bytes → ObjectId
same_id hex = record { hex = "5ca1ab1e" }

-- x>5,x<10,_id=ab
abbrev between : Query
between = record {
  predicates =
      record { label = codes "x"; operator = codes ">"; value = QueryValue.int 5 }
      ∷ record { label = codes "x"; operator = codes "<"; value = QueryValue.int 10 }
      ∷ record { label = codes "_id"; operator = codes "="; value = QueryValue.string (codes "ab") }
      ∷ [];
}

-- Only the last condition on x is left.
lower_bound_is_lost :
    filter same_id between
    ≡ returns (
        (codes "x", compares (codes "$lt") (value (QueryValue.int 10)))
        ∷ (codes "_id", compares (codes "$eq") (object_id (same_id (codes "ab"))))
        ∷ [])
unfolding filter filter_from condition value_of id_value operator_of set_condition
lower_bound_is_lost = refl

filter_keeps_last_example :
    (any misuses_id between.predicates ≡ true → filter same_id between ≡ panics)
    × (any misuses_id between.predicates ≡ false
        → Returns
            (λ f. (l : Bytes) → Kept same_id none (last_on l between.predicates) (condition_on l f))
            (filter same_id between))
filter_keeps_last_example = filter_keeps_last same_id between

id_filter-hex_example :
    id_filter same_id (codes "5c0a")
    ≡ returns ((codes "_id", compares (codes "$eq") (object_id (same_id (codes "5c0a")))) ∷ [])
id_filter-hex_example = id_filter-hex same_id b'5' (codes "c0a") (ground arith)
