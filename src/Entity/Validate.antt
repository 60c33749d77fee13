-- ===== src/Entity/Validate.antt =====
-- entity/validate.go. An error is its type with the index of the entity where there is one. The
-- entities come back beside the error, since floats are replaced in place. Labels are visited in the
-- order of the list, one of the orders in which Go may range over the map.
pub mod Casts
pub mod Accepts
use Prim.Native.Char.{code}
use etre.Base.{
  ℕ, ◌+◌, ◌-◌, ◌/◌, ◌%◌, ◌^◌, String, Bool, true, false, ◌&&◌, ◌||◌, Option, none, some, List, [],
  ◌∷◌, any, str_eq, leb, ltb, ◌==◌, if◌then◌else◌,
}
use etre.Etre.{
  Value, nil, string, bool, int, int32, int64, float64, object_id, other, Entity, is_metalabel,
}

-- VALIDATE_ON_CREATE, VALIDATE_ON_UPDATE, VALIDATE_ON_DELETE
pub data ValidateOp : Type 0 where
  on_create on_update on_delete : ValidateOp

pub data ValidationError : Type 0 where
  invalid_entity_type : ValidationError
  empty_entity : ℕ → ValidationError
  empty_string_label : ℕ → ValidationError
  label_has_whitespace : ℕ → ValidationError
  cannot_set_metalabel : ℕ → ValidationError
  cannot_change_metalabel : ℕ → ValidationError
  invalid_value_type : ℕ → ValidationError
  cannot_delete_metalabel : ValidationError

pub record Validator : Type 0 where
  pub entity_types : List String

-- validType[entityType]
unfoldable pub entity_type : Validator → String → Option ValidationError
entity_type v t = if any (λ x. str_eq x t) v.entity_types then none else some invalid_entity_type

-- strings.IndexAny(label, " \t") != -1
unfoldable pub has_whitespace : String → Bool
has_whitespace String.[] = false
has_whitespace (String.◌∷◌ c s) = code c == 0x20 || (code c == 0x09 || has_whitespace s)

abbrev pub protected_on_create : List String
protected_on_create = "_id" ∷ "_type" ∷ "_rev" ∷ "_ts" ∷ []

unfoldable pub check_metalabel : ValidateOp → ℕ → String → Option ValidationError
check_metalabel on_create i label =
    if any (λ ml. str_eq ml label) protected_on_create then some (cannot_set_metalabel i) else none
check_metalabel on_update i label =
    if is_metalabel label then some (cannot_change_metalabel i) else none
check_metalabel on_delete i label = none

unfoldable pub check_label : ValidateOp → ℕ → String → Option ValidationError
unfolding check_metalabel
check_label op i label =
    if str_eq label ""
    then some (empty_string_label i)
    else if has_whitespace label
    then some (label_has_whitespace i)
    else check_metalabel op i label

-- int(f): the integer part, as a bit pattern. Go leaves what is out of range to the implementation;
-- here it is the least int64, as on amd64.
unfoldable pub to_int : Bool → ℕ → ℕ
to_int negative magnitude =
    let whole = magnitude / 2 ^ 1074 in
    if negative
    then (if leb whole (2 ^ 63) then (2 ^ 64 - whole) % 2 ^ 64 else 2 ^ 63)
    else if ltb whole (2 ^ 63)
    then whole
    else 2 ^ 63

-- A float becomes an int; of the other values those of kind string, int and bool and nil stay.
unfoldable pub check_value : ℕ → Value → Value × Option ValidationError
unfolding to_int
check_value i nil = (nil, none)
check_value i (float64 negative magnitude) = (int (to_int negative magnitude), none)
check_value i (string s) = (string s, none)
check_value i (int n) = (int n, none)
check_value i (bool b) = (bool b, none)
check_value i v = (v, some (invalid_value_type i))

-- The loop over the labels, which an error ends.
unfoldable pub check_labels : ValidateOp → ℕ → Entity → Entity × Option ValidationError
check_labels op i [] = ([], none)
check_labels op i ((label, val) ∷ e) =
    let checked = check_value i val in
    let rest = check_labels op i e in
    elim (check_label op i label) [
      | some err ↦ ((label, val) ∷ e, some err)
      | none ↦ elim checked.1 [
        | some err ↦ ((label, val) ∷ e, some err)
        | none ↦ ((label, checked.0) ∷ rest.0, rest.1)
      ]
    ]

-- An empty entity is no error on delete.
unfoldable pub check_entity : ValidateOp → ℕ → Entity → Entity × Option ValidationError
check_entity on_create i [] = ([], some (empty_entity i))
check_entity on_update i [] = ([], some (empty_entity i))
check_entity op i e = check_labels op i e

-- The loop over the entities from index i.
unfoldable pub check_entities : ValidateOp → ℕ → List Entity → List Entity × Option ValidationError
check_entities op i [] = ([], none)
check_entities op i (e ∷ es) =
    let checked = check_entity op i e in
    let rest = check_entities op (i + 1) es in
    elim checked.1 [ some err ↦ (checked.0 ∷ es, some err) | none ↦ (checked.0 ∷ rest.0, rest.1) ]

unfoldable pub entities : ValidateOp → List Entity → List Entity × Option ValidationError
entities op es = check_entities op 0 es

unfoldable pub delete_label : String → Option ValidationError
delete_label label = if is_metalabel label then some cannot_delete_metalabel else none
