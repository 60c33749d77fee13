-- ===== src/Entity/Tests.antt =====
-- Validation of small entities, and instances of the theorems.
use etre.Base.{◌^◌, ◌≡◌, ◌↔◌, refl, false, none, some, [], ◌∷◌, All}
use etre.Etre.{is_metalabel, nil, string, int, float64, Entity}
use etre.Entity.Validate.{
  on_create, on_update, on_delete, label_has_whitespace, cannot_set_metalabel, has_whitespace,
  check_label, check_value, check_labels, check_entity, check_entities, to_int, entities,
}
use etre.Entity.Validate.Casts.{AreCastsOf}
use etre.Entity.Validate.Accepts.{Accepted, entities_iff_Accepted, entities-cast}

abbrev host : Entity
host = ("hostname", string "db1") ∷ ("owner", nil) ∷ ("cores", float64 false (2 ^ 1080)) ∷ []

abbrev spaced : Entity
spaced = ("host name", string "db1") ∷ []

abbrev stamped : Entity
stamped = ("_rev", int 3) ∷ []

-- The error names the first entity at fault; `_setId` is no label that create protects.
errors_by_index :
    ((entities on_create (host ∷ spaced ∷ stamped ∷ [])).1 ≡ some (label_has_whitespace 1))
    × ((entities on_create (host ∷ stamped ∷ [])).1 ≡ some (cannot_set_metalabel 1))
    × ((entities on_create ((("_setId", string "a") ∷ []) ∷ [])).1 ≡ none)
    × ((entities on_delete (stamped ∷ [] ∷ [])).1 ≡ none)
unfolding entities check_entities check_entity check_labels check_label check_value to_int
    has_whitespace
errors_by_index = (refl, refl, refl, refl)

entities_iff_Accepted_example :
    ((entities on_create (host ∷ [])).1 ≡ none) ↔ All (Accepted on_create) (host ∷ [])
entities_iff_Accepted_example = entities_iff_Accepted on_create (host ∷ [])

host_is_valid : (entities on_update (host ∷ [])).1 ≡ none
unfolding entities check_entities check_entity check_labels check_label check_value to_int
    has_whitespace is_metalabel
host_is_valid = refl

entities-cast_example : AreCastsOf (host ∷ []) (entities on_update (host ∷ [])).0
entities-cast_example = entities-cast on_update (host ∷ []) host_is_valid
