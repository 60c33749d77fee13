-- ===== src/Entity/Validate/Accepts.antt =====
-- Which entities Entities accepts, whatever the order of their labels, and what it makes of them.
use Prim.Native.Char.{code}
use etre.Base.{
  ℕ, ◌+◌, String, ◌≡◌, ◌≢◌, refl, sym, subst, ◌↔◌, inl, inr, Bool, false, none, List, [], ◌∷◌, any,
  map, arith, str_eq, eq_iff, All, Bool-cases,
}
use etre.Etre.{
  Value, nil, string, bool, int, int32, int64, float64, object_id, other, Entity, is_metalabel,
  meta_labels,
}
use etre.Entity.Validate.{
  ValidateOp, on_create, on_update, on_delete, has_whitespace, check_metalabel, check_label,
  check_value, check_labels, check_entity, check_entities, entities, protected_on_create,
}
use etre.Entity.Validate.Casts.{cast, cast_all, casts-AreCastsOf, AreCastsOf}

-- The labels that the code refuses.
abbrev protected : ValidateOp → String → Bool
protected on_create label = any (λ ml. str_eq ml label) protected_on_create
protected on_update label = is_metalabel label
protected on_delete label = false

-- The types of value that JSON can give and the store keeps.
abbrev pub HasKind : Value → Type 0
HasKind nil = Unit
HasKind (string s) = Unit
HasKind (bool b) = Unit
HasKind (int n) = Unit
HasKind (float64 s m) = Unit
HasKind (int32 n) = ⊥
HasKind (int64 n) = ⊥
HasKind (object_id o) = ⊥
HasKind (other t) = ⊥

-- No character is a space or a tab.
abbrev pub NoBlank : String → Type 0
NoBlank String.[] = Unit
NoBlank (String.◌∷◌ c s) = ((code c ≢ 0x20) × (code c ≢ 0x09)) × NoBlank s

-- The label is none of those that a client may not give.
abbrev pub IsOpen : ValidateOp → String → Type 0
IsOpen on_create label = All (λ k. label ≢ k) ("_id" ∷ "_type" ∷ "_rev" ∷ "_ts" ∷ [])
IsOpen on_update label =
    All (λ k. label ≢ k) ("_id" ∷ "_rev" ∷ "_setId" ∷ "_setOp" ∷ "_setSize" ∷ "_ts" ∷ "_type" ∷ [])
IsOpen on_delete label = Unit

abbrev pub LabelOk : ValidateOp → String → Type 0
LabelOk op label = (label ≢ "") × NoBlank label × IsOpen op label

abbrev pub Accepted : ValidateOp → Entity → Type 0
Accepted op e = ((op ≢ on_delete) → e ≢ []) × All (λ p. LabelOk op p.0 × HasKind p.1) e

has_whitespace-NoBlank : (label : String) → (has_whitespace label ≡ false) ↔ NoBlank label
unfolding has_whitespace
has_whitespace-NoBlank String.[] = (λ h. tt, λ h. refl)
has_whitespace-NoBlank (String.◌∷◌ c s) = (
  λ h. ((ground (arith, h), ground (arith, h)), (has_whitespace-NoBlank s).0 (ground (arith, h))),
  λ h. ground (arith, h.0.0, h.0.1, (has_whitespace-NoBlank s).1 h.1),
)

not_eq : (key label : String) → (str_eq key label ≡ false) ↔ (label ≢ key)
not_eq key label = (
  λ h e. absurd (ground (arith, h, (eq_iff key label).1 (sym e))),
  λ h. ground (arith, eq_iff key label, λ (e : key ≡ label). h (sym e)),
)

none_of_iff :
    (keys : List String) (label : String)
    → (any (λ k. str_eq k label) keys ≡ false) ↔ All (λ k. label ≢ k) keys
none_of_iff [] label = (λ h. tt, λ h. refl)
none_of_iff (key ∷ keys) label = (
  λ h. ((not_eq key label).0 (ground (arith, h)), (none_of_iff keys label).0 (ground (arith, h))),
  λ h. ground (arith, (not_eq key label).1 h.0, (none_of_iff keys label).1 h.1),
)

protected_iff : (op : ValidateOp) (label : String) → (protected op label ≡ false) ↔ IsOpen op label
unfolding is_metalabel
protected_iff on_create label = none_of_iff protected_on_create label
protected_iff on_update label = none_of_iff meta_labels label
protected_iff on_delete label = (λ h. tt, λ h. refl)

check_metalabel_iff :
    (op : ValidateOp) (i : ℕ) (label : String)
    → (check_metalabel op i label ≡ none) ↔ (protected op label ≡ false)
unfolding check_metalabel
check_metalabel_iff on_create i label = (λ h. ground (arith, h), λ h. ground (arith, h))
check_metalabel_iff on_update i label = (λ h. ground (arith, h), λ h. ground (arith, h))
check_metalabel_iff on_delete i label = (λ h. refl, λ h. refl)

check_label-LabelOk :
    (op : ValidateOp) (i : ℕ) (label : String) → check_label op i label ≡ none → LabelOk op label
unfolding check_label
check_label-LabelOk op i label h = elim (Bool-cases (str_eq label "")) [
  | inl same ↦ absurd (ground (arith, h, same))
  | inr other_label ↦ (
    λ e. absurd (ground (arith, other_label, (eq_iff label "").1 e)),
    (has_whitespace-NoBlank label).0 (ground (arith, h, other_label)),
    (protected_iff op label).0
        ((check_metalabel_iff op i label).0 (ground (arith, h, other_label))),
  )
]

LabelOk-check_label :
    (op : ValidateOp) (i : ℕ) (label : String) → LabelOk op label → check_label op i label ≡ none
unfolding check_label
LabelOk-check_label op i label k = ground (
  arith,
  k.0,
  (has_whitespace-NoBlank label).1 k.1,
  (check_metalabel_iff op i label).1 ((protected_iff op label).1 k.2),
  eq_iff label "",
)

check_value-HasKind :
    (i : ℕ) (v : Value) → (check_value i v).1 ≡ none → HasKind v × ((check_value i v).0 ≡ cast v)
unfolding check_value
check_value-HasKind i nil h = (tt, refl)
check_value-HasKind i (string s) h = (tt, refl)
check_value-HasKind i (bool b) h = (tt, refl)
check_value-HasKind i (int n) h = (tt, refl)
check_value-HasKind i (float64 s m) h = (tt, refl)
check_value-HasKind i (int32 n) h = cc
check_value-HasKind i (int64 n) h = cc
check_value-HasKind i (object_id o) h = cc
check_value-HasKind i (other t) h = cc

HasKind-check_value : (i : ℕ) (v : Value) → HasKind v → (check_value i v).1 ≡ none
unfolding check_value
HasKind-check_value i nil h = refl
HasKind-check_value i (string s) h = refl
HasKind-check_value i (bool b) h = refl
HasKind-check_value i (int n) h = refl
HasKind-check_value i (float64 s m) h = refl
HasKind-check_value i (int32 n) h = absurd h
HasKind-check_value i (int64 n) h = absurd h
HasKind-check_value i (object_id o) h = absurd h
HasKind-check_value i (other t) h = absurd h

abbrev Entries : ValidateOp → Entity → Type 0
Entries op e = All (λ p. LabelOk op p.0 × HasKind p.1) e

check_labels-Entries :
    (op : ValidateOp) (i : ℕ) (e : Entity)
    → (check_labels op i e).1 ≡ none
    → Entries op e × ((check_labels op i e).0 ≡ cast_all e)
unfolding check_labels
check_labels-Entries op i [] h = (tt, refl)
check_labels-Entries op i ((label, val) ∷ e) h =
    let okl : check_label op i label ≡ none = ground (arith, h) in
    let okv : (check_value i val).1 ≡ none = ground (arith, h) in
    let rest = check_labels-Entries op i e (ground (arith, h)) in
    let v = check_value-HasKind i val okv in
    (((check_label-LabelOk op i label okl, v.0), rest.0), ground (arith, okl, okv, v.1, rest.1))

Entries-check_labels :
    (op : ValidateOp) (i : ℕ) (e : Entity) → Entries op e → (check_labels op i e).1 ≡ none
unfolding check_labels
Entries-check_labels op i [] h = refl
Entries-check_labels op i ((label, val) ∷ e) h = ground (
  arith,
  LabelOk-check_label op i label h.0.0,
  HasKind-check_value i val h.0.1,
  Entries-check_labels op i e h.1,
)

check_entity-Accepted :
    (op : ValidateOp) (i : ℕ) (e : Entity)
    → (check_entity op i e).1 ≡ none
    → Accepted op e × ((check_entity op i e).0 ≡ cast_all e)
unfolding check_entity
check_entity-Accepted on_create i [] h = cc
check_entity-Accepted on_update i [] h = cc
check_entity-Accepted on_delete i [] h =
    ((λ k. absurd (k refl), tt), (check_labels-Entries on_delete i [] h).1)
check_entity-Accepted on_create i (p ∷ e) h =
    let r = check_labels-Entries on_create i (p ∷ e) h in ((λ k q. cc, r.0), r.1)
check_entity-Accepted on_update i (p ∷ e) h =
    let r = check_labels-Entries on_update i (p ∷ e) h in ((λ k q. cc, r.0), r.1)
check_entity-Accepted on_delete i (p ∷ e) h =
    let r = check_labels-Entries on_delete i (p ∷ e) h in ((λ k q. cc, r.0), r.1)

Accepted-check_entity :
    (op : ValidateOp) (i : ℕ) (e : Entity) → Accepted op e → (check_entity op i e).1 ≡ none
unfolding check_entity
Accepted-check_entity on_create i [] h = absurd (h.0 (λ q. cc) refl)
Accepted-check_entity on_update i [] h = absurd (h.0 (λ q. cc) refl)
Accepted-check_entity on_delete i [] h = Entries-check_labels on_delete i [] tt
Accepted-check_entity on_create i (p ∷ e) h = Entries-check_labels on_create i (p ∷ e) h.1
Accepted-check_entity on_update i (p ∷ e) h = Entries-check_labels on_update i (p ∷ e) h.1
Accepted-check_entity on_delete i (p ∷ e) h = Entries-check_labels on_delete i (p ∷ e) h.1

check_entities-Accepted :
    (op : ValidateOp) (i : ℕ) (es : List Entity)
    → (check_entities op i es).1 ≡ none
    → All (Accepted op) es × ((check_entities op i es).0 ≡ map cast_all es)
unfolding check_entities
check_entities-Accepted op i [] h = (tt, refl)
check_entities-Accepted op i (e ∷ es) h =
    let here : (check_entity op i e).1 ≡ none = ground (arith, h) in
    let rest = check_entities-Accepted op (i + 1) es (ground (arith, h)) in
    let a = check_entity-Accepted op i e here in ((a.0, rest.0), ground (arith, here, a.1, rest.1))

Accepted-check_entities :
    (op : ValidateOp) (i : ℕ) (es : List Entity)
    → All (Accepted op) es
    → (check_entities op i es).1 ≡ none
unfolding check_entities
Accepted-check_entities op i [] h = refl
Accepted-check_entities op i (e ∷ es) h =
    ground (arith, Accepted-check_entity op i e h.0, Accepted-check_entities op (i + 1) es h.1)

-- Entities reports no error exactly if every entity is acceptable: not empty on create and update;
-- each label not "", without space and tab, and none of the meta labels that the operation protects;
-- each value nil or of type string, bool, int or float64.
pub entities_iff_Accepted :
    (op : ValidateOp) (es : List Entity) → ((entities op es).1 ≡ none) ↔ All (Accepted op) es
unfolding entities
entities_iff_Accepted op es =
    (λ h. (check_entities-Accepted op 0 es h).0, λ h. Accepted-check_entities op 0 es h)

-- Where it reports no error, the same entities come back with the same labels in order, each float64
-- whose integer part is in the range of int64 replaced by the int of this part with its sign, and
-- the values that are no float64 as they were.
pub entities-cast :
    (op : ValidateOp) (es : List Entity)
    → (entities op es).1 ≡ none
    → AreCastsOf es (entities op es).0
unfolding entities
entities-cast op es h =
    subst (AreCastsOf es) (sym (check_entities-Accepted op 0 es h).1) (casts-AreCastsOf es)
