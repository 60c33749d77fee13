-- ===== src/Entity/Filter/Last.antt =====
-- What Filter keeps of a query, and when it panics.
use etre.Base.{
  ◌≡◌, refl, ◌⊎◌, inl, inr, Bool, true, false, ◌&&◌, not, Option, none, some, List, [], ◌∷◌, any,
  arith, Bool-cases, if◌then◌else◌,
}
use etre.Base.Bytes.{Bytes, codes, bytes_eq, eq_of_bytes_eq}
use etre.Etre.{ObjectId, Outcome, returns, panics, ◌>>=◌, Returns, Returns-bind, Returns-map}
use etre.Query.{QueryValue, Predicate, Query}
use etre.Entity.Filter.{
  Condition, Filter, condition_on, set_condition, id_value, value_of, condition, filter_from,
  filter,
}

-- The last predicate on a label.
abbrev pub last_on : Bytes → List Predicate → Option Predicate
last_on l [] = none
last_on l (p ∷ ps) = elim (last_on l ps) [
  | some q ↦ some q
  | none ↦ if bytes_eq p.label l then some p else none
]

abbrev pub is_text : QueryValue → Bool
is_text (QueryValue.string s) = true
is_text (QueryValue.strings vs) = true
is_text (QueryValue.int n) = false
is_text QueryValue.nil = false

-- A comparison of `_id` with something that is no text.
abbrev pub misuses_id : Predicate → Bool
misuses_id p =
    not (bytes_eq p.operator (codes "exists"))
    && (not (bytes_eq p.operator (codes "notexists"))
        && (bytes_eq p.label (codes "_id") && not (is_text p.value)))

condition_on-set :
    (l k : Bytes) (c : Condition) (f : Filter)
    → condition_on l (set_condition k c f) ≡ (if bytes_eq k l then some c else condition_on l f)
unfolding condition_on set_condition
condition_on-set l k c [] = refl
condition_on-set l k c ((j, d) ∷ f) = elim (Bool-cases (bytes_eq j k)) [
  | inl same ↦ ground (arith, same, eq_of_bytes_eq j k same)
  | inr other ↦ elim (Bool-cases (bytes_eq k l)) [
    | inl here ↦ ground (arith, other, here, eq_of_bytes_eq k l here, condition_on-set l k c f)
    | inr there ↦ ground (arith, other, there, condition_on-set l k c f)
  ]
]

module _ (object_id_from_hex : Bytes → ObjectId) where
  id_value-cases :
      (v : QueryValue)
      → (is_text v ≡ false → id_value object_id_from_hex v ≡ panics)
        × (is_text v ≡ true → Returns (λ _. Unit) (id_value object_id_from_hex v))
  unfolding id_value
  id_value-cases (QueryValue.string s) = (λ h. cc, λ _. tt)
  id_value-cases (QueryValue.strings vs) = (λ h. cc, λ _. tt)
  id_value-cases (QueryValue.int n) = (λ _. refl, λ h. cc)
  id_value-cases QueryValue.nil = (λ _. refl, λ h. cc)

  condition-panics : (p : Predicate) → misuses_id p ≡ true → condition object_id_from_hex p ≡ panics
  unfolding condition value_of
  condition-panics p h = ground (arith, (id_value-cases p.value).0)

  value_of-Returns :
      (p : Predicate)
      → (bytes_eq p.label (codes "_id") && not (is_text p.value)) ≡ false
      → Returns (λ _. Unit) (value_of object_id_from_hex p)
  unfolding value_of
  value_of-Returns p h = elim (Bool-cases (bytes_eq p.label (codes "_id"))) [
    | inl is_id ↦ rw is_id ((id_value-cases p.value).1 (ground (arith, h, is_id)))
    | inr no_id ↦ rw no_id tt
  ]

  condition-Returns :
      (p : Predicate) → misuses_id p ≡ false → Returns (λ _. Unit) (condition object_id_from_hex p)
  unfolding condition
  condition-Returns p h = elim (Bool-cases (bytes_eq p.operator (codes "exists"))) [
    | inl e ↦ rw e tt
    | inr e ↦ rw e (elim (Bool-cases (bytes_eq p.operator (codes "notexists"))) [
      | inl n ↦ rw n tt
      | inr n ↦ rw n (
          Returns-bind (λ _. Unit) (λ _. Unit) (value_of object_id_from_hex p) _
            (value_of-Returns p (ground (arith, h, e, n))) λ v u. tt)
    ])
  ]

  -- Where the last predicate leaves the label, after a filter that had `before` under it.
  abbrev pub Kept : Option Condition → Option Predicate → Option Condition → Type 0
  Kept before none after = after ≡ before
  Kept before (some p) after =
      (c : Condition) × (condition object_id_from_hex p ≡ returns c) × (after ≡ some c)

  Kept-step :
      (l : Bytes) (p : Predicate) (ps : List Predicate) (c : Condition) (f : Filter)
      (after : Option Condition)
      → condition object_id_from_hex p ≡ returns c
      → Kept (condition_on l (set_condition p.label c f)) (last_on l ps) after
      → Kept (condition_on l f) (last_on l (p ∷ ps)) after
  Kept-step l p ps c f after e k = at (last_on l ps) (Bool-cases (bytes_eq p.label l)) k
    where
      at :
          (later : Option Predicate)
          → (bytes_eq p.label l ≡ true) ⊎ (bytes_eq p.label l ≡ false)
          → Kept (condition_on l (set_condition p.label c f)) later after
          → Kept
              (condition_on l f)
              (elim later [ some q ↦ some q | none ↦ if bytes_eq p.label l then some p else none ])
              after
      at (some q) d k = k
      at none (inl here) k = rw here (c, e, ground (arith, k, here, condition_on-set l p.label c f))
      at none (inr there) k = rw there (ground (arith, k, there, condition_on-set l p.label c f))

  abbrev Results : Filter → List Predicate → Filter → Type 0
  Results f ps g = (l : Bytes) → Kept (condition_on l f) (last_on l ps) (condition_on l g)

  -- The two ways in which the loop can end.
  abbrev Ends : Filter → List Predicate → Outcome Filter → Type 0
  Ends f ps o =
      (any misuses_id ps ≡ true → o ≡ panics)
      × (any misuses_id ps ≡ false → Returns (Results f ps) o)

  Ends-step :
      (f : Filter) (p : Predicate) (ps : List Predicate) (o : Outcome Condition)
      → condition object_id_from_hex p ≡ o
      → Returns (λ _. Unit) o
      → misuses_id p ≡ false
      → ((g : Filter) → Ends g ps (filter_from object_id_from_hex g ps))
      → Ends f (p ∷ ps) (o >>= λ c. filter_from object_id_from_hex (set_condition p.label c f) ps)
  Ends-step f p ps panics e u use_ok k = absurd u
  Ends-step f p ps (returns c) e u use_ok k =
      let rest = k (set_condition p.label c f) in
      (
        λ h. rest.0 (ground (arith, h, use_ok)),
        λ h.
            Returns-map (Results (set_condition p.label c f) ps) (Results f (p ∷ ps))
              (filter_from object_id_from_hex (set_condition p.label c f) ps)
              (λ g k l. Kept-step l p ps c f (condition_on l g) e (k l))
              (rest.1 (ground (arith, h, use_ok))),
      )

  filter_from-Ends :
      (f : Filter) (ps : List Predicate) → Ends f ps (filter_from object_id_from_hex f ps)
  unfolding filter_from
  filter_from-Ends f [] = (λ h. cc, λ _ l. refl)
  filter_from-Ends f (p ∷ ps) = elim (Bool-cases (misuses_id p)) [
    | inl misuse ↦
        (λ _. rw (condition-panics p misuse) refl, λ h. absurd (ground (arith, h, misuse)))
    | inr use_ok ↦
        Ends-step f p ps (condition object_id_from_hex p) refl (condition-Returns p use_ok) use_ok
          (λ g. filter_from-Ends g ps)
  ]

  -- Filter panics exactly if some comparison of `_id` has a value that is no text and no list of
  -- texts. Else it returns a filter in which a label has the condition of the last predicate on it,
  -- and only labels of predicates have one: earlier predicates on the label are lost.
  pub filter_keeps_last :
      (q : Query)
      → (any misuses_id q.predicates ≡ true → filter object_id_from_hex q ≡ panics)
        × (any misuses_id q.predicates ≡ false
            → Returns
                (λ f. (l : Bytes) → Kept none (last_on l q.predicates) (condition_on l f))
                (filter object_id_from_hex q))
  unfolding filter condition_on
  filter_keeps_last q = filter_from-Ends [] q.predicates
