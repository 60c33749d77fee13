-- ===== src/Query/Translate.antt =====
-- Parse and Translate never index an empty text or slice, nor slice out of range, and what reaches the store is well typed.
use etre.Base.{ℕ, ◌≡◌, ◌≢◌, refl, ◌⊎◌, inl, inr, true, false, List, [], ◌∷◌, arith, All, Bool-cases}
use etre.Base.Bytes.{Bytes, codes}
use etre.Etre.{returns, Returns, Returns-bind, ◌>>=◌}
use etre.Query.Kls.Chars.{is_op}
use etre.Query.Kls.Scan.{ParseError, Result, ok, err, panic}
use etre.Query.Kls.{Requirement, parse}
use etre.Query.{
  QueryValue, Predicate, Query, one_of, atoi, first_value, translate_values, to_predicates,
  to_query, translate,
}
use etre.Query.Kls.NoPanic.{starts_with_op, HasValue, WhenOk, parse-HasValue}

abbrev pub sets : List Bytes
sets = codes "in" ∷ codes "notin" ∷ []

abbrev pub equalities : List Bytes
equalities = codes "=" ∷ codes "==" ∷ codes "!=" ∷ []

abbrev pub orders : List Bytes
orders = codes ">" ∷ codes ">=" ∷ codes "<" ∷ codes "<=" ∷ []

-- The value of a predicate has the type that its operator asks for.
pub record IsTyped (p : Predicate) : Type 0 where
  pub of_set : one_of p.operator sets ≡ true → (vs : List Bytes) × (p.value ≡ QueryValue.strings vs)
  pub of_equality :
      one_of p.operator equalities ≡ true → (v : Bytes) × (p.value ≡ QueryValue.string v)
  pub of_order : one_of p.operator orders ≡ true → (n : ℕ) × (p.value ≡ QueryValue.int n)

-- Each comparison operator begins with a character of `=!<>`.
starts_of_equality : (op : Bytes) → one_of op equalities ≡ true → starts_with_op op ≡ true
unfolding one_of is_op
starts_of_equality [] h = ground arith
starts_of_equality (c ∷ cs) h = ground arith

starts_of_order : (op : Bytes) → one_of op orders ≡ true → starts_with_op op ≡ true
unfolding one_of is_op
starts_of_order [] h = ground arith
starts_of_order (c ∷ cs) h = ground arith

abbrev Typed : Requirement → QueryValue → Type 0
Typed r v = IsTyped (record { label = r.label; operator = r.op; value = v })

-- The operator is in one of the lists at most.
disjoint :
    (op : Bytes)
    → (one_of op sets ≡ true → (one_of op equalities ≡ false) × (one_of op orders ≡ false))
      × (one_of op equalities ≡ true → one_of op orders ≡ false)
unfolding one_of
disjoint [] = (λ h. ground arith, λ h. ground arith)
disjoint (c ∷ cs) = (λ h. ground arith, λ h. ground arith)

translate_values-Typed :
    (r : Requirement) → HasValue r → Returns (Typed r) (translate_values r.op r.values)
unfolding translate_values
translate_values-Typed r h = elim (Bool-cases (one_of r.op sets)) [
  | inl is_set ↦ rw is_set (record {
    of_set = λ _. (r.values, refl);
    of_equality = λ e. absurd (ground (arith, e, (disjoint r.op).0 is_set));
    of_order = λ e. absurd (ground (arith, e, (disjoint r.op).0 is_set));
  })
  | inr no_set ↦ rw no_set (elim (Bool-cases (one_of r.op equalities)) [
    | inl is_equality ↦
        rw is_equality
          (equality is_equality no_set r.values (h (starts_of_equality r.op is_equality)))
    | inr no_equality ↦ rw no_equality (elim (Bool-cases (one_of r.op orders)) [
      | inl is_order ↦
          rw is_order (order no_set no_equality r.values (h (starts_of_order r.op is_order)))
      | inr no_order ↦ rw no_order (record {
        of_set = λ e. absurd (ground (arith, e, no_set));
        of_equality = λ e. absurd (ground (arith, e, no_equality));
        of_order = λ e. absurd (ground (arith, e, no_order));
      })
    ])
  ])
]
  where
    equality :
        one_of r.op equalities ≡ true
        → one_of r.op sets ≡ false
        → (vs : List Bytes) → vs ≢ []
        → Returns (Typed r) (first_value vs >>= λ v. returns (QueryValue.string v))
    equality is_equality no_set [] ne = absurd (ne refl)
    equality is_equality no_set (v ∷ vs) ne = record {
      of_set = λ e. absurd (ground (arith, e, no_set));
      of_equality = λ _. (v, refl);
      of_order = λ e. absurd (ground (arith, e, (disjoint r.op).1 is_equality));
    }

    order :
        one_of r.op sets ≡ false
        → one_of r.op equalities ≡ false
        → (vs : List Bytes) → vs ≢ []
        → Returns (Typed r) (first_value vs >>= λ v. returns (QueryValue.int (atoi v)))
    order no_set no_equality [] ne = absurd (ne refl)
    order no_set no_equality (v ∷ vs) ne = record {
      of_set = λ e. absurd (ground (arith, e, no_set));
      of_equality = λ e. absurd (ground (arith, e, no_equality));
      of_order = λ _. (atoi v, refl);
    }

to_predicates-IsTyped :
    (rs : List Requirement) → All HasValue rs → Returns (All IsTyped) (to_predicates rs)
unfolding to_predicates
to_predicates-IsTyped [] h = tt
to_predicates-IsTyped (r ∷ rs) h =
    Returns-bind (Typed r) (All IsTyped) (translate_values r.op r.values) _
      (translate_values-Typed r h.0)
      λ v tv.
        Returns-bind (All IsTyped) (All IsTyped) (to_predicates rs) _ (to_predicates-IsTyped rs h.1)
          λ ps tps. (tv, tps)

abbrev pub TypedResult : ParseError ⊎ Query → Type 0
TypedResult (inl e) = Unit
TypedResult (inr q) = All IsTyped q.predicates

-- Whatever the selector, Translate returns a query or an error: it panics neither at the first byte of
-- an operator, nor at the slice inside the parentheses of a list, nor at the first value (the slices
-- between offsets that the loops have passed are taken to be in range). In a query each predicate with `in` or `notin` has a list of texts for its value, each with `=`, `==` or `!=` a
-- text, and each with `<`, `<=`, `>` or `>=` an int.
pub translate-IsTyped : (label_selectors : Bytes) → Returns TypedResult (translate label_selectors)
unfolding translate
translate-IsTyped sel = at (parse sel) (parse-HasValue sel)
  where
    at :
        (p : Result (List Requirement)) → WhenOk (All HasValue) p → Returns TypedResult (to_query p)
    at panic h = absurd h
    at (err e) h = tt
    at (ok rs) h =
        Returns-bind (All IsTyped) TypedResult (to_predicates rs) _ (to_predicates-IsTyped rs h)
          λ ps t. t
