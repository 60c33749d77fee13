-- ===== src/Etre.antt =====
-- The entity and event types of etre.go, and the methods of Entity that the API relies on.
--
-- An `interface{}` value is a `Value`: a constructor for each dynamic type that the code tests for,
-- and `other` with the name of the type for the rest (slices, maps, int8 and so on). A float64 is
-- its sign and its magnitude in units of 2^-1074, of which every finite float64 is a multiple.
-- int, int32 and int64 are bit patterns of 64 bits (an int32 is sign-extended).
use etre.Base.{
  ℕ, String, ◌≡◌, refl, subst, if◌then◌else◌, Bool, true, false, Option, none, some, List, [], ◌∷◌,
  str_eq, any,
}
use etre.Base.Dict.{Dict, lookup, has_key}

-- primitive.ObjectID by its hex form.
pub record ObjectId : Type 0 where
  pub hex : String

pub data Value : Type 0 where
  nil : Value
  string : String → Value
  bool : Bool → Value
  int : ℕ → Value
  int32 : ℕ → Value
  int64 : ℕ → Value
  float64 : Bool → ℕ → Value
  object_id : ObjectId → Value
  other : String → Value

abbrev pub Entity : Type 0
Entity = Dict Value

-- A run-time panic of Go ends the request: a failed type assertion or an explicit `panic`.
pub data Outcome {ℓ} (A : Type ℓ) : Type ℓ where
  returns : A → Outcome A
  panics : Outcome A

infixl 10 ◌>>=◌ ◌>>◌
abbrev pub ◌>>=◌ {ℓ κ} : {A : Type ℓ} {B : Type κ} → Outcome A → (A → Outcome B) → Outcome B
returns a >>= f = f a
panics >>= f = panics

abbrev pub ◌>>◌ {ℓ} : {B : Type ℓ} → Outcome (Unit {0}) → Outcome B → Outcome B
m >> k = m >>= λ _. k

-- What holds of the result if there is one; `Returns` also says that there is one.
abbrev pub Ensures {ℓ κ} : {A : Type ℓ} → (A → Type κ) → Outcome A → Type κ
Ensures P (returns a) = P a
Ensures P panics = Unit

abbrev pub Returns {ℓ} : {A : Type ℓ} → (A → Type 0) → Outcome A → Type 0
Returns P (returns a) = P a
Returns P panics = ⊥

pub of_Ensures {ℓ κ} :
    {A : Type ℓ} (P : A → Type κ) (o : Outcome A) {a : A} → o ≡ returns a → Ensures P o → P a
of_Ensures P o e h = subst (Ensures P) e h

pub Ensures-if {ℓ κ} :
    {A : Type ℓ} (P : A → Type κ) (b : Bool) (x y : Outcome A)
    → (b ≡ true → Ensures P x)
    → (b ≡ false → Ensures P y)
    → Ensures P (if b then x else y)
Ensures-if P true x y h k = h refl
Ensures-if P false x y h k = k refl

pub Ensures-bind {ℓ κ μ} :
    {A : Type ℓ} {B : Type κ} (P : B → Type μ) (m : Outcome A) (f : A → Outcome B)
    → ((a : A) → m ≡ returns a → Ensures P (f a))
    → Ensures P (m >>= f)
Ensures-bind P (returns a) f h = h a refl
Ensures-bind P panics f h = tt

pub Returns-bind {ℓ κ} :
    {A : Type ℓ} {B : Type κ} (P : A → Type 0) (Q : B → Type 0) (m : Outcome A) (f : A → Outcome B)
    → Returns P m
    → ((a : A) → P a → Returns Q (f a))
    → Returns Q (m >>= f)
Returns-bind P Q (returns a) f h k = k a h
Returns-bind P Q panics f h k = absurd h

pub Returns-map {ℓ} :
    {A : Type ℓ} (P Q : A → Type 0) (o : Outcome A)
    → ((a : A) → P a → Q a)
    → Returns P o
    → Returns Q o
Returns-map P Q (returns a) f h = f a h
Returns-map P Q panics f h = h

pub Returns-Ensures {ℓ} :
    {A : Type ℓ} (P : A → Type 0) (o : Outcome A)
    → Returns (λ _. Unit) o
    → Ensures P o
    → Returns P o
Returns-Ensures P (returns a) r h = h
Returns-Ensures P panics r h = r

pub returned {ℓ} : {A : Type ℓ} (o : Outcome A) → Returns (λ _. Unit) o → (a : A) × (o ≡ returns a)
returned (returns a) h = (a, refl)
returned panics h = absurd h

pub Ensures-map {ℓ κ μ} :
    {A : Type ℓ} (P : A → Type κ) (Q : A → Type μ) (o : Outcome A)
    → ((a : A) → P a → Q a)
    → Ensures P o
    → Ensures Q o
Ensures-map P Q (returns a) f h = f a h
Ensures-map P Q panics f h = tt

-- v.(string)
abbrev pub as_string : Option Value → Outcome String
as_string (some (string s)) = returns s
as_string _ = panics

unfoldable pub id : Entity → Outcome String
id e = as_string (lookup "_id" e)

unfoldable pub entity_type : Entity → Outcome String
entity_type e = as_string (lookup "_type" e)

abbrev as_rev : Option Value → Outcome ℕ
as_rev (some (int64 n)) = returns n
as_rev (some (int32 n)) = returns n
as_rev (some (int n)) = returns n
as_rev _ = panics

unfoldable pub rev : Entity → Outcome ℕ
rev e = as_rev (lookup "_rev" e)

unfoldable pub has : Entity → String → Bool
has e label = has_key label e

pub record Set : Type 0 where
  pub id : String
  pub op : String
  pub size : ℕ

-- A missing label leaves the zero value; one that is no string panics.
abbrev string_or_zero : Option Value → Outcome String
string_or_zero none = returns ""
string_or_zero v = as_string v

-- A size of another type leaves 0.
abbrev size_or_zero : Option Value → ℕ
size_or_zero (some (int64 n)) = n
size_or_zero (some (int32 n)) = n
size_or_zero (some (int n)) = n
size_or_zero _ = 0

unfoldable pub set : Entity → Outcome Set
set e = do
  i ← string_or_zero (lookup "_setId" e)
  o ← string_or_zero (lookup "_setOp" e)
  returns (record { id = i; op = o; size = size_or_zero (lookup "_setSize" e) })

abbrev pub meta_labels : List String
meta_labels = "_id" ∷ "_rev" ∷ "_setId" ∷ "_setOp" ∷ "_setSize" ∷ "_ts" ∷ "_type" ∷ []

unfoldable pub is_metalabel : String → Bool
is_metalabel label = any (λ l. str_eq l label) meta_labels

-- Entity.String: "" where the label is missing or is no string.
unfoldable pub string_value : Entity → String → String
string_value e label = elim (lookup label e) [ some (string s) ↦ s | _ ↦ "" ]

pub record CdcEvent : Type 0 where
  pub id : String
  pub ts : ℕ
  pub op : String
  pub caller : String
  pub entity_id : String
  pub entity_type : String
  pub entity_rev : ℕ
  pub old : Option Entity
  pub new : Option Entity
  pub set_id : String
  pub set_op : String
  pub set_size : ℕ
