-- ===== src/Query.antt =====
-- The package query: query/query.go, over the selectors of query/kls.go.
pub mod Kls
pub mod Translate
mod Tests
use etre.Base.{
  ℕ, ◌+◌, ◌*◌, ◌-◌, ◌^◌, ◌%◌, Bool, false, ◌&&◌, ◌||◌, Option, none, some, List, [], ◌∷◌, ◌⊎◌, inl,
  inr, leb, ltb, ◌==◌, if◌then◌else◌,
}
use etre.Base.Bytes.{Bytes, codes, bytes_eq}
use etre.Etre.{Outcome, returns, panics, ◌>>=◌}
use Kls.{Requirement, parse}
use Kls.Scan.{ParseError, Result, ok, err, panic}

-- The dynamic types that the code gives to Predicate.Value.
pub data QueryValue : Type 0 where
  nil : QueryValue
  string : Bytes → QueryValue
  strings : List Bytes → QueryValue
  int : ℕ → QueryValue

pub record Predicate : Type 0 where
  pub label : Bytes
  pub operator : Bytes
  pub value : QueryValue

pub record Query : Type 0 where
  pub predicates : List Predicate

-- strconv.Atoi, whose error the code drops: 0 for a text that is no number, the nearest int64 for a
-- number out of range. The result is a bit pattern.
unfoldable pub digits : ℕ → Bytes → Option ℕ
digits n [] = some n
digits n (c ∷ cs) =
    let rest = digits (n * 10 + (c - b'0')) cs in if leb b'0' c && leb c b'9' then rest else none

unfoldable pub unsigned : Bytes → Option ℕ
unfolding digits
unsigned [] = none
unsigned (c ∷ cs) = digits 0 (c ∷ cs)

unfoldable pub clamp_pos : Option ℕ → ℕ
clamp_pos none = 0
clamp_pos (some n) = if ltb n (2 ^ 63) then n else 2 ^ 63 - 1

unfoldable pub clamp_neg : Option ℕ → ℕ
clamp_neg none = 0
clamp_neg (some n) = if leb n (2 ^ 63) then (2 ^ 64 - n) % 2 ^ 64 else 2 ^ 63

unfoldable pub atoi : Bytes → ℕ
unfolding unsigned clamp_pos clamp_neg
atoi [] = 0
atoi (c ∷ cs) =
    if c == b'-'
    then clamp_neg (unsigned cs)
    else if c == b'+'
    then clamp_pos (unsigned cs)
    else clamp_pos (unsigned (c ∷ cs))

-- values[0]
abbrev pub first_value : List Bytes → Outcome Bytes
first_value [] = panics
first_value (v ∷ vs) = returns v

unfoldable pub one_of : Bytes → List Bytes → Bool
one_of op [] = false
one_of op (x ∷ xs) = bytes_eq op x || one_of op xs

unfoldable pub translate_values : Bytes → List Bytes → Outcome QueryValue
unfolding one_of atoi
translate_values operator values =
    if one_of operator (codes "in" ∷ codes "notin" ∷ [])
    then returns (strings values)
    else if one_of operator (codes "=" ∷ codes "==" ∷ codes "!=" ∷ [])
    then (do v ← first_value values; returns (string v))
    else if one_of operator (codes ">" ∷ codes ">=" ∷ codes "<" ∷ codes "<=" ∷ [])
    then (do v ← first_value values; returns (int (atoi v)))
    else returns nil

unfoldable pub to_predicates : List Requirement → Outcome (List Predicate)
unfolding translate_values
to_predicates [] = returns []
to_predicates (r ∷ rs) = do
  v ← translate_values r.op r.values
  ps ← to_predicates rs
  returns (record { label = r.label; operator = r.op; value = v } ∷ ps)

abbrev pub to_query : Result (List Requirement) → Outcome (ParseError ⊎ Query)
to_query panic = panics
to_query (err e) = returns (inl e)
to_query (ok req) = do ps ← to_predicates req; returns (inr (record { predicates = ps }))

unfoldable pub translate : Bytes → Outcome (ParseError ⊎ Query)
translate label_selectors = to_query (parse label_selectors)
