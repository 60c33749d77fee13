-- ===== src/Query/Kls.antt =====
-- query/kls.go: Parse. A selector is its bytes. The code ranges over runes, but tests them against
-- ASCII characters only, so each byte of a longer rune is passed over as that rune is.
pub mod NoPanic
pub mod Chars
pub mod Split
pub mod Scan
pub mod Predicates
pub mod Roundtrip
use etre.Base.{◌-◌, not, ◌||◌, List, [], ◌∷◌, length, drop, ltb, if◌then◌else◌}
use etre.Base.Bytes.{Bytes, codes, bytes_eq, slice}
use Chars.{is_op, trim_space, split_commas}
use Split.{predicates}
use Scan.{
  stopped, stopped_in_value, no_value_after_op, empty_string, invalid_value_list, invalid_op,
  Result, ok, err, panic, ◌>>=◌, State, Req, scan, scan_char,
}

pub record Requirement : Type 0 where
  pub label : Bytes
  pub op : Bytes
  pub values : List Bytes

-- The switch after PARSE_LOOP: the requirement with its raw value.
unfoldable pub finish : Bytes → Req → Result (Req × Bytes)
finish sel r = elim r.state [
  | State.label ↦ ok (
    record r { label = drop r.left sel; op = if bytes_eq r.op [] then codes "exists" else r.op },
    [],
  )
  | State.op ↦ err stopped
  | State.symbol_op ↦ err stopped
  | State.set_op ↦ err stopped
  | State.value ↦
      if bytes_eq r.label [] || bytes_eq r.op []
      then err stopped_in_value
      else ok (r, trim_space (drop r.left sel))
  | State.space ↦
      if not (bytes_eq r.op [])
      then err no_value_after_op
      else if not (bytes_eq r.label [])
      then ok (record r { op = codes "exists" }, [])
      else err empty_string
]

-- req.val[1:len(req.val)-1], which panics where it is out of range.
unfoldable pub inner : Bytes → Result Bytes
inner val = if ltb (length val) 2 then panic else ok (slice val 1 (length val - 1))

unfoldable pub value_list : Bytes → Result (List Bytes)
unfolding inner
value_list val =
    if ltb (length val) 3
    then err invalid_value_list
    else (do list ← inner val; ok (split_commas list))

-- req.Op[0] panics where the operator is empty.
unfoldable pub values_of : Bytes → Bytes → Result (List Bytes)
unfolding value_list
values_of [] val = panic
values_of (c ∷ cs) val =
    if is_op c
    then ok (val ∷ [])
    else if bytes_eq (c ∷ cs) (codes "in") || bytes_eq (c ∷ cs) (codes "notin")
    then value_list val
    else if bytes_eq (c ∷ cs) (codes "exists") || bytes_eq (c ∷ cs) (codes "notexists")
    then ok []
    else err invalid_op

-- One turn of the loop over the predicates.
unfoldable pub parse_predicate : Bytes → Result Requirement
unfolding scan scan_char finish values_of
parse_predicate sel = do
  r ← scan sel 0 sel Scan.initial
  (q, val) ← finish sel r
  values ← values_of q.op val
  ok (record { label = q.label; op = q.op; values = values })

unfoldable pub parse_all : List Bytes → Result (List Requirement)
parse_all [] = ok []
parse_all (p ∷ ps) = do r ← parse_predicate p; rs ← parse_all ps; ok (r ∷ rs)

unfoldable pub parse : Bytes → Result (List Requirement)
unfolding parse_all predicates
parse [] = ok []
parse (c ∷ cs) = parse_all (predicates (c ∷ cs))
