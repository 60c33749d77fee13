-- ===== src/Query/Kls/Scan.antt =====
-- PARSE_LOOP of kls.go: the state machine over one predicate.
use etre.Base.{ℕ, ◌+◌, not, ◌&&◌, ◌||◌, [], ◌∷◌, ◌==◌, if◌then◌else◌}
use etre.Base.Bytes.{Bytes, codes, bytes_eq, slice}
use etre.Query.Kls.Chars.{is_op, is_space, is_invalid_label_char}

pub data ParseError : Type 0 where
  invalid_first_char invalid_label_char already_have_op : ParseError
  invalid_paren missing_equals : ParseError
  stopped stopped_in_value no_value_after_op empty_string : ParseError
  invalid_value_list invalid_op : ParseError

pub data Result {ℓ} (A : Type ℓ) : Type ℓ where
  ok : A → Result A
  err : ParseError → Result A
  panic : Result A

infixl 10 ◌>>=◌
abbrev pub ◌>>=◌ {ℓ κ} : {A : Type ℓ} {B : Type κ} → Result A → (A → Result B) → Result B
ok a >>= f = f a
err e >>= f = err e
panic >>= f = panic

pub data State : Type 0 where
  space label op symbol_op set_op value : State

-- The variables of the loop: the requirement's label and op, left, state and next.
pub record Req : Type 0 where
  pub label : Bytes
  pub op : Bytes
  pub left : ℕ
  pub state : State
  pub next : State

abbrev pub initial : Req
initial = record { label = []; op = []; left = 0; state = State.space; next = State.label }

-- How one turn of the loop ends: `continue`, `break PARSE_LOOP`, or an error is returned.
pub data Flow : Type 0 where
  continues : Req → Flow
  breaks : Req → Flow
  fails : ParseError → Flow

-- The inner switch of `case state_space`, after `state = next`.
unfoldable pub enter : Req → State → ℕ → ℕ → Flow
enter r State.label right cur =
    if not (cur == b'!')
    then (if is_invalid_label_char cur
        then fails invalid_first_char
        else continues (record r { state = State.label; left = right }))
    else continues (record r { op = codes "notexists"; state = State.space; next = State.label })
enter r State.op right cur =
    continues
      (record r { left = right; state = if is_op cur then State.symbol_op else State.set_op })
enter r State.value right cur = breaks (record r { left = right; state = State.value })
enter r s right cur = continues (record r { state = s })

unfoldable pub scan_label : Bytes → Req → ℕ → ℕ → Flow
scan_label sel r right cur =
    if not (is_space cur) && not (is_op cur)
    then (if is_invalid_label_char cur then fails invalid_label_char else continues r)
    else if is_op cur
    then (if not (bytes_eq r.op [])
        then fails already_have_op
        else continues
            (record r { label = slice sel r.left right; state = State.symbol_op; left = right }))
    else continues
        (record r { label = slice sel r.left right; state = State.space; next = State.op })

-- The end of an operator, for both kinds.
unfoldable pub end_op : Bytes → Req → ℕ → ℕ → Flow
end_op sel r right cur =
    let op = slice sel r.left right in
    if not (is_space cur)
    then (if cur == b'(' && not (bytes_eq op (codes "in") || bytes_eq op (codes "notin"))
        then fails invalid_paren
        else if bytes_eq op (codes "!")
        then fails missing_equals
        else breaks (record r { op = op; left = right; state = State.value }))
    else continues (record r { op = op; state = State.space; next = State.value })

-- The body of the loop, at the offset `right` and the character `cur` there.
unfoldable pub scan_char : Bytes → Req → State → ℕ → ℕ → Flow
unfolding enter scan_label end_op
scan_char sel r State.space right cur =
    if is_space cur then continues r else enter r r.next right cur
scan_char sel r State.label right cur = scan_label sel r right cur
scan_char sel r State.set_op right cur =
    if not (is_space cur) && not (cur == b'(') then continues r else end_op sel r right cur
scan_char sel r State.symbol_op right cur =
    if not (is_space cur) && cur == b'=' then continues r else end_op sel r right cur
scan_char sel r s right cur = continues r

unfoldable pub scan : Bytes → ℕ → Bytes → Req → Result Req
scan sel right [] r = ok r
scan sel right (cur ∷ rest) r = elim (scan_char sel r r.state right cur) [
  | continues r' ↦ scan sel (right + 1) rest r'
  | breaks r' ↦ ok r'
  | fails e ↦ err e
]
