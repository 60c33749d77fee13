-- ===== src/Query/Kls/Split.antt =====
-- The first loop of Parse: the selector's predicates, split at the commas outside parentheses.
use etre.Base.{
  ℕ, ◌+◌, Bool, true, false, List, [], ◌∷◌, ◌++◌, length, drop, ltb, not, ◌==◌, if◌then◌else◌,
}
use etre.Base.Bytes.{Bytes, slice}

pub record SplitState : Type 0 where
  pub start_offset : ℕ
  pub pred : List Bytes
  pub in_value_list : Bool

-- The body of the loop, at `end_offset` and the character there.
unfoldable pub split_char : Bytes → SplitState → ℕ → ℕ → SplitState
split_char selector s end_offset r =
    if s.in_value_list
    then (if r == b')' then record s { in_value_list = false } else s)
    else if r == b'('
    then record s { in_value_list = true }
    else if not (r == b',')
    then s
    else record s {
      pred = s.pred ++ slice selector s.start_offset end_offset ∷ [];
      start_offset = end_offset + 1;
    }

unfoldable pub split_loop : Bytes → SplitState → ℕ → Bytes → SplitState
split_loop selector s end_offset [] = s
split_loop selector s end_offset (r ∷ rs) =
    split_loop selector (split_char selector s end_offset r) (end_offset + 1) rs

unfoldable pub last_predicate : Bytes → SplitState → List Bytes
last_predicate selector s =
    if ltb s.start_offset (length selector)
    then s.pred ++ drop s.start_offset selector ∷ []
    else s.pred

unfoldable pub predicates : Bytes → List Bytes
unfolding split_char split_loop last_predicate
predicates selector =
    last_predicate selector (
      split_loop selector (record { start_offset = 0; pred = []; in_value_list = false }) 0
        selector)
