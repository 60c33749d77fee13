-- ===== src/RevOrder/Tests.antt =====
-- Runs of InOrder on small inputs, and instances of the theorems.
use etre.Base.{ℕ, ◌≡◌, refl, true, none, List, [], ◌∷◌, map, arith, String}
use etre.Base.Dict.{lookup, insert, delete}
use etre.Etre.{CdcEvent, Outcome, returns, panics}
use etre.RevOrder.{RevOrder, new_rev_order, in_order}
use etre.RevOrder.Buffer.{sort, insert_sorted, by_rev_less, complete, last_rev}
use etre.RevOrder.Bounded.{bounded}
use etre.RevOrder.Feed.{feed}
use etre.RevOrder.Step.{Advances}
use etre.RevOrder.Advance.{in_order-Advances, new_rev_order-Inv}
use etre.RevOrder.Spec.{Tracks}
use etre.RevOrder.Reorder.{feed_in_any_order, InSync}
use etre.RevOrder.Stall.{duplicate_stalls}

abbrev event : String → ℕ → CdcEvent
event k rev = record {
  id = "";
  ts = 0;
  op = "u";
  caller = "c";
  entity_id = k;
  entity_type = "host";
  entity_rev = rev;
  old = none;
  new = none;
  set_id = "";
  set_op = "";
  set_size = 0;
}

abbrev start : RevOrder bounded
start = new_rev_order bounded 0 true

-- After revision 1 of the entity "a".
abbrev at_one : RevOrder bounded
at_one = record { reorder = []; lru = (bounded.add start.lru "a" 1).0; ignore_past_revs = true }

abbrev revs : Outcome (RevOrder bounded × List CdcEvent) → List ℕ
revs (returns (r, ds)) = map (λ d. d.entity_rev) ds
revs panics = []

abbrev shuffled : List CdcEvent
shuffled = event "a" 4 ∷ event "a" 2 ∷ event "a" 3 ∷ []

shuffled-revs : revs (feed bounded at_one shuffled) ≡ 2 ∷ 3 ∷ 4 ∷ []
unfolding feed in_order new_rev_order bounded sort complete insert_sorted by_rev_less last_rev
    lookup insert delete
shuffled-revs = refl

at_one-Tracks : Tracks bounded at_one "a" (record { last = 1; buf = [] })
unfolding bounded new_rev_order
at_one-Tracks = record { current = refl; buffered = refl }

feed_in_any_order_example : InSync bounded 4 "a" 1 shuffled (feed bounded at_one shuffled)
feed_in_any_order_example =
    feed_in_any_order bounded 4 (omega arith) at_one "a" 1 shuffled at_one-Tracks
      (refl, (refl, (refl, tt))) (omega arith) (omega arith) (omega arith)

abbrev at_seven : RevOrder bounded
at_seven = record start { lru = (bounded.add start.lru "a" 7).0 }

in_order-Advances_example : Advances bounded start (event "a" 7) (event "a" 7 ∷ []) at_seven
unfolding in_order new_rev_order bounded lookup
in_order-Advances_example =
    in_order-Advances bounded start at_seven (event "a" 7) (true, none)
      (new_rev_order-Inv bounded 0 true) refl

-- Revision 3 waits for revision 2.
abbrev waiting_for_two : RevOrder bounded
waiting_for_two = record at_one {
  reorder = ("a", record { prev = 1; buf = event "a" 3 ∷ [] }) ∷ [];
}

duplicate_stalls_example :
    (r' : RevOrder bounded) × (feed bounded waiting_for_two
        (event "a" 3 ∷ event "a" 2 ∷ event "a" 4 ∷ [])
      ≡ returns (r', []))
unfolding lookup new_rev_order bounded
duplicate_stalls_example =
    duplicate_stalls bounded waiting_for_two (record { prev = 1; buf = event "a" 3 ∷ [] })
      (event "a" 3) (event "a" 2 ∷ event "a" 4 ∷ []) refl refl refl (omega arith) refl refl
      (refl, (refl, tt)) (omega arith)
