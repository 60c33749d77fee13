-- ===== src/Query/Tests.antt =====
-- Runs of the parser on small selectors, and instances of the theorems.
use etre.Base.{◌≡◌, refl, List, [], ◌∷◌, map, arith}
use etre.Base.Bytes.{codes}
use etre.Etre.{Returns}
use etre.Query.Kls.Chars.{
  is_op, is_space, is_invalid_label_char, trim_space, is_trim_space, trim, space_ahead,
  space_behind, is_space_of_two, is_space_of_three, split_commas,
}
use etre.Query.Kls.Scan.{ok, err, missing_equals, already_have_op}
use etre.Query.Kls.{parse_predicate, parse}
use etre.Query.Kls.Roundtrip.{Selector, exists, not_exists, compares, parse-print, meaning}
use etre.Query.Translate.{translate-IsTyped, TypedResult}
use etre.Query.{translate}

two_predicates :
    parse (codes "x=y,!z")
    ≡ ok (
        record { label = codes "x"; op = codes "="; values = codes "y" ∷ [] }
        ∷ record { label = codes "z"; op = codes "notexists"; values = [] }
        ∷ [])
unfolding parse parse_predicate is_op is_space is_invalid_label_char trim_space is_trim_space trim
    space_ahead space_behind is_space_of_two is_space_of_three
two_predicates = refl

set_of_values :
    parse (codes "app in (a,b)")
    ≡ ok (record { label = codes "app"; op = codes "in"; values = codes "a" ∷ codes "b" ∷ [] } ∷ [])
unfolding parse parse_predicate is_op is_space is_invalid_label_char trim_space is_trim_space trim
    space_ahead space_behind is_space_of_two is_space_of_three split_commas
set_of_values = refl

-- A no-break space and an em space are trimmed as other spaces are.
spaces_of_unicode : trim_space (0xC2 ∷ 0xA0 ∷ b'y' ∷ 0xE2 ∷ 0x80 ∷ 0x83 ∷ 0x20 ∷ []) ≡ codes "y"
unfolding trim_space is_trim_space trim space_ahead space_behind is_space_of_two is_space_of_three
spaces_of_unicode = refl

-- `!=` must follow at once, unless a space follows the `!`.
bang_before_space :
    (parse_predicate (codes "x!y") ≡ err missing_equals)
    × (parse_predicate (codes "x! y")
        ≡ ok (record { label = codes "x"; op = codes "!"; values = codes "y" ∷ [] }))
unfolding parse_predicate is_op is_space is_invalid_label_char trim_space is_trim_space trim
    space_ahead space_behind is_space_of_two is_space_of_three
bang_before_space = (refl, refl)

-- A second operator is refused, unless a space stands before it.
second_operator :
    (parse_predicate (codes "!x=y") ≡ err already_have_op)
    × (parse_predicate (codes "!x =y")
        ≡ ok (record { label = codes "x"; op = codes "="; values = codes "y" ∷ [] }))
unfolding parse_predicate is_op is_space is_invalid_label_char trim_space is_trim_space trim
    space_ahead space_behind is_space_of_two is_space_of_three
second_operator = (refl, refl)

abbrev some_selectors : List Selector
some_selectors =
    compares b'x' (b'1' ∷ []) b'<' (b'=' ∷ []) b'5' []
    ∷ not_exists b'z' []
    ∷ exists b'a' (b'b' ∷ [])
    ∷ []

parse-print_example : parse (codes "x1<=5,!z,ab") ≡ ok (map meaning some_selectors)
unfolding is_op is_space is_invalid_label_char
parse-print_example = parse-print some_selectors (ground arith)

-- An operator that is not in the language.
unknown_operator :
    parse_predicate (codes "x===y")
    ≡ ok (record { label = codes "x"; op = codes "==="; values = codes "y" ∷ [] })
unfolding parse_predicate is_op is_space is_invalid_label_char trim_space is_trim_space trim
    space_ahead space_behind is_space_of_two is_space_of_three
unknown_operator = refl

translate-IsTyped_example : Returns TypedResult (translate (codes "x>5,y=1"))
translate-IsTyped_example = translate-IsTyped (codes "x>5,y=1")
