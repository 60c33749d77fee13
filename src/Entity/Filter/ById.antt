-- ===== src/Entity/Filter/ById.antt =====
-- The filter that UpdateEntities builds for one entity from the text of a selector.
use mathlib.Core.List.{reverse, reverse-cons, reverse-reverse}
use etre.Base.{
  ℕ, ◌≡◌, refl, subst, ◌∙◌, sym, ap, List, [], ◌∷◌, ◌++◌, arith, All, All-append, ◌≤◌, ◌⊎◌,
}
use etre.Base.Bytes.{Bytes, codes}
use etre.Etre.{ObjectId, returns, ◌>>=◌}
use etre.Query.Kls.Chars.{
  is_op, is_space, is_invalid_label_char, is_trim_space, is_space_of_two, is_space_of_three,
  space_ahead, space_behind, trim, trim_space,
}
use etre.Query.Kls.Roundtrip.{Plain, compares, parse-print, IsPlain}
use etre.Query.Kls.Scan.{Result, ok}
use etre.Query.Kls.{Requirement, parse}
use etre.Query.{translate, to_query, to_predicates, translate_values, one_of}
use etre.Entity.Filter.{
  Condition, object_id, filter, id_filter, value_of, id_value, condition, operator_of, filter_from,
  set_condition, query_or_empty,
}

-- A digit of ObjectID.Hex.
abbrev pub IsHexDigit : ℕ → Type 0
IsHexDigit c = ((b'0' ≤ c) × (c ≤ b'9')) ⊎ ((b'a' ≤ c) × (c ≤ b'f'))

space_ahead-hex : (c : ℕ) (cs : Bytes) → IsHexDigit c → space_ahead c cs ≡ 0
unfolding space_ahead is_trim_space is_space_of_two is_space_of_three
space_ahead-hex c [] h = ground (arith, h)
space_ahead-hex c (b ∷ []) h = ground (arith, h)
space_ahead-hex c (b ∷ d ∷ cs) h = ground (arith, h)

space_behind-hex : (c : ℕ) (cs : Bytes) → IsHexDigit c → space_behind c cs ≡ 0
unfolding space_behind is_trim_space is_space_of_two is_space_of_three
space_behind-hex c [] h = ground (arith, h)
space_behind-hex c (b ∷ []) h = ground (arith, h)
space_behind-hex c (b ∷ d ∷ cs) h = ground (arith, h)

trim-hex :
    (width : ℕ → Bytes → ℕ)
    → ((c : ℕ) (cs : Bytes) → IsHexDigit c → width c cs ≡ 0)
    → (cs : Bytes) → All IsHexDigit cs
    → trim width 0 cs ≡ cs
unfolding trim
trim-hex width no_space [] h = refl
trim-hex width no_space (c ∷ cs) h = rw (trim, no_space c cs h.0) refl

All-reverse : (cs : Bytes) → All IsHexDigit cs → All IsHexDigit (reverse cs)
All-reverse [] h = tt
All-reverse (c ∷ cs) h =
    subst (All IsHexDigit) (sym (reverse-cons c cs))
      (All-append IsHexDigit (reverse cs) (c ∷ []) (All-reverse cs h.1) (h.0, tt))

trim_space-hex : (cs : Bytes) → All IsHexDigit cs → trim_space cs ≡ cs
unfolding trim_space
trim_space-hex cs h =
    ap (λ x. reverse (trim space_behind 0 (reverse x))) (trim-hex space_ahead space_ahead-hex cs h)
    ∙ ap reverse (trim-hex space_behind space_behind-hex (reverse cs) (All-reverse cs h))
    ∙ reverse-reverse cs

Plain-hex : (cs : Bytes) → All IsHexDigit cs → All Plain cs
Plain-hex [] h = tt
Plain-hex (c ∷ cs) h = (ground (arith, h), Plain-hex cs h.1)

id_selector-IsPlain :
    (v : ℕ) (vs : Bytes)
    → All IsHexDigit (v ∷ vs)
    → IsPlain (compares b'_' (codes "id") b'=' [] v vs)
unfolding is_op is_space is_invalid_label_char
id_selector-IsPlain v vs h =
    (ground arith, refl, tt, refl, (ground (arith, h.0), ground (arith, h.0)), Plain-hex (v ∷ vs) h)

parse-id :
    (v : ℕ) (vs : Bytes)
    → All IsHexDigit (v ∷ vs)
    → parse (codes "_id=" ++ v ∷ vs)
      ≡ ok (record { label = codes "_id"; op = codes "="; values = (v ∷ vs) ∷ [] } ∷ [])
parse-id v vs h =
    parse-print (compares b'_' (codes "id") b'=' [] v vs ∷ []) (id_selector-IsPlain v vs h, tt)
    ∙ ap {B = Result (List Requirement)}
        (λ x. ok (record { label = codes "_id"; op = codes "="; values = x ∷ [] } ∷ []))
        (trim_space-hex (v ∷ vs) h)

-- From the hex form of an ObjectID, which is not empty, the text `_id=` with it is translated to a
-- query whose filter asks for that ObjectID and nothing else.
pub id_filter-hex :
    (object_id_from_hex : Bytes → ObjectId) (v : ℕ) (vs : Bytes)
    → All IsHexDigit (v ∷ vs)
    → id_filter object_id_from_hex (v ∷ vs)
      ≡ returns (
          (codes "_id", Condition.compares (codes "$eq") (object_id (object_id_from_hex (v ∷ vs))))
          ∷ [])
unfolding id_filter translate filter filter_from condition value_of id_value operator_of
    set_condition query_or_empty to_predicates translate_values one_of
id_filter-hex object_id_from_hex v vs h =
    ap (λ r. to_query r >>= λ q. filter object_id_from_hex (query_or_empty q)) (parse-id v vs h)
