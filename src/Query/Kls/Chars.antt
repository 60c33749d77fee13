-- ===== src/Query/Kls/Chars.antt =====
-- The character classes of kls.go, and strings.TrimSpace and strings.Split as it uses them.
-- TrimSpace trims the spaces of Unicode, in UTF-8.
use mathlib.Core.List.{reverse}
use etre.Base.{ℕ, zero, suc, Bool, ◌&&◌, ◌||◌, List, [], ◌∷◌, leb, ◌==◌, if◌then◌else◌}
use etre.Base.Bytes.{Bytes}

unfoldable pub is_op : ℕ → Bool
is_op r = r == b'=' || (r == b'!' || (r == b'>' || r == b'<'))

unfoldable pub is_invalid_label_char : ℕ → Bool
unfolding is_op
is_invalid_label_char r =
    is_op r
    || (r == b'%'
        || (r == b'&'
            || (r == b'?'
                || (r == b'('
                    || (r == b')'
                        || (r == b'^'
                            || (r == b'+' || (r == b'~' || (r == 0x5C || r == b'*')))))))))

unfoldable pub is_space : ℕ → Bool
is_space r = r == 0x20 || (r == 0x09 || (r == 0x0D || r == 0x0A))

-- The spaces of Unicode of one byte, among them \v and \f.
unfoldable pub is_trim_space : ℕ → Bool
is_trim_space r = r == 0x20 || (r == 0x09 || (r == 0x0A || (r == 0x0B || (r == 0x0C || r == 0x0D))))

-- The spaces of two and of three bytes: U+0085 and U+00A0; U+1680, U+2000 to U+200A, U+2028, U+2029,
-- U+202F, U+205F and U+3000.
unfoldable pub is_space_of_two : ℕ → ℕ → Bool
is_space_of_two a b = a == 0xC2 && (b == 0x85 || b == 0xA0)

unfoldable pub is_space_of_three : ℕ → ℕ → ℕ → Bool
is_space_of_three a b c =
    (a == 0xE1 && (b == 0x9A && c == 0x80))
    || ((a == 0xE2
          && ((b == 0x80 && ((leb 0x80 c && leb c 0x8A) || (c == 0xA8 || (c == 0xA9 || c == 0xAF))))
              || (b == 0x81 && c == 0x9F)))
        || (a == 0xE3 && (b == 0x80 && c == 0x80)))

-- How many bytes a space has that the bytes `a ∷ s` begin with: 0 if they begin with none.
unfoldable pub space_ahead : ℕ → Bytes → ℕ
unfolding is_trim_space is_space_of_two is_space_of_three
space_ahead a [] = if is_trim_space a then 1 else 0
space_ahead a (b ∷ []) = if is_trim_space a then 1 else if is_space_of_two a b then 2 else 0
space_ahead a (b ∷ c ∷ s) =
    if is_trim_space a
    then 1
    else if is_space_of_two a b
    then 2
    else if is_space_of_three a b c
    then 3
    else 0

-- The same for the end of a text, where `a` is the last byte and `s` are those before it, backwards.
unfoldable pub space_behind : ℕ → Bytes → ℕ
unfolding is_trim_space is_space_of_two is_space_of_three
space_behind a [] = if is_trim_space a then 1 else 0
space_behind a (b ∷ []) = if is_trim_space a then 1 else if is_space_of_two b a then 2 else 0
space_behind a (b ∷ c ∷ s) =
    if is_trim_space a
    then 1
    else if is_space_of_two b a
    then 2
    else if is_space_of_three c b a
    then 3
    else 0

-- The bytes without `skip` of them and the spaces that follow.
unfoldable pub trim : (ℕ → Bytes → ℕ) → ℕ → Bytes → Bytes
trim width skip [] = []
trim width (suc skip) (c ∷ s) = trim width skip s
trim width zero (c ∷ s) = elim (width c s) [ zero ↦ c ∷ s | suc n ↦ trim width n s ]

unfoldable pub trim_space : Bytes → Bytes
unfolding trim space_ahead space_behind
trim_space s = reverse (trim space_behind 0 (reverse (trim space_ahead 0 s)))

-- strings.Split(s, ","): a text without a comma is one part.
add_to_first : ℕ → List Bytes → List Bytes
add_to_first c [] = (c ∷ []) ∷ []
add_to_first c (p ∷ ps) = (c ∷ p) ∷ ps

unfoldable pub split_commas : Bytes → List Bytes
unfolding add_to_first
split_commas [] = [] ∷ []
split_commas (c ∷ cs) =
    let rest = split_commas cs in if c == b',' then [] ∷ rest else add_to_first c rest
