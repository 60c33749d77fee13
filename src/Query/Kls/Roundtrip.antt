-- ===== src/Query/Kls/Roundtrip.antt =====
-- Selectors that are printed and parsed again.
use mathlib.Core.List.{append_assoc, append-nil}
use etre.Base.{
  ℕ, ◌+◌, ◌<◌, ◌≡◌, ◌≢◌, refl, sym, ap, ◌∙◌, true, false, List, [], ◌∷◌, ◌++◌, map, arith, length,
  length-append, drop, All, All-append,
}
use etre.Base.Bytes.{Bytes, codes, bytes_eq, slice, drop-append}
use etre.Query.Kls.Chars.{is_op, is_space, trim_space}
use etre.Query.Kls.Split.{SplitState, split_char, split_loop, last_predicate, predicates}
use etre.Query.Kls.Scan.{ok, ◌>>=◌}
use etre.Query.Kls.{Requirement, parse_predicate, parse_all, parse}
use etre.Query.Kls.Predicates.{
  LabelChar, slice-append, parse_predicate-exists, parse_predicate-notexists,
  parse_predicate-symbol,
}

-- Neither a comma nor an opening parenthesis.
abbrev pub Plain : ℕ → Type 0
Plain c = (c ≢ b',') × (c ≢ b'(')

abbrev pub join : List Bytes → Bytes
join [] = []
join (p ∷ []) = p
join (p ∷ q ∷ ps) = p ++ b',' ∷ join (q ∷ ps)

length_pos : (p : Bytes) → p ≢ [] → 0 < length p
length_pos [] h = absurd (h refl)
length_pos (c ∷ p) h = omega arith

module _ (sel : Bytes) where
  abbrev outside : ℕ → List Bytes → SplitState
  outside start acc = record { start_offset = start; pred = acc; in_value_list = false }

  pass-Plain :
      (start i : ℕ) (acc : List Bytes) (p rest : Bytes)
      → All Plain p
      → split_loop sel (outside start acc) i (p ++ rest)
        ≡ split_loop sel (outside start acc) (i + length p) rest
  unfolding split_loop split_char
  pass-Plain start i acc [] rest h =
      ap (λ n. split_loop sel (outside start acc) n rest) (omega arith)
  pass-Plain start i acc (c ∷ p) rest h =
      let stay : split_char sel (outside start acc) i c ≡ outside start acc =
        ground (arith, h.0.0, h.0.1) in
      ap (λ s. split_loop sel s (i + 1) (p ++ rest)) stay
      ∙ pass-Plain start (i + 1) acc p rest h.1
      ∙ ap (λ n. split_loop sel (outside start acc) n rest) (omega arith)

  split_from :
      (pre : Bytes) (acc : List Bytes) (p : Bytes) (ps : List Bytes)
      → sel ≡ pre ++ join (p ∷ ps)
      → All (λ q. All Plain q × (q ≢ [])) (p ∷ ps)
      → last_predicate sel (split_loop sel (outside (length pre) acc) (length pre) (join (p ∷ ps)))
        ≡ acc ++ p ∷ ps
  unfolding last_predicate split_loop split_char
  split_from pre acc p [] e h =
      let whole : split_loop sel (outside (length pre) acc) (length pre) p
          ≡ outside (length pre) acc =
        ap (split_loop sel (outside (length pre) acc) (length pre)) (sym (append-nil p))
        ∙ pass-Plain (length pre) (length pre) acc p [] h.0.0 in
      let left : length pre < length sel =
        omega (arith, ap length e, length-append pre p, length_pos p h.0.1) in
      let rest : drop (length pre) sel ≡ p = ap (drop (length pre)) e ∙ drop-append pre p in
      ap (last_predicate sel) whole ∙ ground (arith, left, rest)
  split_from pre acc p (q ∷ ps) e h =
      ap (last_predicate sel) (
        pass-Plain (length pre) (length pre) acc p (b',' ∷ join (q ∷ ps)) h.0.0
        ∙ ap (λ w. split_loop sel w (length pre + length p + 1) (join (q ∷ ps))) at_comma
        ∙ ap (λ n. split_loop sel (outside n (acc ++ p ∷ [])) n (join (q ∷ ps))) end)
      ∙ split_from (pre ++ p ++ b',' ∷ []) (acc ++ p ∷ []) q ps (e ∙ regroup) h.1
      ∙ append_assoc acc (p ∷ []) (q ∷ ps)
    where
      end : length pre + length p + 1 ≡ length (pre ++ p ++ b',' ∷ [])
      end = omega (arith, length-append (pre ++ p) (b',' ∷ []), length-append pre p)

      regroup : pre ++ (p ++ b',' ∷ join (q ∷ ps)) ≡ (pre ++ p ++ b',' ∷ []) ++ join (q ∷ ps)
      regroup =
          sym (append_assoc pre p (b',' ∷ join (q ∷ ps)))
          ∙ sym (append_assoc (pre ++ p) (b',' ∷ []) (join (q ∷ ps)))

      piece : slice sel (length pre) (length pre + length p) ≡ p
      piece =
          ap (λ x. slice x (length pre) (length pre + length p))
            (e ∙ sym (append_assoc pre p (b',' ∷ join (q ∷ ps))))
          ∙ slice-append pre p (b',' ∷ join (q ∷ ps))

      at_comma :
          split_char sel (outside (length pre) acc) (length pre + length p) b','
          ≡ outside (length pre + length p + 1) (acc ++ p ∷ [])
      at_comma = ap (λ x. outside (length pre + length p + 1) (acc ++ x ∷ [])) piece

-- Predicates without commas and parentheses, joined by commas, are split at the commas.
pub predicates-join :
    (p : Bytes) (ps : List Bytes)
    → All (λ q. All Plain q × (q ≢ [])) (p ∷ ps)
    → predicates (join (p ∷ ps)) ≡ p ∷ ps
unfolding predicates
predicates-join p ps h = split_from (join (p ∷ ps)) [] [] p ps refl h

-- A predicate that a client writes, and what it means.
pub data Selector : Type 0 where
  exists : ℕ → Bytes → Selector
  not_exists : ℕ → Bytes → Selector
  compares : ℕ → Bytes → ℕ → Bytes → ℕ → Bytes → Selector

abbrev pub print : Selector → Bytes
print (exists c cs) = c ∷ cs
print (not_exists c cs) = b'!' ∷ c ∷ cs
print (compares c cs o os v vs) = ((c ∷ cs) ++ (o ∷ os)) ++ (v ∷ vs)

abbrev pub meaning : Selector → Requirement
meaning (exists c cs) = record { label = c ∷ cs; op = codes "exists"; values = [] }
meaning (not_exists c cs) = record { label = c ∷ cs; op = codes "notexists"; values = [] }
meaning (compares c cs o os v vs) = record {
  label = c ∷ cs;
  op = o ∷ os;
  values = trim_space (v ∷ vs) ∷ [];
}

abbrev pub PlainLabelChar : ℕ → Type 0
PlainLabelChar c = LabelChar c × Plain c

-- A label of label characters; an operator of one of `=!<>` and any number of `=`, not `!` alone; a
-- value without comma and `(` whose first character is no space and no `=`.
abbrev pub IsPlain : Selector → Type 0
IsPlain (exists c cs) = All PlainLabelChar (c ∷ cs)
IsPlain (not_exists c cs) = All PlainLabelChar (c ∷ cs)
IsPlain (compares c cs o os v vs) =
    All PlainLabelChar (c ∷ cs)
    × (is_op o ≡ true)
    × All (λ x. x ≡ b'=') os
    × (bytes_eq (o ∷ os) (codes "!") ≡ false)
    × ((is_space v ≡ false) × (v ≢ b'='))
    × All Plain (v ∷ vs)

label_chars : (cs : Bytes) → All PlainLabelChar cs → All LabelChar cs
label_chars [] h = tt
label_chars (c ∷ cs) h = (h.0.0, label_chars cs h.1)

Plain-chars : (cs : Bytes) → All PlainLabelChar cs → All Plain cs
Plain-chars [] h = tt
Plain-chars (c ∷ cs) h = (h.0.1, Plain-chars cs h.1)

Plain-equals : (os : Bytes) → All (λ x. x ≡ b'=') os → All Plain os
Plain-equals [] h = tt
Plain-equals (o ∷ os) h = ((omega arith, omega arith), Plain-equals os h.1)

Plain-op : (o : ℕ) → is_op o ≡ true → Plain o
unfolding is_op
Plain-op o h = (ground arith, ground arith)

print-Plain : (s : Selector) → IsPlain s → All Plain (print s) × (print s ≢ [])
print-Plain (exists c cs) h = (Plain-chars (c ∷ cs) h, λ e. cc)
print-Plain (not_exists c cs) h = (((omega arith, omega arith), Plain-chars (c ∷ cs) h), λ e. cc)
print-Plain (compares c cs o os v vs) (l, p, os_eq, b, f, vals) = (
  All-append Plain ((c ∷ cs) ++ (o ∷ os)) (v ∷ vs)
      (All-append Plain (c ∷ cs) (o ∷ os) (Plain-chars (c ∷ cs) l)
        (Plain-op o p, Plain-equals os os_eq))
      vals,
  λ e. cc,
)

parse_predicate-print : (s : Selector) → IsPlain s → parse_predicate (print s) ≡ ok (meaning s)
parse_predicate-print (exists c cs) h = parse_predicate-exists c cs (label_chars (c ∷ cs) h)
parse_predicate-print (not_exists c cs) h = parse_predicate-notexists c cs (label_chars (c ∷ cs) h)
parse_predicate-print (compares c cs o os v vs) (l, p, os_eq, b, f, vals) =
    parse_predicate-symbol c o v cs os vs (label_chars (c ∷ cs) l) p os_eq b (f.0, f.1, vals.0.1)

All-prints :
    (ss : List Selector) → All IsPlain ss → All (λ q. All Plain q × (q ≢ [])) (map print ss)
All-prints [] h = tt
All-prints (s ∷ ss) h = (print-Plain s h.0, All-prints ss h.1)

parse_all-print :
    (ss : List Selector) → All IsPlain ss → parse_all (map print ss) ≡ ok (map meaning ss)
unfolding parse_all
parse_all-print [] h = refl
parse_all-print (s ∷ ss) h = rw (parse_predicate-print s h.0, ◌>>=◌, parse_all-print ss h.1)

parse-parse_all : (sel : Bytes) → sel ≢ [] → parse sel ≡ parse_all (predicates sel)
unfolding parse
parse-parse_all [] h = absurd (h refl)
parse-parse_all (c ∷ cs) h = refl

join-ne-nil : (p : Bytes) (ps : List Bytes) → p ≢ [] → join (p ∷ ps) ≢ []
join-ne-nil p [] h = h
join-ne-nil [] (q ∷ ps) h = absurd (h refl)
join-ne-nil (c ∷ p) (q ∷ ps) h = λ e. cc

-- Any selectors of these kinds, joined by commas, are parsed to their meanings, in order.
pub parse-print :
    (ss : List Selector) → All IsPlain ss → parse (join (map print ss)) ≡ ok (map meaning ss)
unfolding parse
parse-print [] h = refl
parse-print (s ∷ ss) h =
    parse-parse_all (join (map print (s ∷ ss)))
      (join-ne-nil (print s) (map print ss) (print-Plain s h.0).1)
    ∙ ap parse_all (predicates-join (print s) (map print ss) (All-prints (s ∷ ss) h))
    ∙ parse_all-print (s ∷ ss) h
