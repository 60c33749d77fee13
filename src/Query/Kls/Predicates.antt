-- ===== src/Query/Kls/Predicates.antt =====
-- What Parse makes of one predicate, for each way to write it.
use mathlib.Core.List.{append_assoc, append-nil}
use etre.Base.{
  ℕ, ◌+◌, ◌-◌, ◌≡◌, ◌≢◌, refl, sym, ap, subst, ◌∙◌, true, false, [], ◌∷◌, ◌++◌, arith, length,
  length-append, take, drop, All,
}
use etre.Base.Bytes.{Bytes, codes, bytes_eq, slice, drop-append, take-append}
use etre.Query.Kls.Chars.{is_op, is_space, is_invalid_label_char, trim_space}
use etre.Query.Kls.Scan.{Result, ok, ◌>>=◌, State, Req, continues, breaks, initial, scan_char, scan}
use etre.Query.Kls.{Requirement, parse_predicate}

-- A character that a label may consist of.
abbrev pub LabelChar : ℕ → Type 0
LabelChar c = (is_space c ≡ false) × (is_op c ≡ false) × (is_invalid_label_char c ≡ false)

module _ (sel : Bytes) (r : Req) (right c : ℕ) (rest : Bytes) where
  scan-continues :
      (r' : Req)
      → scan_char sel r r.state right c ≡ continues r'
      → scan sel right (c ∷ rest) r ≡ scan sel (right + 1) rest r'
  unfolding scan
  scan-continues r' h = rw (h, scan)

  scan-breaks :
      (r' : Req) → scan_char sel r r.state right c ≡ breaks r' → scan sel right (c ∷ rest) r ≡ ok r'
  unfolding scan
  scan-breaks r' h = rw (h, scan)

-- Characters at which a turn of the loop changes nothing are passed over.
skip :
    (sel : Bytes) (r : Req) (right : ℕ) (cs rest : Bytes)
    → All (λ c. (i : ℕ) → scan_char sel r r.state i c ≡ continues r) cs
    → scan sel right (cs ++ rest) r ≡ scan sel (right + length cs) rest r
skip sel r right [] rest h = ap (λ n. scan sel n rest r) (omega arith)
skip sel r right (c ∷ cs) rest h =
    scan-continues sel r right c (cs ++ rest) r (h.0 right)
    ∙ skip sel r (right + 1) cs rest h.1
    ∙ ap (λ n. scan sel n rest r) (omega arith)

-- While a label is read.
abbrev in_label : Bytes → ℕ → Req
in_label op left = record {
  label = [];
  op = op;
  left = left;
  state = State.label;
  next = State.label;
}

label_char :
    (sel : Bytes) (op : Bytes) (left c i : ℕ)
    → LabelChar c
    → scan_char sel (in_label op left) State.label i c ≡ continues (in_label op left)
unfolding scan_char
label_char sel op left c i h = ground (arith, h)

label_chars :
    (sel : Bytes) (op : Bytes) (left : ℕ) (cs : Bytes)
    → All LabelChar cs
    → All
        (λ c.
          (i : ℕ) → scan_char sel (in_label op left) State.label i c ≡ continues (in_label op left))
        cs
label_chars sel op left [] h = tt
label_chars sel op left (c ∷ cs) h =
    ((λ i. label_char sel op left c i h.0), label_chars sel op left cs h.1)

-- The first character of a label, with the operator that was read before it.
label_start :
    (sel : Bytes) (op : Bytes) (c i : ℕ)
    → LabelChar c
    → scan_char sel
        (record { label = []; op = op; left = 0; state = State.space; next = State.label })
        State.space
        i
        c
      ≡ continues (in_label op i)
unfolding scan_char is_op
label_start sel op c i h = ground (arith, h)

-- A whole label from its first character.
scan_whole_label :
    (sel op : Bytes) (i c : ℕ) (cs rest : Bytes)
    → All LabelChar (c ∷ cs)
    → scan sel i
        ((c ∷ cs) ++ rest)
        (record { label = []; op = op; left = 0; state = State.space; next = State.label })
      ≡ scan sel (i + length (c ∷ cs)) rest (in_label op i)
scan_whole_label sel op i c cs rest h =
    scan-continues sel _ i c (cs ++ rest) (in_label op i) (label_start sel op c i h.0)
    ∙ skip sel (in_label op i) (i + 1) cs rest (label_chars sel op i cs h.1)
    ∙ ap (λ n. scan sel n rest (in_label op i)) (omega arith)

-- A label alone asks for its existence.
pub parse_predicate-exists :
    (c : ℕ) (cs : Bytes)
    → All LabelChar (c ∷ cs)
    → parse_predicate (c ∷ cs) ≡ ok (record { label = c ∷ cs; op = codes "exists"; values = [] })
unfolding parse_predicate scan is_op
parse_predicate-exists c cs h =
    let e : scan (c ∷ cs) 0 (c ∷ cs) initial ≡ ok (in_label [] 0) =
      ap (λ x. scan (c ∷ cs) 0 x initial) (sym (append-nil (c ∷ cs)))
      ∙ scan_whole_label (c ∷ cs) [] 0 c cs [] h in
    rw (e, ◌>>=◌)

-- A label behind `!` asks for its absence.
pub parse_predicate-notexists :
    (c : ℕ) (cs : Bytes)
    → All LabelChar (c ∷ cs)
    → parse_predicate (b'!' ∷ c ∷ cs)
      ≡ ok (record { label = c ∷ cs; op = codes "notexists"; values = [] })
unfolding parse_predicate scan is_op is_space
parse_predicate-notexists c cs h =
    let sel = b'!' ∷ c ∷ cs in
    let e : scan sel 0 sel initial ≡ ok (in_label (codes "notexists") 1) =
      scan-continues sel initial 0 b'!' (c ∷ cs) _ refl
      ∙ ap (λ x. scan sel 1 x (record initial { op = codes "notexists" }))
          (sym (append-nil (c ∷ cs)))
      ∙ scan_whole_label sel (codes "notexists") 1 c cs [] h in
    rw (e, ◌>>=◌)

-- While an operator of symbols is read.
abbrev in_symbol_op : Bytes → ℕ → Req
in_symbol_op label left = record {
  label = label;
  op = [];
  left = left;
  state = State.symbol_op;
  next = State.label;
}

equals_signs :
    (sel label : Bytes) (left : ℕ) (os : Bytes)
    → All (λ o. o ≡ b'=') os
    → All
        (λ o.
          (i : ℕ)
          → scan_char sel (in_symbol_op label left) State.symbol_op i o
            ≡ continues (in_symbol_op label left))
        os
unfolding scan_char is_space
equals_signs sel label left [] h = tt
equals_signs sel label left (o ∷ os) h =
    ((λ i. ground (arith, h.0)), equals_signs sel label left os h.1)

-- The operator's first character ends the label.
label_end :
    (sel op : Bytes) (o i : ℕ)
    → is_op o ≡ true
    → op ≡ slice sel 0 i
    → scan_char sel (in_label [] 0) State.label i o ≡ continues (in_symbol_op op i)
unfolding scan_char is_op is_space
label_end sel op o i h e = ground (arith, h, e)

-- The value's first character ends the operator.
symbol_op_end :
    (sel label op : Bytes) (left v i : ℕ)
    → is_space v ≡ false
    → v ≢ b'='
    → v ≢ b'('
    → op ≡ slice sel left i
    → bytes_eq op (codes "!") ≡ false
    → scan_char sel (in_symbol_op label left) State.symbol_op i v
      ≡ breaks (record (in_symbol_op label left) { op = op; left = i; state = State.value })
unfolding scan_char
symbol_op_end sel label op left v i h ne np e nb =
    ground (arith, h, e, subst (λ x. bytes_eq x (codes "!") ≡ false) e nb)

pub slice-append :
    (xs ys zs : Bytes) → slice (xs ++ ys ++ zs) (length xs) (length xs + length ys) ≡ ys
slice-append xs ys zs =
    let e : drop (length xs) ((xs ++ ys) ++ zs) ≡ ys ++ zs =
      ap (drop (length xs)) (append_assoc xs ys zs) ∙ drop-append xs (ys ++ zs) in
    ap (take (length xs + length ys - length xs)) e
    ∙ ap (λ n. take n (ys ++ zs)) (omega arith)
    ∙ take-append ys zs

slice_first : (xs ys : Bytes) → slice (xs ++ ys) 0 (0 + length xs) ≡ xs
slice_first xs ys = ap (λ n. take n (xs ++ ys)) (omega arith) ∙ take-append xs ys

drop-append₂ : (xs ys zs : Bytes) → drop (length xs + length ys) ((xs ++ ys) ++ zs) ≡ zs
drop-append₂ xs ys zs =
    ap (λ n. drop n ((xs ++ ys) ++ zs)) (sym (length-append xs ys)) ∙ drop-append (xs ++ ys) zs

module _ (c o v : ℕ) (cs os vs : Bytes) (label : All LabelChar (c ∷ cs)) (op : is_op o ≡ true)
    (equals : All (λ x. x ≡ b'=') os) (not_bang : bytes_eq (o ∷ os) (codes "!") ≡ false)
    (first : (is_space v ≡ false) × (v ≢ b'=') × (v ≢ b'(')) where
  abbrev pub symbol_text : Bytes
  symbol_text = ((c ∷ cs) ++ (o ∷ os)) ++ (v ∷ vs)

  scan-symbol :
      scan symbol_text 0 symbol_text initial
      ≡ ok (record {
        label = c ∷ cs;
        op = o ∷ os;
        left = length (c ∷ cs) + length (o ∷ os);
        state = State.value;
        next = State.label;
      })
  scan-symbol =
      ap (λ x. scan symbol_text 0 x initial) (append_assoc (c ∷ cs) (o ∷ os) (v ∷ vs))
      ∙ scan_whole_label symbol_text [] 0 c cs ((o ∷ os) ++ (v ∷ vs)) label
      ∙ scan-continues symbol_text (in_label [] 0) (0 + length (c ∷ cs)) o (os ++ v ∷ vs)
          (in_symbol_op (c ∷ cs) (0 + length (c ∷ cs)))
          (label_end symbol_text (c ∷ cs) o (0 + length (c ∷ cs)) op first_slice)
      ∙ skip symbol_text (in_symbol_op (c ∷ cs) (0 + length (c ∷ cs))) (0 + length (c ∷ cs) + 1) os
          (v ∷ vs) (equals_signs symbol_text (c ∷ cs) (0 + length (c ∷ cs)) os equals)
      ∙ scan-breaks symbol_text (in_symbol_op (c ∷ cs) (0 + length (c ∷ cs))) _ v vs _ (
          symbol_op_end symbol_text (c ∷ cs) (o ∷ os) (0 + length (c ∷ cs)) v _ first.0 first.1
            first.2 second_slice not_bang)
      ∙ ap
          (λ k. ok (record {
            label = c ∷ cs;
            op = o ∷ os;
            left = k;
            state = State.value;
            next = State.label;
          }))
          (omega arith)
    where
      n : ℕ
      n = length (c ∷ cs)

      zero_n : 0 + n ≡ n
      zero_n = omega arith

      first_slice : (c ∷ cs) ≡ slice symbol_text 0 (0 + n)
      first_slice = sym (
          ap (λ x. slice x 0 (0 + n)) (append_assoc (c ∷ cs) (o ∷ os) (v ∷ vs))
          ∙ slice_first (c ∷ cs) ((o ∷ os) ++ v ∷ vs))

      second_slice : (o ∷ os) ≡ slice symbol_text (0 + n) (0 + n + 1 + length os)
      second_slice = sym (
          ap (λ k. slice symbol_text k (k + 1 + length os)) zero_n
          ∙ ap (slice symbol_text n) (omega arith)
          ∙ slice-append (c ∷ cs) (o ∷ os) (v ∷ vs))

  -- A label, an operator of symbols and a value, with no space between: the requirement has exactly
  -- them, the value without the white space at its ends. The operator may be any character of
  -- `=!<>` and any number of `=`, but for a lone `!`.
  pub parse_predicate-symbol :
      parse_predicate symbol_text
      ≡ ok (record { label = c ∷ cs; op = o ∷ os; values = trim_space (v ∷ vs) ∷ [] })
  unfolding parse_predicate
  parse_predicate-symbol =
      rw (scan-symbol, ◌>>=◌, op)
        (ap {B = Result Requirement}
          (λ x. ok (record { label = c ∷ cs; op = o ∷ os; values = trim_space x ∷ [] }))
          (drop-append₂ (c ∷ cs) (o ∷ os) (v ∷ vs)))
