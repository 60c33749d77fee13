-- ===== src/Query/Kls/NoPanic.antt =====
-- Parse never indexes an empty operator nor slices a list out of range, and gives a value to each
-- operator of symbols.
use etre.Base.{
  ℕ, ◌+◌, ◌≡◌, ◌≢◌, inl, inr, Bool, true, false, ◌||◌, if◌then◌else◌, ltb, length, List, [], ◌∷◌,
  arith, All, Bool-cases,
}
use etre.Base.Bytes.{Bytes, codes, bytes_eq}
use etre.Query.Kls.Chars.{is_op}
use etre.Query.Kls.Scan.{
  invalid_op, Result, ok, err, panic, Req, Flow, continues, breaks, fails, scan_char, scan, initial,
}
use etre.Query.Kls.{
  Requirement, inner, value_list, values_of, finish, parse_predicate, parse_all, parse,
}
use etre.Query.{Query}

abbrev pub starts_with_op : Bytes → Bool
starts_with_op [] = false
starts_with_op (c ∷ cs) = is_op c

-- A requirement whose operator is one of symbols has a value.
abbrev pub HasValue : Requirement → Type 0
HasValue r = starts_with_op r.op ≡ true → r.values ≢ []

-- What holds of a result that is no error, where there is no panic.
abbrev pub WhenOk {ℓ} : {A : Type ℓ} → (A → Type 0) → Result A → Type 0
WhenOk P (ok a) = P a
WhenOk P (err e) = Unit
WhenOk P panic = ⊥

WhenOk-bind {ℓ κ} :
    {A : Type ℓ} {B : Type κ} (Q : A → Type 0) (P : B → Type 0) (m : Result A) (f : A → Result B)
    → WhenOk Q m
    → ((a : A) → Q a → WhenOk P (f a))
    → WhenOk P (etre.Query.Kls.Scan.◌>>=◌ m f)
WhenOk-bind Q P (ok a) f q h = h a q
WhenOk-bind Q P (err e) f q h = tt
WhenOk-bind Q P panic f q h = q

scan-WhenOk :
    (sel : Bytes) (right : ℕ) (cs : Bytes) (r : Req) → WhenOk (λ _. Unit) (scan sel right cs r)
unfolding scan
scan-WhenOk sel right [] r = tt
scan-WhenOk sel right (cur ∷ rest) r =
    at (scan_char sel r r.state right cur) (scan-WhenOk sel (right + 1) rest)
  where
    at :
        (f : Flow)
        → ((r' : Req) → WhenOk (λ _. Unit) (scan sel (right + 1) rest r'))
        → WhenOk
            (λ _. Unit)
            (elim f [
              | continues r' ↦ scan sel (right + 1) rest r'
              | breaks r' ↦ ok r'
              | fails e ↦ err e
            ])
    at (continues r') h = h r'
    at (breaks r') h = tt
    at (fails e) h = tt

-- An operator is never empty after the loop.
finish-HasOp : (sel : Bytes) (r : Req) → WhenOk (λ q. bytes_eq q.0.op [] ≡ false) (finish sel r)
unfolding finish
finish-HasOp sel r = ground arith

value_list-WhenOk : (val : Bytes) → WhenOk (λ _. Unit) (value_list val)
unfolding value_list inner
value_list-WhenOk val = elim (Bool-cases (ltb (length val) 3)) [
  | inl short ↦ rw short tt
  | inr long ↦
      let enough : ltb (length val) 2 ≡ false = ground (arith, long) in rw (long, enough) tt
]

values_of-HasValue :
    (op val : Bytes)
    → bytes_eq op [] ≡ false
    → WhenOk (λ vs. starts_with_op op ≡ true → vs ≢ []) (values_of op val)
unfolding values_of
values_of-HasValue [] val h = cc
values_of-HasValue (c ∷ cs) val h = elim (Bool-cases (is_op c)) [
  | inl symbol ↦ rw symbol (λ s e. cc)
  | inr word ↦ rw word (
      others (bytes_eq (c ∷ cs) (codes "in") || bytes_eq (c ∷ cs) (codes "notin"))
        (bytes_eq (c ∷ cs) (codes "exists") || bytes_eq (c ∷ cs) (codes "notexists")))
]
  where
    others :
        (set exists : Bool)
        → WhenOk
            (λ vs. false ≡ true → vs ≢ [])
            (if set then value_list val else if exists then ok [] else err invalid_op)
    others true exists = weaken (value_list val) (value_list-WhenOk val)
      where
        weaken :
            (m : Result (List Bytes))
            → WhenOk (λ _. Unit) m
            → WhenOk (λ vs. false ≡ true → vs ≢ []) m
        weaken (ok vs) h = λ e. absurd (ground (arith, e))
        weaken (err e) h = tt
        weaken panic h = h
    others false true = λ e. absurd (ground (arith, e))
    others false false = tt

parse_predicate-HasValue : (sel : Bytes) → WhenOk HasValue (parse_predicate sel)
unfolding parse_predicate
parse_predicate-HasValue sel =
    WhenOk-bind (λ _. Unit) HasValue (scan sel 0 sel initial) _ (scan-WhenOk sel 0 sel initial)
      λ r _.
        WhenOk-bind (λ q. bytes_eq q.0.op [] ≡ false) HasValue (finish sel r) _ (finish-HasOp sel r)
          λ q some_op.
            WhenOk-bind (λ vs. starts_with_op q.0.op ≡ true → vs ≢ []) HasValue
              (values_of q.0.op q.1) _ (values_of-HasValue q.0.op q.1 some_op) λ vs h. h

parse_all-HasValue : (ps : List Bytes) → WhenOk (All HasValue) (parse_all ps)
unfolding parse_all
parse_all-HasValue [] = tt
parse_all-HasValue (p ∷ ps) =
    WhenOk-bind HasValue (All HasValue) (parse_predicate p) _ (parse_predicate-HasValue p) λ r hr.
      WhenOk-bind (All HasValue) (All HasValue) (parse_all ps) _ (parse_all-HasValue ps)
        λ rs hrs. (hr, hrs)

pub parse-HasValue : (sel : Bytes) → WhenOk (All HasValue) (parse sel)
unfolding parse
parse-HasValue [] = tt
parse-HasValue (c ∷ cs) = parse_all-HasValue _
