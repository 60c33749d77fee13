-- ===== src/RevOrder/Stall.antt =====
-- A revision that is buffered twice: the entity is never delivered again.
use etre.Base.{
  ℕ, suc, ◌+◌, ◌^◌, ◌≤◌, ◌<◌, String, ◌≡◌, refl, sym, subst, inl, inr, true, false, none, some,
  List, [], ◌∷◌, ◌++◌, arith, length, length-append, All, ◌==◌, eq_refl, Bool-cases, if◌then◌else◌,
}
use etre.Base.Dict.{lookup, lookup-insert}
use etre.Base.Int64.{add64, lt64}
use etre.Etre.{CdcEvent, Outcome, returns, ◌>>=◌}
use etre.RevOrder.LruCache.{Lru}
use etre.RevOrder.Buffer.{insert_sorted, sort_into, sort, complete}
use etre.RevOrder.{Events, RevOrder, Reply, out_of_order, seen_before, looked_up, in_order}
use etre.RevOrder.Feed.{feed}

-- How often a revision stands in the buffer.
abbrev pub count : ℕ → List CdcEvent → ℕ
count n [] = 0
count n (b ∷ bs) = (if b.entity_rev == n then 1 else 0) + count n bs

count-insert_sorted :
    (n : ℕ) (e : CdcEvent) (bs : List CdcEvent)
    → count n (insert_sorted e bs) ≡ (if e.entity_rev == n then 1 else 0) + count n bs
unfolding insert_sorted
count-insert_sorted n e [] = refl
count-insert_sorted n e (b ∷ bs) = ground (arith, count-insert_sorted n e bs)

count-sort_into : (n : ℕ) (s bs : List CdcEvent) → count n (sort_into s bs) ≡ count n s + count n bs
unfolding sort_into
count-sort_into n s [] = omega arith
count-sort_into n s (b ∷ bs) =
    omega (arith, count-sort_into n (insert_sorted b s) bs, count-insert_sorted n b s)

count-append :
    (n : ℕ) (bs : List CdcEvent) (e : CdcEvent)
    → count n (bs ++ e ∷ []) ≡ (if e.entity_rev == n then 1 else 0) + count n bs
count-append n [] e = refl
count-append n (b ∷ bs) e = omega (arith, count-append n bs e)

count-sort :
    (n : ℕ) (bs : List CdcEvent) (e : CdcEvent)
    → count n (sort (bs ++ e ∷ [])) ≡ (if e.entity_rev == n then 1 else 0) + count n bs
unfolding sort
count-sort n bs e = omega (arith, count-sort_into n [] (bs ++ e ∷ []), count-append n bs e)

length-insert_sorted' :
    (e : CdcEvent) (bs : List CdcEvent) → length (insert_sorted e bs) ≡ suc (length bs)
unfolding insert_sorted
length-insert_sorted' e [] = refl
length-insert_sorted' e (b ∷ bs) = ground (arith, length-insert_sorted' e bs)

length-sort_into : (s bs : List CdcEvent) → length (sort_into s bs) ≡ length s + length bs
unfolding sort_into
length-sort_into s [] = omega arith
length-sort_into s (b ∷ bs) =
    omega (arith, length-sort_into (insert_sorted b s) bs, length-insert_sorted' b s)

length-sort : (bs : List CdcEvent) (e : CdcEvent) → length (sort (bs ++ e ∷ [])) ≡ suc (length bs)
unfolding sort
length-sort bs e = omega (arith, length-sort_into [] (bs ++ e ∷ []), length-append bs (e ∷ []))

-- A buffer without a gap holds the revision of an earlier place never, and any at most once.
complete-count_earlier :
    (q i j : ℕ) (bs : List CdcEvent)
    → complete q i bs ≡ true
    → j < i
    → i + length bs ≤ 2 ^ 64
    → count (add64 (add64 q 1) j) bs ≡ 0
unfolding complete
complete-count_earlier q i j [] h lt n = refl
complete-count_earlier q i j (b ∷ bs) h lt n =
    let here : b.entity_rev ≡ add64 (add64 q 1) i = ground arith in
    let other : (b.entity_rev == add64 (add64 q 1) j) ≡ false = ground arith in
    rw other (
      omega
        (arith, complete-count_earlier q (i + 1) j bs (ground arith) (omega arith) (omega arith)))

complete-count :
    (q i n : ℕ) (bs : List CdcEvent)
    → complete q i bs ≡ true
    → i + length bs ≤ 2 ^ 64
    → count n bs ≤ 1
unfolding complete
complete-count q i n [] h m = omega arith
complete-count q i n (b ∷ bs) h m =
    let here : b.entity_rev ≡ add64 (add64 q 1) i = ground arith in
    let rest : complete q (i + 1) bs ≡ true = ground arith in
    elim (Bool-cases (b.entity_rev == n)) [
      | inl same ↦
          let e : n ≡ add64 (add64 q 1) i = ground (arith, here) in
          rw same (
            omega (
              arith,
              subst (λ x. count x bs ≡ 0) (sym e)
                  (complete-count_earlier q (i + 1) i bs rest (omega arith) (omega arith)),
            ))
      | inr other ↦ rw other (omega (arith, complete-count q (i + 1) n bs rest (omega arith)))
    ]

module _ (L : Lru) where
  open L use {peek, get, get_value, peek-get}

  -- The buffer of the entity holds the revision `n` twice or more, and at most `size` events.
  pub record Stalled (r : RevOrder L) (k : String) (n size : ℕ) : Type 0 where
    pub re : Events
    pub found : lookup k r.reorder ≡ some re
    pub current : peek r.lru k ≡ some re.prev
    pub twice : 2 ≤ count n re.buf
    pub room : length re.buf ≤ size
    pub ignores : r.ignore_past_revs ≡ true

  abbrev StillStalled : String → ℕ → ℕ → Outcome (RevOrder L × Reply L) → Type 0
  StillStalled k n size o =
      (r' : RevOrder L) × (o ≡ returns (r', (false, none))) × Stalled r' k n size

  -- Where the buffer with one more event would hold `n` twice, the call delivers nothing.
  seen_before_twice :
      (r : RevOrder L) (e : CdcEvent) (n size : ℕ) (re : Events)
      → lookup e.entity_id r.reorder ≡ some re
      → peek r.lru e.entity_id ≡ some re.prev
      → r.ignore_past_revs ≡ true
      → 2 ≤ count n (sort (re.buf ++ e ∷ []))
      → length re.buf ≤ size
      → suc size ≤ 2 ^ 64
      → (e.entity_rev == re.prev) ≡ false
      → lt64 e.entity_rev re.prev ≡ false
      → StillStalled e.entity_id n (suc size) (seen_before L r e re.prev (some re))
  unfolding seen_before out_of_order
  seen_before_twice r e n size re found current ignores twice room small other newer =
      let buf = sort (re.buf ++ e ∷ []) in
      let len : length buf ≡ suc (length re.buf) = length-sort re.buf e in
      rw (other, newer)
        (elim (Bool-cases (complete re.prev 0 buf)) [
          | inl full ↦
              absurd
                (omega (arith, complete-count re.prev 0 n buf full (omega (arith, len)), twice))
          | inr gap ↦ rw gap (
            _,
            refl,
            record {
              re = record re { buf = buf };
              found = rw (lookup-insert, eq_refl e.entity_id) refl;
              current = current;
              twice = twice;
              room = omega (arith, len);
              ignores = ignores;
            },
          )
        ])

  seen_before-Stalled :
      (r : RevOrder L) (e : CdcEvent) (n size : ℕ) (v : Stalled r e.entity_id n size)
      → suc size ≤ 2 ^ 64
      → StillStalled e.entity_id n (suc size) (seen_before L r e v.re.prev (some v.re))
  unfolding seen_before
  seen_before-Stalled r e n size v small =
      let again : Stalled r e.entity_id n (suc size) = record {
        re = v.re;
        found = v.found;
        current = v.current;
        twice = v.twice;
        room = omega (arith, v.room);
        ignores = v.ignores;
      } in
      elim (Bool-cases (e.entity_rev == v.re.prev)) [
        | inl same ↦ rw same (r, refl, again)
        | inr other ↦ elim (Bool-cases (lt64 e.entity_rev v.re.prev)) [
          | inl past ↦ (r, ground (arith, other, past, v.ignores), again)
          | inr newer ↦
              seen_before_twice r e n size v.re v.found v.current v.ignores
                (omega (arith, count-sort n v.re.buf e, v.twice)) v.room small other newer
        ]
      ]

  in_order-Stalled :
      (r : RevOrder L) (e : CdcEvent) (n size : ℕ)
      → Stalled r e.entity_id n size
      → suc size ≤ 2 ^ 64
      → StillStalled e.entity_id n (suc size) (in_order L r e)
  unfolding in_order looked_up
  in_order-Stalled r e n size v small =
      rw (get_value, v.current, looked_up, v.found)
        (seen_before-Stalled (record r { lru = (get r.lru e.entity_id).1 }) e n size
          (record {
            re = v.re;
            found = v.found;
            current = rw peek-get v.current;
            twice = v.twice;
            room = v.room;
            ignores = v.ignores;
          })
          small)

  feed-Stalled :
      (es : List CdcEvent) (r : RevOrder L) (k : String) (n size : ℕ)
      → Stalled r k n size
      → All (λ e. e.entity_id ≡ k) es
      → size + length es ≤ 2 ^ 64
      → (r' : RevOrder L) × (feed L r es ≡ returns (r', []))
  unfolding feed
  feed-Stalled [] r k n size v same small = (r, refl)
  feed-Stalled (e ∷ es) r k n size v same small =
      let v' : Stalled r e.entity_id n size = subst (λ x. Stalled r x n size) (sym same.0) v in
      let (r1, ok, v1) = in_order-Stalled r e n size v' (omega arith) in
      let (r2, ok2) =
        feed-Stalled es r1 k n (suc size) (subst (λ x. Stalled r1 x n (suc size)) same.0 v1) same.1
          (omega arith) in
      (r2, rw (ok, ◌>>=◌, ok2))

  -- Let the entity of `e` be reordering, in the mode that ignores past revisions, and let its buffer
  -- already hold the revision of `e`, which is neither the last revision in order nor below it. Then
  -- InOrder accepts `e` and whatever other events of the entity follow (fewer than 2^64 in all), and
  -- delivers none of them.
  pub duplicate_stalls :
      (r : RevOrder L) (re : Events) (e : CdcEvent) (es : List CdcEvent)
      → lookup e.entity_id r.reorder ≡ some re
      → peek r.lru e.entity_id ≡ some re.prev
      → r.ignore_past_revs ≡ true
      → 1 ≤ count e.entity_rev re.buf
      → (e.entity_rev == re.prev) ≡ false
      → lt64 e.entity_rev re.prev ≡ false
      → All (λ x. x.entity_id ≡ e.entity_id) es
      → length re.buf + 1 + length es < 2 ^ 64
      → (r' : RevOrder L) × (feed L r (e ∷ es) ≡ returns (r', []))
  unfolding feed in_order looked_up
  duplicate_stalls r re e es found current ignores held other newer same small =
      let (r1, ok, v) =
        seen_before_twice (record r { lru = (get r.lru e.entity_id).1 }) e e.entity_rev
          (length re.buf) re found (rw peek-get current) ignores
          (ground (arith, count-sort e.entity_rev re.buf e, held)) (omega arith) (omega arith) other
          newer in
      let (r2, ok2) =
        feed-Stalled es r1 e.entity_id e.entity_rev (suc (length re.buf)) v same (omega arith) in
      (r2, rw (get_value, current, looked_up, found, ok, ◌>>=◌, ok2))
