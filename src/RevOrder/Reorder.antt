-- ===== src/RevOrder/Reorder.antt =====
-- Any arrival order of the next revisions of an entity is put right, without loss.
use mathlib.Core.List.{append_assoc, append-nil, Perm, perm_middle}
use mathlib.Core.List.Perm
use etre.Base.{
  ℕ, ◌+◌, ◌^◌, ◌≤◌, ◌<◌, String, ◌≡◌, ◌≢◌, refl, sym, ap, subst, inl, inr, true, false, List, [],
  ◌∷◌, ◌++◌, arith, length, All, Bool-cases,
}
use etre.Etre.{CdcEvent, Outcome, returns, ◌>>=◌}
use etre.RevOrder.LruCache.{Lru}
use etre.RevOrder.Buffer.{insert_sorted, complete, last_rev}
use etre.RevOrder.Sort.{
  Strict, AtMost, NotIn, insert_sorted-Strict, insert_sorted-AtMost, insert_sorted-NotIn,
  insert_sorted-perm, insert_sorted-ne-nil, length-insert_sorted, sort-append-Strict,
  dense-complete, complete-last_rev, complete-NotIn,
}
use etre.RevOrder.{RevOrder}
use etre.RevOrder.Feed.{delivered, feed}
use etre.RevOrder.Step.{Consec, last_from, complete-Consec, last_rev-last_from}
use etre.RevOrder.Spec.{Track, advance, Tracks, in_order-refines-advance}

-- No revision occurs twice.
abbrev pub Distinct : List CdcEvent → Type 0
Distinct [] = Unit
Distinct (e ∷ es) = NotIn e.entity_rev es × Distinct es

abbrev Fresh : Track → ℕ → CdcEvent → Type 0
Fresh t top e = (t.last < e.entity_rev) × (e.entity_rev ≤ top) × NotIn e.entity_rev t.buf

-- The events `es` are those that are missing between the buffer and `top`.
record Missing (t : Track) (top : ℕ) (es : List CdcEvent) : Type 0 where
  sorted : Strict t.last t.buf
  within : AtMost top t.buf
  fresh : All (Fresh t top) es
  distinct : Distinct es
  count : t.last + length t.buf + length es ≡ top
  gap : t.buf ≢ [] → complete t.last 0 t.buf ≡ false

module _ (top : ℕ) (small : top < 2 ^ 63) where
  -- What remains to come is fresh after the event is inserted into the buffer, ...
  Fresh-insert :
      (t : Track) (e : CdcEvent) (es : List CdcEvent)
      → NotIn e.entity_rev es
      → All (Fresh t top) es
      → All (Fresh (record { last = t.last; buf = insert_sorted e t.buf }) top) es
  Fresh-insert t e [] n h = tt
  Fresh-insert t e (x ∷ es) n h = (
    (h.0.0, h.0.1, insert_sorted-NotIn x.entity_rev e t.buf h.0.2 (λ p. n.0 (sym p))),
    Fresh-insert t e es n.1 h.1,
  )

  -- ... and after a buffer without a gap is handed out.
  Fresh-flush :
      (q : ℕ) (buf es : List CdcEvent)
      → complete q 0 buf ≡ true
      → All (Fresh (record { last = q; buf = buf }) top) es
      → All (Fresh (record { last = q + length buf; buf = [] }) top) es
  Fresh-flush q buf [] full h = tt
  Fresh-flush q buf (x ∷ es) full h = (
    (
      omega (arith, complete-NotIn top small q 0 x.entity_rev buf full h.0.2 (omega arith) h.0.1),
      h.0.1,
      tt,
    ),
    Fresh-flush q buf es full h.1,
  )

  last_rev-full :
      (q : ℕ) (buf : List CdcEvent)
      → buf ≢ []
      → complete q 0 buf ≡ true
      → q + length buf ≤ top
      → last_rev buf ≡ q + length buf
  last_rev-full q [] h full n = absurd (h refl)
  last_rev-full q (b ∷ bs) h full n =
      omega (arith, complete-last_rev top small q 0 b bs full (omega arith))

  advance-Missing :
      (t : Track) (e : CdcEvent) (es : List CdcEvent)
      → Missing t top (e ∷ es)
      → Missing (advance t e).0 top es
  advance-Missing t e es m = elim (Bool-cases (complete t.last 0 buf)) [
    | inl full ↦ rw full (record {
      sorted = tt;
      within = tt;
      fresh =
          rw (last_rev-full t.last buf filled full (omega (arith, size)))
            (Fresh-flush t.last buf es full inserted);
      distinct = m.distinct.1;
      count = omega (arith, size, last_rev-full t.last buf filled full (omega (arith, size)));
      gap = λ h. absurd (h refl);
    })
    | inr open_gap ↦ rw open_gap (record {
      sorted =
          insert_sorted-Strict top small t.last e t.buf m.sorted m.within m.fresh.0.0 m.fresh.0.1
            m.fresh.0.2;
      within = insert_sorted-AtMost top small e t.buf m.within m.fresh.0.1;
      fresh = inserted;
      distinct = m.distinct.1;
      count = omega (arith, size);
      gap = λ h. open_gap;
    })
  ]
    where
      buf : List CdcEvent
      buf = insert_sorted e t.buf

      filled : buf ≢ []
      filled = insert_sorted-ne-nil e t.buf

      size : t.last + length buf + length es ≡ top
      size = omega (arith, length-insert_sorted e t.buf, m.count)

      inserted : All (Fresh (record { last = t.last; buf = buf }) top) es
      inserted = Fresh-insert t e es m.distinct.0 m.fresh.1

  -- Where nothing is missing any more, the buffer is empty.
  none-Missing : (t : Track) → Missing t top [] → (t.buf ≡ []) × (t.last ≡ top)
  none-Missing t m = at t.buf refl
    where
      at : (bs : List CdcEvent) → t.buf ≡ bs → (t.buf ≡ []) × (t.last ≡ top)
      at [] e = (e, omega (arith, m.count, ap length e))
      at (b ∷ bs) e = absurd (
          ground (
            arith,
            e,
            m.gap (λ h. cc (e, h)),
            dense-complete top small t.last 0 t.last t.buf (omega arith) m.sorted m.within
                (omega (arith, m.count)),
          ))

  Consec-append :
      (q : ℕ) (xs ys : List CdcEvent)
      → Consec q xs
      → Consec (last_from q xs) ys
      → Consec q (xs ++ ys)
  Consec-append q [] ys h k = k
  Consec-append q (x ∷ xs) ys h k = (h.0, Consec-append x.entity_rev xs ys h.1 k)

  -- What the abstract step hands out follows the last revision, and loses nothing.
  advance-Consec :
      (t : Track) (e : CdcEvent)
      → Consec t.last (advance t e).1
        × (last_from t.last (advance t e).1 ≡ (advance t e).0.last)
        × Perm ((advance t e).1 ++ (advance t e).0.buf) (e ∷ t.buf)
  advance-Consec t e = elim (Bool-cases (complete t.last 0 buf)) [
    | inl full ↦ rw full (
      complete-Consec t.last 0 t.last buf (omega arith) full,
      end buf (insert_sorted-ne-nil e t.buf),
      rw append-nil (insert_sorted-perm e t.buf),
    )
    | inr open_gap ↦ rw open_gap (tt, refl, insert_sorted-perm e t.buf)
  ]
    where
      buf : List CdcEvent
      buf = insert_sorted e t.buf

      end : (bs : List CdcEvent) → bs ≢ [] → last_from t.last bs ≡ last_rev bs
      end [] h = absurd (h refl)
      end (b ∷ bs) h = sym (last_rev-last_from t.last b bs)

keeps :
    (t : Track) (e : CdcEvent) (es d1 ds buf : List CdcEvent)
    → Perm (d1 ++ buf) (e ∷ t.buf)
    → Perm ds (buf ++ es)
    → Perm (d1 ++ ds) (t.buf ++ e ∷ es)
keeps t e es d1 ds buf p q =
    Perm.trans (Perm.append_left d1 q)
      (rw (← append_assoc) (Perm.trans (Perm.append_right es p) (Perm.symm (perm_middle t.buf es))))

module _ (L : Lru) (top : ℕ) where
  -- The run returns, and what it syncs is consecutive, complete and leaves nothing behind.
  abbrev pub InSync : String → ℕ → List CdcEvent → Outcome (RevOrder L × List CdcEvent) → Type 0
  InSync k q es o =
      (r' : RevOrder L) × (ds : List CdcEvent) × (o ≡ returns (r', ds))
      × Consec q ds
      × Perm ds es
      × Tracks L r' k (record { last = top; buf = [] })

module _ (L : Lru) (top : ℕ) (small : top < 2 ^ 63) where
  feed-Missing :
      (es : List CdcEvent) (r : RevOrder L) (k : String) (t : Track)
      → All (λ e. e.entity_id ≡ k) es
      → Tracks L r k t
      → Missing t top es
      → InSync L top k t.last (t.buf ++ es) (feed L r es)
  unfolding feed
  feed-Missing [] r k t same tr m =
      let (empty, last) = none-Missing top small t m in
      (r, [], refl, tt, rw empty (Perm.refl []), rw (← last, ← empty) tr)
  feed-Missing (e ∷ es) r k t same tr m =
      let tr' : Tracks L r e.entity_id t = rw same.0 tr in
      let (r1, reply, ok, out, tr1) =
        in_order-refines-advance L r e t tr' m.fresh.0.0 (omega (arith, m.fresh.0.1))
          (sort-append-Strict top small t.last t.buf e m.sorted m.within) in
      let (r2, ds, ok2, con, perm, tr2) =
        feed-Missing es r1 k (advance t e).0 same.1
          (subst (λ x. Tracks L r1 x (advance t e).0) same.0 tr1)
          (advance-Missing top small t e es m) in
      let (con1, end, perm1) = advance-Consec top small t e in
      (
        r2,
        delivered e reply ++ ds,
        rw (ok, ◌>>=◌, ok2),
        rw out (Consec-append top small t.last (advance t e).1 ds con1 (rw end con)),
        rw out (keeps t e es (advance t e).1 ds (advance t e).0.buf perm1 perm),
        tr2,
      )

  -- Let InOrder track the entity `k` at revision `q` with nothing buffered, and let `es` be events of
  -- it whose revisions are those from `q + 1` to `top`, each once, in any order. Then every call
  -- returns, the caller has synced these events, no other and none twice, in order of revision, and
  -- the entity is tracked at `top` with nothing buffered.
  pub feed_in_any_order :
      (r : RevOrder L) (k : String) (q : ℕ) (es : List CdcEvent)
      → Tracks L r k (record { last = q; buf = [] })
      → All (λ e. e.entity_id ≡ k) es
      → All (λ e. (q < e.entity_rev) × (e.entity_rev ≤ top)) es
      → Distinct es
      → q + length es ≡ top
      → InSync L top k q es (feed L r es)
  feed_in_any_order r k q es tr same range distinct count =
      feed-Missing es r k (record { last = q; buf = [] }) same tr
        (record {
          sorted = tt;
          within = tt;
          fresh = all_fresh es range;
          distinct = distinct;
          count = omega (arith, count);
          gap = λ h. absurd (h refl);
        })
    where
      all_fresh :
          (xs : List CdcEvent)
          → All (λ e. (q < e.entity_rev) × (e.entity_rev ≤ top)) xs
          → All (Fresh (record { last = q; buf = [] }) top) xs
      all_fresh [] h = tt
      all_fresh (x ∷ xs) h = ((h.0.0, h.0.1, tt), all_fresh xs h.1)
