-- ===== src/RevOrder/Advance.antt =====
-- Every call of InOrder that returns delivers the next revisions of its entity, without a gap.
use etre.Base.{
  ◌≢◌, ℕ, String, ◌≡◌, refl, inl, inr, Bool, true, false, not, ◌&&◌, Option, none, some, List, [],
  ◌∷◌, ◌++◌, arith, str_eq, eq_iff, eq_refl, ◌∙◌, subst, sym, ap, Bool-cases, ◌==◌,
}
use etre.Base.Dict.{lookup, insert, delete, lookup-insert, lookup-delete, lookup-empty}
use etre.Base.Int64.{add64, lt64}
use etre.Etre.{
  CdcEvent, returns, panics, Ensures, Ensures-if, Ensures-bind, Ensures-map, of_Ensures,
}
use etre.RevOrder.LruCache.{Lru}
use etre.RevOrder.Buffer.{sort, complete, last_rev}
use etre.RevOrder.{
  Events, RevOrder, Reply, lru_add, flush, out_of_order, seen_before, looked_up, in_order,
  new_rev_order, reordering,
}
use etre.RevOrder.Sort.{sort-ne-nil}
use etre.RevOrder.Feed.{delivered}
use etre.RevOrder.Step.{
  complete-Consec, last_rev-last_from, Untouched, Added, lru_add-Added, Inv, Follows, Advances,
}

module _ (L : Lru) where
  open L use {peek, get, get_value, peek-get}

  Inv-get : (r : RevOrder L) (k : String) → Inv L r → Inv L (record r { lru = (get r.lru k).1 })
  Inv-get r k v = record {
    linked = λ j re h. peek-get r.lru k j ∙ v.linked j re h;
    waiting = v.waiting;
  }

  Inv-step :
      (r r' : RevOrder L) (k : String)
      → Inv L r
      → ((j : String) → str_eq k j ≡ false → Untouched L r r' j)
      → ((re : Events)
          → lookup k r'.reorder ≡ some re
          → (peek r'.lru k ≡ some re.prev) × (complete re.prev 0 re.buf ≡ false))
      → Inv L r'
  Inv-step r r' k v others own = record {
    linked = λ j re h. (at j re h).0;
    waiting = λ j re h. (at j re h).1;
  }
    where
      at :
          (j : String) (re : Events)
          → lookup j r'.reorder ≡ some re
          → (peek r'.lru j ≡ some re.prev) × (complete re.prev 0 re.buf ≡ false)
      at j re h = elim (Bool-cases (str_eq k j)) [
        | inl same ↦
            subst (λ x. (peek r'.lru x ≡ some re.prev) × (complete re.prev 0 re.buf ≡ false))
              ((eq_iff k j).0 same) (own re (rw ((eq_iff k j).0 same) h))
        | inr other ↦ elim (others j other) [
          | inl (p, l) ↦ (rw p (v.linked j re (sym l ∙ h)), v.waiting j re (sym l ∙ h))
          | inr (p, l, _) ↦ absurd (ground (arith, h, l))
        ]
      ]

  -- The branch that starts or extends a buffer: the reply delivers nothing.
  buffered-Advances :
      (r : RevOrder L) (e : CdcEvent) (re : Events)
      → Inv L r
      → peek r.lru e.entity_id ≡ some re.prev
      → complete re.prev 0 re.buf ≡ false
      → Advances L r e [] (record r { reorder = insert e.entity_id re r.reorder })
  buffered-Advances r e re v tracked open_gap =
      let others : (j : String)
          → str_eq e.entity_id j ≡ false
          → Untouched L r (record r { reorder = insert e.entity_id re r.reorder }) j =
        λ j ne. inl (refl, ground (arith, lookup-insert e.entity_id j re r.reorder)) in
      record {
        entity = rw tracked (tt, refl);
        others = others;
        inv = Inv-step r _ e.entity_id v others (λ x h.
            let same : x ≡ re =
              ground
                (arith, lookup-insert e.entity_id e.entity_id re r.reorder, eq_refl e.entity_id) in
            (rw same tracked, rw same open_gap));
      }

  -- The branches that change nothing.
  ignored-Advances :
      (r : RevOrder L) (e : CdcEvent) (qR : ℕ)
      → Inv L r
      → peek r.lru e.entity_id ≡ some qR
      → Advances L r e [] r
  ignored-Advances r e qR v tracked = record {
    entity = rw tracked (tt, refl);
    others = λ j ne. inl (refl, refl);
    inv = v;
  }

  -- The event is the one expected, or the first of its entity.
  Added-Advances :
      (r r' : RevOrder L) (e : CdcEvent)
      → Inv L r
      → lookup e.entity_id r.reorder ≡ none
      → Follows L (peek r.lru e.entity_id) e (e ∷ []) (some e.entity_rev)
      → Added L r e.entity_id e.entity_rev r'
      → Advances L r e (e ∷ []) r'
  Added-Advances r r' e v idle f a = record {
    entity = rw a.stored f;
    others = a.others;
    inv =
        Inv-step r r' e.entity_id v a.others
          (λ re h. absurd (ground (arith, h, idle, a.same_reorder)));
  }

  -- The buffer has no gap any more.
  flushed-Advances :
      (r r' : RevOrder L) (e : CdcEvent) (re : Events) (b : CdcEvent) (bs : List CdcEvent)
      → Inv L r
      → peek r.lru e.entity_id ≡ some re.prev
      → complete re.prev 0 (b ∷ bs) ≡ true
      → Added L
          (record r { reorder = insert e.entity_id (record re { buf = b ∷ bs }) r.reorder })
          e.entity_id
          (last_rev (b ∷ bs))
          r'
      → Advances L r e (b ∷ bs) (record r' { reorder = delete e.entity_id r'.reorder })
  flushed-Advances r r' e re b bs v tracked full a =
      let re' : Events = record re { buf = b ∷ bs } in
      let others : (j : String)
          → str_eq e.entity_id j ≡ false
          → Untouched L r (record r' { reorder = delete e.entity_id r'.reorder }) j =
        λ j ne. elim (a.others j ne) [
          | inl (p, l) ↦ inl (
            p,
            ground (
              arith,
              ne,
              l,
              lookup-delete e.entity_id j r'.reorder,
              lookup-insert e.entity_id j re' r.reorder,
            ),
          )
          | inr (p, l, k) ↦ inr (
            p,
            ground (arith, ne, l, lookup-delete e.entity_id j r'.reorder),
            ground (arith, ne, k, lookup-insert e.entity_id j re' r.reorder),
          )
        ] in
      record {
        entity =
            rw (tracked, a.stored)
              (
                complete-Consec re.prev 0 re.prev (b ∷ bs) (omega arith) full,
                ap some (last_rev-last_from re.prev b bs),
              );
        others = others;
        inv = Inv-step r _ e.entity_id v others (λ x h. absurd (
            ground (arith, lookup-delete e.entity_id e.entity_id r'.reorder, eq_refl e.entity_id)));
      }

  -- What InOrder promises of a call that does not panic.
  abbrev pub Promise : RevOrder L → CdcEvent → RevOrder L × Reply L → Type 0
  Promise r e (r', reply) = Advances L r e (delivered e reply) r'

  flush-Advances :
      (r : RevOrder L) (e : CdcEvent) (re : Events) (buf : List CdcEvent)
      → Inv L r
      → peek r.lru e.entity_id ≡ some re.prev
      → buf ≢ []
      → complete re.prev 0 buf ≡ true
      → Ensures (Promise r e) (flush L r e re buf)
  unfolding flush
  flush-Advances r e re [] v tracked filled full = absurd (filled refl)
  flush-Advances r e re (b ∷ bs) v tracked filled full =
      Ensures-bind (Promise r e) _ _ λ r' h.
        flushed-Advances r r' e re b bs v tracked full (lru_add-Added L _ r' e.entity_id _ h)

  -- The event is neither the one expected, nor the last one, nor an older one.
  out_of_order-Advances :
      (r : RevOrder L) (e : CdcEvent) (qR : ℕ) (o : Option Events)
      → Inv L r
      → peek r.lru e.entity_id ≡ some qR
      → lookup e.entity_id r.reorder ≡ o
      → (not (reordering o) && e.entity_rev == add64 qR 1) ≡ false
      → Ensures (Promise r e) (out_of_order L r e qR o)
  unfolding out_of_order
  out_of_order-Advances r e qR none v tracked idle late =
      buffered-Advances r e (record { prev = qR; buf = e ∷ [] }) v tracked
        (unfold complete in ground arith)
  out_of_order-Advances r e qR (some re) v tracked found late =
      let linked : peek r.lru e.entity_id ≡ some re.prev = v.linked e.entity_id re found in
      let buf = sort (re.buf ++ e ∷ []) in
      Ensures-if (Promise r e) (complete re.prev 0 buf) _ _
        (flush-Advances r e re buf v linked (sort-ne-nil re.buf e))
        (buffered-Advances r e (record re { buf = buf }) v linked)

  seen_before-Advances :
      (r : RevOrder L) (e : CdcEvent) (qR : ℕ) (o : Option Events)
      → Inv L r
      → peek r.lru e.entity_id ≡ some qR
      → lookup e.entity_id r.reorder ≡ o
      → Ensures (Promise r e) (seen_before L r e qR o)
  unfolding seen_before
  seen_before-Advances r e qR o v tracked found =
      elim (Bool-cases (not (reordering o) && e.entity_rev == add64 qR 1)) [
        | inl next ↦ rw next (
            Ensures-bind (Promise r e) (lru_add L r e.entity_id e.entity_rev) _ λ r' h.
              Added-Advances r r' e v (ground (arith, next))
                (rw tracked ((ground (arith, next), tt), refl))
                (lru_add-Added L r r' e.entity_id e.entity_rev h))
        | inr late ↦ rw late (elim (Bool-cases (e.entity_rev == qR)) [
          | inl same ↦ rw same (ignored-Advances r e qR v tracked)
          | inr other ↦ rw other (
              Ensures-if (Promise r e) (lt64 e.entity_rev qR) _ _
                (λ _.
                  Ensures-if (Promise r e) r.ignore_past_revs (returns (r, (false, none))) panics
                    (λ _. ignored-Advances r e qR v tracked) (λ _. tt))
                (λ _. out_of_order-Advances r e qR o v tracked found late))
        ])
      ]

  -- Go on after the entity was looked up in the cache.
  Advances-get :
      (r r' : RevOrder L) (e : CdcEvent) (ds : List CdcEvent)
      → Advances L (record r { lru = (get r.lru e.entity_id).1 }) e ds r'
      → Advances L r e ds r'
  Advances-get r r' e ds a = record {
    entity = rw peek-get at a.entity;
    others = λ j ne. rw peek-get at (a.others j ne);
    inv = a.inv;
  }

  looked_up-Advances :
      (r : RevOrder L) (e : CdcEvent) (v : Option ℕ)
      → Inv L r
      → peek r.lru e.entity_id ≡ v
      → Ensures (Promise r e) (looked_up L r e v)
  unfolding looked_up
  looked_up-Advances r e none v unseen =
      Ensures-bind (Promise r e) (lru_add L r e.entity_id e.entity_rev) _ λ r' h.
        Added-Advances r r' e v (not_buffered (lookup e.entity_id r.reorder) refl)
          (rw unseen (refl, refl)) (lru_add-Added L r r' e.entity_id e.entity_rev h)
    where
      not_buffered :
          (o : Option Events)
          → lookup e.entity_id r.reorder ≡ o
          → lookup e.entity_id r.reorder ≡ none
      not_buffered none h = h
      not_buffered (some re) h = absurd (ground (arith, v.linked e.entity_id re h))
  looked_up-Advances r e (some qR) v seen =
      seen_before-Advances r e qR (lookup e.entity_id r.reorder) v seen refl

  in_order-Promise :
      (r : RevOrder L) (e : CdcEvent) → Inv L r → Ensures (Promise r e) (in_order L r e)
  unfolding in_order
  in_order-Promise r e v =
      let r' : RevOrder L = record r { lru = (get r.lru e.entity_id).1 } in
      let p =
        looked_up-Advances r' e (get r.lru e.entity_id).0 (Inv-get r e.entity_id v)
          (peek-get r.lru e.entity_id e.entity_id ∙ sym (get_value r.lru e.entity_id)) in
      Ensures-map (Promise r' e) (Promise r e) _ (λ x. Advances-get r x.0 e (delivered e x.1)) p

  -- From a state where the buffers agree with the cache, a call of InOrder that returns syncs events
  -- of the entity that follow its last revision one by one (or the event itself, if the entity is
  -- new), remembers the last of them, keeps every other entity as it was unless the cache dropped it
  -- while it was not reordering, and leaves the buffers in agreement with the cache.
  pub in_order-Advances :
      (r r' : RevOrder L) (e : CdcEvent) (reply : Reply L)
      → Inv L r
      → in_order L r e ≡ returns (r', reply)
      → Advances L r e (delivered e reply) r'
  in_order-Advances r r' e reply v h =
      of_Ensures (Promise r e) (in_order L r e) h (in_order-Promise r e v)

  -- A new RevOrder meets the invariant.
  pub new_rev_order-Inv : (n : ℕ) (b : Bool) → Inv L (new_rev_order L n b)
  unfolding new_rev_order
  new_rev_order-Inv n b = record {
    linked = λ k re h. absurd (ground (arith, lookup-empty {V = Events} k));
    waiting = λ k re h. absurd (ground (arith, lookup-empty {V = Events} k));
  }
