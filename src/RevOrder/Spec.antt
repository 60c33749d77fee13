-- ===== src/RevOrder/Spec.antt =====
-- The abstract view of one entity: its last revision in order, and the sorted buffer behind it.
-- What a call of InOrder does to it for a revision above the last one, where the buffer with the
-- event is sorted to the event's place in it.
use etre.Base.{
  ℕ, ◌≢◌, ◌^◌, ◌<◌, String, ◌≡◌, refl, sym, inl, inr, true, false, Option, none, some, List, [],
  ◌∷◌, ◌++◌, arith, ◌==◌, eq_refl, Bool-cases, if◌then◌else◌,
}
use etre.Base.Dict.{lookup, insert, delete, lookup-insert, lookup-delete}
use etre.Base.Int64.{add64, lt64}
use etre.Etre.{CdcEvent, Outcome, returns, ◌>>=◌}
use etre.RevOrder.LruCache.{Lru}
use etre.RevOrder.Buffer.{insert_sorted, sort, complete, last_rev}
use etre.RevOrder.Sort.{insert_sorted-ne-nil}
use etre.RevOrder.{
  Events, RevOrder, Reply, lru_add, flush, out_of_order, seen_before, looked_up, in_order,
}
use etre.RevOrder.Feed.{delivered}
use etre.RevOrder.Step.{lru_add-Added, lru_add_present}

pub record Track : Type 0 where
  pub last : ℕ
  pub buf : List CdcEvent

-- Insert the event, and hand the buffer out if it has no gap.
abbrev pub advance : Track → CdcEvent → Track × List CdcEvent
advance t e =
    let buf = insert_sorted e t.buf in
    if complete t.last 0 buf
    then (record { last = last_rev buf; buf = [] }, buf)
    else (record { last = t.last; buf = buf }, [])

abbrev pub as_events : ℕ → List CdcEvent → Option Events
as_events q [] = none
as_events q (b ∷ bs) = some (record { prev = q; buf = b ∷ bs })

module _ (L : Lru) where
  open L use {peek, get, get_value, peek-get}

  -- The state tracks the entity at `t`.
  pub record Tracks (r : RevOrder L) (k : String) (t : Track) : Type 0 where
    pub current : peek r.lru k ≡ some t.last
    pub buffered : lookup k r.reorder ≡ as_events t.last t.buf

  -- The call returns, the caller syncs the events of the abstract step, and the state tracks the
  -- entity at its new view.
  abbrev pub Advanced : CdcEvent → Outcome (RevOrder L × Reply L) → Track × List CdcEvent → Type 0
  Advanced e o (t', ds) =
      (r' : RevOrder L) × (reply : Reply L) × (o ≡ returns (r', reply))
      × (delivered e reply ≡ ds)
      × Tracks r' e.entity_id t'

  as_events-ne-nil :
      (q : ℕ) (bs : List CdcEvent) → bs ≢ [] → as_events q bs ≡ some (record { prev = q; buf = bs })
  as_events-ne-nil q [] h = absurd (h refl)
  as_events-ne-nil q (b ∷ bs) h = refl

  -- The three ways in which a call for a later revision ends.
  waits :
      (r : RevOrder L) (e : CdcEvent) (q : ℕ) (bs : List CdcEvent)
      → peek r.lru e.entity_id ≡ some q
      → bs ≢ []
      → Tracks
          (record r { reorder = insert e.entity_id (record { prev = q; buf = bs }) r.reorder })
          e.entity_id
          (record { last = q; buf = bs })
  waits r e q bs tracked filled = record {
    current = tracked;
    buffered = rw (lookup-insert, eq_refl e.entity_id) (sym (as_events-ne-nil q bs filled));
  }

  next :
      (r : RevOrder L) (e : CdcEvent) (q : ℕ)
      → peek r.lru e.entity_id ≡ some q
      → lookup e.entity_id r.reorder ≡ none
      → (r' : RevOrder L) × (lru_add L r e.entity_id e.entity_rev ≡ returns r')
        × Tracks r' e.entity_id (record { last = e.entity_rev; buf = [] })
  next r e q tracked idle =
      let (r', ok) = lru_add_present L r e.entity_id q e.entity_rev tracked in
      let a = lru_add-Added L r r' e.entity_id e.entity_rev ok in
      (r', ok, record { current = a.stored; buffered = rw a.same_reorder idle })

  flushes :
      (r : RevOrder L) (e : CdcEvent) (re : Events) (bs : List CdcEvent)
      → peek r.lru e.entity_id ≡ some re.prev
      → (r' : RevOrder L) × (flush L r e re bs ≡ returns (r', (true, some bs)))
        × Tracks r' e.entity_id (record { last = last_rev bs; buf = [] })
  unfolding flush
  flushes r e re bs tracked =
      let r1 : RevOrder L = record r {
        reorder = insert e.entity_id (record re { buf = bs }) r.reorder;
      } in
      let (r', ok) = lru_add_present L r1 e.entity_id re.prev (last_rev bs) tracked in
      let a = lru_add-Added L r1 r' e.entity_id (last_rev bs) ok in
      (
        record r' { reorder = delete e.entity_id r'.reorder },
        rw (ok, ◌>>=◌),
        record { current = a.stored; buffered = rw (lookup-delete, eq_refl e.entity_id) },
      )

  idle-advance :
      (r : RevOrder L) (e : CdcEvent) (q : ℕ)
      → peek r.lru e.entity_id ≡ some q
      → lookup e.entity_id r.reorder ≡ none
      → q < e.entity_rev
      → e.entity_rev < 2 ^ 63
      → Advanced e (seen_before L r e q none) (advance (record { last = q; buf = [] }) e)
  unfolding seen_before out_of_order insert_sorted complete last_rev
  idle-advance r e q tracked idle later small = elim (Bool-cases (e.entity_rev == add64 q 1)) [
    | inl expected ↦
        let (r', ok, tr) = next r e q tracked idle in
        let full : (e.entity_rev == add64 (add64 q 1) 0) ≡ true = ground arith in
        rw (expected, full) (r', (true, none), rw (ok, ◌>>=◌), refl, tr)
    | inr ahead ↦
        let gap : (e.entity_rev == add64 (add64 q 1) 0) ≡ false = ground arith in
        let other : (e.entity_rev == q) ≡ false = ground arith in
        let newer : lt64 e.entity_rev q ≡ false = ground arith in
        rw (ahead, gap, other, newer)
          (_, (false, none), refl, refl, waits r e q (e ∷ []) tracked (λ h. cc))
  ]

  busy-advance :
      (r : RevOrder L) (e : CdcEvent) (re : Events)
      → peek r.lru e.entity_id ≡ some re.prev
      → lookup e.entity_id r.reorder ≡ some re
      → re.prev < e.entity_rev
      → e.entity_rev < 2 ^ 63
      → sort (re.buf ++ e ∷ []) ≡ insert_sorted e re.buf
      → Advanced e
          (seen_before L r e re.prev (some re))
          (advance (record { last = re.prev; buf = re.buf }) e)
  unfolding seen_before out_of_order
  busy-advance r e re tracked found later small sorted =
      let other : (e.entity_rev == re.prev) ≡ false = ground arith in
      let newer : lt64 e.entity_rev re.prev ≡ false = ground arith in
      rw (other, newer, sorted)
        (elim (Bool-cases (complete re.prev 0 (insert_sorted e re.buf))) [
          | inl full ↦
              let (r', ok, tr) = flushes r e re (insert_sorted e re.buf) tracked in
              rw full (r', (true, some (insert_sorted e re.buf)), ok, refl, tr)
          | inr gap ↦ rw gap (
            _,
            (false, none),
            refl,
            refl,
            waits r e re.prev (insert_sorted e re.buf) tracked (insert_sorted-ne-nil e re.buf),
          )
        ])

  seen_before-advance :
      (r : RevOrder L) (e : CdcEvent) (q : ℕ) (bs : List CdcEvent)
      → peek r.lru e.entity_id ≡ some q
      → lookup e.entity_id r.reorder ≡ as_events q bs
      → q < e.entity_rev
      → e.entity_rev < 2 ^ 63
      → sort (bs ++ e ∷ []) ≡ insert_sorted e bs
      → Advanced e
          (seen_before L r e q (as_events q bs))
          (advance (record { last = q; buf = bs }) e)
  seen_before-advance r e q [] tracked found later small sorted =
      idle-advance r e q tracked found later small
  seen_before-advance r e q (b ∷ bs) tracked found later small sorted =
      busy-advance r e (record { prev = q; buf = b ∷ bs }) tracked found later small sorted

  -- On a tracked entity, a call of InOrder for a revision above the last one (and below 2^63), where
  -- sorting puts the event in its place, returns, syncs exactly the events of the abstract step, and tracks the entity at its result.
  pub in_order-refines-advance :
      (r : RevOrder L) (e : CdcEvent) (t : Track)
      → Tracks r e.entity_id t
      → t.last < e.entity_rev
      → e.entity_rev < 2 ^ 63
      → sort (t.buf ++ e ∷ []) ≡ insert_sorted e t.buf
      → Advanced e (in_order L r e) (advance t e)
  unfolding in_order looked_up
  in_order-refines-advance r e t tr later small sorted =
      rw (get_value, tr.current, looked_up, tr.buffered)
        (seen_before-advance (record r { lru = (get r.lru e.entity_id).1 }) e t.last t.buf
          (rw peek-get tr.current) tr.buffered later small sorted)
