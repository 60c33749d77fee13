-- ===== src/Cdc/Store/Sorted.antt =====
-- The orders of Read.
use etre.Base.{
  ℕ, ◌+◌, ◌-◌, ◌%◌, ◌^◌, ◌<◌, ◌≤◌, ◌==◌, ◌≡◌, refl, sym, Bool, List, arith, Bool-cases, inl, inr,
  ◌⊎◌, ◌≢◌, Option, none, some, if◌then◌else◌,
}
use etre.Base.Int64.{lt64}
use etre.Etre.{CdcEvent, Returns, Returns-bind}
use etre.Cdc.Store.Read.{
  Order, unordered, another, CdcFilter, TsRange, range_of, found_events, counted, read, by_ts_asc,
  by_entity_id_rev_asc, by_entity_id_rev_less, by_ts_less, ordered,
}
use etre.Cdc.Store.Orders.{
  by_ts_less-asym, by_entity_id_rev_less-asym, sort_by-IsSortOf, by_ts_less-NotAfter,
  by_entity_id_rev_less-NotAfter, InOrderBy-Chain, count, Chain, NotAfterByTs, NotAfterByEntity,
}

-- The result has the events, each as often as it was found, and its neighbours are related.
abbrev pub IsArranged : (CdcEvent → CdcEvent → Type 0) → List CdcEvent → List CdcEvent → Type 0
IsArranged R es result = Chain R result × ((p : CdcEvent → Bool) → count p result ≡ count p es)

-- The order of the list of events by the dynamic type of Filter.Order.
abbrev pub IsOrdered : Order → List CdcEvent → List CdcEvent → Type 0
IsOrdered unordered es result = result ≡ es
IsOrdered by_ts_asc es result = IsArranged NotAfterByTs es result
IsOrdered by_entity_id_rev_asc es result = IsArranged NotAfterByEntity es result
IsOrdered another es result = ⊥

ordered-IsOrdered :
    (o : Order) (es : List CdcEvent) → o ≢ another → Returns (IsOrdered o es) (ordered o es)
unfolding ordered
ordered-IsOrdered unordered es h = refl
ordered-IsOrdered by_ts_asc es h =
    let (sorted, same) = sort_by-IsSortOf by_ts_less by_ts_less-asym es in
    (InOrderBy-Chain by_ts_less NotAfterByTs by_ts_less-NotAfter _ sorted, same)
ordered-IsOrdered by_entity_id_rev_asc es h =
    let (sorted, same) = sort_by-IsSortOf by_entity_id_rev_less by_entity_id_rev_less-asym es in
    (
      InOrderBy-Chain by_entity_id_rev_less NotAfterByEntity by_entity_id_rev_less-NotAfter _
          sorted,
      same,
    )
ordered-IsOrdered another es h = absurd (h refl)

-- The range of timestamps that a filter asks for: from its since time, or from one hour (in
-- nanoseconds) before `now` if that is 0, and before its until time if that is positive.
pub record IsRange (now : ℕ) (f : CdcFilter) (q : TsRange) : Type 0 where
  pub since_given : f.since_ts ≢ 0 → q.since ≡ f.since_ts
  pub since_default : f.since_ts ≡ 0 → q.since + 3600000000000 ≡ now
  pub until_given : 0 < f.until_ts → f.until_ts < 2 ^ 63 → q.until ≡ some f.until_ts
  pub no_until : (f.until_ts ≡ 0) ⊎ (2 ^ 63 ≤ f.until_ts) → q.until ≡ none

IsRange-range_of :
    (now : ℕ) (f : CdcFilter) (q : TsRange)
    → IsRange now f q
    → now < 2 ^ 64
    → f.until_ts < 2 ^ 64
    → q ≡ range_of now f
unfolding range_of
IsRange-range_of now f q range small u = rw (sym since, sym until) refl
  where
    since :
        q.since ≡ (if f.since_ts == 0 then (now + 2 ^ 64 - 3600000000000) % 2 ^ 64 else f.since_ts)
    since = elim (Bool-cases (f.since_ts == 0)) [
      | inl zero ↦
          let start = range.since_default (ground (arith, zero)) in
          rw zero (omega (arith, start, small))
      | inr given ↦ rw given (range.since_given (λ e. absurd (ground (arith, given, e))))
    ]

    until : q.until ≡ (if lt64 0 f.until_ts then some f.until_ts else none)
    until = elim (Bool-cases (lt64 0 f.until_ts)) [
      | inl positive ↦
          rw positive
            (range.until_given (ground (arith, positive, u)) (ground (arith, positive, u)))
      | inr none_given ↦ rw none_given (
          range.no_until (elim (Bool-cases (f.until_ts == 0)) [
            | inl zero ↦ inl (ground (arith, zero))
            | inr given ↦ inr (ground (arith, given, none_given, u))
          ]))
    ]

-- Let the times be int64. If counting and finding succeed in the range of the filter, and the order is
-- none of another type, Read returns the events that were found, each as often as it was found: with
-- ByTsAsc no timestamp is below the one before it; with ByEntityIdRevAsc the revisions of one entity
-- do not go down between neighbours, and no entity comes before its neighbour on the left; else the
-- events are as they were found.
pub read-IsOrdered :
    {E : Type 0} (count_documents : TsRange → Option E) (find : TsRange → E ⊎ List CdcEvent)
    (now : ℕ) (f : CdcFilter) (q : TsRange) (es : List CdcEvent)
    → now < 2 ^ 64
    → f.until_ts < 2 ^ 64
    → IsRange now f q
    → count_documents q ≡ none
    → find q ≡ inr es
    → f.order ≢ another
    → Returns
        (λ r. (result : List CdcEvent) × (r ≡ inr result) × IsOrdered f.order es result)
        (read count_documents find now f)
unfolding read counted found_events
read-IsOrdered {E} count_documents find now f q es small u range counts finds known =
    rw (sym (IsRange-range_of now f q range small u), counts, finds)
      (Returns-bind (IsOrdered f.order es)
        (λ r. (result : List CdcEvent) × (r ≡ inr result) × IsOrdered f.order es result)
        (ordered f.order es) _ (ordered-IsOrdered f.order es known) λ result k. (result, refl, k))
