-- ===== src/Cdc/Store/Read.antt =====
-- Read of cdc/store.go: the range of timestamps that it asks for, and its orders. The driver's
-- CountDocuments and Find are parameters, which see the range. sort.Sort is an insertion sort.
use etre.Base.{
  ℕ, ◌+◌, ◌-◌, ◌^◌, ◌%◌, Bool, true, false, ◌||◌, ◌&&◌, Option, none, some, List, [], ◌∷◌, ◌⊎◌, inl,
  inr, ltb, ◌==◌, str_eq, if◌then◌else◌,
}
use etre.Base.Int64.{lt64}
use etre.Base.Bytes.{Bytes, codes}
use etre.Etre.{CdcEvent, Outcome, returns, panics, ◌>>=◌}

-- The dynamic type of Filter.Order.
pub data Order : Type 0 where
  unordered by_entity_id_rev_asc by_ts_asc another : Order

pub record CdcFilter : Type 0 where
  pub since_ts : ℕ
  pub until_ts : ℕ
  pub limit : ℕ
  pub order : Order

-- $gte, and $lt if it is there.
pub record TsRange : Type 0 where
  pub since : ℕ
  pub until : Option ℕ

-- `now` is time.Now().UnixNano(); the default is an hour before.
unfoldable pub range_of : ℕ → CdcFilter → TsRange
range_of now f = record {
  since = if f.since_ts == 0 then (now + 2 ^ 64 - 3600000000000) % 2 ^ 64 else f.since_ts;
  until = if lt64 0 f.until_ts then some f.until_ts else none;
}

-- a < b of strings.
unfoldable pub bytes_less : Bytes → Bytes → Bool
bytes_less [] [] = false
bytes_less [] (d ∷ ds) = true
bytes_less (c ∷ cs) [] = false
bytes_less (c ∷ cs) (d ∷ ds) = ltb c d || (c == d && bytes_less cs ds)

unfoldable pub by_entity_id_rev_less : CdcEvent → CdcEvent → Bool
unfolding bytes_less
by_entity_id_rev_less a b =
    if str_eq a.entity_id b.entity_id
    then lt64 a.entity_rev b.entity_rev
    else bytes_less (codes a.entity_id) (codes b.entity_id)

unfoldable pub by_ts_less : CdcEvent → CdcEvent → Bool
by_ts_less a b = lt64 a.ts b.ts

unfoldable pub insert_by : (CdcEvent → CdcEvent → Bool) → CdcEvent → List CdcEvent → List CdcEvent
insert_by less e [] = e ∷ []
insert_by less e (b ∷ bs) = if less e b then e ∷ b ∷ bs else b ∷ insert_by less e bs

unfoldable pub sort_by : (CdcEvent → CdcEvent → Bool) → List CdcEvent → List CdcEvent
unfolding insert_by
sort_by less [] = []
sort_by less (e ∷ es) = insert_by less e (sort_by less es)

unfoldable pub ordered : Order → List CdcEvent → Outcome (List CdcEvent)
ordered unordered events = returns events
ordered by_entity_id_rev_asc events = returns (sort_by by_entity_id_rev_less events)
ordered by_ts_asc events = returns (sort_by by_ts_less events)
ordered another events = panics

module _ {E : Type 0} (count_documents : TsRange → Option E)
    (find : TsRange → E ⊎ List CdcEvent) where
  unfoldable pub found_events : Order → E ⊎ List CdcEvent → Outcome (E ⊎ List CdcEvent)
  found_events order (inl err) = returns (inl err)
  found_events order (inr events) = do es ← ordered order events; returns (inr es)

  unfoldable pub counted : Order → TsRange → Option E → Outcome (E ⊎ List CdcEvent)
  unfolding found_events
  counted order q (some err) = returns (inl err)
  counted order q none = found_events order (find q)

  unfoldable pub read : ℕ → CdcFilter → Outcome (E ⊎ List CdcEvent)
  unfolding counted
  read now f = let q = range_of now f in counted f.order q (count_documents q)
