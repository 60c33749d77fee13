-- ===== src/Cdc/Store/Orders.antt =====
-- The two orders of events, and that sorting arranges the events in them.
use etre.Base.{
  ℕ, ◌+◌, ◌%◌, ◌^◌, ◌<◌, ◌≤◌, ◌≡◌, refl, sym, ◌∙◌, ap, Bool, true, false, List, [], ◌∷◌, arith,
  eq_iff, Bool-cases, inl, inr, ◌⊎◌, ◌≢◌, if◌then◌else◌,
}
use etre.Base.Bytes.{Bytes, codes}
use etre.Etre.{CdcEvent}
use etre.Cdc.Store.Read.{bytes_less, by_entity_id_rev_less, by_ts_less, insert_by, sort_by}

-- How many elements pass a test.
abbrev pub count : (CdcEvent → Bool) → List CdcEvent → ℕ
count p [] = 0
count p (e ∷ es) = (if p e then 1 else 0) + count p es

-- No element is less than the one before it.
abbrev pub InOrderBy : (CdcEvent → CdcEvent → Bool) → List CdcEvent → Type 0
InOrderBy less [] = Unit
InOrderBy less (a ∷ []) = Unit
InOrderBy less (a ∷ b ∷ bs) = (less b a ≡ false) × InOrderBy less (b ∷ bs)

-- The same elements, in order.
abbrev pub IsSortOf : (CdcEvent → CdcEvent → Bool) → List CdcEvent → List CdcEvent → Type 0
IsSortOf less es sorted =
    InOrderBy less sorted × ((p : CdcEvent → Bool) → count p sorted ≡ count p es)

-- Each two neighbours are related.
abbrev pub Chain : (CdcEvent → CdcEvent → Type 0) → List CdcEvent → Type 0
Chain R [] = Unit
Chain R (a ∷ []) = Unit
Chain R (a ∷ b ∷ bs) = R a b × Chain R (b ∷ bs)

-- The value of an int64, moved up by 2^63.
abbrev pub offset64 : ℕ → ℕ
offset64 n = (n + 2 ^ 63) % 2 ^ 64

-- The first text comes strictly before the second in the order of a dictionary.
abbrev pub Precedes : Bytes → Bytes → Type 0
Precedes [] [] = ⊥
Precedes [] (d ∷ ds) = Unit
Precedes (c ∷ cs) [] = ⊥
Precedes (c ∷ cs) (d ∷ ds) = (c < d) ⊎ ((c ≡ d) × Precedes cs ds)

abbrev pub NotAfterByTs : CdcEvent → CdcEvent → Type 0
NotAfterByTs a b = offset64 a.ts ≤ offset64 b.ts

-- Of one entity in order of revision, else in order of entity.
abbrev pub NotAfterByEntity : CdcEvent → CdcEvent → Type 0
NotAfterByEntity a b =
    (a.entity_id ≡ b.entity_id → offset64 a.entity_rev ≤ offset64 b.entity_rev)
    × (a.entity_id ≢ b.entity_id → ¬ Precedes (codes b.entity_id) (codes a.entity_id))

Precedes-bytes_less : (xs ys : Bytes) → Precedes xs ys → bytes_less xs ys ≡ true
unfolding bytes_less
Precedes-bytes_less [] [] h = absurd h
Precedes-bytes_less [] (d ∷ ds) h = refl
Precedes-bytes_less (c ∷ cs) [] h = absurd h
Precedes-bytes_less (c ∷ cs) (d ∷ ds) (inl h) = ground arith
Precedes-bytes_less (c ∷ cs) (d ∷ ds) (inr (e, h)) = ground (arith, Precedes-bytes_less cs ds h)

pub by_ts_less-NotAfter : (a b : CdcEvent) → by_ts_less b a ≡ false → NotAfterByTs a b
unfolding by_ts_less
by_ts_less-NotAfter a b h = ground arith

pub by_entity_id_rev_less-NotAfter :
    (a b : CdcEvent) → by_entity_id_rev_less b a ≡ false → NotAfterByEntity a b
unfolding by_entity_id_rev_less
by_entity_id_rev_less-NotAfter a b h = (
  λ e. ground (arith, h, (eq_iff b.entity_id a.entity_id).1 (sym e)),
  λ ne p. absurd (
      ground (
        arith,
        h,
        eq_iff b.entity_id a.entity_id,
        λ (e : b.entity_id ≡ a.entity_id). ne (sym e),
        Precedes-bytes_less (codes b.entity_id) (codes a.entity_id) p,
      )),
)

pub InOrderBy-Chain :
    (less : CdcEvent → CdcEvent → Bool) (R : CdcEvent → CdcEvent → Type 0)
    → ((a b : CdcEvent) → less b a ≡ false → R a b)
    → (es : List CdcEvent) → InOrderBy less es
    → Chain R es
InOrderBy-Chain less R k [] h = tt
InOrderBy-Chain less R k (a ∷ []) h = tt
InOrderBy-Chain less R k (a ∷ b ∷ bs) h = (k a b h.0, InOrderBy-Chain less R k (b ∷ bs) h.1)

bytes_less-asym : (xs ys : Bytes) → bytes_less xs ys ≡ true → bytes_less ys xs ≡ false
unfolding bytes_less
bytes_less-asym [] [] h = refl
bytes_less-asym [] (y ∷ ys) h = refl
bytes_less-asym (x ∷ xs) [] h = cc
bytes_less-asym (x ∷ xs) (y ∷ ys) h = ground (arith, h, bytes_less-asym xs ys)

pub by_ts_less-asym : (a b : CdcEvent) → by_ts_less a b ≡ true → by_ts_less b a ≡ false
unfolding by_ts_less
by_ts_less-asym a b h = ground (arith, h)

pub by_entity_id_rev_less-asym :
    (a b : CdcEvent) → by_entity_id_rev_less a b ≡ true → by_entity_id_rev_less b a ≡ false
unfolding by_entity_id_rev_less
by_entity_id_rev_less-asym a b h = ground (
  arith,
  h,
  eq_iff a.entity_id b.entity_id,
  eq_iff b.entity_id a.entity_id,
  bytes_less-asym (codes a.entity_id) (codes b.entity_id),
)

module _ (less : CdcEvent → CdcEvent → Bool)
    (asym : (a b : CdcEvent) → less a b ≡ true → less b a ≡ false) where
  insert_by-after :
      (a e : CdcEvent) (bs : List CdcEvent)
      → less e a ≡ false
      → InOrderBy less (a ∷ bs)
      → InOrderBy less (a ∷ insert_by less e bs)
  unfolding insert_by
  insert_by-after a e [] h k = (h, tt)
  insert_by-after a e (b ∷ bs) h k = elim (Bool-cases (less e b)) [
    | inl first ↦ rw first (h, (asym e b first, k.1))
    | inr later ↦ rw later (k.0, insert_by-after b e bs later k.1)
  ]

  insert_by-InOrderBy :
      (e : CdcEvent) (bs : List CdcEvent) → InOrderBy less bs → InOrderBy less (insert_by less e bs)
  unfolding insert_by
  insert_by-InOrderBy e [] k = tt
  insert_by-InOrderBy e (b ∷ bs) k = elim (Bool-cases (less e b)) [
    | inl first ↦ rw first (asym e b first, k)
    | inr later ↦ rw later (insert_by-after b e bs later k)
  ]

  count-insert_by :
      (p : CdcEvent → Bool) (e : CdcEvent) (bs : List CdcEvent)
      → count p (insert_by less e bs) ≡ count p (e ∷ bs)
  unfolding insert_by
  count-insert_by p e [] = refl
  count-insert_by p e (b ∷ bs) = ground (arith, count-insert_by p e bs)

  pub sort_by-IsSortOf : (es : List CdcEvent) → IsSortOf less es (sort_by less es)
  unfolding sort_by
  sort_by-IsSortOf [] = (tt, λ p. refl)
  sort_by-IsSortOf (e ∷ es) =
      let rest = sort_by-IsSortOf es in
      (
        insert_by-InOrderBy e (sort_by less es) rest.0,
        λ p.
            count-insert_by p e (sort_by less es) ∙ ap (λ n. (if p e then 1 else 0) + n) (rest.1 p),
      )
