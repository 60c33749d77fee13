-- ===== src/RevOrder/Sort.antt =====
-- sort.Sort(ByRev(buf)): order, contents and length.
use mathlib.Core.List.{append-nil, append_assoc, Perm}
use mathlib.Core.List.Perm
use etre.Base.{
  ℕ, suc, ◌+◌, ◌^◌, ◌≤◌, ◌<◌, ◌≡◌, ◌≢◌, refl, sym, ap, ◌∙◌, inl, inr, true, false, List, [], ◌∷◌,
  ◌++◌, arith, length, All, Bool-cases,
}
use etre.Base.Int64.{add64, lt64}
use etre.Etre.{CdcEvent}
use etre.RevOrder.Buffer.{by_rev_less, insert_sorted, sort_into, sort, complete, last_rev}

-- Appending to the buffer and sorting again inserts into the sorted buffer.
pub sort_into-append :
    (s bs : List CdcEvent) (e : CdcEvent)
    → sort_into s (bs ++ e ∷ []) ≡ insert_sorted e (sort_into s bs)
unfolding sort_into
sort_into-append s [] e = refl
sort_into-append s (b ∷ bs) e = sort_into-append (insert_sorted b s) bs e

pub insert_sorted-ne-nil : (e : CdcEvent) (bs : List CdcEvent) → insert_sorted e bs ≢ []
unfolding insert_sorted
insert_sorted-ne-nil e [] h = cc
insert_sorted-ne-nil e (b ∷ bs) h = ground arith

pub sort-ne-nil : (bs : List CdcEvent) (e : CdcEvent) → sort (bs ++ e ∷ []) ≢ []
unfolding sort
sort-ne-nil bs e = rw sort_into-append (insert_sorted-ne-nil e (sort_into [] bs))

-- Revisions rise strictly along the list, above `lo`.
abbrev pub Strict : ℕ → List CdcEvent → Type 0
Strict lo [] = Unit
Strict lo (b ∷ bs) = (lo < b.entity_rev) × Strict b.entity_rev bs

abbrev pub AtMost : ℕ → List CdcEvent → Type 0
AtMost top = All (λ b. b.entity_rev ≤ top)

abbrev pub NotIn : ℕ → List CdcEvent → Type 0
NotIn n = All (λ b. b.entity_rev ≢ n)

module _ (top : ℕ) (small : top < 2 ^ 63) where
  pub insert_sorted-Strict :
      (lo : ℕ) (e : CdcEvent) (bs : List CdcEvent)
      → Strict lo bs
      → AtMost top bs
      → lo < e.entity_rev
      → e.entity_rev ≤ top
      → NotIn e.entity_rev bs
      → Strict lo (insert_sorted e bs)
  unfolding insert_sorted by_rev_less
  insert_sorted-Strict lo e [] s m above below new = (above, tt)
  insert_sorted-Strict lo e (b ∷ bs) s m above below new =
      ground (arith, insert_sorted-Strict b.entity_rev e bs s.1 m.1, new.0, new.1)

  pub insert_sorted-AtMost :
      (e : CdcEvent) (bs : List CdcEvent)
      → AtMost top bs
      → e.entity_rev ≤ top
      → AtMost top (insert_sorted e bs)
  unfolding insert_sorted
  insert_sorted-AtMost e [] m below = (below, tt)
  insert_sorted-AtMost e (b ∷ bs) m below = elim (Bool-cases (by_rev_less e b)) [
    | inl less ↦ rw less (below, m)
    | inr more ↦ rw more (m.0, insert_sorted-AtMost e bs m.1 below)
  ]

  below_of_Strict :
      (c : ℕ) (s bs : List CdcEvent) (b : CdcEvent) → Strict c (s ++ b ∷ bs) → c < b.entity_rev
  below_of_Strict c [] bs b h = h.0
  below_of_Strict c (x ∷ s) bs b h = omega (arith, below_of_Strict x.entity_rev s bs b h.1)

  insert_above :
      (lo : ℕ) (s bs : List CdcEvent) (b : CdcEvent)
      → Strict lo (s ++ b ∷ bs)
      → AtMost top (s ++ b ∷ bs)
      → insert_sorted b s ≡ s ++ b ∷ []
  unfolding insert_sorted by_rev_less
  insert_above lo [] bs b h m = refl
  insert_above lo (c ∷ s) bs b h m =
      let above : c.entity_rev < b.entity_rev = below_of_Strict c.entity_rev s bs b h.1 in
      let bound : b.entity_rev ≤ top = at_middle s m.1 in
      let later : lt64 b.entity_rev c.entity_rev ≡ false = ground arith in
      rw later (ap (◌∷◌ c) (insert_above c.entity_rev s bs b h.1 m.1))
    where
      at_middle : (xs : List CdcEvent) → AtMost top (xs ++ b ∷ bs) → b.entity_rev ≤ top
      at_middle [] k = k.0
      at_middle (x ∷ xs) k = at_middle xs k.1

  sort_into-Strict :
      (lo : ℕ) (s bs : List CdcEvent)
      → Strict lo (s ++ bs)
      → AtMost top (s ++ bs)
      → sort_into s bs ≡ s ++ bs
  unfolding sort_into
  sort_into-Strict lo s [] h m = sym (append-nil s)
  sort_into-Strict lo s (b ∷ bs) h m =
      let e : (s ++ b ∷ []) ++ bs ≡ s ++ b ∷ bs = append_assoc s (b ∷ []) bs in
      rw (insert_above lo s bs b h m) (sort_into-Strict lo (s ++ b ∷ []) bs (rw e h) (rw e m) ∙ e)

  -- Sorting again after an append is an insertion, where the buffer is strictly sorted.
  pub sort-append-Strict :
      (lo : ℕ) (bs : List CdcEvent) (e : CdcEvent)
      → Strict lo bs
      → AtMost top bs
      → sort (bs ++ e ∷ []) ≡ insert_sorted e bs
  unfolding sort
  sort-append-Strict lo bs e h m =
      sort_into-append [] bs e ∙ ap (insert_sorted e) (sort_into-Strict lo [] bs h m)

  -- Strictly sorted revisions above `lo` that leave no room below `lo + length` have no gap.
  Strict-length-le :
      (lo : ℕ) (b : CdcEvent) (bs : List CdcEvent)
      → Strict lo (b ∷ bs)
      → AtMost top (b ∷ bs)
      → lo + length (b ∷ bs) ≤ top
  Strict-length-le lo b [] h m = omega arith
  Strict-length-le lo b (c ∷ bs) h m = omega (arith, Strict-length-le b.entity_rev c bs h.1 m.1)

  pub dense-complete :
      (q i lo : ℕ) (bs : List CdcEvent)
      → lo ≡ q + i
      → Strict lo bs
      → AtMost top bs
      → lo + length bs ≡ top
      → complete q i bs ≡ true
  unfolding complete
  dense-complete q i lo [] e h m n = refl
  dense-complete q i lo (b ∷ []) e h m n = ground arith
  dense-complete q i lo (b ∷ c ∷ bs) e h m n =
      let next : b.entity_rev ≡ lo + 1 =
        omega (arith, Strict-length-le b.entity_rev c bs h.1 m.1) in
      ground (
        arith,
        next,
        dense-complete q (i + 1) b.entity_rev (c ∷ bs) (omega arith) h.1 m.1 (omega arith),
      )

  -- A buffer without a gap ends at the number of its events above `q`.
  pub complete-last_rev :
      (q i : ℕ) (b : CdcEvent) (bs : List CdcEvent)
      → complete q i (b ∷ bs) ≡ true
      → q + i + length (b ∷ bs) ≤ top
      → last_rev (b ∷ bs) ≡ q + i + length (b ∷ bs)
  unfolding complete last_rev
  complete-last_rev q i b [] h n = ground arith
  complete-last_rev q i b (c ∷ bs) h n =
      omega (arith, complete-last_rev q (i + 1) c bs (ground arith) (omega arith))

  -- A revision outside such a buffer and above `q` lies above the whole buffer.
  pub complete-NotIn :
      (q i n : ℕ) (bs : List CdcEvent)
      → complete q i bs ≡ true
      → NotIn n bs
      → q + i < n
      → n ≤ top
      → q + i + length bs < n
  unfolding complete
  complete-NotIn q i n [] h new above below = omega arith
  complete-NotIn q i n (b ∷ bs) h new above below =
      let here : b.entity_rev ≡ add64 (add64 q 1) i = ground arith in
      let past : q + (i + 1) < n = ground (arith, here, new.0) in
      omega (arith, complete-NotIn q (i + 1) n bs (ground arith) new.1 past below)

pub insert_sorted-perm : (e : CdcEvent) (bs : List CdcEvent) → Perm (insert_sorted e bs) (e ∷ bs)
unfolding insert_sorted
insert_sorted-perm e [] = Perm.refl (e ∷ [])
insert_sorted-perm e (b ∷ bs) = elim (Bool-cases (by_rev_less e b)) [
  | inl less ↦ rw less (Perm.refl (e ∷ b ∷ bs))
  | inr more ↦ rw more (Perm.trans (Perm.cons b (insert_sorted-perm e bs)) (Perm.swap e b bs))
]

pub length-insert_sorted :
    (e : CdcEvent) (bs : List CdcEvent) → length (insert_sorted e bs) ≡ suc (length bs)
unfolding insert_sorted
length-insert_sorted e [] = refl
length-insert_sorted e (b ∷ bs) = ground (arith, length-insert_sorted e bs)

pub insert_sorted-NotIn :
    (n : ℕ) (e : CdcEvent) (bs : List CdcEvent)
    → NotIn n bs
    → e.entity_rev ≢ n
    → NotIn n (insert_sorted e bs)
unfolding insert_sorted
insert_sorted-NotIn n e [] h ne = (ne, tt)
insert_sorted-NotIn n e (b ∷ bs) h ne = elim (Bool-cases (by_rev_less e b)) [
  | inl less ↦ rw less (ne, h)
  | inr more ↦ rw more (h.0, insert_sorted-NotIn n e bs h.1 ne)
]
