-- ===== src/RevOrder/Buffer.antt =====
-- The buffer of one entity: sort.Sort(ByRev(buf)) and the walk of InOrder over it.
-- sort.Sort leaves the order of equal revisions open; here they keep their places.
use etre.Base.{ℕ, ◌+◌, Bool, true, ◌&&◌, List, [], ◌∷◌, ◌==◌, if◌then◌else◌}
use etre.Base.Int64.{add64, lt64}
use etre.Etre.{CdcEvent}

unfoldable pub by_rev_less : CdcEvent → CdcEvent → Bool
by_rev_less a b = lt64 a.entity_rev b.entity_rev

unfoldable pub insert_sorted : CdcEvent → List CdcEvent → List CdcEvent
insert_sorted e [] = e ∷ []
insert_sorted e (b ∷ bs) = if by_rev_less e b then e ∷ b ∷ bs else b ∷ insert_sorted e bs

unfoldable pub sort_into : List CdcEvent → List CdcEvent → List CdcEvent
sort_into sorted [] = sorted
sort_into sorted (e ∷ es) = sort_into (insert_sorted e sorted) es

unfoldable pub sort : List CdcEvent → List CdcEvent
unfolding sort_into
sort buf = sort_into [] buf

-- for i, b := range buf { if b.EntityRev != qR+1+int64(i) { return false } }
unfoldable pub complete : ℕ → ℕ → List CdcEvent → Bool
complete qR i [] = true
complete qR i (b ∷ bs) = b.entity_rev == add64 (add64 qR 1) i && complete qR (i + 1) bs

-- buf[len(buf)-1].EntityRev; the code has just appended to buf.
unfoldable pub last_rev : List CdcEvent → ℕ
last_rev [] = 0
last_rev (b ∷ []) = b.entity_rev
last_rev (b ∷ c ∷ bs) = last_rev (c ∷ bs)
