-- ===== src/RevOrder/Step.antt =====
-- What one call of InOrder does to the entity of its event and to the others.
use etre.Base.{
  ℕ, ◌+◌, String, ◌≡◌, refl, ◌⊎◌, inl, inr, true, false, Option, none, some, List, [], ◌∷◌, arith,
  str_eq, eq_iff, eq_refl, Bool-cases, Option-cases,
}
use etre.Base.Dict.{lookup}
use etre.Base.Int64.{add64}
use etre.Etre.{CdcEvent, returns}
use etre.RevOrder.LruCache.{Lru}
use etre.RevOrder.Buffer.{complete, last_rev}
use etre.RevOrder.{Events, RevOrder, lru_add}

-- Each revision is the one before it plus one; `q` stands before the first.
abbrev pub Consec : ℕ → List CdcEvent → Type 0
Consec q [] = Unit
Consec q (b ∷ bs) = (b.entity_rev ≡ add64 q 1) × Consec b.entity_rev bs

-- The last revision, `q` if there is none.
abbrev pub last_from : ℕ → List CdcEvent → ℕ
last_from q [] = q
last_from q (b ∷ bs) = last_from b.entity_rev bs

pub complete-Consec :
    (qR i q : ℕ) (bs : List CdcEvent)
    → add64 q 1 ≡ add64 (add64 qR 1) i
    → complete qR i bs ≡ true
    → Consec q bs
unfolding complete
complete-Consec qR i q [] e h = tt
complete-Consec qR i q (b ∷ bs) e h =
    let eq : b.entity_rev ≡ add64 (add64 qR 1) i = ground arith in
    (omega arith, complete-Consec qR (i + 1) b.entity_rev bs (omega arith) (ground arith))

pub last_rev-last_from :
    (q : ℕ) (b : CdcEvent) (bs : List CdcEvent) → last_rev (b ∷ bs) ≡ last_from q (b ∷ bs)
unfolding last_rev
last_rev-last_from q b [] = refl
last_rev-last_from q b (c ∷ bs) = last_rev-last_from b.entity_rev c bs

module _ (L : Lru) where
  open L use {peek, add, peek-add_kept, peek-add_evicted, add_present, get_value, peek-get}

  -- An entity that was not touched: kept as it was, or forgotten while it was not reordering.
  abbrev pub Untouched : RevOrder L → RevOrder L → String → Type 0
  Untouched r r' j =
      ((peek r'.lru j ≡ peek r.lru j) × (lookup j r'.reorder ≡ lookup j r.reorder))
      ⊎ ((peek r'.lru j ≡ none) × (lookup j r'.reorder ≡ none) × (lookup j r.reorder ≡ none))

  pub record Added (r : RevOrder L) (k : String) (v : ℕ) (r' : RevOrder L) : Type 0 where
    pub same_reorder : r'.reorder ≡ r.reorder
    pub same_mode : r'.ignore_past_revs ≡ r.ignore_past_revs
    pub stored : peek r'.lru k ≡ some v
    pub others : (j : String) → str_eq k j ≡ false → Untouched r r' j

  pub lru_add-Added :
      (r r' : RevOrder L) (k : String) (v : ℕ) → lru_add L r k v ≡ returns r' → Added r k v r'
  unfolding lru_add
  lru_add-Added r r' k v h = elim (Option-cases (add r.lru k v).1) [
    | inl kept ↦ record {
      same_reorder = ground (arith, kept);
      same_mode = ground (arith, kept);
      stored = ground (arith, kept, eq_refl k, peek-add_kept r.lru k v k kept);
      others =
          λ j ne. inl (ground (arith, kept, peek-add_kept r.lru k v j kept), ground (arith, kept));
    }
    | inr (x, gone) ↦ evicting x gone (Option-cases (lookup x r.reorder))
  ]
    where
      evicting :
          (x : String)
          → (add r.lru k v).1 ≡ some x
          → (lookup x r.reorder ≡ none) ⊎ ((re : Events) × (lookup x r.reorder ≡ some re))
          → Added r k v r'
      evicting x gone (inr (re, waits)) = absurd (ground (arith, gone, waits))
      evicting x gone (inl idle) = record {
        same_reorder = ground (arith, gone, idle);
        same_mode = ground (arith, gone, idle);
        stored = ground (arith, gone, idle, eq_refl k, peek-add_evicted r.lru k v x k gone);
        others = λ j ne. elim (Bool-cases (str_eq x j)) [
          | inl hit ↦ inr (
            ground (arith, gone, idle, peek-add_evicted r.lru k v x j gone),
            ground (arith, gone, idle, (eq_iff x j).0 hit),
            ground (arith, idle, (eq_iff x j).0 hit),
          )
          | inr miss ↦ inl (
            ground (arith, gone, idle, peek-add_evicted r.lru k v x j gone),
            ground (arith, gone, idle),
          )
        ];
      }

  -- Add of an entity that is present never panics.
  pub lru_add_present :
      (r : RevOrder L) (k : String) (v w : ℕ)
      → peek r.lru k ≡ some v
      → (r' : RevOrder L) × (lru_add L r k w ≡ returns r')
  unfolding lru_add
  lru_add_present r k v w h =
      (record r { lru = (add r.lru k w).0 }, ground (arith, add_present r.lru k v w h))

  -- The buffers agree with the cache, and none of them is complete.
  pub record Inv (r : RevOrder L) : Type 0 where
    pub linked :
        (k : String) (re : Events) → lookup k r.reorder ≡ some re → peek r.lru k ≡ some re.prev
    pub waiting :
        (k : String) (re : Events)
        → lookup k r.reorder ≡ some re
        → complete re.prev 0 re.buf ≡ false

  -- What a call for the event `e` does: the events delivered follow on from the last revision of
  -- the entity, which becomes that of the last delivered; a first event is delivered as it is.
  abbrev pub Follows : Option ℕ → CdcEvent → List CdcEvent → Option ℕ → Type 0
  Follows none e ds after = (ds ≡ e ∷ []) × (after ≡ some e.entity_rev)
  Follows (some q) e ds after = Consec q ds × (after ≡ some (last_from q ds))

  pub record Advances (r : RevOrder L) (e : CdcEvent) (ds : List CdcEvent) (r' : RevOrder L)
      : Type 0 where
    pub entity : Follows (peek r.lru e.entity_id) e ds (peek r'.lru e.entity_id)
    pub others : (j : String) → str_eq e.entity_id j ≡ false → Untouched r r' j
    pub inv : Inv r'
