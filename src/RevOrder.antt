-- ===== src/RevOrder.antt =====
-- revorder.go: RevOrder hands out the revisions of each entity in order.
--
-- The LRU cache of github.com/golang/groupcache is the parameter `L`. A revision is the bit pattern
-- of its int64. A call of InOrder gives the new state and Go's two results, or panics.
pub mod LruCache
pub mod Buffer
pub mod Feed
pub mod Sort
pub mod Step
pub mod Advance
pub mod Spec
pub mod Reorder
pub mod Stall
pub mod Bounded
mod Tests
use etre.Base.{
  ℕ, zero, suc, ◌+◌, String, Bool, true, false, not, ◌&&◌, Option, none, some, List, [], ◌∷◌, ◌++◌,
  ◌==◌, if◌then◌else◌,
}
use etre.Base.Dict.{Dict, lookup, insert, delete}
use etre.Base.Int64.{add64, lt64}
use etre.Etre.{CdcEvent, Outcome, returns, panics, ◌>>=◌, ◌>>◌}
use LruCache.{Lru}
use Buffer.{sort, complete, last_rev}

pub record Events : Type 0 where
  pub prev : ℕ
  pub buf : List CdcEvent

abbrev pub default_max_entities : ℕ
default_max_entities = 1000

abbrev pub reordering : Option Events → Bool
reordering none = false
reordering (some re) = true

module _ (L : Lru) where
  open L use {Cache, new, get, add}

  pub record RevOrder : Type 0 where
    pub reorder : Dict Events
    pub lru : Cache
    pub ignore_past_revs : Bool

  unfoldable pub new_rev_order : ℕ → Bool → RevOrder
  new_rev_order max_entities ignore_past_revs = record {
    reorder = [];
    lru = new (if max_entities == 0 then default_max_entities else max_entities);
    ignore_past_revs = ignore_past_revs;
  }

  -- onEvictedCallback: it panics for an entity that is being reordered.
  pub on_evicted : Dict Events → Option String → Outcome (Unit {0})
  on_evicted reorder none = returns tt
  on_evicted reorder (some key) = elim (lookup key reorder) [ some _ ↦ panics | none ↦ returns tt ]

  -- r.lru.Add, with the callback that it makes.
  pub lru_add : RevOrder → String → ℕ → Outcome RevOrder
  unfolding on_evicted
  lru_add r key rev = do
    on_evicted r.reorder (add r.lru key rev).1
    returns (record r { lru = (add r.lru key rev).0 })

  abbrev pub Reply : Type 0
  Reply = Bool × Option (List CdcEvent)

  -- The buffer is complete: hand it out, and stop reordering.
  pub flush : RevOrder → CdcEvent → Events → List CdcEvent → Outcome (RevOrder × Reply)
  unfolding lru_add
  flush r e re buf = do
    r' ←
        lru_add (record r { reorder = insert e.entity_id (record re { buf = buf }) r.reorder })
          e.entity_id (last_rev buf)
    returns (record r' { reorder = delete e.entity_id r'.reorder }, (true, some buf))

  -- The revision is out of order: buffer it, and hand the buffer out once it has no gap.
  pub out_of_order : RevOrder → CdcEvent → ℕ → Option Events → Outcome (RevOrder × Reply)
  unfolding flush
  out_of_order r e qR none =
      let started : Events = record { prev = qR; buf = e ∷ [] } in
      returns (record r { reorder = insert e.entity_id started r.reorder }, (false, none))
  out_of_order r e qR (some re) =
      let buf = sort (re.buf ++ e ∷ []) in
      if complete re.prev 0 buf
      then flush r e re buf
      else returns (
        record r { reorder = insert e.entity_id (record re { buf = buf }) r.reorder },
        (false, none),
      )

  -- The entity was seen before: `qR` is its last revision, `re` its buffer if it is reordering.
  pub seen_before : RevOrder → CdcEvent → ℕ → Option Events → Outcome (RevOrder × Reply)
  unfolding out_of_order
  seen_before r e qR re =
      if not (reordering re) && e.entity_rev == add64 qR 1
      then (do r' ← lru_add r e.entity_id e.entity_rev; returns (r', (true, none)))
      else if e.entity_rev == qR
      then returns (r, (false, none))
      else if lt64 e.entity_rev qR
      then (if r.ignore_past_revs then returns (r, (false, none)) else panics)
      else out_of_order r e qR re

  -- `v` is what the cache holds under the entity.
  pub looked_up : RevOrder → CdcEvent → Option ℕ → Outcome (RevOrder × Reply)
  unfolding seen_before
  looked_up r e none = do r' ← lru_add r e.entity_id e.entity_rev; returns (r', (true, none))
  looked_up r e (some qR) = seen_before r e qR (lookup e.entity_id r.reorder)

  unfoldable pub in_order : RevOrder → CdcEvent → Outcome (RevOrder × Reply)
  unfolding looked_up
  in_order r e = let (v, lru') = get r.lru e.entity_id in looked_up (record r { lru = lru' }) e v
