-- ===== src/RevOrder/Bounded.antt =====
-- A cache that meets the interface, for tests: an association list, the last used key first.
use etre.Base.{
  ℕ, String, ◌≡◌, refl, Bool, false, Option, none, some, [], ◌∷◌, arith, length, leb, ◌==◌, not,
  ◌&&◌, str_eq, eq_iff, if◌then◌else◌,
}
use etre.Base.Dict.{Dict, lookup, delete, lookup-delete, lookup-empty}
use etre.RevOrder.LruCache.{Lru}

pub record Bounded : Type 0 where
  pub max : ℕ
  pub entries : Dict ℕ

last_key : Dict ℕ → Option String
last_key [] = none
last_key ((k, v) ∷ []) = some k
last_key (e ∷ f ∷ m) = last_key (f ∷ m)

front : String → ℕ → Dict ℕ → Dict ℕ
front k v m = (k, v) ∷ delete k m

pub found : Bounded → String → Option ℕ → Option ℕ × Bounded
found c k none = (none, c)
found c k (some v) = (some v, record c { entries = front k v c.entries })

pub pushed : Bounded → String → ℕ → Option String → Bounded × Option String
pushed c k v none = (record c { entries = front k v c.entries }, none)
pushed c k v (some x) = (record c { entries = front k v (delete x c.entries) }, some x)

is_full : Bounded → Bool
is_full c = not (c.max == 0) && leb c.max (length c.entries)

pub added : Bounded → String → ℕ → Option ℕ → Bounded × Option String
unfolding pushed
added c k v (some w) = (record c { entries = front k v c.entries }, none)
added c k v none = pushed c k v (if is_full c then last_key c.entries else none)

last_key-ne :
    (k x : String) (m : Dict ℕ) → lookup k m ≡ none → last_key m ≡ some x → str_eq x k ≡ false
unfolding lookup last_key
last_key-ne k x [] h e = cc
last_key-ne k x ((j, v) ∷ []) h e = ground arith
last_key-ne k x ((j, v) ∷ f ∷ m) h e = last_key-ne k x (f ∷ m) (ground arith) e

lookup-front :
    (k j : String) (v : ℕ) (m : Dict ℕ)
    → lookup j (front k v m) ≡ (if str_eq k j then some v else lookup j m)
unfolding front lookup
lookup-front k j v m = ground (arith, lookup-delete k j m)

pub lookup_found :
    (c : Bounded) (k j : String) (o : Option ℕ)
    → lookup k c.entries ≡ o
    → ((found c k o).0 ≡ o) × (lookup j (found c k o).1.entries ≡ lookup j c.entries)
unfolding found
lookup_found c k j none h = (refl, refl)
lookup_found c k j (some v) h = (refl, ground (arith, lookup-front k j v c.entries, eq_iff k j, h))

pub lookup-added_kept :
    (c : Bounded) (k j : String) (v : ℕ) (o : Option ℕ)
    → (added c k v o).1 ≡ none
    → lookup j (added c k v o).0.entries ≡ (if str_eq k j then some v else lookup j c.entries)
unfolding added
lookup-added_kept c k j v (some w) h = lookup-front k j v c.entries
lookup-added_kept c k j v none h = at (if is_full c then last_key c.entries else none) h
  where
    at :
        (x : Option String)
        → (pushed c k v x).1 ≡ none
        → lookup j (pushed c k v x).0.entries ≡ (if str_eq k j then some v else lookup j c.entries)
    at none h = lookup-front k j v c.entries
    at (some x) h = cc

pub lookup-added_evicted :
    (c : Bounded) (k j x : String) (v : ℕ) (o : Option ℕ)
    → lookup k c.entries ≡ o
    → (added c k v o).1 ≡ some x
    → (str_eq x k ≡ false)
      × (lookup j (added c k v o).0.entries
          ≡ (if str_eq k j then some v else if str_eq x j then none else lookup j c.entries))
unfolding added
lookup-added_evicted c k j x v (some w) e h = cc
lookup-added_evicted c k j x v none e h = at (if is_full c then last_key c.entries else none) refl h
  where
    at :
        (y : Option String)
        → (if is_full c then last_key c.entries else none) ≡ y
        → (pushed c k v y).1 ≡ some x
        → (str_eq x k ≡ false)
          × (lookup j (pushed c k v y).0.entries
              ≡ (if str_eq k j then some v else if str_eq x j then none else lookup j c.entries))
    at none p h = cc
    at (some y) p h =
        let same : y ≡ x = ground (arith, h) in
        let last : last_key c.entries ≡ some x = ground (arith, p, same) in
        (
          last_key-ne k x c.entries e last,
          ground
              (arith, lookup-front k j v (delete y c.entries), lookup-delete y j c.entries, same),
        )

-- As in the library, a maximum of 0 is no limit.
unfoldable pub bounded : Lru
unfolding found added last_key is_full front pushed lookup delete
bounded = record {
  Cache = Bounded;
  new = λ n. record { max = n; entries = [] };
  get = λ c k. found c k (lookup k c.entries);
  add = λ c k v. added c k v (lookup k c.entries);
  peek = λ c k. lookup k c.entries;
  get_value = λ c k. (lookup_found c k k (lookup k c.entries) refl).0;
  peek-get = λ c k j. (lookup_found c k j (lookup k c.entries) refl).1;
  peek-new = λ n k. lookup-empty k;
  add_present = λ c k v w h. rw h refl;
  peek-add_kept = λ c k v j h. lookup-added_kept c k j v (lookup k c.entries) h;
  peek-add_evicted = λ c k v x j h. lookup-added_evicted c k j x v (lookup k c.entries) refl h;
}
