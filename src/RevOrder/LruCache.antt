-- ===== src/RevOrder/LruCache.antt =====
-- The part of github.com/golang/groupcache/lru that RevOrder relies on, as documented there: Get
-- returns what the last Add of the key stored; Add of a key that is present evicts nothing; Add of a
-- new key evicts at most one other key, which it reports to OnEvicted.
use etre.Base.{ℕ, String, ◌≡◌, false, Option, none, some, str_eq, if◌then◌else◌}

pub record Lru : Type 1 where
  pub Cache : Type 0
  pub new : ℕ → Cache
  pub get : Cache → String → Option ℕ × Cache
  pub add : Cache → String → ℕ → Cache × Option String
  -- What the cache holds under a key.
  pub peek : Cache → String → Option ℕ
  pub get_value : (c : Cache) (k : String) → (get c k).0 ≡ peek c k
  pub peek-get : (c : Cache) (k j : String) → peek (get c k).1 j ≡ peek c j
  pub peek-new : (n : ℕ) (k : String) → peek (new n) k ≡ none
  pub add_present : (c : Cache) (k : String) (v w : ℕ) → peek c k ≡ some v → (add c k w).1 ≡ none
  pub peek-add_kept :
      (c : Cache) (k : String) (v : ℕ) (j : String)
      → (add c k v).1 ≡ none
      → peek (add c k v).0 j ≡ (if str_eq k j then some v else peek c j)
  pub peek-add_evicted :
      (c : Cache) (k : String) (v : ℕ) (x j : String)
      → (add c k v).1 ≡ some x
      → (str_eq x k ≡ false)
        × (peek (add c k v).0 j
            ≡ (if str_eq k j then some v else if str_eq x j then none else peek c j))
