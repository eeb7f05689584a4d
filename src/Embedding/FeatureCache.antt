-- ===== src/Embedding/FeatureCache.antt =====
-- include/sai/embedding/feature_cache.h and src/embedding/feature_cache.cpp. Each operation holds the lock
-- to its end. An iterator of the list is the number of its node, which no later node gets; an iterator to a
-- node that is gone is a fault.
pub mod Coherent
pub mod Recency
pub mod Eviction
use surface_ai.Base.{
  ℕ, zero, suc, ◌+◌, ◌%◌, ◌^◌, ltb, leb, ◌==◌, Bool, true, false, ◌&&◌, Option, none, some, List,
  [], ◌∷◌, map, length, if◌then◌else◌,
}
use surface_ai.Base.Table.{Table, lookup, assign, erase}
use surface_ai.Core.Error.{Result, ok, err, fault}

pub record LruItem (V : Type 0) : Type 0 where
  pub node : ℕ
  pub key : ℕ
  pub value : V

pub record FeatureCache (V : Type 0) : Type 0 where
  pub max_entries : ℕ
  pub lru : List (LruItem V)
  pub index : Table ℕ
  pub hits : ℕ
  pub misses : ℕ
  pub next_node : ℕ

module _ {V : Type 0} where
  -- The node of an iterator, and the other nodes.
  unfoldable pub take_node : ℕ → List (LruItem V) → Option (LruItem V × List (LruItem V))
  take_node it [] = none
  take_node it (i ∷ is) =
      let deeper = take_node it is in
      if i.node == it
      then some (i, is)
      else elim deeper [ none ↦ none | some (j, rest) ↦ some (j, i ∷ rest) ]

  -- Get: the value, if there is one, and the cache afterwards.
  unfoldable pub get : ℕ → FeatureCache V → Result (Option V) × FeatureCache V
  unfolding take_node
  get key c = elim (lookup key c.index) [
    | none ↦ (ok none, record c { misses = (c.misses + 1) % 2 ^ 64 })
    | some it ↦ elim (take_node it c.lru) [
      | none ↦ (fault, c)
      | some (item, rest) ↦
          (ok (some item.value), record c { lru = item ∷ rest; hits = (c.hits + 1) % 2 ^ 64 })
    ]
  ]

  -- All nodes but the last, and the last one.
  abbrev pub split_back : LruItem V → List (LruItem V) → List (LruItem V) × LruItem V
  split_back i [] = ([], i)
  split_back i (j ∷ js) = let (front, last) = split_back j js in (i ∷ front, last)

  -- index_.erase(last.first) and pop_back; back() of an empty list is a fault.
  unfoldable pub evict : FeatureCache V → Result (FeatureCache V)
  unfolding erase
  evict c = elim c.lru [
    | [] ↦ fault
    | i ∷ is ↦
        let (front, last) = split_back i is in
        ok (record c { lru = front; index = erase last.key c.index })
  ]

  -- emplace_front, and the entry of the index.
  unfoldable pub insert_front : ℕ → V → FeatureCache V → FeatureCache V
  insert_front key value c = record c {
    lru = record { node = c.next_node; key = key; value = value } ∷ c.lru;
    index = assign key c.next_node c.index;
    next_node = c.next_node + 1;
  }

  -- Put of a key that is not there.
  unfoldable pub put_new : ℕ → V → FeatureCache V → Result (FeatureCache V)
  unfolding evict insert_front
  put_new key value c =
      if leb c.max_entries (length c.lru) && ltb 0 c.max_entries
      then elim (evict c) [ ok c' ↦ ok (insert_front key value c') | err e ↦ err e | fault ↦ fault ]
      else if c.max_entries == 0
      then ok c
      else ok (insert_front key value c)

  unfoldable pub put : ℕ → V → FeatureCache V → Result (FeatureCache V)
  unfolding put_new take_node
  put key value c = elim (lookup key c.index) [
    | none ↦ put_new key value c
    | some it ↦ elim (take_node it c.lru) [
      | none ↦ fault
      | some (item, rest) ↦ ok (record c { lru = record item { value = value } ∷ rest })
    ]
  ]
