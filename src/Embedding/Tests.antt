-- ===== src/Embedding/Tests.antt =====
-- Runs of the model of the cache, and its theorems at concrete inputs.
use surface_ai.Base.{subst, ℕ, ◌≡◌, refl, none, some, [], ◌∷◌, arith}
use surface_ai.Base.Table.{Table, lookup, assign, erase}
use surface_ai.Core.Error.{Result, ok}
use surface_ai.Embedding.FeatureCache.{
  FeatureCache, get, put, put_new, evict, insert_front, take_node,
}
use surface_ai.Embedding.FeatureCache.Coherent.{IsCoherent}
use surface_ai.Embedding.FeatureCache.Recency.{view, others, get-view}
use surface_ai.Embedding.FeatureCache.Eviction.{Puts, put-view}

abbrev empty_cache : FeatureCache ℕ
empty_cache = record { max_entries = 2; lru = []; index = []; hits = 0; misses = 0; next_node = 0 }

empty-IsCoherent : IsCoherent empty_cache
unfolding lookup
empty-IsCoherent = record {
  indexed = λ i m. absurd m;
  listed = λ k it e. absurd (cc e);
  distinct = tt;
  fresh = tt;
  bounded = omega arith;
}

put-view_example : Puts 7 70 empty_cache (put 7 70 empty_cache)
put-view_example = put-view 7 70 empty_cache empty-IsCoherent

abbrev one_entry : FeatureCache ℕ
one_entry = record {
  max_entries = 2;
  lru = record { node = 0; key = 7; value = 70 } ∷ [];
  index = (7, 0) ∷ [];
  hits = 0;
  misses = 0;
  next_node = 1;
}

puts_one : put 7 70 empty_cache ≡ ok one_entry
unfolding put put_new insert_front lookup assign
puts_one = refl

one-IsCoherent : IsCoherent one_entry
one-IsCoherent =
    let (c', e, h, bound, held) = put-view 7 70 empty_cache empty-IsCoherent in
    let same : c' ≡ one_entry = cc (e, puts_one) in
    subst (λ (c : FeatureCache ℕ). IsCoherent c) same h

get-view_example :
    (c' : FeatureCache ℕ) × (get 7 one_entry ≡ (ok (lookup 7 (view one_entry)), c'))
    × IsCoherent c'
    × (view c' ≡ (elim (lookup 7 (view one_entry)) as (λ _. Table ℕ) [
      | none ↦ view one_entry
      | some v ↦ (7, v) ∷ others 7 (view one_entry)
    ]))
get-view_example = get-view 7 one_entry one-IsCoherent

-- The entry that was used last stays when a third one comes.
abbrev third : Result (FeatureCache ℕ) → Table ℕ
third (ok c) = view c
third _ = []

keeps_used :
    third (
      put 9 90
        (get 7 (record one_entry {
          lru = record { node = 1; key = 8; value = 80 } ∷ one_entry.lru;
          index = (7, 0) ∷ (8, 1) ∷ [];
          next_node = 2;
        })).1)
    ≡ (9, 90) ∷ (7, 70) ∷ []
unfolding put put_new insert_front evict get take_node lookup assign erase
keeps_used = refl
