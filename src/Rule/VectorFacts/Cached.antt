-- ===== src/Rule/VectorFacts/Cached.antt =====
-- src/rule/fact_builder.cpp: the retrieval cache, over two retrievals.
use surface_ai.Base.{◌≡◌, ap, true, none, some, List, arith}
use surface_ai.Base.Text.{Text}
use surface_ai.Core.Error.{Result, ok}
use surface_ai.Rule.Double.{Double}
use surface_ai.Rule.FactBase.{FactBase}
use surface_ai.Rule.FactBuilder.{Floats}
use surface_ai.Rule.VectorFacts.{
  VectorResult, SearchConfig, Retriever, squared_distance, is_hit, cached_results, retrieve,
  request, run_vector_retrieval, write_retrieval_results,
}

module _ {D F : Type 0} ⦃d : Double D⦄ (c : Floats D F) where
  -- A query is near itself.
  abbrev pub IsNear : List F → D → Type 0
  IsNear query epsilon =
      (d.gt epsilon d.nought ≡ true)
      × (d.lt (squared_distance c d.nought query query) (d.mul epsilon epsilon) ≡ true)

  hit_itself :
      (query : List F) (results : List (VectorResult F)) (b : Retriever D F)
      → IsNear query b.cache_epsilon
      → cached_results c query
          (record b { retrieval_cache = some (record { query = query; results = results }) })
        ≡ some results
  unfolding cached_results is_hit
  hit_itself query results b h = ground (arith, h.0, h.1)

  -- If a retrieval finds nothing near in the cache and searches, then a second one with the same query writes
  -- the results of the first search, whatever number of results and subset of ids its facts ask for. The
  -- query must be near itself by the numbers, and the cache in use.
  pub run_vector_retrieval-twice :
      (key key' : Text) (b : Retriever D F) (fb fb' : FactBase D)
      (vectors : List F → SearchConfig → Result (List (VectorResult F))) (query : List F)
      (cfg cfg' : SearchConfig) (results : List (VectorResult F))
      → b.search ≡ some vectors
      → request c key fb ≡ ok (query, cfg)
      → cached_results c query b ≡ none
      → vectors query cfg ≡ ok results
      → request c key' fb' ≡ ok (query, cfg')
      → IsNear query b.cache_epsilon
      → (b' : Retriever D F) × (run_vector_retrieval c key b fb
          ≡ (ok tt, b', write_retrieval_results c results cfg.k fb))
        × (run_vector_retrieval c key' b' fb'
            ≡ (ok tt, b', write_retrieval_results c results cfg'.k fb'))
  unfolding run_vector_retrieval
  run_vector_retrieval-twice key key' b fb fb' vectors query cfg cfg' results s q miss found q'
        near =
      (
        record b { retrieval_cache = some (record { query = query; results = results }) },
        rw (run_vector_retrieval, s, q, retrieve, miss, found)
            (with_search (write_retrieval_results c results cfg.k fb)),
        rw (run_vector_retrieval, s, q', retrieve, hit_itself query results b near)
            (with_search (write_retrieval_results c results cfg'.k fb')),
      )
    where
      with_search :
          (x : FactBase D)
          → (let b' : Retriever D F = record b {
            retrieval_cache = some (record { query = query; results = results });
          } in
              Path
                (Result (Unit {0}) × Retriever D F × FactBase D)
                (ok tt, b', x)
                (ok tt, record b' { search = some vectors }, x))
      with_search x =
          ap
            (λ v. (
              ok tt,
              record b {
                search = v;
                retrieval_cache = some (record { query = query; results = results });
              },
              x,
            ))
            s
