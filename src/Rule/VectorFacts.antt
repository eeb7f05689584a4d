-- ===== src/Rule/VectorFacts.antt =====
-- src/rule/fact_builder.cpp, RunVectorRetrieval and WriteRetrievalResults. VectorPath is an interface, its
-- mode always TopK; `none` is the null pointer.
pub mod Cached
use surface_ai.Base.{
  ℕ, suc, ◌+◌, Bool, true, false, ◌&&◌, Option, none, some, List, [], ◌∷◌, ◌++◌, map, length,
  if◌then◌else◌, ◌==◌,
}
use surface_ai.Base.Text.{Text, text, to_string}
use surface_ai.Core.Error.{ErrorCode, ErrorInfo, Result, ok, err, fault, fail, ◌>>=◌}
use surface_ai.Rule.Double.{Double}
use surface_ai.Rule.Value.{Value, Values, nil, cons, of_double, as_double, as_list}
use surface_ai.Rule.FactBase.{FactBase, FactSourceKind, source_of_kind, get}
use surface_ai.Rule.GraphPaths.{Fact, set_all}
use surface_ai.Rule.FactBuilder.{Floats}

pub record VectorResult (F : Type 0) : Type 0 where
  pub index : ℕ
  pub distance : F

pub record SearchConfig : Type 0 where
  pub k : ℕ
  pub id_subset : List ℕ

pub record RetrievalCache (F : Type 0) : Type 0 where
  pub query : List F
  pub results : List (VectorResult F)

-- The members of FactBuilder that retrieval reads or writes.
pub record Retriever (D F : Type 0) : Type 0 where
  pub search : Option (List F → SearchConfig → Result (List (VectorResult F)))
  pub retrieval_cache : Option (RetrievalCache F)
  pub cache_epsilon : D

abbrev pub mismatch {ℓ} : {A : Type ℓ} → Text → Result A
mismatch message = fail ErrorCode.rule_type_mismatch message

module _ {D F : Type 0} ⦃d : Double D⦄ (c : Floats D F) where
  abbrev pub search_fact : Text → D → Text → Fact D
  search_fact key value desc = record {
    key = key;
    value = of_double value;
    source = source_of_kind FactSourceKind.vector_search desc;
  }

  -- The two facts of each result, from a rank on.
  unfoldable pub rank_facts : ℕ → List (VectorResult F) → List (Fact D)
  rank_facts rank [] = []
  rank_facts rank (r ∷ rs) =
      let prefix = text "retrieval.top" ++ to_string rank in
      search_fact (prefix ++ text ".index") (d.of_size r.index) (prefix ++ text ".index")
      ∷ search_fact (prefix ++ text ".distance") (c.to_double r.distance)
          (prefix ++ text ".distance")
      ∷ rank_facts (suc rank) rs

  unfoldable pub write_retrieval_results : List (VectorResult F) → ℕ → FactBase D → FactBase D
  unfolding rank_facts set_all
  write_retrieval_results results k fb =
      set_all
        (search_fact (text "retrieval.count") (d.of_size (length results))
            (text "VectorPath TopK k=" ++ to_string k)
          ∷ rank_facts 1 results)
        fb

  -- The loop that converts the query.
  unfoldable pub query_of : Values D → Option (List F)
  query_of nil = some []
  query_of (cons v vs) = elim (as_double v) [
    | none ↦ none
    | some x ↦ elim (query_of vs) [ none ↦ none | some q ↦ some (c.to_float x ∷ q) ]
  ]

  abbrev pub size_of : D → Result ℕ
  size_of x = elim (c.to_size x) [ none ↦ fault | some n ↦ ok n ]

  -- The number of results, and the subset of ids, that the facts ask for.
  unfoldable pub configured_k : FactBase D → Result ℕ
  unfolding get
  configured_k fb = elim (get (text "retrieval.config.k") fb) [
    | none ↦ ok 10
    | some v ↦ elim (as_double v) [ none ↦ ok 10 | some x ↦ size_of x ]
  ]

  unfoldable pub sizes_of : Values D → Result (List ℕ)
  sizes_of nil = ok []
  sizes_of (cons v vs) =
      let rest = sizes_of vs in
      elim (as_double v) [ none ↦ rest | some x ↦ size_of x >>= λ n. rest >>= λ ns. ok (n ∷ ns) ]

  unfoldable pub configured_subset : FactBase D → Result (List ℕ)
  unfolding get sizes_of
  configured_subset fb = elim (get (text "retrieval.config.id_subset") fb) [
    | none ↦ ok []
    | some v ↦ elim (as_list v) [ none ↦ ok [] | some vs ↦ sizes_of vs ]
  ]

  -- The sum of the squared differences; the vectors have one length where this is called.
  unfoldable pub squared_distance : D → List F → List F → D
  squared_distance sum [] ys = sum
  squared_distance sum (x ∷ xs) [] = sum
  squared_distance sum (x ∷ xs) (y ∷ ys) =
      let diff = d.sub (c.to_double x) (c.to_double y) in
      squared_distance (d.add sum (d.mul diff diff)) xs ys

  -- Whether a search is cached, and near the query.
  unfoldable pub is_hit : List F → D → RetrievalCache F → Bool
  unfolding squared_distance
  is_hit query epsilon cached =
      d.gt epsilon d.nought
      && length cached.query == length query
      && d.lt (squared_distance d.nought query cached.query) (d.mul epsilon epsilon)

  unfoldable pub cached_results : List F → Retriever D F → Option (List (VectorResult F))
  unfolding is_hit
  cached_results query b = elim b.retrieval_cache [
    | none ↦ none
    | some cached ↦ if is_hit query b.cache_epsilon cached then some cached.results else none
  ]

  abbrev pub Outcome : Type 0
  Outcome = Result (Unit {0}) × Retriever D F × FactBase D

  -- From the query on.
  unfoldable pub retrieve :
      (List F → SearchConfig → Result (List (VectorResult F)))
      → List F
      → SearchConfig
      → Retriever D F
      → FactBase D
      → Outcome
  unfolding cached_results write_retrieval_results
  retrieve vectors query cfg b fb = elim (cached_results query b) [
    | some results ↦ (ok tt, b, write_retrieval_results results cfg.k fb)
    | none ↦ elim (vectors query cfg) [
      | err e ↦ (err e, b, fb)
      | fault ↦ (fault, b, fb)
      | ok results ↦ (
        ok tt,
        record b { retrieval_cache = some (record { query = query; results = results }) },
        write_retrieval_results results cfg.k fb,
      )
    ]
  ]

  -- The query that stands under the key.
  unfoldable pub find_query : Text → FactBase D → Result (List F)
  unfolding get query_of
  find_query key fb = elim (get key fb) [
    | none ↦
        mismatch
          (text "RunVectorRetrieval: embedding_key '" ++ key ++ text "' not found in FactBase")
    | some v ↦
        let no_list = mismatch (
          text "RunVectorRetrieval: embedding_key '"
          ++ key
          ++ text "' must be a non-empty Value list") in
        elim (as_list v) [
          | none ↦ no_list
          | some vs ↦ elim vs [
            | nil ↦ no_list
            | cons x xs ↦ elim (query_of (cons x xs)) [
              | none ↦ mismatch (text "RunVectorRetrieval: query vector element must be numeric")
              | some query ↦ ok query
            ]
          ]
        ]
  ]

  -- The query with its configuration.
  unfoldable pub request : Text → FactBase D → Result (List F × SearchConfig)
  unfolding find_query configured_k configured_subset
  request key fb = find_query key fb >>= λ query. elim (configured_k fb) [
    | err e ↦ err e
    | fault ↦ fault
    | ok k ↦ elim (configured_subset fb) [
      | err e ↦ err e
      | fault ↦ fault
      | ok ids ↦ ok (query, record { k = k; id_subset = ids })
    ]
  ]

  unfoldable pub run_vector_retrieval : Text → Retriever D F → FactBase D → Outcome
  unfolding retrieve request
  run_vector_retrieval key b fb = elim b.search [
    | none ↦
        (fail ErrorCode.rule_invalid_path (text "RunVectorRetrieval: VectorPath is null"), b, fb)
    | some vectors ↦ elim (request key fb) [
      | err e ↦ (err e, b, fb)
      | fault ↦ (fault, b, fb)
      | ok (query, cfg) ↦ retrieve vectors query cfg b fb
    ]
  ]
