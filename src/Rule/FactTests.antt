-- ===== src/Rule/FactTests.antt =====
-- Runs of the model of the fact builder, and its theorems at concrete inputs.
use surface_ai.Base.{
  ℕ, zero, suc, if◌then◌else◌, ◌+◌, ◌≡◌, refl, none, some, List, [], ◌∷◌, ◌++◌, All, ltb, ◌==◌,
  arith,
}
use surface_ai.Base.Text.{text, text_eq, text_compare}
use surface_ai.Base.Dict.{find, insert_or_assign}
use surface_ai.Core.Error.{ErrorCode, Result, ok, fail}
use surface_ai.Rule.Value.{nil, cons, list, of_double, of_string}
use surface_ai.Rule.FactBase.{FactBase, FactSourceKind, source_of_kind, get, set}
use surface_ai.Rule.GraphPaths.{
  double, KnowledgeGraph, set_all, split_string, parse_path, resolve_graph_paths,
  field_value_to_rule_value,
}
use surface_ai.Rule.GraphPaths.Split.{IsSegment, split_string-with_arrows, parse_path-single}
use surface_ai.Rule.FactBuilder.{Floats, DetectionResult, detection_facts, map_detection, build}
use surface_ai.Rule.FactBuilder.Stored.{build-stores}
use surface_ai.Rule.VectorFacts.{
  VectorResult, Retriever, request, find_query, cached_results, squared_distance,
  run_vector_retrieval, write_retrieval_results,
}
use surface_ai.Rule.VectorFacts.Cached.{IsNear, run_vector_retrieval-twice}
use surface_ai.Rule.Sample.{whole_numbers, facts}

abbrev whole_floats : Floats ℕ ℕ
whole_floats = record {
  to_double = λ x. x;
  to_float = λ x. x;
  to_size = λ x. some x;
  zero_float = 0;
  lt_float = ltb;
}

defect-IsSegment : IsSegment (text "Defect")
defect-IsSegment = (
  λ e. absurd (cc e),
  (
    ground arith,
    (ground arith, (ground arith, (ground arith, (ground arith, (ground arith, tt))))),
  ),
)

cause-IsSegment : IsSegment (text "a.b")
cause-IsSegment = (λ e. absurd (cc e), (ground arith, (ground arith, (ground arith, tt))))

split_string-with_arrows_example :
    split_string (text "Defect->a.b") (text "->") ≡ text "Defect" ∷ text "a.b" ∷ []
split_string-with_arrows_example =
    split_string-with_arrows (text "Defect") (text "a.b" ∷ [])
      (defect-IsSegment, (cause-IsSegment, tt))

-- A node type and a property, which the comment on path formats allows.
parse_path-single_example :
    parse_path (text "a.b")
    ≡ fail ErrorCode.rule_invalid_path
        (text "Path must have at least 'NodeType->PropertyKey': " ++ text "a.b")
parse_path-single_example = parse_path-single (text "a.b") cause-IsSegment

-- One node of each type, with one field; node 1 leads to node 2.
abbrev small_graph : KnowledgeGraph ℕ
small_graph = record {
  find_nodes_by_type = λ type_. some (1 ∷ []);
  traverse = λ id rel. if id == 1 then some ((2 ∷ 2 ∷ []) ∷ []) else none;
  get_node = λ id. some ((text "rate", double (id + 40)) ∷ []);
}

abbrev scratch : DetectionResult ℕ
scratch = record {
  anomaly_map = record { scores = 1 ∷ 8 ∷ 3 ∷ []; grid_h = 1; grid_w = 3 };
  regions =
      record {
        bounding_box = record { x = 1; y = 0; width = 1; height = 1 };
        max_anomaly_score = 8;
        mean_anomaly_score = 8;
        area_pixels = 1;
      }
      ∷ [];
  image_level_score = 8;
  inference_latency = 1000;
}

abbrev built : Result (FactBase ℕ)
built = build whole_floats (some small_graph) 0 (text "s1") scratch (text "Defect->cause.rate" ∷ [])

abbrev facts_of : Result (FactBase ℕ) → FactBase ℕ
facts_of (ok fb) = fb
facts_of _ = facts

is_built : built ≡ ok (facts_of built)
unfolding build set set_all resolve_graph_paths parse_path text_eq text_compare find
    insert_or_assign map_detection field_value_to_rule_value
is_built = refl

build-stores_example :
    (get (text "surface.id") (facts_of built) ≡ some (of_string (text "s1")))
    × All (λ f. get f.key (facts_of built) ≡ some f.value) (detection_facts whole_floats 0 scratch)
build-stores_example =
    build-stores whole_floats (some small_graph) 0 (text "s1") scratch
      (text "Defect->cause.rate" ∷ []) (facts_of built) is_built

graph_fact : get (text "graph.Defect.cause.rate") (facts_of built) ≡ some (of_double 42)
unfolding build set set_all resolve_graph_paths parse_path text_eq text_compare find
    insert_or_assign map_detection field_value_to_rule_value get
graph_fact = refl

-- A search gives as many results as it is asked for.
abbrev results_of : ℕ → List (VectorResult ℕ)
results_of zero = []
results_of (suc k) = record { index = k; distance = k } ∷ results_of k

abbrev retriever : Retriever ℕ ℕ
retriever = record {
  search = some (λ query cfg. ok (results_of cfg.k));
  retrieval_cache = none;
  cache_epsilon = 1;
}

abbrev asks_for : ℕ → FactBase ℕ
asks_for k =
    set (text "retrieval.config.k") (of_double k) (source_of_kind FactSourceKind.direct []) (
      set (text "embedding") (list (cons (of_double 3) nil))
        (source_of_kind FactSourceKind.direct []) (record { entries = []; path_mappings = [] }))

requests :
    (k : ℕ)
    → request whole_floats (text "embedding") (asks_for k)
      ≡ ok (3 ∷ [], record { k = k; id_subset = [] })
unfolding request find_query set get find insert_or_assign text_eq text_compare
requests k = refl

IsNear-itself : IsNear whole_floats (3 ∷ []) 1
unfolding squared_distance
IsNear-itself = (refl, refl)

nothing_cached : cached_results whole_floats (3 ∷ []) retriever ≡ none
unfolding cached_results
nothing_cached = refl

-- The second retrieval asks for one result, and three are written.
run_vector_retrieval-twice_example :
    (b' : Retriever ℕ ℕ) × (run_vector_retrieval whole_floats
        (text "embedding")
        retriever
        (asks_for 3)
      ≡ (ok tt, b', write_retrieval_results whole_floats (results_of 3) 3 (asks_for 3)))
    × (run_vector_retrieval whole_floats (text "embedding") b' (asks_for 1)
        ≡ (ok tt, b', write_retrieval_results whole_floats (results_of 3) 1 (asks_for 1)))
run_vector_retrieval-twice_example =
    run_vector_retrieval-twice whole_floats (text "embedding") (text "embedding") retriever
      (asks_for 3) (asks_for 1) (λ query cfg. ok (results_of cfg.k)) (3 ∷ [])
      (record { k = 3; id_subset = [] }) (record { k = 1; id_subset = [] }) (results_of 3) refl
      (requests 3) nothing_cached refl (requests 1) IsNear-itself
