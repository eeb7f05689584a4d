-- ===== src/Retrieval/Tests.antt =====
-- Runs of the model of the retrieval, and its theorem at a concrete input.
use surface_ai.Base.{
  ℕ, ◌+◌, ◌-◌, ◌*◌, ◌/◌, ◌≡◌, refl, none, List, [], ◌∷◌, All, In, inl, ltb, leb, get_elem?,
}
use surface_ai.Base.Text.{text}
use surface_ai.Core.Error.{ErrorCode, ok, fault, fail}
use surface_ai.Retrieval.Fusion.{
  Float, given, throws, configure_rrf, VectorResult, configure_weighted, fuse_weighted,
}
use surface_ai.Retrieval.Retriever.{Mode, VectorConfig, MetadataConfig, Paths, retrieve}
use surface_ai.Retrieval.Unmapped.{IsMapped, IsOk, retrieve_unmapped}

abbrev whole : Float ℕ
whole = record {
  zero_float = 0;
  one_float = 100;
  tiny = 1;
  add = ◌+◌;
  sub = ◌-◌;
  mul = ◌*◌;
  div = ◌/◌;
  lt = ltb;
  le = leb;
  of_size = λ n. n;
}

abbrev hits : List (VectorResult ℕ)
hits = record { index = 5; distance = 1 } ∷ record { index = 0; distance = 2 } ∷ []

abbrev ids : List ℕ
ids = 77 ∷ []

abbrev paths : Paths ℕ ℕ
paths = record {
  vector_search = λ cfg. ok hits;
  metadata_search = λ cfg. ok [];
  fuse = fuse_weighted whole 50;
}

abbrev vector_cfg : VectorConfig ℕ
vector_cfg = record { mode = Mode.top_k; k = 2; range_threshold = 1; id_subset = [] }

abbrev no_filters : MetadataConfig ℕ
no_filters = record { filters = []; node_types = []; max_results = 100 }

-- One index has a node id, and the search gives another one, too.
retrieve_unmapped_example :
    (All (IsMapped ids) hits → IsOk (retrieve paths vector_cfg no_filters ids))
    × ((v : VectorResult ℕ)
        → In v hits
        → get_elem? ids v.index ≡ none
        → retrieve paths vector_cfg no_filters ids ≡ fault)
retrieve_unmapped_example =
    retrieve_unmapped whole 50 paths vector_cfg no_filters ids hits [] refl refl refl refl

unmapped_faults : retrieve paths vector_cfg no_filters ids ≡ fault
unmapped_faults = retrieve_unmapped_example.1 (record { index = 5; distance = 1 }) (inl refl) refl

-- A parameter that is refused is kept all the same.
keeps_refused : configure_weighted whole (given 101) 50 ≡ (
  fail ErrorCode.retrieval_fusion_config_invalid (text "WeightedFusion: alpha must be in [0, 1]"),
  101,
)
unfolding configure_weighted
keeps_refused = refl

-- A parameter that is not a number ends the program.
ends_on_text : configure_rrf whole throws 60 ≡ (fault, 60)
unfolding configure_rrf
ends_on_text = refl
