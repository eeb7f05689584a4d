-- ===== src/Rule/Yaml.antt =====
-- What the loaders ask of a YAML::Node of yaml-cpp, which is not part of the repository: its kind, its
-- children, and the conversions of its scalar. The nodes and the answers are parameters.
use surface_ai.Base.{ℕ, ◌<◌, ◌≡◌, Bool, true, Option, List, All}
use surface_ai.Base.Text.{Text}

pub record Yaml (D N : Type 0) : Type 0 where
  pub is_defined : N → Bool
  pub is_null : N → Bool
  pub is_scalar : N → Bool
  pub is_map : N → Bool
  pub is_sequence : N → Bool
  -- node[key]: an undefined node if there is no such key
  pub at : Text → N → N
  -- what iteration gives: the elements of a sequence, in order
  pub items : N → List N
  -- the pairs of key and value of a map, in order
  pub entries : N → List (N × N)
  -- as<std::string> of a scalar
  pub as_string : N → Text
  -- as<std::string> of any node; `none` is a YAML::Exception
  pub text_of : N → Option Text
  -- as<double>, and as<std::int64_t> made a double; `none` is a YAML::Exception
  pub as_double : N → Option D
  pub as_int64 : N → Option D

-- A document is finite: what stands under a key, and the elements of that, lie below the node.
pub record IsFinite {D N : Type 0} (y : Yaml D N) (rank : N → ℕ) : Type 0 where
  pub rank_at : (k : Text) (n : N) → y.is_defined (y.at k n) ≡ true → rank (y.at k n) < rank n
  pub rank_items : (n : N) → All (λ e. rank e < rank n) (y.items n)
  pub rank_entries : (n : N) → All (λ e. rank e.1 < rank n) (y.entries n)
