-- ===== src/Rule/Double.antt =====
-- All that the rules and the reasoner do with a `double`, an int64_t, std::stod and
-- std::hash<std::string_view>. The type and its operations are parameters.
use surface_ai.Base.{ℕ, Bool, Option}
use surface_ai.Base.Text.{Text}

pub record Double (D : Type 0) : Type 0 where
  pub nought : D
  pub one : D
  pub add : D → D → D
  pub sub : D → D → D
  pub mul : D → D → D
  pub div : D → D → D
  pub neg : D → D
  pub exp : D → D
  pub eq : D → D → Bool
  pub lt : D → D → Bool
  pub gt : D → D → Bool
  pub le : D → D → Bool
  pub ge : D → D → Bool
  -- static_cast<double> of a size
  pub of_size : ℕ → D
  -- std::to_string
  pub print : D → Text
  -- std::stod; `none` is its exception
  pub stod : Text → Option D
