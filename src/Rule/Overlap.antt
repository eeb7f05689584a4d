-- ===== src/Rule/Overlap.antt =====
-- DetectOverlaps of src/rule/rule_engine.cpp: rules of one set whose conditions refer to a common field.
pub mod Common
pub mod Report
use surface_ai.Base.{Bool, true, false, List, [], ◌∷◌, ◌++◌, Ordering, if◌then◌else◌}
use surface_ai.Base.Text.{Text, text_compare}
use surface_ai.Base.Dict.{Dict}
use surface_ai.Core.Error.{Result, ok, ◌>>=◌}
use surface_ai.Rule.Expression.{Expr, nullptr, collect_field_refs}
use surface_ai.Rule.Engine.{Rule, is_nullptr}

pub record OverlapWarning : Type 0 where
  pub rule_a : Text
  pub rule_b : Text
  pub common_fields : List Text

unfoldable pub insert_sorted : Text → List Text → List Text
insert_sorted x [] = x ∷ []
insert_sorted x (y ∷ ys) = elim (text_compare x y) [
  | Ordering.lt ↦ x ∷ y ∷ ys
  | Ordering.eq ↦ x ∷ y ∷ ys
  | Ordering.gt ↦ y ∷ insert_sorted x ys
]

-- std::sort; equal texts cannot be told apart, so the result is the only sorted one.
unfoldable pub sort : List Text → List Text
unfolding insert_sorted
sort [] = []
sort (x ∷ xs) = insert_sorted x (sort xs)

-- The steps of std::set_intersection while it stands at `x` in the first range.
unfoldable pub advance : Text → (List Text → List Text) → List Text → List Text
advance x rest [] = []
advance x rest (y ∷ ys) = elim (text_compare x y) [
  | Ordering.lt ↦ rest (y ∷ ys)
  | Ordering.eq ↦ x ∷ rest ys
  | Ordering.gt ↦ advance x rest ys
]

unfoldable pub set_intersection : List Text → List Text → List Text
unfolding advance
set_intersection [] ys = []
set_intersection (x ∷ xs) ys = advance x (set_intersection xs) ys

unfoldable pub common_fields : List Text → List Text → List Text
unfolding sort set_intersection
common_fields a b = set_intersection (sort a) (sort b)

-- Each rule's name with its field references.
unfoldable pub refs_by_rule : {D : Type 0} → List (Rule D) → Result (List (Text × List Text))
unfolding collect_field_refs
refs_by_rule [] = ok []
refs_by_rule (r ∷ rs) = do
  refs ← if is_nullptr r.condition then ok [] else collect_field_refs r.condition
  rest ← refs_by_rule rs
  ok ((r.name, refs) ∷ rest)

-- The warning for a pair of rules, before those that follow.
unfoldable pub warn_pair : Text → Text → List Text → List OverlapWarning → List OverlapWarning
warn_pair a b [] rest = rest
warn_pair a b (f ∷ fs) rest = record { rule_a = a; rule_b = b; common_fields = f ∷ fs } ∷ rest

-- The inner loop: the pairs of one rule with the later ones.
unfoldable pub overlaps_with : Text × List Text → List (Text × List Text) → List OverlapWarning
unfolding warn_pair common_fields
overlaps_with r [] = []
overlaps_with r (s ∷ rs) = warn_pair r.0 s.0 (common_fields r.1 s.1) (overlaps_with r rs)

unfoldable pub overlaps_of : List (Text × List Text) → List OverlapWarning
unfolding overlaps_with
overlaps_of [] = []
overlaps_of (r ∷ rs) = overlaps_with r rs ++ overlaps_of rs

unfoldable pub detect_overlaps : {D : Type 0} → Dict (List (Rule D)) → Result (List OverlapWarning)
unfolding refs_by_rule overlaps_of
detect_overlaps [] = ok []
detect_overlaps ((set_name, rules) ∷ sets) = do
  refs ← refs_by_rule rules
  rest ← detect_overlaps sets
  ok (overlaps_of refs ++ rest)
