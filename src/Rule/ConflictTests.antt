-- ===== src/Rule/ConflictTests.antt =====
-- Runs of the model of the conflict resolution, and its theorems at concrete inputs.
use surface_ai.Base.{ℕ, ◌≡◌, ◌≢◌, refl, inl, true, false, some, [], ◌∷◌, ◌↔◌, get_elem?, arith}
use surface_ai.Base.Text.{text, text_eq, text_compare}
use surface_ai.Base.Dict.{Dict, find, insert_or_assign}
use surface_ai.Rule.Conflict.{
  eliminate, matched_idx, resolve_conflicts, resolve_override_conflicts, override_graph, original,
  build_graph, search_cycle, all_white,
}
use surface_ai.Rule.Conflict.Paths.{Graph, Edge, edges, contains_text}
use surface_ai.Rule.Conflict.Sources.{IsAdded, override_graph-Edge}
use surface_ai.Rule.Conflict.Decision.{Outcome, keys, matched_names, resolve_conflicts_decides}
use surface_ai.Rule.Conflict.Elimination.{
  AreDistinct, IsOverridden, eliminate_overridden, eliminate_other,
}
use surface_ai.Rule.Sample.{sets, matched_as, results}

abbrev a_over_b : Graph
a_over_b = (text "a", text "b" ∷ []) ∷ []

abbrev names : Dict ℕ
names = matched_idx 0 results []

a_wins :
    resolve_conflicts sets results
    ≡ some (
        matched_as (text "a") true ∷ matched_as (text "b") false ∷ matched_as (text "c") false ∷ [])
unfolding resolve_conflicts resolve_override_conflicts override_graph original build_graph
    matched_idx search_cycle all_white eliminate edges find insert_or_assign text_eq text_compare
    contains_text
a_wins = refl

resolve_conflicts_decides_example : Outcome sets results
resolve_conflicts_decides_example = resolve_conflicts_decides sets results

a-ne-b : text "a" ≢ text "b"
a-ne-b e = ground (arith, e)

distinct : AreDistinct results
distinct =
    (λ _. ((λ _ e. ground (arith, e)), ((λ h. cc), tt)), ((λ _. ((λ h. cc), tt)), ((λ _. tt), tt)))

b-IsOverridden : IsOverridden results a_over_b (text "b")
unfolding edges find text_eq
b-IsOverridden = record {
  other = text "a";
  index = 0;
  found = record { result = matched_as (text "a") true; at = refl; matched = refl; named = refl };
  differs = a-ne-b;
  edge = inl refl;
}

eliminate_overridden_example :
    get_elem? (eliminate a_over_b names names results) 1 ≡ some (matched_as (text "b") false)
eliminate_overridden_example =
    eliminate_overridden a_over_b results distinct 1 (matched_as (text "b") true) refl refl
      b-IsOverridden

eliminate_other_example :
    get_elem? (eliminate a_over_b names names results) 2 ≡ some (matched_as (text "c") false)
eliminate_other_example =
    eliminate_other a_over_b results distinct 2 (matched_as (text "c") false) refl
      (λ e. absurd (cc))

override_graph-Edge_example :
    Edge (override_graph sets results) (text "a") (text "b")
    ↔ IsAdded
        (original sets [])
        (matched_names sets results)
        (keys (matched_names sets results))
        (text "a")
        (text "b")
override_graph-Edge_example = override_graph-Edge sets results (text "a") (text "b")
