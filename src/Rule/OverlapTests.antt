-- ===== src/Rule/OverlapTests.antt =====
-- A run of the model of DetectOverlaps, and its theorem at a concrete input.
use surface_ai.Base.{◌≡◌, refl, ◌↔◌, In, List, [], ◌∷◌}
use surface_ai.Base.Text.{text, text_compare}
use surface_ai.Rule.Overlap.{OverlapWarning, overlaps_of}
use surface_ai.Rule.Overlap.Report.{Refs, Precedes, Reports, overlaps_of_lem}

-- The first and the last rule refer to the same two fields.
abbrev rules : List Refs
rules =
    (text "scratch", text "score" ∷ text "area" ∷ [])
    ∷ (text "stain", text "color" ∷ [])
    ∷ (text "dent", text "area" ∷ text "depth" ∷ text "score" ∷ [])
    ∷ []

abbrev expected : OverlapWarning
expected = record {
  rule_a = text "scratch";
  rule_b = text "dent";
  common_fields = text "area" ∷ text "score" ∷ [];
}

overlaps_of_run : overlaps_of rules ≡ expected ∷ []
unfolding overlaps_of text_compare
overlaps_of_run = refl

overlaps_of_lem_example :
    In expected (overlaps_of rules)
    ↔ ((r : Refs) × (s : Refs) × Precedes r s rules × Reports expected r s)
overlaps_of_lem_example = overlaps_of_lem expected rules
