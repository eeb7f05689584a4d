-- ===== src/Reasoner/Evidence.antt =====
-- src/reasoner/evidence_collector.cpp.
use surface_ai.Base.{Bool, ◌||◌, List, [], ◌∷◌, ◌++◌, map, if◌then◌else◌, value_or}
use surface_ai.Base.Text.{starts_with, Text, text}
use surface_ai.Base.Dict.{Dict, find, emplace}
use surface_ai.Rule.Value.{Value, of_double}
use surface_ai.Rule.FactBase.{
  FactBase, FactSource, FactSourceKind, source_of_kind, all_entries, all_sources,
}
use surface_ai.Rule.Engine.{TraceStep, ResolvedRule}

pub record EvidenceItem (D : Type 0) : Type 0 where
  pub trace_id : Text
  pub key : Text
  pub value : Value D
  pub source : FactSource
  pub description : Text

-- step.description.find(key) != npos
unfoldable pub mentions : Text → Text → Bool
unfolding starts_with
mentions key [] = starts_with key []
mentions key (c ∷ s) = starts_with key (c ∷ s) || mentions key s

abbrev pub first_id : List TraceStep → Text
first_id [] = text ""
first_id (s ∷ ss) = s.id

module _ {D : Type 0} where
  -- The inner loop, over the facts.
  unfoldable pub link_step : TraceStep → List (Text × Value D) → Dict Text → Dict Text
  unfolding mentions
  link_step s [] links = links
  link_step s ((key, v) ∷ es) links =
      link_step s es (if mentions key s.description then emplace key s.id links else links)

  unfoldable pub key_to_trace : List TraceStep → List (Text × Value D) → Dict Text → Dict Text
  unfolding link_step
  key_to_trace [] entries links = links
  key_to_trace (s ∷ ss) entries links = key_to_trace ss entries (link_step s entries links)

  unfoldable pub fact_item : Dict FactSource → Dict Text → Text × Value D → EvidenceItem D
  fact_item sources links (key, v) = record {
    trace_id = value_or (find key links) (text "");
    key = key;
    value = v;
    source = value_or (find key sources) (source_of_kind FactSourceKind.direct (text ""));
    description = text "fact: " ++ key;
  }

  unfoldable pub rule_item : ResolvedRule D → EvidenceItem D
  rule_item r = record {
    trace_id = first_id r.eval_trace;
    key = r.name;
    value = of_double r.action.base_severity;
    source =
        source_of_kind (if r.matched then FactSourceKind.computed else FactSourceKind.default)
          (text "rule evaluation");
    description =
        text "rule: " ++ (r.name ++ (if r.matched then text " (matched)" else text " (unmatched)"));
  }

  unfoldable pub pack : FactBase D → List TraceStep → List (ResolvedRule D) → List (EvidenceItem D)
  unfolding key_to_trace fact_item rule_item
  pack facts trace rules =
      let entries = all_entries facts in
      let links = key_to_trace trace entries [] in
      map (fact_item (all_sources facts) links) entries ++ map rule_item rules
