-- ===== src/Reasoner/Links.antt =====
-- src/reasoner/evidence_collector.cpp: which trace step a fact is linked to.
use surface_ai.Base.{
  ap, refl, ◌∙◌, ◌++◌, map, value_or, ◌≡◌, Bool, true, false, ◌&&◌, ◌||◌, Option, none, some, List,
  [], ◌∷◌, if◌then◌else◌, arith,
}
use surface_ai.Base.Text.{Text, text, text_eq, text_eq_iff, text_eq_refl}
use surface_ai.Base.Dict.{Dict, find, emplace, find-emplace}
use surface_ai.Rule.Value.{Value, of_double}
use surface_ai.Rule.FactBase.{
  FactBase, FactSource, FactSourceKind, source_of_kind, all_entries, all_sources,
}
use surface_ai.Rule.Engine.{TraceStep, ResolvedRule}
use surface_ai.Reasoner.Evidence.{
  EvidenceItem, first_id, fact_item, rule_item, pack, mentions, link_step, key_to_trace,
}

abbrev has_key : {D : Type 0} → Text → List (Text × Value D) → Bool
has_key k [] = false
has_key k ((j, v) ∷ es) = text_eq j k || has_key k es

-- The id of the first step whose description contains the key.
unfoldable pub first_mention : Text → List TraceStep → Option Text
first_mention k [] = none
first_mention k (s ∷ ss) = if mentions k s.description then some s.id else first_mention k ss

abbrev or_else : Option Text → Option Text → Option Text
or_else none o = o
or_else (some a) o = some a

-- The trace id, key, value and source of a piece of evidence.
abbrev pub Content : Type 0 → Type 0
Content D = Text × Text × Value D × FactSource

module _ {D : Type 0} where
  abbrev pub content : EvidenceItem D → Content D
  content e = (e.trace_id, e.key, e.value, e.source)

  abbrev pub fact_content : FactBase D → List TraceStep → Text × Value D → Content D
  fact_content facts trace (k, v) = (
    value_or (first_mention k trace) (text ""),
    k,
    v,
    value_or (find k (all_sources facts)) (source_of_kind FactSourceKind.direct (text "")),
  )

  abbrev pub rule_content : ResolvedRule D → Content D
  rule_content r = (
    first_id r.eval_trace,
    r.name,
    of_double r.action.base_severity,
    source_of_kind (if r.matched then FactSourceKind.computed else FactSourceKind.default)
        (text "rule evaluation"),
  )

  find-link_step :
      (k : Text) (s : TraceStep) (es : List (Text × Value D)) (links : Dict Text)
      → find k (link_step s es links)
        ≡ or_else
            (find k links)
            (if has_key k es && mentions k s.description then some s.id else none)
  unfolding link_step
  find-link_step k s [] links = ground arith
  find-link_step k s ((j, v) ∷ es) links = ground (
    arith,
    find-link_step k s es (if mentions j s.description then emplace j s.id links else links),
    find-emplace k j s.id links,
    text_eq_iff j k,
  )

  find-key_to_trace :
      (k : Text) (ss : List TraceStep) (es : List (Text × Value D)) (links : Dict Text)
      → has_key k es ≡ true
      → find k (key_to_trace ss es links) ≡ or_else (find k links) (first_mention k ss)
  unfolding key_to_trace first_mention
  find-key_to_trace k [] es links h = ground arith
  find-key_to_trace k (s ∷ ss) es links h =
      ground
        (arith, find-key_to_trace k ss es (link_step s es links) h, find-link_step k s es links)

  key_to_trace_lem :
      (k : Text) (trace : List TraceStep) (entries : List (Text × Value D))
      → has_key k entries ≡ true
      → find k (key_to_trace trace entries []) ≡ first_mention k trace
  unfolding find
  key_to_trace_lem k trace entries h = find-key_to_trace k trace entries [] h

  map-append :
      (xs ys : List (EvidenceItem D)) → map content (xs ++ ys) ≡ map content xs ++ map content ys
  map-append [] ys = refl
  map-append (x ∷ xs) ys = ap (λ zs. content x ∷ zs) (map-append xs ys)

  facts-content :
      (facts : FactBase D) (trace : List TraceStep) (all_ es : List (Text × Value D))
      → ((k : Text) → has_key k es ≡ true → has_key k all_ ≡ true)
      → map content (map (fact_item (all_sources facts) (key_to_trace trace all_ [])) es)
        ≡ map (fact_content facts trace) es
  unfolding fact_item
  facts-content facts trace all_ [] h = refl
  facts-content facts trace all_ ((k, v) ∷ es) h =
      let link = key_to_trace_lem k trace all_ (h k (ground (arith, text_eq_refl k))) in
      let rest = facts-content facts trace all_ es (λ j e. h j (ground (arith, e))) in
      rw (link, rest) refl

  rules-content :
      (rules : List (ResolvedRule D)) → map content (map rule_item rules) ≡ map rule_content rules
  unfolding rule_item
  rules-content [] = refl
  rules-content (r ∷ rs) = ap (λ xs. rule_content r ∷ xs) (rules-content rs)

  -- Pack gives one piece of evidence for each fact and then one for each rule, in order. That of a fact has
  -- its key, value and source, and the id of the first trace step whose description contains the key, or
  -- none; that of a rule has its name and base severity, the id of the rule's own first step, and a source
  -- that tells whether it matched.
  pub pack-content :
      (facts : FactBase D) (trace : List TraceStep) (rules : List (ResolvedRule D))
      → map content (pack facts trace rules)
        ≡ map (fact_content facts trace) (all_entries facts) ++ map rule_content rules
  unfolding pack
  pack-content facts trace rules =
      map-append _ (map rule_item rules)
      ∙ ap (λ xs. xs ++ map content (map rule_item rules))
          (facts-content facts trace (all_entries facts) (all_entries facts) (λ k e. e))
      ∙ ap (λ xs. map (fact_content facts trace) (all_entries facts) ++ xs) (rules-content rules)
