-- ===== src/Rule/GraphPaths/Frame.antt =====
-- src/rule/fact_builder.cpp: the facts that ResolveGraphPaths leaves alone.
use surface_ai.Base.{
  ◌≡◌, refl, ◌∙◌, Bool, true, false, Option, none, some, List, [], ◌∷◌, All, if◌then◌else◌,
  Bool-cases, inl, inr,
}
use surface_ai.Base.Text.{Text, text, text_eq, text_eq_iff, starts_with}
use surface_ai.Base.Dict.{Dict, find}
use surface_ai.Core.Error.{Result, ok, err, fault}
use surface_ai.Rule.Value.{Value, is_null}
use surface_ai.Rule.FactBase.{FactBase, get, set, get-set, source_of_kind, FactSourceKind}
use surface_ai.Rule.GraphPaths.{
  NodeId, FieldValue, KnowledgeGraph, Fact, set_all, field_value_to_rule_value, dotted,
  graph_path_flat_key, GraphQuery, parse_path, walk_relationships, node_facts, query_facts,
  resolve_each_path, resolve_graph_paths,
}

abbrev pub graph_prefix : Text
graph_prefix = text "graph."

prefixed :
    (k : Text) (q : GraphQuery)
    → starts_with graph_prefix k ≡ false
    → text_eq (graph_path_flat_key (q.node_type ∷ q.relationships) q.property_key) k ≡ false
unfolding graph_path_flat_key dotted starts_with
prefixed k q h =
    elim (Bool-cases
      (text_eq (graph_path_flat_key (q.node_type ∷ q.relationships) q.property_key) k)) [
        | inr e ↦ e
        | inl e ↦
            let same =
              (text_eq_iff (graph_path_flat_key (q.node_type ∷ q.relationships) q.property_key) k).0
                e in
            let yes : starts_with graph_prefix
                  (graph_path_flat_key (q.node_type ∷ q.relationships) q.property_key)
                ≡ true =
              refl in
            absurd (cc (yes, same, h))
      ]

module _ {D : Type 0} where
  -- Facts under other keys do not change what is stored under `k`.
  pub get-set_all :
      (k : Text) (fs : List (Fact D)) (fb : FactBase D)
      → All (λ f. text_eq f.key k ≡ false) fs
      → get k (set_all fs fb) ≡ get k fb
  unfolding set_all
  get-set_all k [] fb a = refl
  get-set_all k (f ∷ fs) fb a =
      get-set_all k fs (set f.key f.value f.source fb) a.1
      ∙ rw (get-set k f.key f.value f.source fb, a.0) refl

  node_facts-prefixed :
      (kg : KnowledgeGraph D) (k path : Text) (q : GraphQuery) (ids : List NodeId)
      → starts_with graph_prefix k ≡ false
      → All (λ f. text_eq f.key k ≡ false) (node_facts kg path q ids)
  unfolding node_facts
  node_facts-prefixed kg k path q [] h = tt
  node_facts-prefixed kg k path q (id ∷ ids) h =
      at_node (kg.get_node id) (node_facts kg path q ids) (node_facts-prefixed kg k path q ids h)
    where
      with_value :
          (b : Bool) (v : Value D) (rest : List (Fact D))
          → All (λ f. text_eq f.key k ≡ false) rest
          → All
              (λ f. text_eq f.key k ≡ false)
              (if b
                then rest
                else record {
                  key = graph_path_flat_key (q.node_type ∷ q.relationships) q.property_key;
                  value = v;
                  source = source_of_kind FactSourceKind.graph_path path;
                }
                  ∷ rest)
      with_value true v rest a = a
      with_value false v rest a = (prefixed k q h, a)

      at_field :
          (o : Option (FieldValue D)) (rest : List (Fact D))
          → All (λ f. text_eq f.key k ≡ false) rest
          → All
              (λ f. text_eq f.key k ≡ false)
              (elim o [
                | none ↦ rest
                | some fv ↦
                    if is_null (field_value_to_rule_value fv)
                    then rest
                    else record {
                      key = graph_path_flat_key (q.node_type ∷ q.relationships) q.property_key;
                      value = field_value_to_rule_value fv;
                      source = source_of_kind FactSourceKind.graph_path path;
                    }
                      ∷ rest
              ])
      at_field none rest a = a
      at_field (some fv) rest a =
          with_value (is_null (field_value_to_rule_value fv)) (field_value_to_rule_value fv) rest a

      at_node :
          (o : Option (Dict (FieldValue D))) (rest : List (Fact D))
          → All (λ f. text_eq f.key k ≡ false) rest
          → All
              (λ f. text_eq f.key k ≡ false)
              (elim o [
                | none ↦ rest
                | some fields ↦ elim (find q.property_key fields) [
                  | none ↦ rest
                  | some fv ↦
                      if is_null (field_value_to_rule_value fv)
                      then rest
                      else record {
                        key = graph_path_flat_key (q.node_type ∷ q.relationships) q.property_key;
                        value = field_value_to_rule_value fv;
                        source = source_of_kind FactSourceKind.graph_path path;
                      }
                        ∷ rest
                ]
              ])
      at_node none rest a = a
      at_node (some fields) rest a = at_field (find q.property_key fields) rest a

  query_facts-prefixed :
      (kg : KnowledgeGraph D) (k path : Text) (q : GraphQuery)
      → starts_with graph_prefix k ≡ false
      → All (λ f. text_eq f.key k ≡ false) (query_facts kg path q)
  unfolding query_facts
  query_facts-prefixed kg k path q h = from (kg.find_nodes_by_type q.node_type)
    where
      from :
          (o : Option (List NodeId))
          → All
              (λ f. text_eq f.key k ≡ false)
              (elim o [
                | none ↦ []
                | some ids ↦ node_facts kg path q (walk_relationships kg q.relationships ids)
              ])
      from none = tt
      from (some ids) =
          node_facts-prefixed kg k path q (walk_relationships kg q.relationships ids) h

  each-frame :
      (kg : KnowledgeGraph D) (k : Text) (paths : List Text) (fb : FactBase D)
      → starts_with graph_prefix k ≡ false
      → get k (resolve_each_path kg paths fb).1 ≡ get k fb
  unfolding resolve_each_path
  each-frame kg k [] fb h = refl
  each-frame kg k ([] ∷ paths) fb h = each-frame kg k paths fb h
  each-frame kg k ((c ∷ path) ∷ paths) fb h =
      parsed (parse_path (c ∷ path))
        (λ q. each-frame kg k paths (set_all (query_facts kg (c ∷ path) q) fb) h)
    where
      parsed :
          (r : Result GraphQuery)
          → ((q : GraphQuery)
              → get k (resolve_each_path kg paths (set_all (query_facts kg (c ∷ path) q) fb)).1
                ≡ get k (set_all (query_facts kg (c ∷ path) q) fb))
          → (let x : Result (Unit {0}) × FactBase D =
                (elim r as (λ _. Result (Unit {0}) × FactBase D) [
                  | ok q ↦ resolve_each_path kg paths (set_all (query_facts kg (c ∷ path) q) fb)
                  | err e ↦ (err e, fb)
                  | fault ↦ (fault, fb)
                ]) in
              get k x.1 ≡ get k fb)
      parsed (ok q) ih =
          ih q
          ∙ get-set_all k (query_facts kg (c ∷ path) q) fb
              (query_facts-prefixed kg k (c ∷ path) q h)
      parsed (err e) ih = refl
      parsed fault ih = refl

  -- ResolveGraphPaths changes no fact whose key does not begin with `graph.`, also when it fails.
  pub resolve_graph_paths-frame :
      (kg : Option (KnowledgeGraph D)) (k : Text) (paths : List Text) (fb : FactBase D)
      → starts_with graph_prefix k ≡ false
      → get k (resolve_graph_paths kg paths fb).1 ≡ get k fb
  unfolding resolve_graph_paths
  resolve_graph_paths-frame kg k [] fb h = refl
  resolve_graph_paths-frame none k (p ∷ ps) fb h = refl
  resolve_graph_paths-frame (some kg) k (p ∷ ps) fb h = each-frame kg k (p ∷ ps) fb h
