-- ===== src/Rule/GraphPaths.antt =====
-- src/rule/fact_builder.cpp, ResolveGraphPaths and its helpers. The knowledge graph is an interface, and
-- `none` is one of its errors, which the builder drops.
pub mod Split
pub mod Frame
use Prim.Native.Nat.{Ordering}
use surface_ai.Base.{
  ℕ, zero, suc, ◌+◌, ◌-◌, compare, Bool, true, false, ◌&&◌, ◌||◌, not, Option, none, some, List, [],
  ◌∷◌, ◌++◌, map, length, has_value, if◌then◌else◌, ltb, leb, ◌==◌,
}
use surface_ai.Base.Text.{Text, text, text_eq, to_string, starts_with}
use surface_ai.Base.Dict.{Dict, find}
use surface_ai.Core.Error.{ErrorCode, ErrorInfo, Result, ok, err, fault, fail, ◌>>=◌}
use surface_ai.Rule.Double.{Double}
use surface_ai.Rule.Value.{
  Value, Values, nil, cons, null, of_double, of_string, is_null, as_double, as_list,
}
use surface_ai.Rule.FactBase.{FactBase, FactSource, FactSourceKind, source_of_kind, set, get}

abbrev pub NodeId : Type 0
NodeId = ℕ

-- The alternatives of a field of a knowledge record, the integer as the double that it is cast to.
pub data FieldValue (D : Type 0) : Type 0 where
  int64 double : D → FieldValue D
  string : Text → FieldValue D
  bytes : List ℕ → FieldValue D

-- KnowledgeGraph, as far as the builder calls it: ids for nodes, and the targets of one hop path by path.
pub record KnowledgeGraph (D : Type 0) : Type 0 where
  pub find_nodes_by_type : Text → Option (List NodeId)
  pub traverse : NodeId → Text → Option (List (List NodeId))
  pub get_node : NodeId → Option (Dict (FieldValue D))

-- A fact that is stored by one call of Set.
pub record Fact (D : Type 0) : Type 0 where
  pub key : Text
  pub value : Value D
  pub source : FactSource

module _ {D : Type 0} where
  unfoldable pub set_all : List (Fact D) → FactBase D → FactBase D
  unfolding set
  set_all [] fb = fb
  set_all (f ∷ fs) fb = set_all fs (set f.key f.value f.source fb)

  unfoldable pub field_value_to_rule_value : FieldValue D → Value D
  field_value_to_rule_value (int64 i) = of_double i
  field_value_to_rule_value (double v) = of_double v
  field_value_to_rule_value (string s) = of_string s
  field_value_to_rule_value (bytes b) = null

-- A token that is not empty goes into the result.
abbrev pub push_token : Text → List Text → List Text
push_token [] tokens = tokens
push_token (c ∷ token) tokens = (c ∷ token) ∷ tokens

-- SplitString from a position on: `skip` characters of a delimiter are left, and `token` was read.
unfoldable pub split_from : Text → ℕ → Text → Text → List Text
unfolding starts_with
split_from delim skip token [] = push_token token []
split_from delim (suc skip) token (c ∷ sv) = split_from delim skip token sv
split_from delim zero token (c ∷ sv) =
    let at_delim = split_from delim (length delim - 1) [] sv in
    let onward = split_from delim zero (token ++ c ∷ []) sv in
    if starts_with delim (c ∷ sv) then push_token token at_delim else onward

-- SplitString, for a delimiter that is not empty.
unfoldable pub split_string : Text → Text → List Text
unfolding split_from
split_string sv delim = split_from delim 0 [] sv

unfoldable pub dotted : List Text → Text
dotted [] = []
dotted (seg ∷ segs) = text "." ++ seg ++ dotted segs

unfoldable pub graph_path_flat_key : List Text → Text → Text
unfolding dotted
graph_path_flat_key segments property = text "graph" ++ dotted segments ++ text "." ++ property

-- rfind('.'): what stands before and after the last dot.
unfoldable pub split_last_dot : Text → Option (Text × Text)
split_last_dot [] = none
split_last_dot (c ∷ s) = elim (split_last_dot s) [
  | some (before, after) ↦ some (c ∷ before, after)
  | none ↦ if c == 46 then some ([], s) else none
]

-- The segments but the last, and the last one.
abbrev pub front_and_last : Text → List Text → List Text × Text
front_and_last s [] = ([], s)
front_and_last s (t ∷ ts) = let (front, last) = front_and_last t ts in (s ∷ front, last)

pub record GraphQuery : Type 0 where
  pub node_type : Text
  pub relationships : List Text
  pub property_key : Text

abbrev pub invalid_path {ℓ} : {A : Type ℓ} → Text → Result A
invalid_path message = fail ErrorCode.rule_invalid_path message

-- The relationship, which may be empty, and the property of the last segment.
abbrev pub final_of : Text → Text × Text
unfolding split_last_dot
final_of last = elim (split_last_dot last) [
  | some (rel, property) ↦ (rel, property)
  | none ↦ ([], last)
]

-- The relationships and the property of a path, from its first segment and the others.
unfoldable pub query_of : Text → Text → Text → List Text → Result GraphQuery
unfolding final_of
query_of path node_type s ss =
    let (middle, last) = front_and_last s ss in
    let (final_rel, property_key) = final_of last in
    elim property_key [
      | [] ↦ invalid_path (text "Empty property key in path: " ++ path)
      | c ∷ cs ↦ ok (record {
        node_type = node_type;
        relationships = middle ++ push_token final_rel [];
        property_key = c ∷ cs;
      })
    ]

unfoldable pub parse_path : Text → Result GraphQuery
unfolding split_string query_of
parse_path path =
    let too_short =
      invalid_path (text "Path must have at least 'NodeType->PropertyKey': " ++ path) in
    elim (split_string path (text "->")) [
      | [] ↦ too_short
      | node_type ∷ rest ↦ elim rest [ [] ↦ too_short | s ∷ ss ↦ query_of path node_type s ss ]
    ]

-- std::sort, std::unique and erase, as insertions into a sorted list.
unfoldable pub insert_unique : NodeId → List NodeId → List NodeId
insert_unique n [] = n ∷ []
insert_unique n (m ∷ ms) = elim (compare n m) [
  | Ordering.lt ↦ n ∷ m ∷ ms
  | Ordering.eq ↦ m ∷ ms
  | Ordering.gt ↦ m ∷ insert_unique n ms
]

unfoldable pub sort_unique : List NodeId → List NodeId
unfolding insert_unique
sort_unique [] = []
sort_unique (n ∷ ns) = insert_unique n (sort_unique ns)

abbrev pub concat : List (List NodeId) → List NodeId
concat [] = []
concat (ns ∷ nss) = ns ++ concat nss

module _ {D : Type 0} (kg : KnowledgeGraph D) where
  -- One hop from each node.
  unfoldable pub next_ids : Text → List NodeId → List NodeId
  next_ids rel [] = []
  next_ids rel (id ∷ ids) = elim (kg.traverse id rel) [
    | none ↦ next_ids rel ids
    | some targets ↦ concat targets ++ next_ids rel ids
  ]

  -- The loop over the relationships.
  unfoldable pub walk_relationships : List Text → List NodeId → List NodeId
  unfolding next_ids sort_unique
  walk_relationships [] current_ids = current_ids
  walk_relationships (rel ∷ rels) current_ids = elim (sort_unique (next_ids rel current_ids)) [
    | [] ↦ []
    | n ∷ ns ↦ walk_relationships rels (n ∷ ns)
  ]

  -- The facts of the nodes at the end of a path.
  unfoldable pub node_facts : Text → GraphQuery → List NodeId → List (Fact D)
  unfolding field_value_to_rule_value graph_path_flat_key find
  node_facts path q [] = []
  node_facts path q (id ∷ ids) =
      let rest = node_facts path q ids in
      elim (kg.get_node id) [
        | none ↦ rest
        | some fields ↦ elim (find q.property_key fields) [
          | none ↦ rest
          | some fv ↦
              let val = field_value_to_rule_value fv in
              if is_null val
              then rest
              else record {
                key = graph_path_flat_key (q.node_type ∷ q.relationships) q.property_key;
                value = val;
                source = source_of_kind FactSourceKind.graph_path path;
              }
                ∷ rest
        ]
      ]

  -- Walking the graph for one path.
  unfoldable pub query_facts : Text → GraphQuery → List (Fact D)
  unfolding node_facts walk_relationships
  query_facts path q = elim (kg.find_nodes_by_type q.node_type) [
    | none ↦ []
    | some ids ↦ node_facts path q (walk_relationships q.relationships ids)
  ]

  -- The loop over the paths: the result, and the facts afterwards.
  unfoldable pub resolve_each_path : List Text → FactBase D → Result (Unit {0}) × FactBase D
  unfolding parse_path query_facts set_all
  resolve_each_path [] fb = (ok tt, fb)
  resolve_each_path ([] ∷ paths) fb = resolve_each_path paths fb
  resolve_each_path ((c ∷ path) ∷ paths) fb = elim (parse_path (c ∷ path)) [
    | ok q ↦ resolve_each_path paths (set_all (query_facts (c ∷ path) q) fb)
    | err e ↦ (err e, fb)
    | fault ↦ (fault, fb)
  ]

module _ {D : Type 0} where
  unfoldable pub resolve_graph_paths :
      Option (KnowledgeGraph D) → List Text → FactBase D → Result (Unit {0}) × FactBase D
  unfolding resolve_each_path
  resolve_graph_paths kg [] fb = (ok tt, fb)
  resolve_graph_paths none (p ∷ ps) fb =
      (invalid_path (text "ResolveGraphPaths: KnowledgeGraph is null"), fb)
  resolve_graph_paths (some kg) (p ∷ ps) fb = resolve_each_path kg (p ∷ ps) fb
