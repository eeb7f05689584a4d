-- ===== src/Rule/Conflict.antt =====
-- src/rule/conflict_resolver.cpp, and ResolveConflicts of src/rule/rule_engine.cpp. The search for a
-- cycle takes fuel, one unit for each nested visit; its `none` is fuel that ran out. Log output is
-- left out.
pub mod Paths
pub mod Search
pub mod Decision
pub mod Sources
pub mod Matched
pub mod Elimination
use surface_ai.Base.{
  ℕ, zero, suc, ◌≡◌, Bool, true, false, not, ◌&&◌, ◌||◌, ◌==◌, Option, none, some, List, [], ◌∷◌,
  ◌++◌, if◌then◌else◌, value_or, has_value, length,
}
use surface_ai.Base.Text.{Text, text, text_eq}
use surface_ai.Base.Dict.{Dict, find, insert_or_assign}
use surface_ai.Core.Error.{Result, ok, err, fault, fail, ErrorCode}
use surface_ai.Rule.Engine.{Rule, ResolvedRule}
use Paths.{Graph, edges, contains_text}

module _ {D : Type 0} where
  -- 1. The last rule of a name, over all sets.
  unfoldable pub rules_by_name : List (Rule D) → Dict (Rule D) → Dict (Rule D)
  rules_by_name [] m = m
  rules_by_name (r ∷ rs) m = rules_by_name rs (insert_or_assign r.name r m)

  unfoldable pub original : Dict (List (Rule D)) → Dict (Rule D) → Dict (Rule D)
  unfolding rules_by_name
  original [] m = m
  original ((set_name, rules) ∷ sets) m = original sets (rules_by_name rules m)

  -- 2. The index of the last matched result of a name.
  unfoldable pub matched_idx : ℕ → List (ResolvedRule D) → Dict ℕ → Dict ℕ
  matched_idx i [] m = m
  matched_idx i (r ∷ rs) m =
      matched_idx (suc i) rs (if r.matched then insert_or_assign r.name i m else m)

-- graph[from].push_back(to)
unfoldable pub push_edge : Text → Text → Graph → Graph
push_edge from to g = insert_or_assign from (edges g from ++ to ∷ []) g

unfoldable pub add_overrides : Dict ℕ → Text → List Text → Graph → Graph
add_overrides m name [] g = g
add_overrides m name (target ∷ ts) g =
    add_overrides m name ts (if has_value (find target m) then push_edge name target g else g)

unfoldable pub add_overridden_by : Dict ℕ → Text → List Text → Graph → Graph
add_overridden_by m name [] g = g
add_overridden_by m name (target ∷ ts) g =
    add_overridden_by m name ts (if has_value (find target m) then push_edge target name g else g)

-- 3. The graph of overrides among the matched rules: `names` are the entries of `m` still to do.
unfoldable pub build_graph : {D : Type 0} → Dict (Rule D) → Dict ℕ → Dict ℕ → Graph → Graph
unfolding add_overrides add_overridden_by push_edge
build_graph rules m [] g = g
build_graph rules m ((name, i) ∷ names) g = build_graph rules m names (elim (find name rules) [
  | none ↦ g
  | some r ↦ add_overridden_by m name r.overridden_by (add_overrides m name r.overrides g)
])

pub data Color : Type 0 where
  white gray black : Color

-- operator[]: a missing entry is white.
unfoldable pub color_of : Text → Dict Color → Color
color_of n c = value_or (find n c) Color.white

-- The loop of dfs_visit over the neighbours; `true` is a cycle.
unfoldable pub visit_each :
    (Text → Dict Color → Option (Bool × Dict Color))
    → List Text
    → Dict Color
    → Option (Bool × Dict Color)
visit_each visit [] c = some (false, c)
visit_each visit (n ∷ ns) c = elim (color_of n c) [
  | Color.gray ↦ some (true, c)
  | Color.white ↦ elim (visit n c) [
    | none ↦ none
    | some (cycle, c') ↦ elim cycle [ true ↦ some (true, c') | false ↦ visit_each visit ns c' ]
  ]
  | Color.black ↦ visit_each visit ns c
]

-- The node is black once all its neighbours are done.
unfoldable pub finish : Text → Option (Bool × Dict Color) → Option (Bool × Dict Color)
finish node none = none
finish node (some (true, c)) = some (true, c)
finish node (some (false, c)) = some (false, insert_or_assign node Color.black c)

unfoldable pub dfs_visit : ℕ → Graph → Text → Dict Color → Option (Bool × Dict Color)
unfolding visit_each finish color_of
dfs_visit zero g node c = none
dfs_visit (suc f) g node c =
    finish node (visit_each (dfs_visit f g) (edges g node) (insert_or_assign node Color.gray c))

-- 4. The loop over the matched names: visit those still white.
unfoldable pub search_cycle : ℕ → Graph → Dict ℕ → Dict Color → Option (Bool × Dict Color)
unfolding dfs_visit
search_cycle fuel g [] c = some (false, c)
search_cycle fuel g ((name, i) ∷ names) c = elim (color_of name c) [
  | Color.white ↦ elim (dfs_visit fuel g name c) [
    | none ↦ none
    | some (cycle, c') ↦ elim cycle [
      | true ↦ some (true, c')
      | false ↦ search_cycle fuel g names c'
    ]
  ]
  | _ ↦ search_cycle fuel g names c
]

unfoldable pub all_white : Dict ℕ → Dict Color → Dict Color
all_white [] c = c
all_white ((name, i) ∷ names) c = all_white names (insert_or_assign name Color.white c)

-- The names of the gray nodes.
unfoldable pub cycle_info : Dict Color → Text → Text
cycle_info [] acc = acc
cycle_info ((n, Color.gray) ∷ c) [] = cycle_info c n
cycle_info ((n, Color.gray) ∷ c) (a ∷ acc) = cycle_info c (((a ∷ acc) ++ text " → ") ++ n)
cycle_info ((n, Color.white) ∷ c) acc = cycle_info c acc
cycle_info ((n, Color.black) ∷ c) acc = cycle_info c acc

-- Whether another matched rule has an edge to `name`.
unfoldable pub is_overridden : Graph → Dict ℕ → Text → Bool
is_overridden g [] name = false
is_overridden g ((other, i) ∷ names) name =
    (not (text_eq other name) && contains_text name (edges g other)) || is_overridden g names name

module _ {D : Type 0} where
  -- evaluated[i].matched = false
  unfoldable pub unmatch : List (ResolvedRule D) → ℕ → List (ResolvedRule D)
  unmatch [] i = []
  unmatch (r ∷ rs) zero = record r { matched = false } ∷ rs
  unmatch (r ∷ rs) (suc i) = r ∷ unmatch rs i

  -- 5. Eliminates the overridden rules; `names` are the entries of `m` still to do.
  unfoldable pub eliminate : Graph → Dict ℕ → Dict ℕ → List (ResolvedRule D) → List (ResolvedRule D)
  unfolding is_overridden unmatch
  eliminate g m [] rs = rs
  eliminate g m ((name, i) ∷ names) rs =
      eliminate g m names (if is_overridden g m name then unmatch rs i else rs)

  unfoldable pub override_graph : Dict (List (Rule D)) → List (ResolvedRule D) → Graph
  override_graph sets evaluated =
      let m = matched_idx 0 evaluated [] in build_graph (original sets []) m m []

  -- A fuel of the number of matched names is enough.
  unfoldable pub resolve_override_conflicts :
      Dict (List (Rule D)) → List (ResolvedRule D) → Option (Result (List (ResolvedRule D)))
  resolve_override_conflicts sets evaluated =
      let m = matched_idx 0 evaluated [] in
      let g = override_graph sets evaluated in
      elim (search_cycle (length m) g m (all_white m [])) [
        | none ↦ none
        | some (cycle, c) ↦ elim cycle [
          | true ↦ some (
              fail ErrorCode.rule_cyclic_override
                (text "override cycle detected among: " ++ cycle_info c []))
          | false ↦ some (ok (eliminate g m m evaluated))
        ]
      ]

  -- On a cycle the input is returned unchanged.
  unfoldable pub resolve_conflicts :
      Dict (List (Rule D)) → List (ResolvedRule D) → Option (List (ResolvedRule D))
  resolve_conflicts sets evaluated = elim (resolve_override_conflicts sets evaluated) [
    | none ↦ none
    | some r ↦ elim r [ ok rs ↦ some rs | err e ↦ some evaluated | fault ↦ some evaluated ]
  ]
