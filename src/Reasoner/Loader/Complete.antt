-- ===== src/Reasoner/Loader/Complete.antt =====
-- src/reasoner/decision_tree.cpp and ReloadTree of src/reasoner/reasoner.cpp: which trees are loaded.
use surface_ai.Base.{
  length, ltb, ℕ, zero, suc, ◌<◌, ◌≤◌, ◌≡◌, refl, ◌⊎◌, inl, inr, true, not, ◌&&◌, Option, none,
  some, List, [], ◌∷◌, All, arith,
}
use surface_ai.Base.Text.{Text, text, text_eq}
use surface_ai.Rule.Double.{Double}
use surface_ai.Rule.Yaml.{Yaml, IsFinite}
use surface_ai.Reasoner.Tree.{
  ScoreFormula, VerdictMapping, LeafNode, DecisionNode, Branches, DecisionTree, nil, leaf,
  add_branch, add_formula, set_label, set_recommendation,
}
use surface_ai.Reasoner.Landing.{IsCovered, IsComplete, AreComplete}
use surface_ai.Reasoner.Loader.{
  parsed, failed, thrown, Parse, converted, convert_all, optional_list, optional_text,
  named_branches, default_branch, with_formulas, parse_formula, parse_formulas, empty_leaf,
  parse_leaf, parse_branches, parse_branch, parse_node, parse_mapping, load_from_yaml, replace_tree,
  reload_tree,
}
use surface_ai.Reasoner.Loader.Gives.{
  Gives, Anything, if-Gives, bind-Gives, value-Gives, failed-Gives, thrown-Gives, converted-Gives,
  add-AreComplete, add-All, and_left,
}

abbrev pub IsCompleteTree : {D : Type 0} → DecisionTree D → Type 0
IsCompleteTree t = IsComplete t.root

replaced :
    {D : Type 0} (m : Parse (DecisionTree D)) (tree : DecisionTree D)
    → Gives IsCompleteTree m
    → IsComplete tree.root
    → IsComplete (replace_tree m tree).0.root
      × Gives Anything (replace_tree m tree).1
      × (((replace_tree m tree).1 ≡ some (parsed tt)) ⊎ ((replace_tree m tree).0 ≡ tree))
unfolding replace_tree Gives Anything
replaced none tree g h = absurd g
replaced (some (parsed t)) tree g h = (g, tt, inl refl)
replaced (some (failed e)) tree g h = (h, tt, inr refl)
replaced (some thrown) tree g h = (h, tt, inr refl)

module _ {D N : Type 0} ⦃d : Double D⦄ (y : Yaml D N) where
  -- Every formula that parses has a weight for each feature.
  abbrev pub HasWeights : Type 0
  HasWeights = (n : N) (f : ScoreFormula D) → parse_formula y n ≡ some (parsed f) → IsCovered f

  -- No loop of conversions runs out of fuel.
  convert_all-Gives :
      {A : Type 0} (convert : N → Option A) (ns : List N) → Gives Anything (convert_all convert ns)
  unfolding convert_all Anything
  convert_all-Gives convert [] = value-Gives Anything [] tt
  convert_all-Gives convert (n ∷ ns) =
      bind-Gives Anything Anything (converted (convert n)) _ (converted-Gives (convert n)) λ a e h.
        bind-Gives Anything Anything (convert_all convert ns) _ (convert_all-Gives convert ns)
          λ rest e h. value-Gives Anything (a ∷ rest) tt

  optional_list-Gives :
      {A : Type 0} (convert : N → Option A) (k : Text) (n : N)
      → Gives Anything (optional_list y convert k n)
  unfolding optional_list Anything
  optional_list-Gives convert k n =
      if-Gives Anything (y.is_defined (y.at k n)) _ _
        (λ _.
          if-Gives Anything (y.is_map (y.at k n) && ltb 0 (length (y.entries (y.at k n)))) _ _
            (λ _. thrown-Gives Anything) (λ _. convert_all-Gives convert (y.items (y.at k n))))
        (λ _. value-Gives Anything [] tt)

  parse_formula-Gives : (n : N) → Gives Anything (parse_formula y n)
  unfolding parse_formula Anything
  parse_formula-Gives n =
      if-Gives Anything (y.is_scalar n) _ _ (λ _. thrown-Gives Anything)
        λ _.
          bind-Gives Anything Anything (optional_list y y.as_double (text "weights") n) _
            (optional_list-Gives y.as_double (text "weights") n)
            λ ws e h.
              bind-Gives Anything Anything (optional_list y y.text_of (text "features") n) _
                (optional_list-Gives y.text_of (text "features") n)
                λ fs e h. value-Gives Anything _ tt

  module _ (weights : HasWeights) where
    abbrev IsCoveredLeaf : LeafNode D → Type 0
    IsCoveredLeaf m = All IsCovered m.formulas

    parse_formulas-Gives :
        (ns : List N) (m : LeafNode D)
        → IsCoveredLeaf m
        → Gives IsCoveredLeaf (parse_formulas y ns m)
    unfolding parse_formulas add_formula
    parse_formulas-Gives [] m h = value-Gives IsCoveredLeaf m h
    parse_formulas-Gives (n ∷ ns) m h =
        bind-Gives IsCoveredLeaf Anything (parse_formula y n) _ (parse_formula-Gives n) λ f e _.
          parse_formulas-Gives ns (add_formula f m) (add-All f m.formulas (weights n f e) h)

    with_formulas-Gives :
        (n : N) (m : LeafNode D) → IsCoveredLeaf m → Gives IsCoveredLeaf (with_formulas y n m)
    unfolding with_formulas
    with_formulas-Gives n m h =
        if-Gives IsCoveredLeaf
          (y.is_defined (y.at (text "formulas") n) && y.is_sequence (y.at (text "formulas") n)) _ _
          (λ _. parse_formulas-Gives (y.items (y.at (text "formulas") n)) m h)
          (λ _. value-Gives IsCoveredLeaf m h)

    optional_text-Gives : (k : Text) (n : N) → Gives Anything (optional_text y k n)
    unfolding optional_text Anything
    optional_text-Gives k n =
        if-Gives Anything (y.is_defined (y.at k n)) _ _
          (λ _. converted-Gives (y.text_of (y.at k n))) (λ _. value-Gives Anything [] tt)

    parse_leaf-Gives : (n : N) → Gives IsCoveredLeaf (parse_leaf y n)
    unfolding parse_leaf set_label set_recommendation
    parse_leaf-Gives n =
        bind-Gives IsCoveredLeaf Anything (optional_text y (text "label") n) _
          (optional_text-Gives (text "label") n)
          λ label _ _.
            bind-Gives IsCoveredLeaf Anything (optional_text y (text "recommendation") n) _
              (optional_text-Gives (text "recommendation") n)
              λ recommendation _ _.
                with_formulas-Gives n
                  (set_recommendation recommendation (set_label label (empty_leaf y))) tt

    abbrev Completes : (N → Parse (DecisionNode D)) → N → Type 0
    Completes parse n = Gives IsComplete (parse n)

    parse_branches-Gives :
        (parse : N → Parse (DecisionNode D)) (es : List (N × N)) (bs : Branches D)
        → All (λ e. Completes parse e.1) es
        → AreComplete bs
        → Gives AreComplete (parse_branches y parse es bs)
    unfolding parse_branches
    parse_branches-Gives parse [] bs h hs = value-Gives AreComplete bs hs
    parse_branches-Gives parse ((k, v) ∷ es) bs h hs =
        bind-Gives AreComplete Anything (converted (y.text_of k)) _ (converted-Gives (y.text_of k))
          λ key _ _. bind-Gives AreComplete IsComplete (parse v) _ h.0 λ child _ c.
            parse_branches-Gives parse es (add_branch key child bs) h.1
              (add-AreComplete key child bs c hs)

    named_branches-Gives :
        (parse : N → Parse (DecisionNode D)) (n : N)
        → ((k : Text)
            → y.is_defined (y.at k n) ≡ true
            → All (λ e. Completes parse e.1) (y.entries (y.at k n)))
        → Gives AreComplete (named_branches y parse n)
    unfolding named_branches IsComplete
    named_branches-Gives parse n entries =
        if-Gives AreComplete
          (y.is_defined (y.at (text "branches") n) && y.is_map (y.at (text "branches") n)) _ _
          (λ e.
            parse_branches-Gives parse (y.entries (y.at (text "branches") n)) nil
              (entries (text "branches") (and_left _ _ e)) tt)
          (λ _. value-Gives AreComplete nil tt)

    default_branch-Gives :
        (parse : N → Parse (DecisionNode D)) (field : Text) (bs : Branches D) (n : N)
        → AreComplete bs
        → ((k : Text) → y.is_defined (y.at k n) ≡ true → Completes parse (y.at k n))
        → Gives IsComplete (default_branch y parse field bs n)
    unfolding default_branch IsComplete
    default_branch-Gives parse field bs n h child =
        if-Gives IsComplete (y.is_defined (y.at (text "default") n)) _ _
          (λ e.
            bind-Gives IsComplete IsComplete (parse (y.at (text "default") n)) _
              (child (text "default") e) (λ c _ w. value-Gives IsComplete _ (h, w)))
          (λ _. failed-Gives IsComplete _)

    parse_branch-Gives :
        (parse : N → Parse (DecisionNode D)) (n : N)
        → ((k : Text) → y.is_defined (y.at k n) ≡ true → Completes parse (y.at k n))
        → ((k : Text)
            → y.is_defined (y.at k n) ≡ true
            → All (λ e. Completes parse e.1) (y.entries (y.at k n)))
        → Gives IsComplete (parse_branch y parse n)
    unfolding parse_branch IsComplete
    parse_branch-Gives parse n child entries =
        if-Gives IsComplete (not (y.is_defined (y.at (text "field") n))) _ _
          (λ _. failed-Gives IsComplete _)
          λ _.
            bind-Gives IsComplete Anything (converted (y.text_of (y.at (text "field") n))) _
              (converted-Gives (y.text_of (y.at (text "field") n)))
              λ field _ _.
                bind-Gives IsComplete AreComplete (named_branches y parse n) _
                  (named_branches-Gives parse n entries)
                  λ bs _ h. default_branch-Gives parse field bs n h child

    entries-Complete :
        (f bound : ℕ) (rank : N → ℕ) (es : List (N × N))
        → ((n : N) → rank n < f → Completes (parse_node y f) n)
        → bound ≤ f
        → All (λ e. rank e.1 < bound) es
        → All (λ e. Completes (parse_node y f) e.1) es
    entries-Complete f bound rank [] ih le h = tt
    entries-Complete f bound rank ((k, v) ∷ es) ih le h =
        (ih v (omega (arith, h.0)), entries-Complete f bound rank es ih le h.1)

    module _ (rank : N → ℕ) (finite : IsFinite y rank) where
      parse_node-Gives : (f : ℕ) (n : N) → rank n < f → Gives IsComplete (parse_node y f n)
      unfolding parse_node IsComplete
      parse_node-Gives zero n lt = absurd (omega arith)
      parse_node-Gives (suc f) n lt =
          if-Gives IsComplete (y.is_scalar n) _ _ (λ _. thrown-Gives IsComplete)
            λ _.
              if-Gives IsComplete (not (y.is_defined (y.at (text "type") n))) _ _
                (λ _. failed-Gives IsComplete _)
                λ _.
                  bind-Gives IsComplete Anything (converted (y.text_of (y.at (text "type") n))) _
                    (converted-Gives (y.text_of (y.at (text "type") n)))
                    λ type _ _.
                      if-Gives IsComplete (text_eq type (text "branch")) _ _
                        (λ _.
                          parse_branch-Gives (parse_node y f) n
                            (λ k e.
                              parse_node-Gives f (y.at k n) (omega (arith, finite.rank_at k n e)))
                            (λ k e.
                              entries-Complete f (rank (y.at k n)) rank (y.entries (y.at k n))
                                (parse_node-Gives f) (omega (arith, finite.rank_at k n e))
                                (finite.rank_entries (y.at k n))))
                        λ _.
                          if-Gives IsComplete (text_eq type (text "leaf")) _ _
                            (λ _.
                              bind-Gives IsComplete IsCoveredLeaf (parse_leaf y n) _
                                (parse_leaf-Gives n) (λ m _ h. value-Gives IsComplete (leaf m) h))
                            (λ _. failed-Gives IsComplete _)

      parse_mapping-Gives :
          (defaults : VerdictMapping D) (root : N) → Gives Anything (parse_mapping y defaults root)
      unfolding parse_mapping Anything
      parse_mapping-Gives defaults root =
          if-Gives Anything (not (y.is_defined (y.at (text "verdict_mapping") root))) _ _
            (λ _. value-Gives Anything defaults tt)
            λ _.
              if-Gives Anything (y.is_scalar (y.at (text "verdict_mapping") root)) _ _
                (λ _. thrown-Gives Anything) (λ _. value-Gives Anything _ tt)

      module _ (file : Text → Text ⊎ N) (defaults : VerdictMapping D) (f : ℕ)
          (enough : (p : Text) (root : N) → file p ≡ inr root → rank root < f) where
        -- With fuel above the rank of the document that the file holds, and a weight for each feature in
        -- every formula of it, LoadFromYAML ends, and a tree that it returns has a default in every branch
        -- and a weight for each feature.
        pub load_from_yaml-Gives :
            (p : Text) → Gives IsCompleteTree (load_from_yaml y file defaults f p)
        unfolding load_from_yaml
        load_from_yaml-Gives p = read (file p) (enough p)
          where
            read :
                (o : Text ⊎ N)
                → ((root : N) → o ≡ inr root → rank root < f)
                → Gives IsCompleteTree (load_from_yaml y (λ q. o) defaults f p)
            read (inl what) lt = failed-Gives IsCompleteTree _
            read (inr root) lt =
                bind-Gives IsCompleteTree IsComplete (parse_node y f root) _
                  (parse_node-Gives f root (lt root refl))
                  λ node _ h.
                    bind-Gives IsCompleteTree Anything (parse_mapping y defaults root) _
                      (parse_mapping-Gives defaults root)
                      (λ mapping _ _. value-Gives IsCompleteTree _ h)

        -- Under the conditions of LoadFromYAML, ReloadTree ends and keeps a complete tree complete: it
        -- reports success, or leaves the tree as it was.
        pub reload_tree-IsComplete :
            (p : Text) (tree : DecisionTree D)
            → IsComplete tree.root
            → IsComplete (reload_tree y file defaults f p tree).0.root
              × Gives Anything (reload_tree y file defaults f p tree).1
              × (((reload_tree y file defaults f p tree).1 ≡ some (parsed tt))
                  ⊎ ((reload_tree y file defaults f p tree).0 ≡ tree))
        unfolding reload_tree
        reload_tree-IsComplete p tree h =
            replaced (load_from_yaml y file defaults f p) tree (load_from_yaml-Gives p) h
