-- ===== src/Reasoner/Loader/Weights.antt =====
-- src/reasoner/decision_tree.cpp, ParseNode: the formulas of a document that writes a weight for each
-- feature.
use surface_ai.Base.{
  ltb, ◌&&◌, subst, ℕ, suc, ◌<◌, ◌≤◌, ◌≡◌, refl, ap, ◌⊎◌, inr, Option, List, [], ◌∷◌, length,
  if◌then◌else◌, arith,
}
use surface_ai.Base.Text.{Text, text}
use surface_ai.Rule.Double.{Double}
use surface_ai.Rule.Yaml.{Yaml, IsFinite}
use surface_ai.Reasoner.Tree.{VerdictMapping}
use surface_ai.Reasoner.Landing.{IsCovered}
use surface_ai.Reasoner.Loader.{
  converted, convert_all, optional_list, parse_formula, load_from_yaml,
}
use surface_ai.Reasoner.Loader.Gives.{
  Gives, Anything, if-Gives, bind-Gives, value-Gives, thrown-Gives, converted-Gives,
}
use surface_ai.Reasoner.Loader.Complete.{IsCompleteTree, HasWeights, load_from_yaml-Gives}

module _ {D N : Type 0} (y : Yaml D N) where
  -- How many elements stand under a key, which may be missing.
  abbrev pub written : Text → N → ℕ
  written k n = if y.is_defined (y.at k n) then length (y.items (y.at k n)) else 0

  -- No node of the document has more features than weights.
  abbrev pub IsWeighed : Type 0
  IsWeighed = (n : N) → written (text "features") n ≤ written (text "weights") n

module _ {D N : Type 0} ⦃d : Double D⦄ (y : Yaml D N) where
  abbrev IsLong : {A : Type 0} → ℕ → List A → Type 0
  IsLong k xs = length xs ≡ k

  convert_all-IsLong :
      {A : Type 0} (convert : N → Option A) (ns : List N)
      → Gives (IsLong (length ns)) (convert_all convert ns)
  unfolding convert_all
  convert_all-IsLong convert [] = value-Gives (IsLong 0) [] refl
  convert_all-IsLong convert (n ∷ ns) =
      bind-Gives (IsLong (length (n ∷ ns))) Anything (converted (convert n)) _
        (converted-Gives (convert n))
        λ a e h.
          bind-Gives (IsLong (length (n ∷ ns))) (IsLong (length ns)) (convert_all convert ns) _
            (convert_all-IsLong convert ns)
            (λ rest e h. value-Gives (IsLong (length (n ∷ ns))) (a ∷ rest) (ap suc h))

  optional_list-IsLong :
      {A : Type 0} (convert : N → Option A) (k : Text) (n : N)
      → Gives (IsLong (written y k n)) (optional_list y convert k n)
  unfolding optional_list
  optional_list-IsLong convert k n =
      if-Gives (IsLong (written y k n)) (y.is_defined (y.at k n)) _ _
        (λ e.
          if-Gives (IsLong (written y k n))
            (y.is_map (y.at k n) && ltb 0 (length (y.entries (y.at k n)))) _ _
            (λ _. thrown-Gives (IsLong (written y k n)))
            (λ _. rw e (convert_all-IsLong convert (y.items (y.at k n)))))
        (λ e. value-Gives (IsLong (written y k n)) [] (rw e refl))

  parse_formula-IsCovered : IsWeighed y → (n : N) → Gives IsCovered (parse_formula y n)
  unfolding parse_formula
  parse_formula-IsCovered weighed n =
      if-Gives IsCovered (y.is_scalar n) _ _ (λ _. thrown-Gives IsCovered)
        λ _.
          bind-Gives IsCovered (IsLong (written y (text "weights") n))
            (optional_list y y.as_double (text "weights") n) _
            (optional_list-IsLong y.as_double (text "weights") n)
            λ ws e h.
              bind-Gives IsCovered (IsLong (written y (text "features") n))
                (optional_list y y.text_of (text "features") n) _
                (optional_list-IsLong y.text_of (text "features") n)
                (λ fs e h'. value-Gives IsCovered _ (omega (arith, h, h', weighed n)))

  weighed-HasWeights : IsWeighed y → HasWeights y
  unfolding Gives
  weighed-HasWeights weighed n f e = subst (Gives IsCovered) e (parse_formula-IsCovered weighed n)

  -- If the document that the file holds is finite, with a rank below the fuel, and no node of it lists more
  -- features than weights, LoadFromYAML ends with an error, an exception, or a tree that has a default in
  -- every branch and a weight for each feature.
  pub load_from_yaml-IsCompleteTree :
      (rank : N → ℕ) (file : Text → Text ⊎ N) (defaults : VerdictMapping D) (f : ℕ) (p : Text)
      → IsFinite y rank
      → IsWeighed y
      → ((q : Text) (root : N) → file q ≡ inr root → rank root < f)
      → Gives IsCompleteTree (load_from_yaml y file defaults f p)
  load_from_yaml-IsCompleteTree rank file defaults f p finite weighed enough =
      load_from_yaml-Gives y (weighed-HasWeights weighed) rank finite file defaults f enough p
