-- ===== src/Reasoner/Landing.antt =====
-- src/reasoner/tree_walker.cpp and score_calculator.cpp: complete trees, and where the walk ends.
use surface_ai.Base.{
  ℕ, ◌≤◌, ◌≡◌, refl, ◌⊎◌, inl, inr, Bool, true, false, Option-cases, Option, none, some, List, [],
  ◌∷◌, ◌++◌, length, All, if◌then◌else◌, arith,
}
use surface_ai.Base.Text.{Text, text, text_eq}
use surface_ai.Core.Error.{Result, ok}
use surface_ai.Rule.Double.{Double}
use surface_ai.Rule.Value.{Value, as_double, as_string}
use surface_ai.Rule.FactBase.{FactBase, get}
use surface_ai.Reasoner.Tree.{
  ScoreFormula, DecisionNode, Branches, Fallback, LeafNode, branch, leaf, nil, cons, absent,
  default_to,
}
use surface_ai.Reasoner.Trace.{Tracer, record_tree_branch, record_scoring}
use surface_ai.Reasoner.Score.{weighted_sum, compute, best_score, compute_max, sigmoid}
use surface_ai.Reasoner.Walk.{
  WalkResult, match_numeric, walk_leaf, walk, walk_text, walk_number, walk_default,
}

-- There is a weight for each feature.
abbrev pub IsCovered : {D : Type 0} → ScoreFormula D → Type 0
IsCovered f = length f.features ≤ length f.weights

module _ {D : Type 0} where
  -- Every branch has a default, and every formula is covered.
  unfoldable mutual
    pub IsComplete : DecisionNode D → Type 0
    IsComplete (branch field bs fallback) = AreComplete bs × HasDefault fallback
    IsComplete (leaf n) = All IsCovered n.formulas

    pub AreComplete : Branches D → Type 0
    AreComplete nil = Unit
    AreComplete (cons k n bs) = IsComplete n × AreComplete bs

    pub HasDefault : Fallback D → Type 0
    HasDefault absent = ⊥
    HasDefault (default_to n) = IsComplete n

  unfoldable mutual
    pub IsLeafOf : LeafNode D → DecisionNode D → Type 0
    IsLeafOf m (branch field bs fallback) = IsLeafOfAny m bs ⊎ IsLeafOfDefault m fallback
    IsLeafOf m (leaf n) = m ≡ n

    pub IsLeafOfAny : LeafNode D → Branches D → Type 0
    IsLeafOfAny m nil = ⊥
    IsLeafOfAny m (cons k n bs) = IsLeafOf m n ⊎ IsLeafOfAny m bs

    pub IsLeafOfDefault : LeafNode D → Fallback D → Type 0
    IsLeafOfDefault m absent = ⊥
    IsLeafOfDefault m (default_to n) = IsLeafOf m n

module _ {D : Type 0} ⦃d : Double D⦄ (facts : FactBase D) where
  weighted_sum_total :
      (sum : D) (fs : List Text) (ws : List D)
      → length fs ≤ length ws
      → (s : D) × (weighted_sum facts sum fs ws ≡ ok s)
  unfolding weighted_sum
  weighted_sum_total sum [] ws h = (sum, refl)
  weighted_sum_total sum (f ∷ fs) [] h = absurd (omega arith)
  weighted_sum_total sum (f ∷ fs) (w ∷ ws) h = elim (Option-cases (get f facts)) [
    | inl e ↦ rw (e, weighted_sum) (weighted_sum_total sum fs ws (omega arith))
    | inr (v, e) ↦ elim (Option-cases (as_double v)) [
      | inl a ↦ rw (e, a, weighted_sum) (weighted_sum_total sum fs ws (omega arith))
      | inr (x, a) ↦
          rw (e, a, weighted_sum) (weighted_sum_total (d.add sum (d.mul w x)) fs ws (omega arith))
    ]
  ]

  compute_total : (f : ScoreFormula D) → IsCovered f → (s : D) × (compute f facts ≡ ok s)
  unfolding compute
  compute_total f h =
      let (s, e) = weighted_sum_total d.nought f.features f.weights h in
      (sigmoid (d.sub s f.threshold), rw e)

  best_score_total :
      (best : D) (fs : List (ScoreFormula D))
      → All IsCovered fs
      → (s : D) × (best_score facts best fs ≡ ok s)
  unfolding best_score
  best_score_total best [] h = (best, refl)
  best_score_total best (f ∷ fs) h =
      let (s, e) = compute_total f h.0 in
      let (t, e') = best_score_total (if d.gt s best then s else best) fs h.1 in (t, rw e e')

  compute_max_total :
      (fs : List (ScoreFormula D)) → All IsCovered fs → (s : D) × (compute_max fs facts ≡ ok s)
  unfolding compute_max
  compute_max_total fs h = best_score_total d.nought fs h

  -- The result is that of a leaf with `P`: its label and recommendation, and its best score.
  abbrev pub Lands : (LeafNode D → Type 0) → Result (WalkResult D × Tracer) → Type 0
  Lands P r =
      (m : LeafNode D) × (w : WalkResult D) × (t : Tracer) × P m
      × (r ≡ ok (w, t))
      × (w.label ≡ m.label)
      × (w.recommendation ≡ m.recommendation)
      × (compute_max m.formulas facts ≡ ok w.score)

  Lands-map :
      (P Q : LeafNode D → Type 0) (r : Result (WalkResult D × Tracer))
      → ((m : LeafNode D) → P m → Q m)
      → Lands P r
      → Lands Q r
  Lands-map P Q r f (m, w, t, p, e, l, c, s) = (m, w, t, f m p, e, l, c, s)

  abbrev LandsIfAny : (LeafNode D → Type 0) → Option (Result (WalkResult D × Tracer)) → Type 0
  LandsIfAny P none = Unit
  LandsIfAny P (some r) = Lands P r

  LandsIfAny-map :
      (P Q : LeafNode D → Type 0) (o : Option (Result (WalkResult D × Tracer)))
      → ((m : LeafNode D) → P m → Q m)
      → LandsIfAny P o
      → LandsIfAny Q o
  LandsIfAny-map P Q none f h = tt
  LandsIfAny-map P Q (some r) f h = Lands-map P Q r f h

  walk_leaf-Lands :
      (now : ℕ → ℕ) (n : LeafNode D) (t : Tracer)
      → All IsCovered n.formulas
      → Lands (λ m. m ≡ n) (walk_leaf now n facts t)
  unfolding walk_leaf
  walk_leaf-Lands now n t h =
      let (s, e) = compute_max_total n.formulas h in
      (
        n,
        record { label = n.label; score = s; recommendation = n.recommendation },
        record_scoring now (text "Leaf: " ++ (n.label ++ (text " score=" ++ d.print s))) s t,
        refl,
        rw e,
        refl,
        refl,
        e,
      )

  -- Two attempts, and what is done where both fail.
  attempts-Lands :
      (P : LeafNode D → Type 0) (a b : Option (Result (WalkResult D × Tracer)))
      (c : Result (WalkResult D × Tracer))
      → LandsIfAny P a
      → LandsIfAny P b
      → Lands P c
      → Lands P (elim a [ some r ↦ r | none ↦ elim b [ some r ↦ r | none ↦ c ] ])
  attempts-Lands P none none c x y z = z
  attempts-Lands P none (some r) c x y z = y
  attempts-Lands P (some r) b c x y z = x

  value-Lands :
      (P : LeafNode D → Type 0) (o : Option (Value D)) (a : Result (WalkResult D × Tracer))
      (b : Value D → Result (WalkResult D × Tracer))
      → Lands P a
      → ((v : Value D) → Lands P (b v))
      → Lands P (elim o [ none ↦ a | some v ↦ b v ])
  value-Lands P none a b x y = x
  value-Lands P (some v) a b x y = y v

  choice-Lands :
      (P : LeafNode D → Type 0) (b : Bool) (r : Result (WalkResult D × Tracer))
      (o : Option (Result (WalkResult D × Tracer)))
      → Lands P r
      → LandsIfAny P o
      → LandsIfAny P (elim b [ true ↦ some r | false ↦ o ])
  choice-Lands P true r o x y = x
  choice-Lands P false r o x y = y

  module _ (now : ℕ → ℕ) where
    mutual
      unfolding walk IsComplete IsLeafOf

      node-Lands :
          (n : DecisionNode D)
          → IsComplete n
          → (t : Tracer) → Lands (λ m. IsLeafOf m n) (walk now facts n t)
      node-Lands (leaf n) h t = walk_leaf-Lands now n t h
      node-Lands (branch field bs fallback) h t =
          value-Lands (λ m. IsLeafOf m (branch field bs fallback)) (get field facts) _ _
            (Lands-map (λ m. IsLeafOfDefault m fallback)
              (λ m. IsLeafOf m (branch field bs fallback)) _ (λ m p. inr p)
              (default-Lands fallback h.1
                (record_tree_branch now field (text "missing") (text "default") t)))
            λ v.
              attempts-Lands (λ m. IsLeafOf m (branch field bs fallback))
                (walk_text now facts field (as_string v) bs t)
                (walk_number now facts field (as_double v) bs t) _
                (LandsIfAny-map (λ m. IsLeafOfAny m bs) (λ m. IsLeafOf m (branch field bs fallback))
                  (walk_text now facts field (as_string v) bs t) (λ m p. inl p)
                  (text-Lands bs h.0 field (as_string v) t))
                (LandsIfAny-map (λ m. IsLeafOfAny m bs) (λ m. IsLeafOf m (branch field bs fallback))
                  (walk_number now facts field (as_double v) bs t) (λ m p. inl p)
                  (number-Lands bs h.0 field (as_double v) t))
                (Lands-map (λ m. IsLeafOfDefault m fallback)
                  (λ m. IsLeafOf m (branch field bs fallback)) _ (λ m p. inr p)
                  (default-Lands fallback h.1
                    (record_tree_branch now field (text "value") (text "default") t)))

      text-Lands :
          (bs : Branches D)
          → AreComplete bs
          → (field : Text) (key : Option Text) (t : Tracer)
          → LandsIfAny (λ m. IsLeafOfAny m bs) (walk_text now facts field key bs t)
      text-Lands nil h field key t = tt
      text-Lands (cons k n bs) h field none t = tt
      text-Lands (cons k n bs) h field (some s) t =
          choice-Lands (λ m. IsLeafOfAny m (cons k n bs)) (text_eq k s) _
            (walk_text now facts field (some s) bs t)
            (Lands-map (λ m. IsLeafOf m n) (λ m. IsLeafOfAny m (cons k n bs)) _ (λ m p. inl p)
              (node-Lands n h.0 (record_tree_branch now field s s t)))
            (LandsIfAny-map (λ m. IsLeafOfAny m bs) (λ m. IsLeafOfAny m (cons k n bs))
              (walk_text now facts field (some s) bs t) (λ m p. inr p)
              (text-Lands bs h.1 field (some s) t))

      number-Lands :
          (bs : Branches D)
          → AreComplete bs
          → (field : Text) (value : Option D) (t : Tracer)
          → LandsIfAny (λ m. IsLeafOfAny m bs) (walk_number now facts field value bs t)
      number-Lands nil h field value t = tt
      number-Lands (cons k n bs) h field none t = tt
      number-Lands (cons k n bs) h field (some x) t =
          choice-Lands (λ m. IsLeafOfAny m (cons k n bs)) (match_numeric k x) _
            (walk_number now facts field (some x) bs t)
            (Lands-map (λ m. IsLeafOf m n) (λ m. IsLeafOfAny m (cons k n bs)) _ (λ m p. inl p)
              (node-Lands n h.0 (record_tree_branch now field (d.print x) k t)))
            (LandsIfAny-map (λ m. IsLeafOfAny m bs) (λ m. IsLeafOfAny m (cons k n bs))
              (walk_number now facts field (some x) bs t) (λ m p. inr p)
              (number-Lands bs h.1 field (some x) t))

      default-Lands :
          (fb : Fallback D)
          → HasDefault fb
          → (t : Tracer) → Lands (λ m. IsLeafOfDefault m fb) (walk_default now facts fb t)
      default-Lands absent h t = absurd h
      default-Lands (default_to n) h t = node-Lands n h t

    -- Where every branch has a default and every formula a weight for each feature, the walk ends
    -- without a fault in a leaf of the tree, with its label, its recommendation and its best score.
    pub walk-Lands :
        (n : DecisionNode D) (t : Tracer)
        → IsComplete n
        → Lands (λ m. IsLeafOf m n) (walk now facts n t)
    walk-Lands n t h = node-Lands n h t
