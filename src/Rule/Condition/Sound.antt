-- ===== src/Rule/Condition/Sound.antt =====
-- src/rule/condition_builder.cpp: termination, and null pointers in what is built.
use surface_ai.Base.{
  ℕ, zero, suc, ◌<◌, ◌≤◌, ◌⊎◌, ◌≡◌, ◌≢◌, refl, Bool, true, false, not, ◌&&◌, ◌||◌, Option, none,
  some, List, [], ◌∷◌, ◌++◌, All, if◌then◌else◌, arith,
}
use surface_ai.Base.Text.{Text, text}
use surface_ai.Core.Error.{ErrorInfo, Result, ok, err, fault}
use surface_ai.Rule.Double.{Double}
use surface_ai.Rule.FactBase.{FactBase}
use surface_ai.Rule.Expression.{Expr, nullptr, literal, binary, BinaryOp, source_text}
use surface_ai.Rule.Engine.{is_nullptr}
use surface_ai.Rule.Evaluate.{evaluate}
use surface_ai.Rule.Safety.{IsWhole}
use surface_ai.Rule.Yaml.{Yaml, IsFinite}
use surface_ai.Rule.Condition.{
  Build, ◌>>=◌, parse_error, parse_binary_op, build_literal, build_operator, build_side,
  build_comparison, join_rest, build_junction, build_map, build_expression,
}

module _ {D : Type 0} where
  -- An error, or a whole expression: no fault.
  abbrev pub Yields : Result (Expr D) → Type 0
  Yields (ok e) = IsWhole e
  Yields (err i) = Unit
  Yields fault = ⊥

  -- The same, and fuel is left.
  abbrev pub Builds : Build (Expr D) → Type 0
  Builds none = ⊥
  Builds (some r) = Yields r

  if-Yields :
      (b : Bool) (r r' : Result (Expr D)) → Yields r → Yields r' → Yields (if b then r else r')
  if-Yields true r r' h h' = h
  if-Yields false r r' h h' = h'

  if-Builds :
      (b : Bool) (m m' : Build (Expr D))
      → (b ≡ true → Builds m)
      → (b ≡ false → Builds m')
      → Builds (if b then m else m')
  if-Builds true m m' h h' = h refl
  if-Builds false m m' h h' = h' refl

  bind-Builds :
      (m : Build (Expr D)) (f : Expr D → Build (Expr D))
      → Builds m
      → ((e : Expr D) → IsWhole e → Builds (f e))
      → Builds (m >>= f)
  bind-Builds none f h k = h
  bind-Builds (some (ok e)) f h k = k e h
  bind-Builds (some (err i)) f h k = tt
  bind-Builds (some fault) f h k = h

  whole-not_null : (e : Expr D) → IsWhole e → is_nullptr e ≡ false
  unfolding IsWhole
  whole-not_null nullptr h = absurd h
  whole-not_null (literal v) h = refl
  whole-not_null _ h = refl

-- No node is null, and every element of a sequence is a node.
pub record IsClean {D N : Type 0} (y : Yaml D N) : Type 0 where
  pub not_null : (n : N) → y.is_null n ≡ false
  pub items_defined : (n : N) → All (λ e. y.is_defined e ≡ true) (y.items n)

module _ {D N : Type 0} ⦃d : Double D⦄ (y : Yaml D N) where
  build_literal-Yields : (n : N) → Yields (build_literal y n)
  unfolding build_literal IsWhole
  build_literal-Yields n = if-Yields (y.is_scalar n) _ _ tt tt

  operator-Yields :
      (op : Option BinaryOp) (r : Result (Expr D)) (e : Result (Expr D)) (lhs : Expr D)
      (src : Expr D → Text)
      → Yields r
      → Yields e
      → IsWhole lhs
      → Yields (elim op [
        | none ↦ e
        | some o ↦ elim r [
          | ok lit ↦ ok (binary o lhs lit (src lit))
          | err i ↦ err i
          | fault ↦ fault
        ]
      ])
  unfolding IsWhole
  operator-Yields none r e lhs src h he w = he
  operator-Yields (some o) (ok lit) e lhs src h he w = (w, h)
  operator-Yields (some o) (err i) e lhs src h he w = tt
  operator-Yields (some o) fault e lhs src h he w = h

  build_side-Yields :
      (hint src : Text) (lhs : Expr D) (n : N) → IsWhole lhs → Yields (build_side y hint src lhs n)
  unfolding build_side build_operator
  build_side-Yields hint src lhs n w =
      if-Yields
        (not (y.is_defined (y.at (text "op") n)) && not (y.is_defined (y.at (text "value") n))) _ _
        w
        (if-Yields (not (y.is_scalar (y.at (text "op") n))) _ _ tt (
          operator-Yields (parse_binary_op (y.as_string (y.at (text "op") n)))
            (build_literal y (y.at (text "value") n)) _ lhs _
            (build_literal-Yields (y.at (text "value") n)) tt w))

  build_comparison-Yields : (hint : Text) (n : N) → Yields (build_comparison y hint n)
  unfolding build_comparison IsWhole
  build_comparison-Yields hint n =
      if-Yields (y.is_scalar (y.at (text "field") n)) _ _ (build_side-Yields hint _ _ n tt)
        (if-Yields (y.is_scalar (y.at (text "path") n)) _ _ (build_side-Yields hint _ _ n tt) tt)

  join_rest-Builds :
      (build : N → Build (Expr D)) (op : BinaryOp) (word : Text) (left : Expr D) (ns : List N)
      → IsWhole left
      → All (λ n. Builds (build n)) ns
      → Builds (join_rest y build op word left ns)
  unfolding join_rest IsWhole
  join_rest-Builds build op word left [] w h = w
  join_rest-Builds build op word left (n ∷ ns) w h = bind-Builds (build n) _ h.0 λ right wr.
      if-Builds (is_nullptr left || is_nullptr right) _ _
        (λ e. absurd (ground (arith, whole-not_null left w, whole-not_null right wr)))
        (λ _.
          join_rest-Builds build op word
            (binary op left right
              (text "(" ++ (source_text left ++ (word ++ (source_text right ++ text ")")))))
            ns (w, wr) h.1)

  items-Builds :
      (build : N → Build (Expr D)) (op : BinaryOp) (word complaint : Text) (ns : List N)
      → All (λ n. Builds (build n)) ns
      → Builds {D = D} (elim ns [
        | [] ↦ some (parse_error complaint)
        | n ∷ rest ↦ (build n >>= λ left. join_rest y build op word left rest)
      ])
  items-Builds build op word complaint [] h = tt
  items-Builds build op word complaint (n ∷ rest) h =
      bind-Builds (build n) _ h.0 (λ left w. join_rest-Builds build op word left rest w h.1)

  build_junction-Builds :
      (build : N → Build (Expr D)) (op : BinaryOp) (word complaint : Text) (seq : N)
      → All (λ n. Builds (build n)) (y.items seq)
      → Builds (build_junction y build op word complaint seq)
  unfolding build_junction
  build_junction-Builds build op word complaint seq h =
      if-Builds (not (y.is_sequence seq)) _ _ (λ _. tt)
        (λ _. items-Builds build op word complaint (y.items seq) h)

  -- What the branches for a map need of the nodes below it.
  module _ (build : N → Build (Expr D)) (n : N)
      (child : (k : Text) → y.is_defined (y.at k n) ≡ true → Builds (build (y.at k n)))
      (elements : (k : Text)
        → y.is_defined (y.at k n) ≡ true
        → All (λ e. Builds (build e)) (y.items (y.at k n))) where
    build_map-Builds : Builds (build_map y build n)
    unfolding build_map IsWhole
    build_map-Builds =
        if-Builds (y.is_defined (y.at (text "field") n) || y.is_defined (y.at (text "path") n)) _ _
          (λ _. build_comparison-Yields (text "condition") n)
          λ _.
            if-Builds (y.is_defined (y.at (text "and") n)) _ _
              (λ e.
                build_junction-Builds build BinaryOp.and (text " and ") _ (y.at (text "and") n)
                  (elements (text "and") e))
              λ _.
                if-Builds (y.is_defined (y.at (text "or") n)) _ _
                  (λ e.
                    build_junction-Builds build BinaryOp.or (text " or ") _ (y.at (text "or") n)
                      (elements (text "or") e))
                  λ _.
                    if-Builds (y.is_defined (y.at (text "not") n)) _ _
                      (λ e.
                        bind-Builds (build (y.at (text "not") n)) _ (child (text "not") e)
                          (λ operand w. w))
                      λ _.
                        if-Builds (y.is_defined (y.at (text "value") n)) _ _
                          (λ _. build_literal-Yields (y.at (text "value") n)) (λ _. tt)

  module _ (rank : N → ℕ) (finite : IsFinite y rank) (clean : IsClean y) where
    All-built :
        (f bound : ℕ) (ns : List N)
        → ((n : N) → y.is_defined n ≡ true → rank n < f → Builds (build_expression y f n))
        → bound ≤ f
        → All (λ e. rank e < bound) ns
        → All (λ e. y.is_defined e ≡ true) ns
        → All (λ e. Builds (build_expression y f e)) ns
    All-built f bound [] ih le r def = tt
    All-built f bound (n ∷ ns) ih le r def =
        (ih n def.0 (omega arith), All-built f bound ns ih le r.1 def.1)

    pub build_expression-Builds :
        (f : ℕ) (n : N) → y.is_defined n ≡ true → rank n < f → Builds (build_expression y f n)
    unfolding build_expression
    build_expression-Builds zero n def lt = absurd (omega arith)
    build_expression-Builds (suc f) n def lt =
        if-Builds (not (y.is_defined n) || y.is_null n) _ _
          (λ e. absurd (ground (arith, clean.not_null n)))
          λ _.
            if-Builds (y.is_scalar n) _ _ (λ _. build_literal-Yields n)
              λ _.
                if-Builds (not (y.is_map n)) _ _ (λ _. tt)
                  λ _.
                    build_map-Builds (build_expression y f) n
                      (λ k e.
                        build_expression-Builds f (y.at k n) e
                          (omega (arith, finite.rank_at k n e)))
                      (λ k e.
                        All-built f (rank (y.at k n)) (y.items (y.at k n))
                          (build_expression-Builds f) (omega (arith, finite.rank_at k n e))
                          (finite.rank_items (y.at k n)) (clean.items_defined (y.at k n)))

    abbrev pub IsSafe : Build (Expr D) → Type 0
    IsSafe m =
        ((i : ErrorInfo) × (m ≡ some (err i)))
        ⊎ ((e : Expr D) × (m ≡ some (ok e))
            × ((hash : Text → ℕ) (fb : FactBase D) → (evaluate hash e fb).0 ≢ fault))
