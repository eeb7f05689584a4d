-- ===== src/Reasoner/Loader/Gives.antt =====
-- src/reasoner/decision_tree.cpp: predicates on the outcome of a parse, and how they pass through its
-- steps; the builder's operations on complete nodes.
use surface_ai.Base.{
  ◌≡◌, refl, Bool, true, false, ◌&&◌, Option, none, some, List, [], ◌∷◌, ◌++◌, All, Ordering,
  if◌then◌else◌, has_value, arith,
}
use surface_ai.Base.Text.{Text, text_compare}
use surface_ai.Core.Error.{ErrorInfo}
use surface_ai.Reasoner.Tree.{
  ScoreFormula, DecisionNode, Branches, nil, cons, find_branch, insert_branch, add_branch,
}
use surface_ai.Reasoner.Landing.{IsCovered, IsComplete, AreComplete}
use surface_ai.Reasoner.Loader.{parsed, failed, thrown, Parse, ◌>>=◌, converted}

-- The parse does not run out of fuel, and what it gives satisfies `P`.
unfoldable pub Gives : {A : Type 0} → (A → Type 0) → Parse A → Type 0
Gives P none = ⊥
Gives P (some (parsed a)) = P a
Gives P _ = Unit

module _ {A : Type 0} (P : A → Type 0) where
  pub value-Gives : (a : A) → P a → Gives P (some (parsed a))
  unfolding Gives
  value-Gives a h = h

  pub failed-Gives : (e : ErrorInfo) → Gives P (some (failed e))
  unfolding Gives
  failed-Gives e = tt

  pub thrown-Gives : Gives P (some thrown)
  unfolding Gives
  thrown-Gives = tt

  pub if-Gives :
      (b : Bool) (m m' : Parse A)
      → (b ≡ true → Gives P m)
      → (b ≡ false → Gives P m')
      → Gives P (if b then m else m')
  if-Gives true m m' h h' = h refl
  if-Gives false m m' h h' = h' refl

  pub bind-Gives :
      {B : Type 0} (Q : B → Type 0) (m : Parse B) (f : B → Parse A)
      → Gives Q m
      → ((b : B) → m ≡ some (parsed b) → Q b → Gives P (f b))
      → Gives P (m >>= f)
  unfolding Gives
  bind-Gives Q none f h k = h
  bind-Gives Q (some (parsed b)) f h k = k b refl h
  bind-Gives Q (some (failed e)) f h k = tt
  bind-Gives Q (some thrown) f h k = tt

unfoldable pub Anything : {A : Type 0} → A → Type 0
Anything a = Unit

pub converted-Gives : {A : Type 0} (o : Option A) → Gives Anything (converted o)
unfolding Gives Anything
converted-Gives none = tt
converted-Gives (some a) = tt

pub and_left : (a b : Bool) → (a && b) ≡ true → a ≡ true
and_left a b h = ground arith

module _ {D : Type 0} where
  chosen :
      (a b e : Branches D) (c : Ordering)
      → AreComplete a
      → AreComplete b
      → AreComplete e
      → AreComplete (elim c [ Ordering.lt ↦ a | Ordering.eq ↦ b | Ordering.gt ↦ e ])
  chosen a b e Ordering.lt x y z = x
  chosen a b e Ordering.eq x y z = y
  chosen a b e Ordering.gt x y z = z

  pub insert-AreComplete :
      (k : Text) (n : DecisionNode D) (bs : Branches D)
      → IsComplete n
      → AreComplete bs
      → AreComplete (insert_branch k n bs)
  unfolding insert_branch IsComplete
  insert-AreComplete k n nil h hs = (h, tt)
  insert-AreComplete k n (cons j o bs) h hs =
      chosen _ _ _ (text_compare k j) (h, hs) (h, hs.1) (hs.0, insert-AreComplete k n bs h hs.1)

  pub add-AreComplete :
      (k : Text) (n : DecisionNode D) (bs : Branches D)
      → IsComplete n
      → AreComplete bs
      → AreComplete (add_branch k n bs)
  unfolding add_branch
  add-AreComplete k n bs h hs = present (has_value (find_branch k bs))
    where
      present : (b : Bool) → AreComplete (if b then bs else insert_branch k n bs)
      present true = hs
      present false = insert-AreComplete k n bs h hs

  pub add-All :
      (f : ScoreFormula D) (fs : List (ScoreFormula D))
      → IsCovered f
      → All IsCovered fs
      → All IsCovered (fs ++ f ∷ [])
  add-All f [] h hs = (h, tt)
  add-All f (g ∷ fs) h hs = (hs.0, add-All f fs h hs.1)
