-- ===== src/Rule/Conflict/Paths.antt =====
-- src/rule/conflict_resolver.cpp: the graph of overrides, its paths, and what it means to be acyclic.
use surface_ai.Base.{
  ◌≡◌, refl, sym, subst, ◌⊎◌, inl, inr, Bool, true, false, ◌||◌, List, [], ◌∷◌, value_or, ◌↔◌,
  arith,
}
use surface_ai.Base.Text.{Text, text_eq, text_eq_iff}
use surface_ai.Base.Dict.{Dict, find}

abbrev pub Graph : Type 0
Graph = Dict (List Text)

-- operator[]: a missing entry is an empty vector.
unfoldable pub edges : Graph → Text → List Text
edges g n = value_or (find n g) []

-- std::find
unfoldable pub contains_text : Text → List Text → Bool
contains_text x [] = false
contains_text x (y ∷ ys) = text_eq x y || contains_text x ys

abbrev pub Member : Text → List Text → Type 0
Member x [] = ⊥
Member x (y ∷ ys) = (x ≡ y) ⊎ Member x ys

-- `a` overrides `b`.
abbrev pub Edge : Graph → Text → Text → Type 0
Edge g a b = Member b (edges g a)

pub data Star (g : Graph) (a : Text) : Text → Type 0 where
  here : Star g a a
  step : {b c : Text} → Star g a b → Edge g b c → Star g a c

abbrev pub IsCyclic : Graph → Type 0
IsCyclic g = (a : Text) × (b : Text) × Star g a b × Edge g b a

-- No infinite path begins at the node.
pub data Terminates (g : Graph) : Text → Type 0 where
  stops : {a : Text} → ((b : Text) → Edge g a b → Terminates g b) → Terminates g a

first-Edge :
    {g : Graph} {a b : Text} → Star g a b → (a ≡ b) ⊎ ((c : Text) × Edge g a c × Star g c b)
first-Edge here = inl refl
first-Edge (step {b} {c} s e) = elim (first-Edge s) [
  | inl p ↦ inr (c, rw p e, here)
  | inr (d, f, t) ↦ inr (d, f, step t e)
]

pub Terminates-not_cyclic :
    (g : Graph) {a : Text} → Terminates g a → (b : Text) → Star g a b → Edge g b a → ⊥
Terminates-not_cyclic g (stops {a} h) b s e = elim (first-Edge s) [
  | inl p ↦
      let loop : Edge g a a = subst (λ x. Edge g x a) (sym p) e in
      Terminates-not_cyclic g (h a loop) a here loop
  | inr (c, f, t) ↦ Terminates-not_cyclic g (h c f) a (step t e) f
]

pub contains_text_iff : (x : Text) (ys : List Text) → (contains_text x ys ≡ true) ↔ Member x ys
unfolding contains_text
contains_text_iff x [] = (λ h. cc, λ m. absurd m)
contains_text_iff x (y ∷ ys) = ground (arith, contains_text_iff x ys, text_eq_iff x y)
