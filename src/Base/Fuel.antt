-- ===== src/Base/Fuel.antt =====
-- Calls on fuel, of code that returns a result and a state.
use mathlib.Core.Option.{Option, none, some}

-- The call ends, with what `P` says of its result and state.
abbrev pub Ends : {A B : Type 0} → (A → B → Type 0) → Option (A × B) → Type 0
Ends P none = ⊥
Ends P (some (r, s)) = P r s

pub Ends-map :
    {A B : Type 0} (P Q : A → B → Type 0) (o : Option (A × B))
    → ((r : A) (t : B) → P r t → Q r t)
    → Ends P o
    → Ends Q o
Ends-map P Q none h e = e
Ends-map P Q (some (r, t)) h e = h r t e
