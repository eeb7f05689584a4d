-- ===== src/Rule/Loader/Loaded.antt =====
-- src/rule/rule_engine.cpp, LoadFromYAML: that it ends, and what is loaded.
use surface_ai.Base.{
  length, ltb, ℕ, suc, ◌<◌, ◌≡◌, ◌≢◌, ◌⊎◌, refl, Bool, true, false, ◌&&◌, not, inl, inr, Option,
  none, some, List, [], ◌∷◌, All, if◌then◌else◌, arith, Ordering,
}
use surface_ai.Base.Text.{Text, text, text_compare}
use surface_ai.Base.Dict.{Dict, insert_or_assign}
use surface_ai.Core.Error.{ErrorInfo, Result, ok, err, fault}
use surface_ai.Rule.Double.{Double}
use surface_ai.Rule.Expression.{Expr}
use surface_ai.Rule.Safety.{IsWhole}
use surface_ai.Rule.Engine.{Rule, is_nullptr}
use surface_ai.Rule.Engine.Recovery.{IsEvaluable}
use surface_ai.Rule.Yaml.{Yaml, IsFinite}
use surface_ai.Rule.Condition.{Build, ◌>>=◌, build_expression}
use surface_ai.Rule.Condition.Sound.{IsClean, Builds, build_expression-Builds}
use surface_ai.Rule.Loader.{
  RuleEngine, converted, load_names, optional_names, of_condition, load_condition, load_named,
  load_action, subscripted, load_rule, load_rules, load_sets, load_document, load_from_yaml,
  text_or_empty,
}

-- An error, or a result with `P`: no fault, and fuel is left.
abbrev pub Loads : {A : Type 0} → (A → Type 0) → Build A → Type 0
Loads P none = ⊥
Loads P (some (ok a)) = P a
Loads P (some (err e)) = Unit
Loads P (some fault) = ⊥

bind-Loads :
    {A B : Type 0} (P : A → Type 0) (Q : B → Type 0) (m : Build A) (f : A → Build B)
    → Loads P m
    → ((a : A) → P a → Loads Q (f a))
    → Loads Q (m >>= f)
bind-Loads P Q none f h k = h
bind-Loads P Q (some (ok a)) f h k = k a h
bind-Loads P Q (some (err e)) f h k = tt
bind-Loads P Q (some fault) f h k = h

if-Loads :
    {A : Type 0} (P : A → Type 0) (b : Bool) (m m' : Build A)
    → (b ≡ true → Loads P m)
    → (b ≡ false → Loads P m')
    → Loads P (if b then m else m')
if-Loads P true m m' h h' = h refl
if-Loads P false m m' h h' = h' refl

abbrev pub Anything : {A : Type 0} → A → Type 0
Anything a = Unit

-- A rule of a set: named, and with a condition that dereferences no null pointer, or none.
abbrev pub IsLoaded : {D : Type 0} → Text → Rule D → Type 0
IsLoaded set_name r = (r.name ≢ []) × (r.rule_set ≡ set_name) × IsEvaluable r

abbrev pub AreLoaded : {D : Type 0} → Dict (List (Rule D)) → Type 0
AreLoaded sets = All (λ kv. All (IsLoaded kv.0) kv.1) sets

All-insert :
    {V : Type 0} (P : Text × V → Type 0) (k : Text) (v : V) (m : Dict V)
    → P (k, v)
    → All P m
    → All P (insert_or_assign k v m)
unfolding insert_or_assign
All-insert P k v [] p a = (p, tt)
All-insert {V} P k v ((j, w) ∷ m) p a = placed (text_compare k j) (All-insert P k v m p a.1)
  where
    placed :
        (o : Ordering)
        → All P (insert_or_assign k v m)
        → All P (elim o as (λ _. Dict V) [
          | Ordering.lt ↦ (k, v) ∷ (j, w) ∷ m
          | Ordering.eq ↦ (k, v) ∷ m
          | Ordering.gt ↦ (j, w) ∷ insert_or_assign k v m
        ])
    placed Ordering.lt ih = (p, (a.0, a.1))
    placed Ordering.eq ih = (p, a.1)
    placed Ordering.gt ih = (a.0, ih)

module _ {D N : Type 0} ⦃d : Double D⦄ (y : Yaml D N) (as_uint32 : N → Option ℕ) (what : Text) where
  converted-Loads : {A : Type 0} (o : Option A) → Loads Anything (converted y as_uint32 what o)
  converted-Loads none = tt
  converted-Loads (some a) = tt

  names-Loads : (ns : List N) → Loads Anything (load_names y as_uint32 what ns)
  unfolding load_names
  names-Loads [] = tt
  names-Loads (n ∷ ns) =
      bind-Loads Anything Anything (converted y as_uint32 what (y.text_of n)) _
        (converted-Loads (y.text_of n))
        λ a u.
          bind-Loads Anything Anything (load_names y as_uint32 what ns) _ (names-Loads ns)
            (λ as_ v. tt)

  subscripted-Loads :
      {A : Type 0} (P : A → Type 0) (n : N) (m : Build A)
      → Loads P m
      → Loads P (subscripted y as_uint32 what n m)
  subscripted-Loads P n m h = if-Loads P (y.is_scalar n) _ m (λ e. tt) (λ e. h)

  action-Loads : (rn : N) → Loads Anything (load_action y as_uint32 what rn)
  unfolding load_action
  action-Loads rn =
      let act = y.at (text "action") rn in
      if-Loads Anything (y.is_defined act) _ _ (λ e. subscripted-Loads Anything act _ tt) (λ e. tt)

  optional-Loads : (k : Text) (rn : N) → Loads Anything (optional_names y as_uint32 what k rn)
  unfolding optional_names
  optional-Loads k rn =
      if-Loads Anything (y.is_defined (y.at k rn)) _ _
        (λ e.
          if-Loads Anything (y.is_map (y.at k rn) && ltb 0 (length (y.entries (y.at k rn)))) _ _
            (λ q. tt) (λ q. names-Loads (y.items (y.at k rn))))
        (λ e. tt)

  module _ (rank : N → ℕ) (finite : IsFinite y rank) (clean : IsClean y) where
    abbrev IsOptional : Expr D → Type 0
    IsOptional e = (is_nullptr e ≡ true) ⊎ IsWhole e

    condition-Loads :
        (f : ℕ) (name : Text) (rn : N)
        → rank rn < f
        → Loads IsOptional (load_condition y as_uint32 what f name rn)
    unfolding load_condition
    condition-Loads f name rn lt =
        if-Loads IsOptional (y.is_defined cond_node && not (y.is_null cond_node)) _ _
          (λ e.
            built (build_expression y f cond_node) (
              build_expression-Builds y rank finite clean f cond_node (defined e)
                (low (defined e))))
          (λ e. inl refl)
      where
        cond_node : N
        cond_node = y.at (text "condition") rn

        defined :
            (y.is_defined cond_node && not (y.is_null cond_node)) ≡ true
            → y.is_defined cond_node ≡ true
        defined e = ground (arith, e)

        low : y.is_defined cond_node ≡ true → rank cond_node < f
        low e = omega (arith, finite.rank_at (text "condition") rn e, lt)

        built :
            (m : Build (Expr D))
            → Builds m
            → Loads IsOptional (of_condition y as_uint32 what name m)
        built none h = h
        built (some (ok e)) h = inr h
        built (some (err e)) h = tt
        built (some fault) h = h

    named-Loads :
        (f : ℕ) (set_name name : Text) (rn : N)
        → rank rn < f
        → name ≢ []
        → Loads (IsLoaded set_name) (load_named y as_uint32 what f set_name name rn)
    unfolding load_named
    named-Loads f set_name name rn lt ne =
        bind-Loads IsOptional (IsLoaded set_name) (load_condition y as_uint32 what f name rn) _
          (condition-Loads f name rn lt)
          λ condition whole.
            bind-Loads Anything (IsLoaded set_name) (load_action y as_uint32 what rn) _
              (action-Loads rn)
              λ action t.
                bind-Loads Anything (IsLoaded set_name)
                  (optional_names y as_uint32 what (text "overrides") rn) _
                  (optional-Loads (text "overrides") rn)
                  λ overrides u.
                    bind-Loads Anything (IsLoaded set_name)
                      (optional_names y as_uint32 what (text "overridden_by") rn) _
                      (optional-Loads (text "overridden_by") rn)
                      λ overridden_by v. (ne, refl, whole)

    rule-Loads :
        (f : ℕ) (set_name : Text) (ri : ℕ) (rn : N)
        → rank rn < f
        → Loads (IsLoaded set_name) (load_rule y as_uint32 what f set_name ri rn)
    unfolding load_rule
    rule-Loads f set_name ri rn lt =
        subscripted-Loads (IsLoaded {D = D} set_name) rn _
          (named _ (text_or_empty y as_uint32 what (text "name") rn))
      where
        named :
            (e : ErrorInfo) (name : Text)
            → Loads (IsLoaded {D = D} set_name) (elim name as (λ _. Build (Rule D)) [
              | [] ↦ some (err e)
              | c ∷ cs ↦ load_named y as_uint32 what f set_name (c ∷ cs) rn
            ])
        named e [] = tt
        named e (c ∷ cs) = named-Loads f set_name (c ∷ cs) rn lt (λ e. cc)

    rules-Loads :
        (f : ℕ) (set_name : Text) (ri : ℕ) (rns : List N)
        → All (λ rn. rank rn < f) rns
        → Loads (All (IsLoaded set_name)) (load_rules y as_uint32 what f set_name ri rns)
    unfolding load_rules
    rules-Loads f set_name ri [] low = tt
    rules-Loads f set_name ri (rn ∷ rns) low =
        bind-Loads (IsLoaded set_name) (All (IsLoaded set_name))
          (load_rule y as_uint32 what f set_name ri rn) _ (rule-Loads f set_name ri rn low.0)
          λ rule loaded.
            bind-Loads (All (IsLoaded set_name)) (All (IsLoaded set_name))
              (load_rules y as_uint32 what f set_name (suc ri) rns) _
              (rules-Loads f set_name (suc ri) rns low.1) λ rules all_. (loaded, all_)

    All-lower : (P Q : N → Type 0) (ns : List N) → ((n : N) → P n → Q n) → All P ns → All Q ns
    All-lower P Q [] h a = tt
    All-lower P Q (n ∷ ns) h a = (h n a.0, All-lower P Q ns h a.1)

    sets-Loads :
        (f : ℕ) (path : Text) (sets : List (N × N)) (loaded : Dict (List (Rule D)))
        → All (λ e. rank e.1 < f) sets
        → AreLoaded loaded
        → Loads AreLoaded (load_sets y as_uint32 what f path sets loaded)
    unfolding load_sets
    sets-Loads f path [] loaded low a = a
    sets-Loads f path ((key, rules_seq) ∷ sets) loaded low a =
        bind-Loads Anything AreLoaded (converted y as_uint32 what (y.text_of key)) _
          (converted-Loads (y.text_of key))
          λ set_name u.
            bind-Loads (All (IsLoaded set_name)) AreLoaded _ _
              (if-Loads (All (IsLoaded {D = D} set_name)) (y.is_sequence rules_seq)
                (load_rules y as_uint32 what f set_name 0 (y.items rules_seq)) _
                (λ e. rules-Loads f set_name 0 (y.items rules_seq) (
                  All-lower (λ n. rank n < rank rules_seq) (λ n. rank n < f) (y.items rules_seq)
                    (λ n lt. omega (arith, low.0, lt)) (finite.rank_items rules_seq)))
                (λ e. tt))
              λ rules all_.
                sets-Loads f path sets (insert_or_assign set_name rules loaded) low.1
                  (All-insert (λ kv. All (IsLoaded kv.0) kv.1) set_name rules loaded all_ a)

    All-pairs :
        (bound f : ℕ) (es : List (N × N))
        → bound < f
        → All (λ e. rank e.1 < bound) es
        → All (λ e. rank e.1 < f) es
    All-pairs bound f [] lt a = tt
    All-pairs bound f (e ∷ es) lt a = (omega (arith, a.0, lt), All-pairs bound f es lt a.1)

    document-Loads :
        (f : ℕ) (path : Text) (root : N)
        → rank root < f
        → Loads AreLoaded (load_document y as_uint32 what f path root)
    unfolding load_document
    document-Loads f path root lt = subscripted-Loads AreLoaded root _ (
        if-Loads AreLoaded (y.is_defined rs_node) _ _
          (λ e.
            if-Loads AreLoaded (y.is_sequence rs_node && ltb 0 (length (y.items rs_node))) _ _
              (λ q. tt)
              (λ q.
                sets-Loads f path (y.entries rs_node) []
                  (All-pairs (rank rs_node) f (y.entries rs_node)
                    (omega (arith, finite.rank_at (text "rule_sets") root e, lt))
                    (finite.rank_entries rs_node))
                  tt))
          (λ e. tt))
      where
        rs_node : N
        rs_node = y.at (text "rule_sets") root

    -- On a finite document without null nodes LoadFromYAML ends, with fuel above the rank of the document. It
    -- reports an error, an exception among them, and leaves the engine as it was, or it replaces the rule sets
    -- by loaded ones: each rule has a name, the name of its set, and a condition that dereferences no null
    -- pointer when evaluated, or none.
    pub load_from_yaml-AreLoaded :
        (f : ℕ) (path : Text) (root : N) (engine : RuleEngine D)
        → rank root < f
        → ((e : ErrorInfo) × (load_from_yaml y as_uint32 what f path (some root) engine
              ≡ some (err e, engine)))
          ⊎ ((sets : Dict (List (Rule D))) × (load_from_yaml y as_uint32 what f path
                  (some root)
                  engine
                ≡ some (ok tt, record { rule_sets = sets; current_path = path }))
              × AreLoaded sets)
    unfolding load_from_yaml
    load_from_yaml-AreLoaded f path root engine lt =
        outcome (load_document y as_uint32 what f path root) (document-Loads f path root lt)
      where
        replaced : Build (Dict (List (Rule D))) → Option (Result (Unit {0}) × RuleEngine D)
        replaced m = elim m [
          | none ↦ none
          | some r ↦ elim r [
            | ok loaded ↦ some (ok tt, record { rule_sets = loaded; current_path = path })
            | err e ↦ some (err e, engine)
            | fault ↦ some (fault, engine)
          ]
        ]

        outcome :
            (m : Build (Dict (List (Rule D))))
            → Loads AreLoaded m
            → ((e : ErrorInfo) × (replaced m ≡ some (err e, engine)))
              ⊎ ((sets : Dict (List (Rule D))) × (replaced m
                    ≡ some (ok tt, record { rule_sets = sets; current_path = path }))
                  × AreLoaded sets)
        outcome none h = absurd h
        outcome (some (ok sets)) h = inr (sets, refl, h)
        outcome (some (err e)) h = inl (e, refl)
        outcome (some fault) h = absurd h
