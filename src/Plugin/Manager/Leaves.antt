-- ===== src/Plugin/Manager/Leaves.antt =====
-- src/plugin/plugin_manager.cpp: what ResolveEach and LoadSingle leave behind.
use surface_ai.Base.{
  Ends, ℕ, ◌<◌, ◌≡◌, refl, ap, sym, ◌∙◌, subst, arith, true, Option, none, some, List, [], ◌∷◌,
  ◌++◌, All, In, has_value, Bool-cases, ◌==◌, inl, inr,
}
use surface_ai.Base.Text.{Text}
use surface_ai.Base.Dict.{Dict, find}
use surface_ai.Base.Table.{lookup, lookup-assign}
use surface_ai.Core.Error.{ok, err, fault, ◌>>=◌}
use surface_ai.Core.TypeId.{TypeId, fnv1a_hash}
use surface_ai.Core.Registry.{resolve}
use surface_ai.Plugin.Manifest.{PluginDependency, PluginManifest}
use surface_ai.Plugin.Manager.{
  Outcome, Plugin, Host, Manager, Loading, contains, load_single, check_dependency, resolve_each,
  finish_loading,
}
use surface_ai.Plugin.Manager.Order.{
  unvisited, unvisited_mono, IsOrdered, loaded, IsAssembled, In-append, In-last, Adds,
  load_single-Adds,
}

-- What a call leaves of the state `s`: the manifests, the visited names, and, if it succeeds, an assembled
-- manager that has lost no plugin and satisfies `Q`.
pub record Leaves (Q : Manager → Type 0) (s : Loading) (r : Outcome) (s' : Loading) : Type 0 where
  pub index_kept : s'.manager.manifest_index ≡ s.manager.manifest_index
  pub visits : (t : Text) → contains t s.visiting ≡ true → contains t s'.visiting ≡ true
  pub grown :
      r ≡ ok tt
      → IsAssembled s'.manager
        × ((id : TypeId) → In id s.manager.load_order → In id s'.manager.load_order)
        × Q s'.manager

abbrev pub IsRegistered : Text → Manager → Type 0
IsRegistered name m = has_value (lookup (fnv1a_hash name) m.plugin_registry) ≡ true

abbrev pub HasLoaded : List PluginDependency → Manager → Type 0
HasLoaded deps m = All (λ d. In (fnv1a_hash d.plugin_name) m.load_order) deps

-- Each manifest stands under its name.
abbrev pub IsNamed : Dict PluginManifest → Type 0
IsNamed idx =
    (key : Text) (manifest : PluginManifest) → find key idx ≡ some manifest → manifest.name ≡ key

pub fails :
    (Q : Manager → Type 0) (s s' : Loading) (r : Outcome)
    → (r ≡ ok tt → ⊥)
    → s'.manager.manifest_index ≡ s.manager.manifest_index
    → ((t : Text) → contains t s.visiting ≡ true → contains t s'.visiting ≡ true)
    → Leaves Q s r s'
fails Q s s' r bad i v = record { index_kept = i; visits = v; grown = λ q. absurd (bad q) }

grow-HasLoaded :
    (deps : List PluginDependency) (m m' : Manager)
    → ((id : TypeId) → In id m.load_order → In id m'.load_order)
    → HasLoaded deps m
    → HasLoaded deps m'
grow-HasLoaded [] m m' g h = tt
grow-HasLoaded (d ∷ deps) m m' g h = (g _ h.0, grow-HasLoaded deps m m' g h.1)

pub resolve-registered :
    (id : TypeId) (p : Plugin) (m : Manager)
    → resolve id m.plugin_registry ≡ ok p
    → has_value (lookup id m.plugin_registry) ≡ true
unfolding resolve
resolve-registered id p m e = ground (arith, e)

module _ (host : Host) (idx : Dict PluginManifest) where
  -- A call that loads one plugin, where `f` exceeds the number of manifests not being visited.
  abbrev pub Loads : ℕ → (Text → Loading → Option (Outcome × Loading)) → Type 0
  Loads f ensure =
      (n : Text) (s : Loading)
      → s.manager.manifest_index ≡ idx
      → unvisited idx s.visiting < f
      → IsAssembled s.manager
      → Ends (Leaves (IsRegistered n) s) (ensure n s)

  pub each-Ends :
      (f : ℕ) (ensure : Text → Loading → Option (Outcome × Loading))
      → Loads f ensure
      → (deps : List PluginDependency) (s : Loading) → s.manager.manifest_index ≡ idx
      → unvisited idx s.visiting < f
      → IsAssembled s.manager
      → Ends (Leaves (HasLoaded deps) s) (resolve_each host ensure deps s)
  unfolding resolve_each
  each-Ends f ensure calls [] s i lt v = record {
    index_kept = refl;
    visits = λ t h. h;
    grown = λ q. (v, λ id m. m, tt);
  }
  each-Ends f ensure calls (head ∷ rest) s i lt v =
      first (ensure head.plugin_name s) (calls head.plugin_name s i lt v)
        (λ t it ltt vt. each-Ends f ensure calls rest t it ltt vt)
    where
      after_rest :
          (t : Loading) (o : Option (Outcome × Loading))
          → Leaves (IsRegistered head.plugin_name) s (ok tt) t
          → Ends (Leaves (HasLoaded rest) t) o
          → Ends (Leaves (HasLoaded (head ∷ rest)) s) o
      after_rest t none k h = h
      after_rest t (some (r, u)) k h = record {
        index_kept = h.index_kept ∙ k.index_kept;
        visits = λ n c. h.visits n (k.visits n c);
        grown = λ e.
            let (vt, gt, reg) = k.grown refl in
            let (vu, gu, all_) = h.grown e in
            (vu, λ id m. gu id (gt id m), (gu _ (vt.started _ reg), all_));
      }

      checked :
          (t : Loading) (c : Outcome)
          → Leaves (IsRegistered head.plugin_name) s (ok tt) t
          → Ends (Leaves (HasLoaded rest) t) (resolve_each host ensure rest t)
          → Ends (Leaves (HasLoaded (head ∷ rest)) s) (elim c [
            | ok u ↦ resolve_each host ensure rest t
            | err e ↦ some (err e, t)
            | fault ↦ some (fault, t)
          ])
      checked t (ok u) k ih = after_rest t (resolve_each host ensure rest t) k ih
      checked t (err e) k ih =
          fails (HasLoaded (head ∷ rest)) s t (err e) (λ q. cc) k.index_kept k.visits
      checked t fault k ih =
          fails (HasLoaded (head ∷ rest)) s t fault (λ q. cc) k.index_kept k.visits

      first :
          (o : Option (Outcome × Loading))
          → Ends (Leaves (IsRegistered head.plugin_name) s) o
          → ((t : Loading)
              → t.manager.manifest_index ≡ idx
              → unvisited idx t.visiting < f
              → IsAssembled t.manager
              → Ends (Leaves (HasLoaded rest) t) (resolve_each host ensure rest t))
          → Ends (Leaves (HasLoaded (head ∷ rest)) s) (elim o [
            | none ↦ none
            | some (r, t) ↦ elim (r >>= λ u. check_dependency host head t.manager) [
              | ok u ↦ resolve_each host ensure rest t
              | err e ↦ some (err e, t)
              | fault ↦ some (fault, t)
            ]
          ])
      first none h ih = h
      first (some (ok u, t)) k ih = checked t (check_dependency host head t.manager) k (
          ih t (k.index_kept ∙ i) (omega (arith, unvisited_mono idx s.visiting t.visiting k.visits))
            (k.grown refl).0)
      first (some (err e, t)) k ih =
          fails (HasLoaded (head ∷ rest)) s t (err e) (λ q. cc) k.index_kept k.visits
      first (some (fault, t)) k ih =
          fails (HasLoaded (head ∷ rest)) s t fault (λ q. cc) k.index_kept k.visits

  -- The plugin of a manifest comes last, after its dependencies.
  Adds-grown :
      (key : Text) (manifest : PluginManifest) (m m' : Manager)
      → m.manifest_index ≡ idx
      → find key idx ≡ some manifest
      → HasLoaded manifest.dependencies m
      → IsAssembled m
      → Adds (fnv1a_hash manifest.name) m (ok tt) m'
      → IsAssembled m'
        × ((id : TypeId) → In id m.load_order → In id m'.load_order)
        × IsRegistered manifest.name m'
  Adds-grown key manifest m m' i k deps v a =
      let (p, g, l) = a.added refl in
      (
        record {
          started = λ id h. elim (Bool-cases (fnv1a_hash manifest.name == id)) [
            | inl e ↦
                subst (λ j. In j m'.load_order) (ground arith)
                  (subst (λ xs. In (fnv1a_hash manifest.name) xs) (sym l) (In-last _ m.load_order))
            | inr e ↦
                subst (λ xs. In id xs) (sym l)
                  (In-append _ id m.load_order (
                    v.started id (
                      ground (
                        arith,
                        g,
                        lookup-assign id (fnv1a_hash manifest.name) p m.plugin_registry,
                      ))))
          ];
          ordered =
              subst (λ xs. IsOrdered m'.manifest_index xs) (sym l)
                (subst (λ x. IsOrdered x (m.load_order ++ fnv1a_hash manifest.name ∷ []))
                  (sym a.index_kept)
                  (loaded m.load_order key manifest v.ordered (ap (find key) i ∙ k) deps));
        },
        λ id h. subst (λ xs. In id xs) (sym l) (In-append _ id m.load_order h),
        ground (
          arith,
          g,
          lookup-assign (fnv1a_hash manifest.name) (fnv1a_hash manifest.name) p m.plugin_registry,
        ),
      )

  pub finish-Leaves :
      (n : Text) (manifest : PluginManifest) (s t : Loading) (r : Outcome)
      → s.manager.manifest_index ≡ idx
      → find n idx ≡ some manifest
      → manifest.name ≡ n
      → Leaves (HasLoaded manifest.dependencies) s r t
      → Leaves
          (IsRegistered n)
          s
          (finish_loading host manifest (r, t)).0
          (finish_loading host manifest (r, t)).1
  unfolding finish_loading
  finish-Leaves n manifest s t (err e) i k named h =
      fails _ s t (err e) (λ q. cc) h.index_kept h.visits
  finish-Leaves n manifest s t fault i k named h = fails _ s t fault (λ q. cc) h.index_kept h.visits
  finish-Leaves n manifest s t (ok u) i k named h =
      added (load_single host manifest t.manager).0 (load_single host manifest t.manager).1
        (load_single-Adds host manifest t.manager)
    where
      added :
          (r : Outcome) (m : Manager)
          → Adds (fnv1a_hash manifest.name) t.manager r m
          → Leaves (IsRegistered n) s r (record t { manager = m })
      added r m a = record {
        index_kept = a.index_kept ∙ h.index_kept;
        visits = h.visits;
        grown = λ e.
            let (vt, gt, deps) = h.grown refl in
            let (vm, gm, reg) =
              Adds-grown n manifest t.manager m (h.index_kept ∙ i) k deps vt
                (subst (λ x. Adds (fnv1a_hash manifest.name) t.manager x m) e a) in
            (vm, λ id x. gm id (gt id x), subst (λ x. IsRegistered x m) named reg);
      }
