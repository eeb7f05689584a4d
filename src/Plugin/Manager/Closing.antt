-- ===== src/Plugin/Manager/Closing.antt =====
-- src/plugin/plugin_manager.cpp: Shutdown and the destructor.
use surface_ai.Base.{
  ℕ, zero, suc, ◌≡◌, ◌≢◌, refl, ap, sym, ◌∙◌, ◌⊎◌, inl, inr, none, some, List, [], ◌∷◌, ◌++◌, map,
  length, length-append, get_elem?, if◌then◌else◌, arith,
}
use mathlib.Core.List.{append_assoc, append-nil}
use surface_ai.Base.Dict.{Dict}
use surface_ai.Base.Table.{Table, lookup}
use surface_ai.Core.Error.{ok, err, fault}
use surface_ai.Core.TypeId.{TypeId, fnv1a_hash}
use surface_ai.Core.Registry.{resolve}
use surface_ai.Plugin.Manager.{
  Outcome, Handle, Plugin, Call, on_stop, destroy_plugin, dl_close, Host, Manager, invoke,
}

-- `first_error ? next_error : first_error`.
abbrev pub first_of : Outcome → Outcome → Outcome
first_of (ok u) next = next
first_of (err e) next = err e
first_of fault next = fault

module _ (host : Host) where
  -- OnStop of the plugin of a type, if it resolves.
  unfoldable pub stop_plugin : TypeId → Manager → Outcome × Manager
  unfolding resolve
  stop_plugin type_id m = elim (resolve type_id m.plugin_registry) [
    | ok instance_ ↦ invoke host (on_stop instance_) m
    | err e ↦ (err e, m)
    | fault ↦ (fault, m)
  ]

  -- ShutdownFrom; an index out of range is a fault.
  unfoldable pub shutdown_from : ℕ → Outcome → Manager → Outcome × Manager
  unfolding stop_plugin
  shutdown_from zero first_error m = (first_error, m)
  shutdown_from (suc remaining) first_error m = elim (get_elem? m.load_order remaining) [
    | none ↦ (fault, m)
    | some type_id ↦
        shutdown_from remaining (first_of first_error (stop_plugin type_id m).0)
          (stop_plugin type_id m).1
  ]

  unfoldable pub shutdown : Manager → Outcome × Manager
  unfolding shutdown_from
  shutdown m = shutdown_from (length m.load_order) (ok tt) m

  -- The destructor, over the libraries in the order of their table.
  unfoldable pub release : Dict Handle → Manager → Manager
  release [] m = m
  release ((name, handle) ∷ handles) m = elim (resolve (fnv1a_hash name) m.plugin_registry) [
    | ok instance_ ↦
        let destroyed =
          if host.has_destroy handle then destroy_plugin instance_ ∷ m.calls else m.calls in
        release handles (record m { calls = dl_close handle ∷ destroyed })
    | err e ↦ release handles (record m { calls = dl_close handle ∷ m.calls })
    | fault ↦ m
  ]

  -- The result of calls `new` that follow the calls `old`, the last call first: the first answer that is
  -- not a success, if there is one, and `first` before all.
  abbrev pub Reports : List Call → Outcome → List Call → Outcome → Type 0
  Reports old first [] r = r ≡ first
  Reports old first (c ∷ new) r =
      (Reports old first new (ok tt) × (r ≡ host.answer (new ++ old) c))
      ⊎ ((r ≢ ok tt) × Reports old first new r)

  -- One more call before all others.
  Reports-snoc :
      (old : List Call) (first : Outcome) (c : Call) (new : List Call) (r : Outcome)
      → Reports (c ∷ old) (first_of first (host.answer old c)) new r
      → Reports old first (new ++ c ∷ []) r
  Reports-snoc old (ok u) c [] r h = inl (refl, h)
  Reports-snoc old (err e) c [] r h = inr (λ q. cc, h)
  Reports-snoc old fault c [] r h = inr (λ q. cc, h)
  Reports-snoc old first c (d ∷ new) r h = elim h [
    | inl (earlier, e) ↦ inl (
      Reports-snoc old first c new (ok tt) earlier,
      e ∙ ap (λ xs. host.answer xs d) (sym (append_assoc new (c ∷ []) old)),
    )
    | inr (bad, earlier) ↦ inr (bad, Reports-snoc old first c new r earlier)
  ]

-- The instances of plugins, in the order of their types.
pub data AreInstances (entries : Table Plugin) : List TypeId → List Plugin → Type 0 where
  no_instances : AreInstances entries [] []
  one_more :
      (ids : List TypeId) (ps : List Plugin) (id : TypeId) (p : Plugin)
      → AreInstances entries ids ps
      → lookup id entries ≡ some p
      → AreInstances entries (ids ++ id ∷ []) (ps ++ p ∷ [])

get_elem-append : (xs ys : List TypeId) (x : TypeId) → get_elem? (xs ++ x ∷ ys) (length xs) ≡ some x
get_elem-append [] ys x = refl
get_elem-append (z ∷ xs) ys x = get_elem-append xs ys x

map_snoc :
    (ps : List Plugin) (p : Plugin) → map on_stop (ps ++ p ∷ []) ≡ map on_stop ps ++ on_stop p ∷ []
map_snoc [] p = refl
map_snoc (q ∷ ps) p = ap (λ xs. on_stop q ∷ xs) (map_snoc ps p)

stop_plugin-invoke :
    (host : Host) (id : TypeId) (p : Plugin) (m : Manager)
    → lookup id m.plugin_registry ≡ some p
    → stop_plugin host id m ≡ invoke host (on_stop p) m
unfolding stop_plugin resolve
stop_plugin-invoke host id p m e = rw (stop_plugin, resolve, e) refl

-- What stopping the plugins `ps` does.
abbrev pub Stops : Host → List Plugin → Outcome → Manager → Outcome × Manager → Type 0
Stops host ps first m (r, m') =
    (m' ≡ record m { calls = map on_stop ps ++ m.calls })
    × Reports host m.calls first (map on_stop ps) r

shutdown_from-Stops :
    (host : Host) (entries : Table Plugin) (ids : List TypeId) (ps : List Plugin)
    → AreInstances entries ids ps
    → (rest : List TypeId) (first : Outcome) (m : Manager) → m.plugin_registry ≡ entries
    → m.load_order ≡ ids ++ rest
    → Stops host ps first m (shutdown_from host (length ids) first m)
unfolding shutdown_from
shutdown_from-Stops host entries _ _ no_instances rest first m g e = (refl, refl)
shutdown_from-Stops host entries _ _ (one_more ids ps id p h k) rest first m g e =
    let at_last : get_elem? m.load_order (length ids) ≡ some id =
      ap (λ xs. get_elem? xs (length ids)) (e ∙ append_assoc ids (id ∷ []) rest)
      ∙ get_elem-append ids rest id in
    let (same, reports) =
      shutdown_from-Stops host entries ids ps h (id ∷ rest)
        (first_of first (host.answer m.calls (on_stop p)))
        (record m { calls = on_stop p ∷ m.calls }) g (e ∙ append_assoc ids (id ∷ []) rest) in
    let n : length (ids ++ id ∷ []) ≡ suc (length ids) =
      omega (arith, length-append ids (id ∷ [])) in
    let invoked = stop_plugin-invoke host id p m (ap (lookup id) g ∙ k) in
    rw (n, shutdown_from, at_last, invoked, map_snoc ps p)
      (
        same
            ∙ ap (λ cs. record m { calls = cs })
                (sym (append_assoc (map on_stop ps) (on_stop p ∷ []) m.calls)),
        Reports-snoc host m.calls first (on_stop p) (map on_stop ps) _ reports,
      )

-- If the loaded plugins are registered, Shutdown calls OnStop of each of them once, in the reverse order of
-- loading and whatever the calls answer, changes nothing else, and gives the first answer that is not a
-- success, or success if there is none.
pub shutdown-Stops :
    (host : Host) (ps : List Plugin) (m : Manager)
    → AreInstances m.plugin_registry m.load_order ps
    → Stops host ps (ok tt) m (shutdown host m)
unfolding shutdown
shutdown-Stops host ps m h =
    shutdown_from-Stops host m.plugin_registry m.load_order ps h [] (ok tt) m refl
      (sym (append-nil m.load_order))
