-- ===== src/Rule/Conflict/Search.antt =====
-- src/rule/conflict_resolver.cpp, dfs_visit and the loop around it.
use surface_ai.Base.{
  ℕ, zero, suc, ◌+◌, ◌≤◌, ◌≡◌, ◌≢◌, refl, Bool-cases, ◌⊎◌, inl, inr, Bool, true, false, Option,
  none, some, List, [], ◌∷◌, if◌then◌else◌, arith, map,
}
use surface_ai.Base.Text.{Text, text_eq, text_eq_iff}
use surface_ai.Base.Dict.{Dict, insert_or_assign, find-insert}
use surface_ai.Rule.Conflict.Paths.{
  Graph, edges, Member, Edge, Star, here, step, IsCyclic, Terminates, stops,
}
use surface_ai.Rule.Conflict.{Color, color_of, visit_each, finish, dfs_visit, search_cycle}

abbrev pub Colors : Type 0
Colors = Dict Color

pub color_of-insert :
    (n k : Text) (v : Color) (c : Colors)
    → color_of n (insert_or_assign k v c) ≡ (if text_eq k n then v else color_of n c)
unfolding color_of
color_of-insert n k v c = ground (arith, find-insert n k v c)

abbrev pub is_white : Color → ℕ
is_white Color.white = 1
is_white _ = 0

-- How many of the names are white.
abbrev pub whites : List Text → Colors → ℕ
whites [] c = 0
whites (n ∷ ns) c = is_white (color_of n c) + whites ns c

whites-insert-le :
    (ns : List Text) (k : Text) (v : Color) (c : Colors)
    → v ≢ Color.white
    → whites ns (insert_or_assign k v c) ≤ whites ns c
whites-insert-le [] k v c h = omega arith
whites-insert-le (n ∷ ns) k v c h =
    ground (arith, color_of-insert n k v c, whites-insert-le ns k v c h)

whites-insert-lt :
    (ns : List Text) (k : Text) (v : Color) (c : Colors)
    → v ≢ Color.white
    → color_of k c ≡ Color.white
    → Member k ns
    → suc (whites ns (insert_or_assign k v c)) ≤ whites ns c
whites-insert-lt [] k v c h w m = absurd m
whites-insert-lt (n ∷ ns) k v c h w (inl e) =
    ground (arith, color_of-insert n k v c, text_eq_iff k n, whites-insert-le ns k v c h)
whites-insert-lt (n ∷ ns) k v c h w (inr m) =
    ground (arith, color_of-insert n k v c, whites-insert-lt ns k v c h w m)

white-whites :
    (ns : List Text) (k : Text) (c : Colors)
    → color_of k c ≡ Color.white
    → Member k ns
    → 1 ≤ whites ns c
white-whites [] k c w m = absurd m
white-whites (n ∷ ns) k c w (inl e) = ground arith
white-whites (n ∷ ns) k c w (inr m) = ground (arith, white-whites ns k c w m)

Color-cases : (v : Color) → (v ≡ Color.white) ⊎ ((v ≡ Color.gray) ⊎ (v ≡ Color.black))
Color-cases Color.white = inl refl
Color-cases Color.gray = inr (inl refl)
Color-cases Color.black = inr (inr refl)

-- What holds of a colour after one node is painted: at that node, or as before.
painted :
    (P : Text → Type 0) (x k : Text) (v : Color) (c : Colors) {w : Color}
    → color_of x (insert_or_assign k v c) ≡ w
    → (k ≡ x → P x)
    → (color_of x c ≡ w → P x)
    → P x
painted P x k v c h same other = elim (Bool-cases (text_eq k x)) [
  | inl e ↦ same ((text_eq_iff k x).0 e)
  | inr e ↦ other (ground (arith, color_of-insert x k v c))
]

module _ (g : Graph) (names : List Text) (closed : (a b : Text) → Edge g a b → Member b names) where
  abbrev pub AreDone : Colors → Type 0
  AreDone c = (x : Text) → color_of x c ≡ Color.black → Terminates g x

  -- A search from `c` to `c'` that found no cycle.
  pub record IsSearched (c c' : Colors) : Type 0 where
    pub grays : (x : Text) → color_of x c' ≡ Color.gray → color_of x c ≡ Color.gray
    done : AreDone c'
    pub fewer : whites names c' ≤ whites names c

  -- Fuel is left; a reported cycle is one; otherwise `P` holds, and the colours are as searched.
  abbrev pub Finds : Type 0 → Colors → Option (Bool × Colors) → Type 0
  Finds P c none = ⊥
  Finds P c (some (true, c')) = IsCyclic g
  Finds P c (some (false, c')) = P × IsSearched c c'

  Finds-map :
      {P Q : Type 0} (c : Colors)
      → (P → Q)
      → (x : Option (Bool × Colors)) → Finds P c x
      → Finds Q c x
  Finds-map c f none h = h
  Finds-map c f (some (true, c')) h = h
  Finds-map c f (some (false, c')) (p, s) = (f p, s)

  IsSearched-trans : {a b c : Colors} → IsSearched a b → IsSearched b c → IsSearched a c
  IsSearched-trans s t = record {
    grays = λ x h. s.grays x (t.grays x h);
    done = t.done;
    fewer = omega arith;
  }

  Finds-after :
      (P : Type 0) {a b : Colors}
      → IsSearched a b
      → (x : Option (Bool × Colors)) → Finds P b x
      → Finds P a x
  Finds-after P s none h = h
  Finds-after P s (some (true, c')) h = h
  Finds-after P s (some (false, c')) (p, t) = (p, IsSearched-trans s t)

  record IsReady (node : Text) (f : ℕ) (c : Colors) : Type 0 where
    reach : (x : Text) → color_of x c ≡ Color.gray → Star g x node
    done : AreDone c
    enough : whites names c ≤ f

  abbrev Visits : ℕ → (Text → Colors → Option (Bool × Colors)) → Type 0
  Visits f visit =
      (n : Text) (c : Colors)
      → color_of n c ≡ Color.white
      → Member n names
      → IsReady n f c
      → Finds (Terminates g n) c (visit n c)

  module _ (node : Text) (f : ℕ) (visit : Text → Colors → Option (Bool × Colors))
      (visits : Visits f visit) where
    abbrev AllEnd : List Text → Type 0
    AllEnd ns = (y : Text) → Member y ns → Terminates g y

    both_end : (n : Text) (ns : List Text) → Terminates g n → AllEnd ns → AllEnd (n ∷ ns)
    both_end n ns t ts y (inl e) = rw e t
    both_end n ns t ts y (inr m) = ts y m

    IsReady-searched : {c c' : Colors} → IsReady node f c → IsSearched c c' → IsReady node f c'
    IsReady-searched r s = record {
      reach = λ x e. r.reach x (s.grays x e);
      done = s.done;
      enough = omega arith;
    }

    after_visit :
        (n : Text) (ns : List Text) (c : Colors) (x : Option (Bool × Colors))
        → Finds (Terminates g n) c x
        → ((c' : Colors) → IsSearched c c' → Finds (AllEnd ns) c' (visit_each visit ns c'))
        → Finds (AllEnd (n ∷ ns)) c (elim x [
          | none ↦ none
          | some (cycle, c') ↦ elim cycle [
            | true ↦ some (true, c')
            | false ↦ visit_each visit ns c'
          ]
        ])
    after_visit n ns c none h k = h
    after_visit n ns c (some (true, c')) h k = h
    after_visit n ns c (some (false, c')) (t, s) k =
        Finds-after (AllEnd (n ∷ ns)) s (visit_each visit ns c')
          (Finds-map c' (both_end n ns t) (visit_each visit ns c') (k c' s))

    visit_each-Finds :
        (ns : List Text) (c : Colors)
        → ((y : Text) → Member y ns → Edge g node y)
        → IsReady node f c
        → Finds (AllEnd ns) c (visit_each visit ns c)
    unfolding visit_each
    visit_each-Finds [] c e r =
        (λ y m. absurd m, record { grays = λ x h. h; done = r.done; fewer = omega arith })
    visit_each-Finds (n ∷ ns) c e r =
        let edge : Edge g node n = e n (inl refl) in
        let later : (y : Text) → Member y ns → Edge g node y = λ y m. e y (inr m) in
        elim (Color-cases (color_of n c)) [
          | inl w ↦
              rw (w, visit_each)
                (after_visit n ns c (visit n c)
                  (visits n c w (closed node n edge) (record {
                    reach = λ x h. step (r.reach x h) edge;
                    done = r.done;
                    enough = r.enough;
                  }))
                  (λ c' s. visit_each-Finds ns c' later (IsReady-searched r s)))
          | inr (inl w) ↦ rw (w, visit_each) (n, node, r.reach n w, edge)
          | inr (inr w) ↦
              rw (w, visit_each)
                (Finds-map c (both_end n ns (r.done n w)) (visit_each visit ns c)
                  (visit_each-Finds ns c later r))
        ]

  finish-Finds :
      (node : Text) (f : ℕ) (c : Colors) (x : Option (Bool × Colors))
      → color_of node c ≡ Color.white
      → Finds ((y : Text) → Edge g node y → Terminates g y) (insert_or_assign node Color.gray c) x
      → IsReady node f c
      → Finds (Terminates g node) c (finish node x)
  unfolding finish
  finish-Finds node f c none w h r = h
  finish-Finds node f c (some (true, c')) w h r = h
  finish-Finds node f c (some (false, c')) w (ends, s) r = (
    stops ends,
    record {
      grays = λ x h. ground (
        arith,
        color_of-insert x node Color.black c',
        color_of-insert x node Color.gray c,
        s.grays x,
      );
      done = λ x h.
          painted (Terminates g) x node Color.black c' h (λ e. rw (← e) (stops ends)) (s.done x);
      fewer = omega (
        arith,
        s.fewer,
        whites-insert-le names node Color.black c' (λ q. cc),
        whites-insert-le names node Color.gray c (λ q. cc),
      );
    },
  )

  dfs_visit-Visits : (f : ℕ) → Visits f (dfs_visit f g)
  unfolding dfs_visit
  dfs_visit-Visits zero n c w m r = absurd (omega (arith, white-whites names n c w m))
  dfs_visit-Visits (suc f) n c w m r =
      finish-Finds n (suc f) c _ w
        (visit_each-Finds n f (dfs_visit f g) (dfs_visit-Visits f) (edges g n)
          (insert_or_assign n Color.gray c) (λ y e. e)
          (record {
            reach = λ x h.
                painted (λ y. Star g y n) x n Color.gray c h (λ e. rw (← e) here) (r.reach x);
            done = λ x h. r.done x (ground (arith, color_of-insert x n Color.gray c));
            enough = omega (arith, r.enough, whites-insert-lt names n Color.gray c (λ q. cc) w m);
          }))
        r

  all_end :
      (n : Text) (ns : List Text)
      → Terminates g n
      → ((y : Text) → Member y ns → Terminates g y)
      → (y : Text) → Member y (n ∷ ns)
      → Terminates g y
  all_end n ns t ts y (inl e) = rw e t
  all_end n ns t ts y (inr m) = ts y m

  after_search :
      (fuel : ℕ) (n : Text) (entries : Dict ℕ) (c : Colors) (x : Option (Bool × Colors))
      → Finds (Terminates g n) c x
      → ((c' : Colors)
          → IsSearched c c'
          → Finds
              ((y : Text) → Member y (map (λ e. e.0) entries) → Terminates g y)
              c'
              (search_cycle fuel g entries c'))
      → Finds ((y : Text) → Member y (n ∷ map (λ e. e.0) entries) → Terminates g y) c (elim x [
        | none ↦ none
        | some (cycle, c') ↦ elim cycle [
          | true ↦ some (true, c')
          | false ↦ search_cycle fuel g entries c'
        ]
      ])
  after_search fuel n entries c none h k = h
  after_search fuel n entries c (some (true, c')) h k = h
  after_search fuel n entries c (some (false, c')) (t, s) k =
      Finds-after _ s (search_cycle fuel g entries c') (
        Finds-map c' (all_end n (map (λ e. e.0) entries) t) (search_cycle fuel g entries c')
          (k c' s))

  -- The loop over the names, from colours with no gray node.
  pub search_cycle-Finds :
      (fuel : ℕ) (entries : Dict ℕ) (c : Colors)
      → ((y : Text) → Member y (map (λ e. e.0) entries) → Member y names)
      → ((x : Text) → color_of x c ≢ Color.gray)
      → AreDone c
      → whites names c ≤ fuel
      → Finds
          ((y : Text) → Member y (map (λ e. e.0) entries) → Terminates g y)
          c
          (search_cycle fuel g entries c)
  unfolding search_cycle
  search_cycle-Finds fuel [] c sub ungray done enough =
      (λ y m. absurd m, record { grays = λ x h. h; done = done; fewer = omega arith })
  search_cycle-Finds fuel ((n, i) ∷ entries) c sub ungray done enough =
      let later : (y : Text) → Member y (map (λ e. e.0) entries) → Member y names =
        λ y m. sub y (inr m) in
      elim (Color-cases (color_of n c)) [
        | inl w ↦
            rw (w, search_cycle)
              (after_search fuel n entries c (dfs_visit fuel g n c)
                (dfs_visit-Visits fuel n c w (sub n (inl refl))
                  (record { reach = λ x h. absurd (ungray x h); done = done; enough = enough }))
                (λ c' s.
                  search_cycle-Finds fuel entries c' later (λ x h. ungray x (s.grays x h)) s.done
                    (omega (arith, s.fewer))))
        | inr (inl w) ↦ absurd (ungray n w)
        | inr (inr w) ↦
            rw (w, search_cycle)
              (Finds-map c (all_end n (map (λ e. e.0) entries) (done n w))
                (search_cycle fuel g entries c)
                (search_cycle-Finds fuel entries c later ungray done enough))
      ]
