-- ===== src/Graph/Loop.antt =====
-- The loop of `_dfs_cycle` over the dependents of a node, given what the recursive call does.
use mathlib.Core.Path.{subst}
use adaptive_orchestrator.Base.{
  ℕ, suc, ◌+◌, ◌≤◌, ◌≡◌, refl, sym, ◌∙◌, ◌≢◌, ◌⊎◌, inl, inr, true, none, some, List, [], ◌∷◌, arith,
  is_some, contains,
}
use adaptive_orchestrator.Graph.Cycles.{
  Colour, unvisited, visiting, visited, Search, Verdict, found, clear, exhausted, adopt, parent_of,
  climb, visit_all,
}
use adaptive_orchestrator.Graph.Colours.{
  colour, IsGrey, Stable, Stable-refl, Stable-trans, Untouched, Untouched-trans, white, Above,
  Above-Stable, parent_of-adopt, Above-adopt, climb_found,
}
use adaptive_orchestrator.Graph.Search.{
  Reaches, edge, extend, Ranked, Done, Pre, Post, cyclic, finished, Done-cons,
}

-- What the loop over `ks` leaves.
pub data LoopPost (next : ℕ → List ℕ) (ks : List ℕ) (s : Search) : Verdict → Type 0 where
  caught : (c : List ℕ) (v : ℕ) → Reaches next v v → LoopPost next ks s (found c)
  passed_over :
      (t : Search)
      → Stable s t
      → Ranked next t
      → Done t ks
      → white t.colours ≤ white s.colours
      → Untouched s t
      → LoopPost next ks s (clear t)

-- What the loop finds.
pub record LoopPre (next : ℕ → List ℕ) (limit fuel n node : ℕ) (s : Search) : Type 0 where
  pub grey : IsGrey s node
  pub enough : white s.colours ≤ fuel
  pub ranked : Ranked next s
  pub greys : (k : ℕ) → IsGrey s k → (k ≡ node) ⊎ Reaches next k node
  pub above : Above s n node
  pub room : suc n + fuel ≤ limit

Stable-adopt :
    (s : Search) (child node : ℕ) → colour s child ≡ some unvisited → Stable s (adopt s child node)
unfolding adopt
Stable-adopt s child node u = record {
  keeps = λ k c e n. e;
  grey = λ k e. e;
  same_keys = λ k. refl;
  parents = λ k c e n. other k c e n;
}
  where
    other :
        (k : ℕ) (c : Colour)
        → colour s k ≡ some c
        → c ≢ unvisited
        → parent_of (adopt s child node) k ≡ parent_of s k
    other k c e n = ground (arith, parent_of-adopt s child node k)

module _ (recur : ℕ → Search → Verdict) (limit node : ℕ) where
  abbrev loop : List ℕ → Search → Verdict
  loop = visit_all recur limit node

  -- One neighbour that the loop passes over.
  loop_skip :
      (neighbor : ℕ) (rest : List ℕ) (s : Search)
      → (colour s neighbor ≡ none) ⊎ (colour s neighbor ≡ some visited)
      → loop (neighbor ∷ rest) s ≡ loop rest s
  unfolding visit_all
  loop_skip neighbor rest s (inl e) = rw (e, visit_all)
  loop_skip neighbor rest s (inr e) = rw (e, visit_all)

  loop_grey :
      (neighbor : ℕ) (rest : List ℕ) (s : Search)
      → IsGrey s neighbor
      → loop (neighbor ∷ rest) s ≡ climb limit s neighbor node (node ∷ neighbor ∷ [])
  unfolding visit_all
  loop_grey neighbor rest s e = rw (e, visit_all)

  loop_enter :
      (neighbor : ℕ) (rest : List ℕ) (s : Search)
      → colour s neighbor ≡ some unvisited
      → loop (neighbor ∷ rest) s ≡ elim (recur neighbor (adopt s neighbor node)) [
        | found cycle ↦ found cycle
        | clear t ↦ loop rest t
        | exhausted ↦ exhausted
      ]
  unfolding visit_all
  loop_enter neighbor rest s e = rw (e, visit_all)

pub Colour-cases :
    (s : Search) (k : ℕ)
    → ((colour s k ≡ none) ⊎ (colour s k ≡ some visited))
      ⊎ (IsGrey s k ⊎ (colour s k ≡ some unvisited))
Colour-cases s k = ground arith

module _ (next : ℕ → List ℕ) (recur : ℕ → Search → Verdict) (limit fuel n node : ℕ)
    (rule : (m : ℕ) (s : Search)
      → Pre next limit fuel (suc n) m s
      → Post next m s (recur m s)) where
  Ranked-adopt : (s : Search) (child : ℕ) → Ranked next s → Ranked next (adopt s child node)
  unfolding adopt
  Ranked-adopt s child (rank, bound, r) = (rank, bound, record { below = r.below; falls = r.falls })

  -- The state in which the loop calls itself on a neighbour.
  enter_Pre :
      (s : Search) (neighbor : ℕ)
      → LoopPre next limit fuel n node s
      → contains (next node) neighbor ≡ true
      → colour s neighbor ≡ some unvisited
      → Pre next limit fuel (suc n) neighbor (adopt s neighbor node)
  unfolding adopt
  enter_Pre s neighbor h e u = record {
    fresh = u;
    enough = h.enough;
    ranked = Ranked-adopt s neighbor h.ranked;
    greys = λ k g. reach k (h.greys k g);
    above = (
      node,
      ground (arith, parent_of-adopt s neighbor node neighbor),
      h.grey,
      Above-adopt s neighbor node n node u h.grey h.above,
    );
    room = h.room;
  }
    where
      reach : (k : ℕ) → (k ≡ node) ⊎ Reaches next k node → Reaches next k neighbor
      reach k (inl same) = rw same (edge e)
      reach k (inr r) = extend r e

  -- The state after that call.
  leave_Pre :
      (s t : Search) (neighbor : ℕ)
      → LoopPre next limit fuel n node s
      → colour s neighbor ≡ some unvisited
      → Stable (adopt s neighbor node) t
      → Ranked next t
      → white t.colours ≤ white s.colours
      → LoopPre next limit fuel n node t
  unfolding adopt
  leave_Pre s t neighbor h u st r w = record {
    grey = st.keeps node visiting h.grey (λ e. cc);
    enough = omega (arith, h.enough);
    ranked = r;
    greys = λ k g. h.greys k (st.grey k g);
    above =
        Above-Stable (adopt s neighbor node) t n node st h.grey
          (Above-adopt s neighbor node n node u h.grey h.above);
    room = h.room;
  }

  after_skip :
      (neighbor : ℕ) (rest : List ℕ) (s : Search)
      → (colour s neighbor ≡ none) ⊎ (colour s neighbor ≡ some visited)
      → {v : Verdict} → LoopPost next rest s v
      → LoopPost next (neighbor ∷ rest) s v
  after_skip neighbor rest s skip (caught c v r) = caught c v r
  after_skip neighbor rest s skip (passed_over t st r done w un) =
      passed_over t st r (Done-cons t neighbor rest first done) w un
    where
      first : is_some (colour t neighbor) ≡ true → colour t neighbor ≡ some visited
      first = elim skip [
        | inl e ↦ λ p. ground (arith, st.same_keys neighbor)
        | inr e ↦ λ p. st.keeps neighbor visited e (λ x. cc)
      ]

  -- A grey neighbour closes a cycle.
  on_cycle :
      {ks : List ℕ} (neighbor : ℕ) (s : Search)
      → LoopPre next limit fuel n node s
      → IsGrey s neighbor
      → contains (next node) neighbor ≡ true
      → LoopPost next ks s (climb limit s neighbor node (node ∷ neighbor ∷ []))
  on_cycle neighbor s h g e =
      let (c, q) =
        climb_found limit s neighbor node (node ∷ neighbor ∷ []) n h.above
          (omega (arith, h.room)) in
      rw q (caught c neighbor (closed (h.greys neighbor g)))
    where
      closed : (neighbor ≡ node) ⊎ Reaches next neighbor node → Reaches next neighbor neighbor
      closed (inl same) = edge (subst (λ x. contains (next x) neighbor ≡ true) (sym same) e)
      closed (inr r) = extend r e

  extend_Post :
      (neighbor : ℕ) (rest : List ℕ) (s t : Search)
      → Stable s t
      → colour t neighbor ≡ some visited
      → white t.colours ≤ white s.colours
      → Untouched s t
      → {v : Verdict} → LoopPost next rest t v
      → LoopPost next (neighbor ∷ rest) s v
  extend_Post neighbor rest s t st e w un (caught c v r) = caught c v r
  extend_Post neighbor rest s t st e w un (passed_over u su r done w' un') =
      passed_over u (Stable-trans s t u st su) r
        (Done-cons u neighbor rest (λ p. su.keeps neighbor visited e (λ x. cc)) done) (omega arith)
        (Untouched-trans s t u su un un')

  Untouched-adopt :
      (s t : Search) (neighbor : ℕ)
      → colour t neighbor ≡ some visited
      → Untouched (adopt s neighbor node) t
      → Untouched s t
  Untouched-adopt s t neighbor e un k u = un k u ∙ ground (arith, parent_of-adopt s neighbor node k)

  after_enter :
      (neighbor : ℕ) (rest : List ℕ) (s : Search)
      → ((w : ℕ) → contains (neighbor ∷ rest) w ≡ true → contains (next node) w ≡ true)
      → LoopPre next limit fuel n node s
      → colour s neighbor ≡ some unvisited
      → {v : Verdict} → Post next neighbor (adopt s neighbor node) v
      → ((t : Search)
          → LoopPre next limit fuel n node t
          → LoopPost next rest t (visit_all recur limit node rest t))
      → LoopPost next (neighbor ∷ rest) s (elim v [
        | found cycle ↦ found cycle
        | clear t ↦ visit_all recur limit node rest t
        | exhausted ↦ exhausted
      ])
  after_enter neighbor rest s sub h u (cyclic c v r) go = caught c v r
  after_enter neighbor rest s sub h u (finished t st r e w un) go =
      extend_Post neighbor rest s t
        (Stable-trans s (adopt s neighbor node) t (Stable-adopt s neighbor node u) st) e
        (unfold adopt in w) (Untouched-adopt s t neighbor e un)
        (go t (leave_Pre s t neighbor h u st r (unfold adopt in w)))

  pub loop_rule :
      (ks : List ℕ) (s : Search)
      → ((w : ℕ) → contains ks w ≡ true → contains (next node) w ≡ true)
      → LoopPre next limit fuel n node s
      → LoopPost next ks s (visit_all recur limit node ks s)
  unfolding contains visit_all
  loop_rule [] s sub h =
      passed_over s (Stable-refl s) h.ranked (λ w e p. cc) (omega arith) (λ k e. refl)
  loop_rule (neighbor ∷ rest) s sub h = elim (Colour-cases s neighbor) [
    | inl skip ↦
        rw (loop_skip recur limit node neighbor rest s skip)
          (after_skip neighbor rest s skip (loop_rule rest s (λ w e. sub w (ground arith)) h))
    | inr other ↦ elim other [
      | inl grey ↦
          rw (loop_grey recur limit node neighbor rest s grey)
            (on_cycle neighbor s h grey (sub neighbor (ground arith)))
      | inr white ↦ rw (loop_enter recur limit node neighbor rest s white) (
          after_enter neighbor rest s sub h white
            (rule neighbor (adopt s neighbor node)
              (enter_Pre s neighbor h (sub neighbor (ground arith)) white))
            (λ t. loop_rule rest t (λ w e. sub w (ground arith))))
    ]
  ]
