-- ===== src/Graph/Detect.antt =====
-- `_dfs_cycle`: what one call leaves.
use adaptive_orchestrator.Base.{
  ℕ, zero, suc, ◌≤◌, ◌≡◌, sym, ◌∙◌, ◌⊎◌, inl, inr, true, some, List, arith, ◌==◌, ==_iff,
  Bool-cases, contains, sorted, contains-sorted, get-put, get-put_self,
}
use adaptive_orchestrator.Graph.Defs.{Graph, dependents_of}
use adaptive_orchestrator.Graph.Cycles.{
  unvisited, visiting, visited, Search, Verdict, paint, parent_of, finish, dfs_cycle,
}
use adaptive_orchestrator.Graph.Colours.{
  colour, IsGrey, Stable, white, white-put, white_pos, colour-paint, parent_of-paint, Above-paint,
}
use adaptive_orchestrator.Graph.Search.{
  Reaches, Ranked-finish, Ranked-paint, Pre, Post, cyclic, finished,
}
use adaptive_orchestrator.Graph.Loop.{LoopPost, caught, passed_over, LoopPre, loop_rule}

module _ (g : Graph) (limit : ℕ) where
  abbrev next : ℕ → List ℕ
  next = dependents_of g

  -- The state in which a call on `node` enters its loop.
  loop_start :
      (fuel n node : ℕ) (s : Search)
      → Pre next limit (suc fuel) n node s
      → LoopPre next limit fuel n node (paint s node visiting)
  unfolding paint
  loop_start fuel n node s h = record {
    grey = get-put_self s.colours node visiting;
    enough = omega (arith, h.enough, white-put s.colours node unvisited visiting h.fresh);
    ranked = Ranked-paint next s node h.fresh h.ranked;
    greys = λ k g. reach k g;
    above = Above-paint s node n node h.above;
    room = omega (arith, h.room);
  }
    where
      reach : (k : ℕ) → IsGrey (paint s node visiting) k → (k ≡ node) ⊎ Reaches next k node
      reach k e = elim (Bool-cases (node == k)) [
        | inl same ↦ inl (sym ((==_iff node k).0 same))
        | inr other ↦ inr (h.greys k (ground (arith, get-put s.colours node visiting k)))
      ]

  Stable-node :
      (s t : Search) (node : ℕ)
      → colour s node ≡ some unvisited
      → Stable (paint s node visiting) t
      → Stable s (paint t node visited)
  Stable-node s t node u st = record {
    keeps = λ k c e n.
        ground (arith, colour-paint s node visiting k, colour-paint t node visited k, st.keeps k c);
    grey = λ k e.
        ground (arith, colour-paint s node visiting k, colour-paint t node visited k, st.grey k);
    same_keys = λ k.
        ground
          (arith, colour-paint s node visiting k, colour-paint t node visited k, st.same_keys k);
    parents = λ k c e n. ground (
      arith,
      colour-paint s node visiting k,
      st.parents k c,
      parent_of-paint t node visited k,
      parent_of-paint s node visiting k,
    );
  }

  white_node :
      (s t : Search) (node : ℕ)
      → colour s node ≡ some unvisited
      → IsGrey t node
      → white t.colours ≤ white (paint s node visiting).colours
      → white (paint t node visited).colours ≤ white s.colours
  unfolding paint
  white_node s t node u g w = omega (
    arith,
    white-put s.colours node unvisited visiting u,
    white-put t.colours node visiting visited g,
  )

  -- What a call leaves when its loop has found nothing.
  finish_rule :
      (node : ℕ) (s : Search) (ks : List ℕ)
      → colour s node ≡ some unvisited
      → ((w : ℕ) → contains (next node) w ≡ true → contains ks w ≡ true)
      → {v : Verdict} → LoopPost next ks (paint s node visiting) v
      → Post next node s (finish node v)
  unfolding finish
  finish_rule node s ks u all (caught c v r) = cyclic c v r
  finish_rule node s ks u all (passed_over t st r done w un) =
      finished (paint t node visited) (Stable-node s t node u st)
        (Ranked-finish next t node grey (λ w e p. done w (all w e) p) r)
        (ground (arith, colour-paint t node visited node)) (white_node s t node u grey w)
        (λ k e. unfold paint parent_of in un k (ground (arith, colour-paint t node visited k)))
    where
      grey : IsGrey t node
      grey = st.keeps node visiting (ground (arith, colour-paint s node visiting node)) (λ e. cc)

  pub dfs_cycle-Post :
      (fuel n node : ℕ) (s : Search)
      → Pre next limit fuel n node s
      → Post next node s (dfs_cycle g limit fuel node s)
  unfolding dfs_cycle
  dfs_cycle-Post zero n node s h =
      absurd (omega (arith, h.enough, white_pos s.colours node h.fresh))
  dfs_cycle-Post (suc fuel) n node s h =
      finish_rule node s (sorted (next node)) h.fresh (λ w e. contains-sorted (next node) w ∙ e)
        (loop_rule next (dfs_cycle g limit fuel) limit fuel n node
          (λ m t. dfs_cycle-Post fuel (suc n) m t) (sorted (next node)) (paint s node visiting)
          (λ w e. sym (contains-sorted (next node) w) ∙ e) (loop_start fuel n node s h))
