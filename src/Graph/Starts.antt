-- ===== src/Graph/Starts.antt =====
-- The loop of `detect_cycle` over the starts.
use adaptive_orchestrator.Base.{
  ℕ, ◌≤◌, ◌≡◌, ◌∙◌, ◌⊎◌, inl, inr, true, none, some, List, [], ◌∷◌, arith, is_some, contains,
}
use adaptive_orchestrator.Graph.Defs.{Graph, dependents_of}
use adaptive_orchestrator.Graph.Cycles.{
  unvisited, visited, Search, Verdict, found, clear, exhausted, parent_of, dfs_cycle, search_from,
}
use adaptive_orchestrator.Graph.Colours.{
  colour, IsGrey, Stable, Stable-refl, Stable-trans, Untouched, still_unvisited, white,
}
use adaptive_orchestrator.Graph.Search.{
  Reaches, Ranked, Done, Pre, Post, cyclic, finished, Done-cons,
}
use adaptive_orchestrator.Graph.Loop.{Colour-cases}
use adaptive_orchestrator.Graph.Detect.{dfs_cycle-Post}

module _ (g : Graph) (limit : ℕ) where
  abbrev next : ℕ → List ℕ
  next = dependents_of g

  -- Between two starts no call is open: nothing is grey, and no unvisited node has a parent.
  pub record Idle (s : Search) : Type 0 where
    pub settled : (k : ℕ) → IsGrey s k → ⊥
    pub enough : white s.colours ≤ limit
    pub ranked : Ranked next s
    pub orphans : (k : ℕ) → colour s k ≡ some unvisited → parent_of s k ≡ none

  pub data StartPost (ks : List ℕ) (s : Search) : Verdict → Type 0 where
    looped : (c : List ℕ) (v : ℕ) → Reaches next v v → StartPost ks s (found c)
    swept : (t : Search) → Stable s t → Idle t → Done t ks → StartPost ks s (clear t)

  -- The state after the call on one start.
  Idle-next :
      (s t : Search)
      → Idle s
      → Stable s t
      → Ranked next t
      → white t.colours ≤ white s.colours
      → Untouched s t
      → Idle t
  Idle-next s t h st r w un = record {
    settled = λ k g. h.settled k (st.grey k g);
    enough = omega (arith, h.enough);
    ranked = r;
    orphans = λ k e. un k e ∙ h.orphans k (still_unvisited s t k st e);
  }

  start_Pre :
      (s : Search) (start : ℕ)
      → Idle s
      → colour s start ≡ some unvisited
      → Pre next limit limit 0 start s
  start_Pre s start h u = record {
    fresh = u;
    enough = h.enough;
    ranked = h.ranked;
    greys = λ k g. absurd (h.settled k g);
    above = h.orphans start u;
    room = omega arith;
  }

  StartPost-cons :
      (start : ℕ) (rest : List ℕ) (s t : Search)
      → Stable s t
      → (is_some (colour t start) ≡ true → colour t start ≡ some visited)
      → {v : Verdict} → StartPost rest t v
      → StartPost (start ∷ rest) s v
  StartPost-cons start rest s t st first (looped c v r) = looped c v r
  StartPost-cons start rest s t st first (swept u su idle done) =
      swept u (Stable-trans s t u st su) idle (Done-cons u start rest last done)
    where
      last : is_some (colour u start) ≡ true → colour u start ≡ some visited
      last p = su.keeps start visited (first (ground (arith, su.same_keys start))) (λ e. cc)

  after_start :
      (start : ℕ) (rest : List ℕ) (s : Search)
      → Idle s
      → {v : Verdict} → Post next start s v
      → ((t : Search) → Idle t → StartPost rest t (search_from g limit rest t))
      → StartPost (start ∷ rest) s (elim v [
        | found cycle ↦ found cycle
        | clear t ↦ search_from g limit rest t
        | exhausted ↦ exhausted
      ])
  after_start start rest s h (cyclic c v r) go = looped c v r
  after_start start rest s h (finished t st r e w un) go =
      StartPost-cons start rest s t st (λ p. e) (go t (Idle-next s t h st r w un))

  start_skip :
      (start : ℕ) (rest : List ℕ) (s : Search)
      → (colour s start ≡ none) ⊎ (colour s start ≡ some visited)
      → search_from g limit (start ∷ rest) s ≡ search_from g limit rest s
  unfolding search_from
  start_skip start rest s (inl e) = rw (e, search_from)
  start_skip start rest s (inr e) = rw (e, search_from)

  start_enter :
      (start : ℕ) (rest : List ℕ) (s : Search)
      → colour s start ≡ some unvisited
      → search_from g limit (start ∷ rest) s ≡ elim (dfs_cycle g limit limit start s) [
        | found cycle ↦ found cycle
        | clear t ↦ search_from g limit rest t
        | exhausted ↦ exhausted
      ]
  unfolding search_from
  start_enter start rest s e = rw (e, search_from)

  pub search_from-Post :
      (ks : List ℕ) (s : Search) → Idle s → StartPost ks s (search_from g limit ks s)
  unfolding search_from contains
  search_from-Post [] s h = swept s (Stable-refl s) h (λ w e p. cc)
  search_from-Post (start ∷ rest) s h = elim (Colour-cases s start) [
    | inl skip ↦ rw (start_skip start rest s skip) (
        StartPost-cons start rest s s (Stable-refl s)
          (λ p. elim skip [ inl e ↦ ground arith | inr e ↦ e ]) (search_from-Post rest s h))
    | inr other ↦ elim other [
      | inl grey ↦ absurd (h.settled start grey)
      | inr white ↦ rw (start_enter start rest s white) (
          after_start start rest s h
            (dfs_cycle-Post g limit limit 0 start s (start_Pre s start h white))
            (λ t. search_from-Post rest t))
    ]
  ]
