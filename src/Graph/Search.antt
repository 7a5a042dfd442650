-- ===== src/Graph/Search.antt =====
-- The depth-first search of cycle detection: a finished call leaves a rank that orders the nodes it
-- has coloured, a call that finds something has found a cycle, and no call runs out of fuel.
use adaptive_orchestrator.Base.{
  ℕ, suc, ◌+◌, ◌≤◌, ◌<◌, ◌≡◌, inl, inr, true, some, List, ◌∷◌, arith, ◌==◌, if◌then◌else◌, ==_iff,
  Bool-cases, is_some, contains,
}
use adaptive_orchestrator.Graph.Cycles.{
  unvisited, visiting, visited, Search, Verdict, found, clear, paint,
}
use adaptive_orchestrator.Graph.Colours.{
  colour, IsGrey, Stable, Untouched, white, Above, colour-paint,
}

-- There is a path of one edge or more.
pub data Reaches (next : ℕ → List ℕ) : ℕ → ℕ → Type 0 where
  edge : {a b : ℕ} → contains (next a) b ≡ true → Reaches next a b
  step : {a b c : ℕ} → contains (next a) b ≡ true → Reaches next b c → Reaches next a c

pub extend :
    {next : ℕ → List ℕ} {a b c : ℕ}
    → Reaches next a b
    → contains (next b) c ≡ true
    → Reaches next a c
extend (edge e) h = step e (edge h)
extend (step e r) h = step e (extend r h)

-- A finished node comes after all of its successors.
pub record Ranks (next : ℕ → List ℕ) (s : Search) (rank : ℕ → ℕ) (bound : ℕ) : Type 0 where
  pub below : (k : ℕ) → colour s k ≡ some visited → rank k < bound
  pub falls :
      (k w : ℕ)
      → colour s k ≡ some visited
      → contains (next k) w ≡ true
      → is_some (colour s w) ≡ true
      → (colour s w ≡ some visited) × (rank w < rank k)

abbrev pub Ranked : (ℕ → List ℕ) → Search → Type 0
Ranked next s = (rank : ℕ → ℕ) × (bound : ℕ) × Ranks next s rank bound

-- Every successor of the list that is a task is finished.
abbrev pub Done : Search → List ℕ → Type 0
Done s ks = (w : ℕ) → contains ks w ≡ true → is_some (colour s w) ≡ true → colour s w ≡ some visited

-- When a node is finished its rank is the bound so far.
pub Ranked-finish :
    (next : ℕ → List ℕ) (s : Search) (node : ℕ)
    → IsGrey s node
    → Done s (next node)
    → Ranked next s
    → Ranked next (paint s node visited)
Ranked-finish next s node g done (rank, bound, r) = (
  rank',
  suc bound,
  record {
    below = λ k e. ground (arith, colour-paint s node visited k, r.below k);
    falls = λ k w e h p. ground (
      arith,
      colour-paint s node visited k,
      colour-paint s node visited w,
      r.falls k w,
      r.below w,
      r.below k,
      done w,
      same k w h,
    );
  },
)
  where
    rank' : ℕ → ℕ
    rank' k = if node == k then bound else rank k

    same : (k w : ℕ) → contains (next k) w ≡ true → node ≡ k → contains (next node) w ≡ true
    same k w h e = rw e h

pub Ranked-paint :
    (next : ℕ → List ℕ) (s : Search) (node : ℕ)
    → colour s node ≡ some unvisited
    → Ranked next s
    → Ranked next (paint s node visiting)
Ranked-paint next s node u (rank, bound, r) = (
  rank,
  bound,
  record {
    below = λ k e. ground (arith, colour-paint s node visiting k, r.below k);
    falls = λ k w e h p.
        ground (arith, colour-paint s node visiting k, colour-paint s node visiting w, r.falls k w);
  },
)

-- What a call on `node` with `fuel` finds, `n` levels deep.
pub record Pre (next : ℕ → List ℕ) (limit fuel n node : ℕ) (s : Search) : Type 0 where
  pub fresh : colour s node ≡ some unvisited
  pub enough : white s.colours ≤ fuel
  pub ranked : Ranked next s
  pub greys : (k : ℕ) → IsGrey s k → Reaches next k node
  pub above : Above s n node
  pub room : n + fuel ≤ limit

-- What it leaves.
pub data Post (next : ℕ → List ℕ) (node : ℕ) (s : Search) : Verdict → Type 0 where
  cyclic : (c : List ℕ) (v : ℕ) → Reaches next v v → Post next node s (found c)
  finished :
      (t : Search)
      → Stable s t
      → Ranked next t
      → colour t node ≡ some visited
      → white t.colours ≤ white s.colours
      → Untouched s t
      → Post next node s (clear t)

pub Done-cons :
    (t : Search) (neighbor : ℕ) (rest : List ℕ)
    → (is_some (colour t neighbor) ≡ true → colour t neighbor ≡ some visited)
    → Done t rest
    → Done t (neighbor ∷ rest)
unfolding contains
Done-cons t neighbor rest first done w e p = elim (Bool-cases (w == neighbor)) [
  | inl same ↦ let q : w ≡ neighbor = (==_iff w neighbor).0 same in rw q (first (rw q at p))
  | inr other ↦ done w (rw other at e) p
]
