-- ===== src/Graph/Colours.antt =====
-- The colours and parents of the depth-first search: what one call leaves as it was, the count of
-- nodes not yet visited, and the chain of parents.
use adaptive_orchestrator.Base.{
  ℕ, zero, suc, ◌+◌, ◌<◌, ◌≡◌, refl, ◌∙◌, ◌≢◌, inl, inr, Option, none, some, List, [], ◌∷◌, arith,
  ◌==◌, if◌then◌else◌, Bool-cases, is_some, length, Dict, get, put, get-put,
}
use adaptive_orchestrator.Graph.Cycles.{
  Colour, unvisited, visiting, visited, Search, found, paint, adopt, parent_of, climb, fill,
}

abbrev pub colour : Search → ℕ → Option Colour
colour s k = get s.colours k

abbrev pub IsGrey : Search → ℕ → Type 0
IsGrey s k = colour s k ≡ some visiting

-- What a finished call leaves: coloured nodes keep colour and parent, nothing turns grey.
pub record Stable (s t : Search) : Type 0 where
  pub keeps : (k : ℕ) (c : Colour) → colour s k ≡ some c → c ≢ unvisited → colour t k ≡ some c
  pub grey : (k : ℕ) → IsGrey t k → IsGrey s k
  pub same_keys : (k : ℕ) → is_some (colour t k) ≡ is_some (colour s k)
  pub parents :
      (k : ℕ) (c : Colour) → colour s k ≡ some c → c ≢ unvisited → parent_of t k ≡ parent_of s k

pub Stable-refl : (s : Search) → Stable s s
Stable-refl s = record {
  keeps = λ k c e n. e;
  grey = λ k e. e;
  same_keys = λ k. refl;
  parents = λ k c e n. refl;
}

pub Stable-trans : (s t u : Search) → Stable s t → Stable t u → Stable s u
Stable-trans s t u p q = record {
  keeps = λ k c e n. q.keeps k c (p.keeps k c e n) n;
  grey = λ k e. p.grey k (q.grey k e);
  same_keys = λ k. q.same_keys k ∙ p.same_keys k;
  parents = λ k c e n. q.parents k c (p.keeps k c e n) n ∙ p.parents k c e n;
}

-- A node that is still unvisited has the parent that it had.
abbrev pub Untouched : Search → Search → Type 0
Untouched s t = (k : ℕ) → colour t k ≡ some unvisited → parent_of t k ≡ parent_of s k

pub still_unvisited :
    (s t : Search) (k : ℕ) → Stable s t → colour t k ≡ some unvisited → colour s k ≡ some unvisited
still_unvisited s t k st e = ground (arith, st.same_keys k, st.keeps k visiting, st.keeps k visited)

pub Untouched-trans : (s t u : Search) → Stable t u → Untouched s t → Untouched t u → Untouched s u
Untouched-trans s t u st p q k e = q k e ∙ p k (still_unvisited t u k st e)

-- The nodes not yet visited.
abbrev pub weight : Colour → ℕ
weight unvisited = 1
weight visiting = 0
weight visited = 0

pub white : Dict Colour → ℕ
white [] = 0
white ((k, c) ∷ d) = weight c + white d

pub white-put :
    (d : Dict Colour) (k : ℕ) (old new : Colour)
    → get d k ≡ some old
    → white (put d k new) + weight old ≡ white d + weight new
unfolding white get put
white-put [] k old new e = cc
white-put ((j, c) ∷ d) k old new e = ground (arith, white-put d k old new)

pub white_pos : (d : Dict Colour) (k : ℕ) → get d k ≡ some unvisited → 0 < white d
white_pos d k e = omega (arith, white-put d k unvisited visited e)

-- The chain of `n` parents above `k`, all of them grey.
abbrev pub Above : Search → ℕ → ℕ → Type 0
Above s zero k = parent_of s k ≡ none
Above s (suc n) k = (p : ℕ) × (parent_of s k ≡ some p) × IsGrey s p × Above s n p

pub Above-Stable : (s t : Search) (n k : ℕ) → Stable s t → IsGrey s k → Above s n k → Above t n k
Above-Stable s t zero k st g a = st.parents k visiting g (λ e. cc) ∙ a
Above-Stable s t (suc n) k st g (p, up, gp, a) = (
  p,
  st.parents k visiting g (λ e. cc) ∙ up,
  st.keeps p visiting gp (λ e. cc),
  Above-Stable s t n p st gp a,
)

pub colour-paint :
    (s : Search) (k : ℕ) (c : Colour) (j : ℕ)
    → colour (paint s k c) j ≡ (if k == j then some c else colour s j)
unfolding paint
colour-paint s k c j = get-put s.colours k c j

pub parent_of-adopt :
    (s : Search) (child node j : ℕ)
    → parent_of (adopt s child node) j ≡ (if child == j then some node else parent_of s j)
unfolding adopt parent_of
parent_of-adopt s child node j = ground (arith, get-put s.parents child (some node) j)

pub parent_of-paint :
    (s : Search) (k : ℕ) (c : Colour) (j : ℕ) → parent_of (paint s k c) j ≡ parent_of s j
unfolding paint parent_of
parent_of-paint s k c j = refl

pub Above-paint : (s : Search) (node n k : ℕ) → Above s n k → Above (paint s node visiting) n k
unfolding paint parent_of
Above-paint s node zero k a = a
Above-paint s node (suc n) k (p, up, gp, a) =
    (p, up, ground (arith, get-put s.colours node visiting p), Above-paint s node n p a)

pub Above-adopt :
    (s : Search) (child node n k : ℕ)
    → colour s child ≡ some unvisited
    → IsGrey s k
    → Above s n k
    → Above (adopt s child node) n k
unfolding adopt parent_of
Above-adopt s child node zero k w g a = ground (arith, get-put s.parents child (some node) k)
Above-adopt s child node (suc n) k w g (p, up, gp, a) = (
  p,
  ground (arith, get-put s.parents child (some node) k),
  gp,
  Above-adopt s child node n p w gp a,
)

-- The loop over the parents ends, with a cycle.
pub climb_found :
    (fuel : ℕ) (s : Search) (neighbor curr : ℕ) (cycle : List ℕ) (n : ℕ)
    → Above s n curr
    → n < fuel
    → (c : List ℕ) × (climb fuel s neighbor curr cycle ≡ found c)
unfolding climb
climb_found zero s neighbor curr cycle n a h = absurd (omega arith)
climb_found (suc fuel) s neighbor curr cycle zero a h = (neighbor ∷ cycle, rw (a, climb))
climb_found (suc fuel) s neighbor curr cycle (suc n) (p, up, gp, a) h =
    elim (Bool-cases (p == neighbor)) [
      | inl back ↦ (neighbor ∷ cycle, rw (up, climb, back))
      | inr on ↦
          let (c, e) = climb_found fuel s neighbor p (p ∷ cycle) n a (omega arith) in
          (c, rw (up, climb, on) e)
    ]

pub white-fill : (ks : List ℕ) → white (fill unvisited ks) ≡ length ks
unfolding white fill
white-fill [] = refl
white-fill (k ∷ ks) = omega (arith, white-fill ks)
