-- ===== src/Collision.antt =====
-- orchestrator/workspace/collision.py: the comparison of paths and write sets, and
-- `CollisionDetector`. The standard library's `fnmatch.fnmatch` is a parameter, a test of a name and
-- a pattern. The reasons that go with an answer are left out. A set is a list.
pub mod Overlap
use mathlib.Core.List.{map}
use adaptive_orchestrator.Base.{
  ℕ, zero, suc, min, str_eq, String, Bool, true, false, not, ◌&&◌, ◌||◌, Option, none, some, List,
  [], ◌∷◌, ◌==◌, if◌then◌else◌, is_some, length, keep,
}
use adaptive_orchestrator.Task.{Task}
use adaptive_orchestrator.FilePaths.{
  FilePath, paths_of, dot, is_empty, same_path, same_parts, rstrip, is_slash, is_slash_or_star,
  split, normalize_path,
}

-- A character of "*?[".
unfoldable pub is_wildcard : ℕ → Bool
is_wildcard c = c == 42 || c == 63 || c == 91

unfoldable pub has_wildcard : FilePath → Bool
unfolding is_wildcard
has_wildcard [] = false
has_wildcard (c ∷ cs) = is_wildcard c || has_wildcard cs

-- `[p for p in clean.split("/") if p]`, where `clean` is without a `/*` at its end.
unfoldable pub parts_of : FilePath → List FilePath
unfolding split is_empty rstrip is_slash is_slash_or_star
parts_of path =
    keep (λ p. not (is_empty p)) (split (rstrip is_slash (rstrip is_slash_or_star path)))

unfoldable pub take : ℕ → List FilePath → List FilePath
take zero xs = []
take (suc n) [] = []
take (suc n) (x ∷ xs) = x ∷ take n xs

-- One list of components is the start of the other.
unfoldable pub same_start : List FilePath → List FilePath → Bool
unfolding same_parts take is_empty
same_start a b =
    if is_empty a || is_empty b
    then false
    else if same_parts a b
    then true
    else let n = min (length a) (length b) in same_parts (take n a) (take n b)

-- `{normalize_path(p) for p in paths if p}`
unfoldable pub normalize_set : List FilePath → List FilePath
unfolding is_empty normalize_path
normalize_set paths = map normalize_path (keep (λ p. not (is_empty p)) paths)

-- The attributes of a task or a record that a comparison reads.
pub record Footprint : Type 0 where
  pub owner : ℕ
  pub reads : List FilePath
  pub writes : List FilePath
  pub mode : String

unfoldable pub footprint : Task → Footprint
unfolding paths_of
footprint t = record {
  owner = t.task_id;
  reads = paths_of t.read_set;
  writes = paths_of t.write_set;
  mode = t.workspace_mode;
}

module _ (fnmatch : FilePath → FilePath → Bool) where
  -- The comparison of two normalized paths.
  unfoldable pub overlap_normal : FilePath → FilePath → Bool
  unfolding is_empty same_path has_wildcard parts_of same_start
  overlap_normal a b =
      if is_empty a || is_empty b || same_path a dot || same_path b dot
      then (if same_path a dot || same_path b dot then true else false)
      else if same_path a b
      then true
      else if has_wildcard a && fnmatch b a
      then true
      else if has_wildcard b && fnmatch a b
      then true
      else same_start (parts_of a) (parts_of b)

  unfoldable pub is_path_overlap : FilePath → FilePath → Bool
  unfolding overlap_normal normalize_path
  is_path_overlap a b = overlap_normal (normalize_path a) (normalize_path b)

  -- The inner loop over the second set.
  unfoldable pub first_overlap : FilePath → List FilePath → Option (FilePath × FilePath)
  unfolding is_path_overlap
  first_overlap a [] = none
  first_overlap a (b ∷ bs) = if is_path_overlap a b then some (a, b) else first_overlap a bs

  unfoldable pub overlap_pairs : List FilePath → List FilePath → Option (FilePath × FilePath)
  unfolding first_overlap
  overlap_pairs [] bs = none
  overlap_pairs (a ∷ rest) bs = elim (first_overlap a bs) [
    | some found ↦ some found
    | none ↦ overlap_pairs rest bs
  ]

  unfoldable pub are_write_sets_overlapping :
      List FilePath → List FilePath → Option (FilePath × FilePath)
  unfolding overlap_pairs normalize_set
  are_write_sets_overlapping set_a set_b = overlap_pairs (normalize_set set_a) (normalize_set set_b)

  unfoldable pub can_execute_concurrently : Task → Task → Bool
  unfolding are_write_sets_overlapping footprint is_empty
  can_execute_concurrently task_a task_b =
      let a = footprint task_a in
      let b = footprint task_b in
      if is_empty a.writes && is_empty b.writes
      then true
      else if is_empty a.writes || is_empty b.writes
      then (let writer = if is_empty a.writes then b else a in
          let reader = if is_empty a.writes then a else b in
          if (str_eq writer.mode "inherit" || str_eq writer.mode "share")
            && is_some (are_write_sets_overlapping writer.writes reader.reads)
          then false
          else true)
      else not (is_some (are_write_sets_overlapping a.writes b.writes))

  -- The task in conflict, if there is one.
  unfoldable pub conflict_among : Footprint → List Footprint → Option ℕ
  unfolding are_write_sets_overlapping is_empty
  conflict_among candidate [] = none
  conflict_among candidate (active ∷ rest) =
      let later = conflict_among candidate rest in
      if active.owner == candidate.owner || is_empty active.writes
      then later
      else if is_some (are_write_sets_overlapping candidate.writes active.writes)
      then some active.owner
      else later

  unfoldable pub has_write_conflict : Task → List Task → Option ℕ
  unfolding conflict_among footprint is_empty
  has_write_conflict candidate active_tasks =
      if is_empty (footprint candidate).writes
      then none
      else conflict_among (footprint candidate) (map footprint active_tasks)
