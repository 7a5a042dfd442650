-- ===== src/Collision/Overlap.antt =====
-- The comparisons of collision.py read from either side.
use adaptive_orchestrator.Base.{
  ℕ, min, ◌≡◌, refl, sym, Bool, false, ◌||◌, none, List, [], ◌∷◌, arith, is_some, length, keep,
}
use adaptive_orchestrator.FilePaths.{
  FilePath, is_empty, same_path, same_parts, lstrip, rstrip, is_space, is_slash, clean, or_dot,
  normpath, normalize_path,
}
use adaptive_orchestrator.Collision.{
  parts_of, take, same_start, normalize_set, overlap_normal, is_path_overlap, first_overlap,
  overlap_pairs, are_write_sets_overlapping,
}

same_path_comm : (a b : FilePath) → same_path a b ≡ same_path b a
unfolding same_path
same_path_comm [] [] = refl
same_path_comm [] (y ∷ ys) = refl
same_path_comm (x ∷ xs) [] = refl
same_path_comm (x ∷ xs) (y ∷ ys) = ground (arith, same_path_comm xs ys)

same_parts_comm : (a b : List FilePath) → same_parts a b ≡ same_parts b a
unfolding same_parts
same_parts_comm [] [] = refl
same_parts_comm [] (y ∷ ys) = refl
same_parts_comm (x ∷ xs) [] = refl
same_parts_comm (x ∷ xs) (y ∷ ys) = ground (arith, same_path_comm x y, same_parts_comm xs ys)

min_comm : (m n : ℕ) → min m n ≡ min n m
min_comm m n = omega arith

same_start_comm : (a b : List FilePath) → same_start a b ≡ same_start b a
unfolding same_start
same_start_comm a b = rw (min_comm (length a) (length b)) (
    ground (
      arith,
      same_parts_comm a b,
      same_parts_comm (take (min (length b) (length a)) a) (take (min (length b) (length a)) b),
    ))

module _ (fnmatch : FilePath → FilePath → Bool) where
  overlap_normal_comm : (a b : FilePath) → overlap_normal fnmatch a b ≡ overlap_normal fnmatch b a
  unfolding overlap_normal
  overlap_normal_comm a b =
      ground (arith, same_path_comm a b, same_start_comm (parts_of a) (parts_of b))

  is_path_overlap_comm :
      (a b : FilePath) → is_path_overlap fnmatch a b ≡ is_path_overlap fnmatch b a
  unfolding is_path_overlap
  is_path_overlap_comm a b = overlap_normal_comm (normalize_path a) (normalize_path b)

  -- Some path of a list overlaps with the path.
  meets : FilePath → List FilePath → Bool
  meets a [] = false
  meets a (b ∷ bs) = is_path_overlap fnmatch a b || meets a bs

  crosses : List FilePath → List FilePath → Bool
  unfolding meets
  crosses [] bs = false
  crosses (a ∷ rest) bs = meets a bs || crosses rest bs

  first_overlap-meets :
      (a : FilePath) (bs : List FilePath) → is_some (first_overlap fnmatch a bs) ≡ meets a bs
  unfolding first_overlap meets
  first_overlap-meets a [] = refl
  first_overlap-meets a (b ∷ bs) = ground (arith, first_overlap-meets a bs)

  overlap_pairs-crosses :
      (xs bs : List FilePath) → is_some (overlap_pairs fnmatch xs bs) ≡ crosses xs bs
  unfolding overlap_pairs crosses
  overlap_pairs-crosses [] bs = refl
  overlap_pairs-crosses (a ∷ rest) bs =
      ground (arith, first_overlap-meets a bs, overlap_pairs-crosses rest bs)

  crosses-nil : (xs : List FilePath) → crosses xs [] ≡ false
  unfolding crosses meets
  crosses-nil [] = refl
  crosses-nil (a ∷ rest) = crosses-nil rest

  crosses-cons :
      (xs : List FilePath) (b : FilePath) (bs : List FilePath)
      → crosses xs (b ∷ bs) ≡ (meets b xs || crosses xs bs)
  unfolding crosses meets
  crosses-cons [] b bs = refl
  crosses-cons (a ∷ rest) b bs = ground (arith, is_path_overlap_comm a b, crosses-cons rest b bs)

  crosses_comm : (xs bs : List FilePath) → crosses xs bs ≡ crosses bs xs
  unfolding crosses
  crosses_comm [] bs = sym (crosses-nil bs)
  crosses_comm (a ∷ rest) bs = ground (arith, crosses_comm rest bs, crosses-cons bs a rest)

  -- Whether two write sets overlap does not depend on which of them is named first, wildcards and
  -- directories included, for every matcher of patterns.
  pub are_write_sets_overlapping_comm :
      (xs ys : List FilePath)
      → is_some (are_write_sets_overlapping fnmatch xs ys)
        ≡ is_some (are_write_sets_overlapping fnmatch ys xs)
  unfolding are_write_sets_overlapping
  are_write_sets_overlapping_comm xs ys = ground (
    arith,
    overlap_pairs-crosses (normalize_set xs) (normalize_set ys),
    overlap_pairs-crosses (normalize_set ys) (normalize_set xs),
    crosses_comm (normalize_set xs) (normalize_set ys),
  )

  -- An empty set overlaps with none.
  pub nothing-overlaps : (xs : List FilePath) → are_write_sets_overlapping fnmatch [] xs ≡ none
  unfolding are_write_sets_overlapping normalize_set overlap_pairs keep
  nothing-overlaps xs = refl

  pub overlaps-nothing : (xs : List FilePath) → are_write_sets_overlapping fnmatch xs [] ≡ none
  overlaps-nothing xs = ground (arith, are_write_sets_overlapping_comm xs [], nothing-overlaps xs)

-- A path that a second normalization leaves alone, once normalized.
unfoldable pub AreStable : List FilePath → Type 0
AreStable [] = Unit
AreStable (p ∷ ps) = (normalize_path (normalize_path p) ≡ normalize_path p) × AreStable ps

or_dot-nonempty : (p : FilePath) → is_empty (or_dot p) ≡ false
unfolding is_empty or_dot
or_dot-nonempty [] = refl
or_dot-nonempty (c ∷ cs) = refl

normalize_path-nonempty : (p : FilePath) → is_empty (normalize_path p) ≡ false
unfolding normalize_path
normalize_path-nonempty p = ground (
  arith,
  or_dot-nonempty
      (rstrip is_slash (lstrip is_slash (normpath (clean (rstrip is_space (lstrip is_space p)))))),
)

pub normalize_set-twice :
    (ps : List FilePath) → AreStable ps → normalize_set (normalize_set ps) ≡ normalize_set ps
unfolding normalize_set keep AreStable
normalize_set-twice [] st = refl
normalize_set-twice (p ∷ ps) (s, st) =
    ground (arith, s, normalize_path-nonempty p, normalize_set-twice ps st)

pub overlapping-normalized :
    (fnmatch : FilePath → FilePath → Bool) (ps qs : List FilePath)
    → AreStable ps
    → are_write_sets_overlapping fnmatch (normalize_set ps) qs
      ≡ are_write_sets_overlapping fnmatch ps qs
unfolding are_write_sets_overlapping
overlapping-normalized fnmatch ps qs st = rw (normalize_set-twice ps st) refl
