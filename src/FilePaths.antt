-- ===== src/FilePaths.antt =====
-- orchestrator/workspace/collision.py: `normalize_path`. A path is
-- a list of code points. `str.lower` is written for ASCII. `posixpath.normpath`, which the standard
-- library defines, is written out for POSIX paths.
use Prim.Native.Char.{code}
use Prim.Native.String.{String}
use adaptive_orchestrator.Base.{
  ℕ, ◌+◌, String, Bool, true, false, not, ◌&&◌, ◌||◌, List, [], ◌∷◌, ◌++◌, leb, ◌==◌, if◌then◌else◌,
}

abbrev pub FilePath : Type 0
FilePath = List ℕ

-- The code points of a text. `String` has its own `[]` and `∷`.
abbrev pub codes : String → FilePath
codes String.[] = []
codes (String.◌∷◌ c s) = code c ∷ codes s

unfoldable pub paths_of : List String → List FilePath
paths_of [] = []
paths_of (s ∷ ss) = codes s ∷ paths_of ss

abbrev pub dot : FilePath
dot = codes "."

unfoldable pub is_empty {ℓ} : {A : Type ℓ} → List A → Bool
is_empty [] = true
is_empty (x ∷ xs) = false

-- `==` on paths.
unfoldable pub same_path : FilePath → FilePath → Bool
same_path [] [] = true
same_path (x ∷ xs) (y ∷ ys) = x == y && same_path xs ys
same_path _ _ = false

-- `==` on lists of components.
unfoldable pub same_parts : List FilePath → List FilePath → Bool
unfolding same_path
same_parts [] [] = true
same_parts (x ∷ xs) (y ∷ ys) = same_path x y && same_parts xs ys
same_parts _ _ = false

unfoldable pub lstrip : (ℕ → Bool) → FilePath → FilePath
lstrip p [] = []
lstrip p (x ∷ xs) = let rest = lstrip p xs in if p x then rest else x ∷ xs

unfoldable pub rstrip : (ℕ → Bool) → FilePath → FilePath
unfolding is_empty
rstrip p [] = []
rstrip p (x ∷ xs) = let rest = rstrip p xs in if p x && is_empty rest then [] else x ∷ rest

-- `str.isspace`
unfoldable pub is_space : ℕ → Bool
is_space c =
    (leb 9 c && leb c 13)
    || (leb 28 c && leb c 32)
    || c == 133
    || c == 160
    || c == 5760
    || (leb 8192 c && leb c 8202)
    || c == 8232
    || c == 8233
    || c == 8239
    || c == 8287
    || c == 12288

unfoldable pub is_slash : ℕ → Bool
is_slash c = c == 47

-- A character of "/*".
unfoldable pub is_slash_or_star : ℕ → Bool
is_slash_or_star c = c == 47 || c == 42

-- `cleaned.replace("\\", "/").lower()`
unfoldable pub clean : FilePath → FilePath
clean [] = []
clean (c ∷ cs) = (if c == 92 then 47 else if leb 65 c && leb c 90 then c + 32 else c) ∷ clean cs

-- The first component takes a character more.
unfoldable pub push_char : ℕ → List FilePath → List FilePath
push_char c [] = (c ∷ []) ∷ []
push_char c (p ∷ ps) = (c ∷ p) ∷ ps

-- `path.split("/")`
unfoldable pub split : FilePath → List FilePath
unfolding push_char is_slash
split [] = [] ∷ []
split (c ∷ cs) = let rest = split cs in if is_slash c then [] ∷ rest else push_char c rest

-- `"/".join(parts)`
unfoldable pub join : List FilePath → FilePath
join [] = []
join (p ∷ []) = p
join (p ∷ q ∷ ps) = p ++ 47 ∷ join (q ∷ ps)

-- The components of `posixpath.normpath` so far, the last one first.
unfoldable pub normalize_part : Bool → List FilePath → FilePath → List FilePath
unfolding same_path is_empty
normalize_part rooted done part =
    if is_empty part || same_path part dot
    then done
    else if not (same_path part (codes ".."))
    then part ∷ done
    else elim done [
      | [] ↦ if rooted then [] else part ∷ []
      | top ∷ rest ↦ if same_path top (codes "..") then part ∷ top ∷ rest else rest
    ]

unfoldable pub normalize_parts : Bool → List FilePath → List FilePath → List FilePath
unfolding normalize_part
normalize_parts rooted done [] = done
normalize_parts rooted done (p ∷ ps) = normalize_parts rooted (normalize_part rooted done p) ps

unfoldable pub reverse_onto : List FilePath → List FilePath → List FilePath
reverse_onto [] acc = acc
reverse_onto (p ∷ ps) acc = reverse_onto ps (p ∷ acc)

-- One slash or two at the start are kept, more are one.
unfoldable pub initial_slashes : FilePath → FilePath
unfolding is_slash
initial_slashes (a ∷ b ∷ c ∷ cs) =
    if not (is_slash a)
    then []
    else if is_slash b && not (is_slash c)
    then codes "//"
    else codes "/"
initial_slashes (a ∷ b ∷ []) =
    if not (is_slash a) then [] else if is_slash b then codes "//" else codes "/"
initial_slashes (a ∷ []) = if is_slash a then codes "/" else []
initial_slashes [] = []

-- `path or "."`
unfoldable pub or_dot : FilePath → FilePath
or_dot [] = dot
or_dot (c ∷ cs) = c ∷ cs

unfoldable pub normpath : FilePath → FilePath
unfolding split join normalize_parts reverse_onto initial_slashes is_empty or_dot
normpath path =
    let slashes = initial_slashes path in
    let parts = normalize_parts (not (is_empty slashes)) [] (split path) in
    or_dot (slashes ++ join (reverse_onto parts []))

unfoldable pub normalize_path : FilePath → FilePath
unfolding lstrip rstrip is_space is_slash clean normpath or_dot is_empty
normalize_path path =
    let stripped = rstrip is_space (lstrip is_space path) in
    if is_empty stripped
    then dot
    else or_dot (rstrip is_slash (lstrip is_slash (normpath (clean stripped))))
