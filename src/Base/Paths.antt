-- ===== src/Base/Paths.antt =====
-- Paths. A `PathBuf` is compared and hashed by its components, so it is the list of them; a root
-- component is the text "/". A normalised path relative to a root is the list of its names, each a
-- list of bytes, and its order is that of the names.
use herdr_context.Base.{
  ℕ, suc, ◌<◌, ◌≡◌, refl, ◌∙◌, String, Bool, true, false, not, ◌&&◌, ◌||◌, Option, none, some, List,
  [], ◌∷◌, ◌++◌, map, arith, length, All, All-append, ◌==◌, nat_eq, list_eq, if◌then◌else◌,
}
use herdr_context.Base.KeySet

abbrev pub FilePath : Type 0
FilePath = List String

abbrev pub RelPath : Type 0
RelPath = List (List ℕ)

-- `ancestors().skip(1)`: the proper prefixes, the longest first and the empty path last.
unfoldable pub above : RelPath → List RelPath
above [] = []
above (name ∷ names) = map (◌∷◌ name) (above names) ++ [] ∷ []

abbrev pub first {ℓ} : {A : Type ℓ} → List A → Option A
first [] = none
first (x ∷ _) = some x

unfoldable pub parent : RelPath → Option RelPath
unfolding above
parent path = first (above path)

abbrev pub or_root : Option RelPath → RelPath
or_root none = []
or_root (some path) = path

-- `Path::strip_prefix`.
unfoldable pub strip_prefix : RelPath → RelPath → Option RelPath
unfolding list_eq nat_eq
strip_prefix [] path = some path
strip_prefix (p ∷ ps) [] = none
strip_prefix (p ∷ ps) (name ∷ names) =
    let rest = strip_prefix ps names in if p == name then rest else none

longer :
    (name : List ℕ) (n : ℕ) (paths : List RelPath)
    → All (λ a. length a < n) paths
    → All (λ a. length a < suc n) (map (◌∷◌ name) paths)
longer name n [] h = tt
longer name n (path ∷ paths) (p, h) = (omega (arith, p), longer name n paths h)

-- An ancestor is shorter than the path.
pub above_shorter : (path : RelPath) → All (λ a. length a < length path) (above path)
unfolding above
above_shorter [] = tt
above_shorter (name ∷ names) =
    All-append (λ (a : RelPath). length a < suc (length names)) (map (◌∷◌ name) (above names))
      ([] ∷ []) (longer name (length names) (above names) (above_shorter names)) (omega arith, tt)

-- `Path::starts_with`: the second path is a prefix of the first.
unfoldable pub starts_with : RelPath → RelPath → Bool
unfolding list_eq nat_eq
starts_with path [] = true
starts_with [] (p ∷ ps) = false
starts_with (name ∷ names) (p ∷ ps) = let rest = starts_with names ps in p == name && rest

contains-map :
    (q : RelPath) (name : List ℕ) (paths : List RelPath) (m : List ℕ)
    → KeySet.contains (m ∷ q) (map (◌∷◌ name) paths) ≡ (m == name && KeySet.contains q paths)
unfolding KeySet.contains list_eq
contains-map q name [] m = ground arith
contains-map q name (p ∷ ps) m = ground (arith, contains-map q name ps m)

cons-eq :
    (m name : List ℕ) (ms names : RelPath) → (m ∷ ms == name ∷ names) ≡ (m == name && ms == names)
unfolding list_eq
cons-eq m name ms names = ground arith

pub contains-append_last :
    (q : RelPath) (ps : List RelPath)
    → KeySet.contains q (ps ++ [] ∷ []) ≡ (KeySet.contains q ps || q == [])
unfolding KeySet.contains
contains-append_last q [] = ground arith
contains-append_last q (p ∷ ps) = ground (arith, contains-append_last q ps)

pub contains_root-map :
    (name : List ℕ) (ps : List RelPath) → KeySet.contains [] (map (◌∷◌ name) ps) ≡ false
unfolding KeySet.contains list_eq
contains_root-map name [] = refl
contains_root-map name (p ∷ ps) = contains_root-map name ps

-- The paths above a path are its prefixes but for itself.
pub contains-above :
    (path q : RelPath) → KeySet.contains q (above path) ≡ (starts_with path q && not (q == path))
unfolding above starts_with KeySet.contains list_eq
contains-above [] [] = refl
contains-above [] (m ∷ ms) = refl
contains-above (name ∷ names) [] =
    contains-append_last [] (map (◌∷◌ name) (above names))
    ∙ ground (arith, contains_root-map name (above names))
contains-above (name ∷ names) (m ∷ ms) =
    contains-append_last (m ∷ ms) (map (◌∷◌ name) (above names))
    ∙ ground (
      arith,
      contains-map ms name (above names) m,
      contains-above names ms,
      cons-eq m name ms names,
    )
