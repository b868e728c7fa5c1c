-- ===== src/Files/Search/Loops.antt =====
-- The loops over paths in the projection of src/files/search.rs.
use herdr_context.Base.{
  ℕ, zero, suc, ◌<◌, ◌≡◌, refl, sym, subst, Bool, true, false, Option, none, some, String, List, [],
  ◌∷◌, arith, All, length, ◌==◌, nat_eq, list_eq, inl, inr, Bool-cases, if◌then◌else◌,
}
use herdr_context.Base.KeySet
use herdr_context.Base.Order.{nat_ord, list_ord}
use herdr_context.Base.Map
use herdr_context.Base.Map.{Map}
use herdr_context.Base.Paths.{RelPath}
use herdr_context.Files.Nodes.{node_kind_eq, TreeNode}
use herdr_context.Files.Children.{is_directory}
use herdr_context.Files.Tree.{FilesTree, display_parent_of}
use herdr_context.Files.Tree.Shape.{IsKeyed}
use herdr_context.Files.Tree.Depth.{BelowOption, display_parent_of-Below}
use herdr_context.Files.Search.{IndexedSearchPath, SearchablePaths}
use herdr_context.Files.Search.Projection.{
  Walk, out_of_fuel, stopped, finished, and_then, find_matches, include_ancestors, include_all,
  expanded,
}
use herdr_context.Files.Search.Descent.{Stands}

-- The fuel is enough: what is given has the property, and the loop stops only where a flag is set.
abbrev pub Ends {ℓ} : {A : Type ℓ} → (ℕ → Bool) → (A → Type 0) → Walk A → Type 0
Ends stop P out_of_fuel = ⊥
Ends stop P stopped = (n : ℕ) × (stop n ≡ true)
Ends stop P (finished a) = P a

module _ (stop : ℕ → Bool) where
  pub and_then-Ends {ℓ κ} :
      {A : Type ℓ} {B : Type κ} (P : A → Type 0) (Q : B → Type 0) (w : Walk A) (f : A → Walk B)
      → Ends stop P w
      → ((a : A) → P a → Ends stop Q (f a))
      → Ends stop Q (and_then w f)
  unfolding and_then
  and_then-Ends P Q out_of_fuel f h more = absurd h
  and_then-Ends P Q stopped f h more = h
  and_then-Ends P Q (finished a) f h more = more a h

-- Whether the query finds the searchable text of a path.
abbrev pub finds : (String → Bool) → Option IndexedSearchPath → Bool
finds has_text none = false
finds has_text (some indexed) = has_text indexed.normalized

-- The second path is the first, or above it in the display.
pub data Above {I : Type 0} (index : FilesTree I) (p : RelPath) : RelPath → Type 0 where
  itself : Above index p p
  higher : (q r : RelPath) → Above index p q → display_parent_of index q ≡ some r → Above index p r

-- The path is a match or above one.
abbrev pub From : {I : Type 0} → FilesTree I → List RelPath → RelPath → Type 0
From index matches q = (p : RelPath) × (KeySet.contains p matches ≡ true) × Above index p q

abbrev pub IsGrounded : {I : Type 0} → FilesTree I → List RelPath → List RelPath → Type 0
IsGrounded index matches included =
    (q : RelPath) → KeySet.contains q included ≡ true → From index matches q

-- The rows are nodes, each a match or above one.
abbrev pub IsShown : {I : Type 0} → FilesTree I → List RelPath → List RelPath → Type 0
IsShown index matches rows = All (λ q. Stands index.nodes q × From index matches q) rows

abbrev pub AreDirectories : Map RelPath TreeNode → List RelPath → Type 0
AreDirectories nodes paths = All (λ p. is_directory (Map.lookup p nodes) ≡ true) paths

module _ {I : Type 0} (stop : ℕ → Bool) (has_text : String → Bool) (index : FilesTree I) where
  -- The matches are the searchable paths that the query finds.
  abbrev pub AreFound : SearchablePaths → List RelPath × ℕ → Type 0
  AreFound m (matches, _) =
      (p : RelPath) → KeySet.contains p matches ≡ finds has_text (Map.lookup p m)

  found-step :
      (path : RelPath) (indexed : IndexedSearchPath) (m : SearchablePaths) (matches : List RelPath)
      (p : RelPath)
      → Map.lookup path m ≡ none
      → KeySet.contains p matches ≡ finds has_text (Map.lookup p m)
      → KeySet.contains p (if has_text indexed.normalized then path ∷ matches else matches)
        ≡ finds has_text (Map.lookup p ((path, indexed) ∷ m))
  unfolding KeySet.contains Map.lookup
  found-step path indexed m matches p absent same = elim (Bool-cases (p == path)) [
    | inl hit ↦
        let this : p ≡ path = ground (arith, hit) in
        let gone : Map.lookup p m ≡ none = subst (λ q. Map.lookup q m ≡ none) (sym this) absent in
        ground (arith, rw gone at same, hit)
    | inr miss ↦ ground (arith, same, miss)
  ]

  pub find_matches-Ends :
      (n : ℕ) (m : SearchablePaths)
      → Map.IsDistinct m
      → Ends stop (AreFound m) (find_matches stop has_text index n m)
  unfolding find_matches KeySet.contains Map.lookup
  find_matches-Ends n [] d = λ p. refl
  find_matches-Ends n ((path, indexed) ∷ m) (absent, d) = elim (Bool-cases (stop n)) [
    | inl set ↦ rw set (n, set)
    | inr quiet ↦ rw quiet (
        and_then-Ends stop (AreFound m) (AreFound ((path, indexed) ∷ m))
          (find_matches stop has_text index (suc n) m) _ (find_matches-Ends (suc n) m d)
          (λ (matches, _) same p. found-step path indexed m matches p absent (same p)))
  ]

  insert-IsGrounded :
      (matches included : List RelPath) (path : RelPath)
      → From index matches path
      → IsGrounded index matches included
      → IsGrounded index matches (KeySet.insert path included)
  insert-IsGrounded matches included path from grounded q there = elim (Bool-cases (q == path)) [
    | inl hit ↦
        let this : q ≡ path = ground (arith, hit) in subst (From index matches) (sym this) from
    | inr miss ↦ grounded q (ground (arith, KeySet.contains-insert q path included, there, miss))
  ]

  include_ancestors-Ends :
      (matches : List RelPath) (fuel : ℕ) (path : RelPath) (included : List RelPath)
      → IsKeyed index.nodes
      → From index matches path
      → IsGrounded index matches included
      → length path < fuel
      → Ends stop
          (IsGrounded index matches)
          (include_ancestors stop has_text index fuel path included)
  unfolding include_ancestors
  include_ancestors-Ends matches zero path included keys from grounded enough =
      absurd (omega (arith, enough))
  include_ancestors-Ends matches (suc fuel) path included keys (p, hit, above) grounded enough =
      go (display_parent_of index path) refl (λ current more from' grounded' shorter.
        include_ancestors-Ends matches fuel current more keys from' grounded'
          (omega (arith, shorter, enough)))
    where
      Done : ℕ → RelPath → List RelPath → Type 0
      Done n current more =
          Ends stop (IsGrounded index matches)
            (include_ancestors stop has_text index n current more)

      go :
          (next : Option RelPath)
          → display_parent_of index path ≡ next
          → ((current : RelPath) (more : List RelPath)
              → From index matches current
              → IsGrounded index matches more
              → length current < length path
              → Done fuel current more)
          → Done (suc fuel) path included
      go none e more = rw (e, include_ancestors) grounded
      go (some []) e more = rw (e, include_ancestors) grounded
      go (some (name ∷ names)) e more =
          let shorter : BelowOption (length path) (some (name ∷ names)) =
            rw e at (display_parent_of-Below index path keys) in
          let from' : From index matches (name ∷ names) =
            (p, hit, higher path (name ∷ names) above e) in
          rw (e, include_ancestors)
            (more (name ∷ names) (KeySet.insert (name ∷ names) included) from'
              (insert-IsGrounded matches included (name ∷ names) from' grounded) shorter)

  pub include_all-Ends :
      (matches : List RelPath) (n : ℕ) (paths included : List RelPath)
      → IsKeyed index.nodes
      → ((p : RelPath) → KeySet.contains p paths ≡ true → KeySet.contains p matches ≡ true)
      → IsGrounded index matches included
      → Ends stop
          (λ (included, _). IsGrounded index matches included)
          (include_all stop has_text index n paths included)
  unfolding include_all KeySet.contains
  include_all-Ends matches n [] included keys matched grounded = grounded
  include_all-Ends matches n (path ∷ paths) included keys matched grounded =
      elim (Bool-cases (stop n)) [
        | inl set ↦ rw set (n, set)
        | inr quiet ↦ rw quiet (
            and_then-Ends stop (IsGrounded index matches)
              (λ (included, _). IsGrounded index matches included)
              (include_ancestors stop has_text index (suc (length path)) path included)
              (include_all stop has_text index (suc n) paths)
              (include_ancestors-Ends matches (suc (length path)) path included keys
                (path, matched path (ground arith), itself) grounded (omega arith))
              (λ more known.
                include_all-Ends matches (suc n) paths more keys
                  (λ p there. matched p (ground (arith, there))) known))
      ]

  pub expanded-Ends :
      (n : ℕ) (paths : List RelPath)
      → Ends stop
          (λ (context, _). AreDirectories index.nodes context)
          (expanded stop has_text index n paths)
  unfolding expanded
  expanded-Ends n [] = tt
  expanded-Ends n (path ∷ paths) = elim (Bool-cases (stop n)) [
    | inl set ↦ rw set (n, set)
    | inr quiet ↦ rw quiet (
        and_then-Ends stop (λ (context, _). AreDirectories index.nodes context)
          (λ (context, _). AreDirectories index.nodes context)
          (expanded stop has_text index (suc n) paths) _ (expanded-Ends (suc n) paths)
          (λ (context, _) known. elim (Bool-cases (is_directory (Map.lookup path index.nodes))) [
            | inl opens ↦ rw opens (opens, known)
            | inr closed ↦ rw closed known
          ]))
  ]
