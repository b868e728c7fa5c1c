-- ===== src/Vcs/Names.antt =====
-- The normalised paths of src/vcs/status.rs: names, each proper, with a separator between two.
use herdr_context.Base.{
  ℕ, ◌≡◌, refl, sym, subst, ap, Bool, true, false, Option, none, some, List, [], ◌∷◌, arith, map,
  All, ◌==◌, nat_eq, list_eq, if◌then◌else◌, ◌||◌, Bool-cases, Option-cases, inl, inr,
}
use herdr_context.Base.Results.{Result, ok, err}
use herdr_context.Base.Bytes.{split, join, Lacks, split-join, split-Lacks}
use herdr_context.Vcs.Status.{
  Field, Component, normal, components, first_component, later_components, normal_names,
  normalize_relative_path, VcsEntryStatusError, empty_path,
}

-- A name that a path may hold: not empty, no separator in it, and neither `.` nor `..`.
abbrev pub Proper : List ℕ → Type 0
Proper name =
    Lacks b'/' name
    × ((name == []) ≡ false)
    × ((name == b'.' ∷ []) ≡ false)
    × ((name == b'.' ∷ b'.' ∷ []) ≡ false)

-- The path is some names, each proper.
abbrev pub IsNormal : List ℕ → Type 0
IsNormal path =
    (name : List ℕ) × (names : List (List ℕ)) × All Proper (name ∷ names)
    × (path ≡ join b'/' (name ∷ names))

All-Lacks : (names : List (List ℕ)) → All Proper names → All (Lacks b'/') names
All-Lacks [] h = tt
All-Lacks (name ∷ names) (p, h) = (p.0, All-Lacks names h)

later_components-Proper :
    (names : List (List ℕ)) → All Proper names → later_components names ≡ map normal names
unfolding later_components
later_components-Proper [] h = refl
later_components-Proper (name ∷ names) ((_, filled, dot, dots), h) =
    rw (filled, dot, dots, later_components-Proper names h, later_components) refl

normal_names-map : (names : List (List ℕ)) → normal_names (map normal names) ≡ some names
unfolding normal_names
normal_names-map [] = refl
normal_names-map (name ∷ names) = rw (normal_names-map names, normal_names) refl

pub join-filled :
    (name : List ℕ) (names : List (List ℕ))
    → (name == []) ≡ false
    → (join b'/' (name ∷ names) == []) ≡ false
unfolding list_eq nat_eq
join-filled [] names h = absurd (ground arith)
join-filled (b ∷ bs) [] h = refl
join-filled (b ∷ bs) (next ∷ names) h = refl

pub components-join :
    (name : List ℕ) (names : List (List ℕ))
    → All Proper (name ∷ names)
    → components (join b'/' (name ∷ names)) ≡ map normal (name ∷ names)
unfolding components first_component later_components
components-join name names h =
    let ((_, filled, dot, dots), proper) = h in
    rw
      (
        split-join b'/' name names (All-Lacks (name ∷ names) h),
        join-filled name names filled,
        filled,
        dot,
        dots,
      )
      (ap (◌∷◌ (normal name)) (later_components-Proper names proper))

if_same {ℓ} : {A : Type ℓ} (b : Bool) (x : A) → (if b then x else x) ≡ x
if_same true x = refl
if_same false x = refl

normalize-join :
    (name : List ℕ) (names : List (List ℕ)) (field : Field)
    → All Proper (name ∷ names)
    → normalize_relative_path (join b'/' (name ∷ names)) field ≡ ok (join b'/' (name ∷ names))
unfolding normalize_relative_path
normalize-join name names field proper =
    rw
      (
        components-join name names proper,
        normal_names-map (name ∷ names),
        join-filled name names (proper.0).1,
        normalize_relative_path,
      )
      (if_same _ _)

-- Normalising a path of proper names gives it back.
pub normalize-IsNormal :
    (path : List ℕ) (field : Field) → IsNormal path → normalize_relative_path path field ≡ ok path
normalize-IsNormal path field (name, names, proper, e) =
    subst (λ p. normalize_relative_path p field ≡ ok p) (sym e)
      (normalize-join name names field proper)

-- The names that a loop over components has found, if it has not failed.
abbrev Found : Option (List (List ℕ)) → Type 0
Found none = Unit
Found (some names) = All Proper names

normal_names-Found :
    (name : List ℕ) (rest : List Component)
    → Proper name
    → Found (normal_names rest)
    → Found (normal_names (normal name ∷ rest))
unfolding normal_names
normal_names-Found name rest p h = elim (Option-cases (normal_names rest)) [
  | inl e ↦ rw (e, normal_names) tt
  | inr (names, e) ↦ rw (e, normal_names) (p, rw e at h)
]

later_components-Found :
    (pieces : List (List ℕ))
    → All (Lacks b'/') pieces
    → Found (normal_names (later_components pieces))
unfolding later_components normal_names
later_components-Found [] h = tt
later_components-Found (piece ∷ pieces) (lacks, h) =
    elim (Bool-cases (piece == [] || piece == b'.' ∷ [])) [
      | inl skipped ↦ rw (skipped, later_components) (later_components-Found pieces h)
      | inr kept ↦ elim (Bool-cases (piece == b'.' ∷ b'.' ∷ [])) [
        | inl dots ↦ rw (kept, dots, later_components) tt
        | inr name ↦
            rw (kept, name, later_components)
              (normal_names-Found piece (later_components pieces)
                (lacks, ground (arith, kept), ground (arith, kept), name)
                (later_components-Found pieces h))
      ]
    ]

components-Found : (path : List ℕ) → Found (normal_names (components path))
unfolding components first_component normal_names
components-Found path = go (split b'/' path) (split-Lacks b'/' path)
  where
    go :
        (pieces : List (List ℕ))
        → All (Lacks b'/') pieces
        → Found (normal_names (first_component path pieces))
    go [] h = tt
    go (piece ∷ pieces) h = elim (Bool-cases (path == [])) [
      | inl e ↦ rw (e, first_component) tt
      | inr filled ↦ elim (Bool-cases (piece == [])) [
        | inl root ↦ rw (filled, root, first_component) tt
        | inr named ↦ elim (Bool-cases (piece == b'.' ∷ [])) [
          | inl here ↦ rw (filled, named, here, first_component) tt
          | inr other ↦
              rw (filled, named, other, first_component) (later_components-Found (piece ∷ pieces) h)
        ]
      ]
    ]

-- What the loop gives once it has its names.
abbrev of_names : List (List ℕ) → List ℕ → Field → Result VcsEntryStatusError (List ℕ)
of_names names bytes field =
    let normalized = join b'/' names in
    if normalized == []
    then err (empty_path field)
    else if normalized == bytes
    then ok bytes
    else ok normalized

of_names-IsNormal :
    (names : List (List ℕ)) (bytes : List ℕ) (field : Field) (path : List ℕ)
    → All Proper names
    → of_names names bytes field ≡ ok path
    → IsNormal path
unfolding list_eq
of_names-IsNormal [] bytes field path proper e = absurd (ground arith)
of_names-IsNormal (name ∷ names) bytes field path proper e = (name, names, proper, ground arith)

-- A path that is normalised is some names, each proper.
pub IsNormal-normalize :
    (bytes : List ℕ) (field : Field) (path : List ℕ)
    → normalize_relative_path bytes field ≡ ok path
    → IsNormal path
unfolding normalize_relative_path
IsNormal-normalize bytes field path e = elim (Option-cases (normal_names (components bytes))) [
  | inl failed ↦ absurd (ground (arith, failed))
  | inr (names, found) ↦
      of_names-IsNormal names bytes field path (rw found at (components-Found bytes))
        (ground (arith, found))
]

-- A path that is normalised is some names, each not empty, without a separator, and neither `.`
-- nor `..`, with a separator between two; normalising it again gives it back.
pub normalize_relative_path-IsNormal :
    (bytes : List ℕ) (field again : Field) (path : List ℕ)
    → normalize_relative_path bytes field ≡ ok path
    → IsNormal path × (normalize_relative_path path again ≡ ok path)
normalize_relative_path-IsNormal bytes field again path e =
    let normal = IsNormal-normalize bytes field path e in
    (normal, normalize-IsNormal path again normal)
