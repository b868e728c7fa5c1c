-- ===== src/Files/Tree/Statuses.antt =====
-- The status map that src/files/tree.rs builds: a path and the directories above it.
use herdr_context.Base.{
  ℕ, ◌≤◌, ◌≡◌, refl, ap, ◌∙◌, Bool, true, false, not, ◌&&◌, Option, none, some, List, [], ◌∷◌, ◌++◌,
  map, arith, take_while, ltb, ◌==◌, nat_eq, list_eq, if◌then◌else◌, inl, inr, Bool-cases,
}
use herdr_context.Base.KeySet
use herdr_context.Base.Order.{nat_ord, list_ord}
use herdr_context.Base.Map
use herdr_context.Base.Map.{Map}
use herdr_context.Base.BTreeMap
use herdr_context.Base.Paths.{
  RelPath, above, starts_with, contains-above, contains-append_last, contains_root-map,
}
use herdr_context.Vcs.Status.{VcsStatusKind}
use herdr_context.Files.Nodes.{
  is_root, status_order, preferred, ancestor_status, insert_preferred_status, insert_each,
  insert_status_with_ancestors,
}

abbrev pub rank : Option VcsStatusKind → ℕ
rank none = 8
rank (some status) = status_order status

-- The stronger of the two ranks.
abbrev pub stronger : ℕ → ℕ → ℕ
stronger a b = if ltb a b then a else b

stronger_twice : (a b : ℕ) → stronger a (stronger a b) ≡ stronger a b
stronger_twice a b = ground arith

same_path : (p q : RelPath) → (p == q) ≡ true → p ≡ q
same_path p q h = ground (arith, h)

inserted_at :
    (statuses : Map RelPath VcsStatusKind) (path : RelPath) (status : VcsStatusKind)
    (old : Option VcsStatusKind)
    → Map.lookup path statuses ≡ old
    → rank (Map.lookup path (insert_preferred_status statuses path status))
      ≡ stronger (status_order status) (rank old)
unfolding insert_preferred_status
inserted_at statuses path status none e =
    rw (e, insert_preferred_status, BTreeMap.lookup-insert path path status statuses) (ground arith)
inserted_at statuses path status (some current) e =
    rw
      (
        e,
        insert_preferred_status,
        BTreeMap.lookup-insert path path (preferred status current) statuses,
      )
      (ground arith)

inserted_elsewhere :
    (statuses : Map RelPath VcsStatusKind) (p path : RelPath) (status : VcsStatusKind)
    (old : Option VcsStatusKind)
    → Map.lookup path statuses ≡ old
    → (p == path) ≡ false
    → Map.lookup p (insert_preferred_status statuses path status) ≡ Map.lookup p statuses
unfolding insert_preferred_status
inserted_elsewhere statuses p path status none e other =
    rw (e, insert_preferred_status, BTreeMap.lookup-insert p path status statuses, other) refl
inserted_elsewhere statuses p path status (some current) e other =
    rw
      (
        e,
        insert_preferred_status,
        BTreeMap.lookup-insert p path (preferred status current) statuses,
        other,
      )
      refl

pub rank-insert_preferred_status :
    (statuses : Map RelPath VcsStatusKind) (p path : RelPath) (status : VcsStatusKind)
    → rank (Map.lookup p (insert_preferred_status statuses path status)) ≡ (
        if p == path
        then stronger (status_order status) (rank (Map.lookup p statuses))
        else rank (Map.lookup p statuses))
rank-insert_preferred_status statuses p path status = elim (Bool-cases (p == path)) [
  | inl same ↦ rw same (
      rw (same_path p path same) (inserted_at statuses path status (Map.lookup path statuses) refl))
  | inr other ↦
      rw other
        (ap rank (inserted_elsewhere statuses p path status (Map.lookup path statuses) refl other))
]

rank-insert_each :
    (statuses : Map RelPath VcsStatusKind) (p : RelPath) (paths : List RelPath)
    (status : VcsStatusKind)
    → rank (Map.lookup p (insert_each statuses paths status)) ≡ (
        if KeySet.contains p paths
        then stronger (status_order status) (rank (Map.lookup p statuses))
        else rank (Map.lookup p statuses))
unfolding insert_each KeySet.contains
rank-insert_each statuses p [] status = refl
rank-insert_each statuses p (path ∷ paths) status = ground (
  arith,
  rank-insert_each (insert_preferred_status statuses path status) p paths status,
  rank-insert_preferred_status statuses p path status,
  stronger_twice (status_order status) (rank (Map.lookup p statuses)),
)

abbrev not_root : RelPath → Bool
not_root p = not (is_root p)

take_while-above :
    (name : List ℕ) (ps : List RelPath)
    → take_while not_root (map (◌∷◌ name) ps ++ [] ∷ []) ≡ map (◌∷◌ name) ps
take_while-above name [] = refl
take_while-above name (p ∷ ps) = ap (◌∷◌ (name ∷ p)) (take_while-above name ps)

contains-take_while :
    (path p : RelPath)
    → KeySet.contains p (take_while not_root (above path))
      ≡ (not_root p && KeySet.contains p (above path))
unfolding above KeySet.contains
contains-take_while [] [] = refl
contains-take_while [] (m ∷ ms) = refl
contains-take_while (name ∷ names) [] =
    rw (take_while-above name (above names)) (contains_root-map name (above names))
contains-take_while (name ∷ names) (m ∷ ms) =
    rw (take_while-above name (above names))
      (ground (arith, contains-append_last (m ∷ ms) (map (◌∷◌ name) (above names))))

-- What one entry shown at a path gives a path: its own status there, `Modified` or `Conflicted` in
-- the directories above it but the root, and nothing elsewhere.
abbrev pub contribution : RelPath → RelPath → VcsStatusKind → ℕ
contribution p path status =
    if is_root p
    then 8
    else if p == path
    then status_order status
    else if starts_with path p
    then status_order (ancestor_status status)
    else 8

pub rank_le : (o : Option VcsStatusKind) → rank o ≤ 8
rank_le none = omega arith
rank_le (some status) = ground arith

root_differs : (name : List ℕ) (names : RelPath) → ([] == name ∷ names) ≡ false
unfolding list_eq
root_differs name names = refl

affected :
    (statuses : Map RelPath VcsStatusKind) (p : RelPath) (name : List ℕ) (names : RelPath)
    (status : VcsStatusKind)
    → (if KeySet.contains p (take_while not_root (above (name ∷ names)))
        then stronger
            (status_order (ancestor_status status))
            (rank (Map.lookup p (insert_preferred_status statuses (name ∷ names) status)))
        else rank (Map.lookup p (insert_preferred_status statuses (name ∷ names) status)))
      ≡ stronger (contribution p (name ∷ names) status) (rank (Map.lookup p statuses))
affected statuses [] name names status =
    let path = name ∷ names in
    rw
      (
        contains-take_while path [],
        rank-insert_preferred_status statuses [] path status,
        root_differs name names,
      )
      (ground (arith, rank_le (Map.lookup [] statuses)))
affected statuses (m ∷ ms) name names status =
    let path = name ∷ names in
    rw
      (
        contains-take_while path (m ∷ ms),
        contains-above path (m ∷ ms),
        rank-insert_preferred_status statuses (m ∷ ms) path status,
      )
      (ground (arith, rank_le (Map.lookup (m ∷ ms) statuses)))

pub rank-insert_status_with_ancestors :
    (statuses : Map RelPath VcsStatusKind) (p path : RelPath) (status : VcsStatusKind)
    → rank (Map.lookup p (insert_status_with_ancestors statuses path status))
      ≡ stronger (contribution p path status) (rank (Map.lookup p statuses))
unfolding insert_status_with_ancestors starts_with list_eq
rank-insert_status_with_ancestors statuses [] [] status =
    ground (arith, rank_le (Map.lookup [] statuses))
rank-insert_status_with_ancestors statuses (m ∷ ms) [] status =
    ground (arith, rank_le (Map.lookup (m ∷ ms) statuses))
rank-insert_status_with_ancestors statuses p (name ∷ names) status =
    let first = insert_preferred_status statuses (name ∷ names) status in
    rank-insert_each first p (take_while not_root (above (name ∷ names))) (ancestor_status status)
    ∙ affected statuses p name names status
