-- ===== src/Vcs/Snapshot.antt =====
-- The snapshot of src/vcs/git.rs: the loop over the records and the sort by path.
use herdr_context.Base.{
  ℕ, suc, ◌≡◌, refl, true, false, not, ◌&&◌, some, List, [], ◌∷◌, arith, All, length, ◌==◌, nat_eq,
  list_eq, option_eq, inl, inr, Bool-cases,
}
use herdr_context.Base.Results.{Result, ok, err, ◌>>=◌}
use herdr_context.Base.Bytes.{lex_leb_total, split, drop_last, last}
use herdr_context.Vcs.Status.{VcsEntryStatus, VcsStatusSnapshot, components, component_lt, path_leb}
use herdr_context.Vcs.Fields.{InvalidOutput}
use herdr_context.Vcs.Porcelain.{
  parse_records, tag_of, insert_entry, sort_by_path, parse_porcelain_v2,
}
use herdr_context.Vcs.Entries.{
  Every, IsEntry, AreEntries, push_entry-AreEntries, parse_rename-IsEntry, parse_single-AreEntries,
}

parse_records-AreEntries :
    (lines : List (List ℕ)) (entries : List VcsEntryStatus)
    → AreEntries entries
    → Every AreEntries (parse_records lines entries)
unfolding parse_records
parse_records-AreEntries [] entries h = h
parse_records-AreEntries (line ∷ []) entries h =
    parse_single-AreEntries (tag_of line) line entries h
parse_records-AreEntries (line ∷ following ∷ rest) entries h =
    let on_rename = parse_records-AreEntries rest in
    let on_single = parse_records-AreEntries (following ∷ rest) in
    grind (
      arith, on_rename, on_single, parse_single-AreEntries, parse_rename-IsEntry,
      push_entry-AreEntries,
    )

-- No path is after the next one.
abbrev pub IsSorted : List VcsEntryStatus → Type 0
IsSorted [] = Unit
IsSorted (x ∷ []) = Unit
IsSorted (x ∷ y ∷ ys) = (path_leb x.path y.path ≡ true) × IsSorted (y ∷ ys)

path_leb_total : (a b : List ℕ) → path_leb a b ≡ false → path_leb b a ≡ true
unfolding path_leb
path_leb_total a b h = lex_leb_total component_lt (components a) (components b) h

insert_entry-IsSorted :
    (entry : VcsEntryStatus) (xs : List VcsEntryStatus)
    → IsSorted xs
    → IsSorted (insert_entry entry xs)
insert_entry-IsSorted entry [] h = tt
insert_entry-IsSorted entry (x ∷ []) h = ground (arith, path_leb_total entry.path x.path)
insert_entry-IsSorted entry (x ∷ y ∷ ys) (below, h) =
    ground
      (arith, path_leb_total entry.path x.path, below, h, insert_entry-IsSorted entry (y ∷ ys) h)

insert_entry-All :
    (entry : VcsEntryStatus) (xs : List VcsEntryStatus)
    → IsEntry entry
    → All IsEntry xs
    → All IsEntry (insert_entry entry xs)
insert_entry-All entry [] e h = (e, tt)
insert_entry-All entry (x ∷ xs) e (p, h) = elim (Bool-cases (path_leb entry.path x.path)) [
  | inl before ↦ rw before (e, (p, h))
  | inr after ↦ rw after (p, insert_entry-All entry xs e h)
]

length-insert_entry :
    (entry : VcsEntryStatus) (xs : List VcsEntryStatus)
    → length (insert_entry entry xs) ≡ suc (length xs)
length-insert_entry entry [] = refl
length-insert_entry entry (x ∷ xs) = ground (arith, length-insert_entry entry xs)

sort_by_path-IsSorted : (xs : List VcsEntryStatus) → IsSorted (sort_by_path xs)
unfolding sort_by_path
sort_by_path-IsSorted [] = tt
sort_by_path-IsSorted (x ∷ xs) =
    insert_entry-IsSorted x (sort_by_path xs) (sort_by_path-IsSorted xs)

length-sort_by_path : (xs : List VcsEntryStatus) → length (sort_by_path xs) ≡ length xs
unfolding sort_by_path
length-sort_by_path [] = refl
length-sort_by_path (x ∷ xs) =
    omega (arith, length-insert_entry x (sort_by_path xs), length-sort_by_path xs)

sort_by_path-All : (xs : List VcsEntryStatus) → All IsEntry xs → All IsEntry (sort_by_path xs)
unfolding sort_by_path
sort_by_path-All [] h = tt
sort_by_path-All (x ∷ xs) (p, h) = insert_entry-All x (sort_by_path xs) p (sort_by_path-All xs h)

-- A snapshot that is not stale, of proper entries in the order of their paths.
abbrev pub IsSnapshot : VcsStatusSnapshot → Type 0
IsSnapshot snapshot =
    (snapshot.stale ≡ false) × IsSorted snapshot.entries × AreEntries snapshot.entries

sorted-IsSnapshot :
    (m : Result InvalidOutput (List VcsEntryStatus))
    → Every AreEntries m
    → Every IsSnapshot
        (m >>= λ entries. ok (record { entries = sort_by_path entries; stale = false }))
sorted-IsSnapshot (err e) h = tt
sorted-IsSnapshot (ok entries) (room, h) = (
  refl,
  sort_by_path-IsSorted entries,
  (omega (arith, length-sort_by_path entries, room), sort_by_path-All entries h),
)

-- Whatever bytes Git prints, a snapshot that the parser gives is not stale, has its entries in the
-- order of their paths, has at most 100000 of them, and each has normalised relative paths, and a
-- source path where it is a rename or a copy.
pub parse_porcelain_v2-IsSnapshot : (output : List ℕ) → Every IsSnapshot (parse_porcelain_v2 output)
unfolding parse_porcelain_v2
parse_porcelain_v2-IsSnapshot output =
    elim (Bool-cases (not (output == []) && not (last output == some 0))) [
      | inl cut ↦ rw cut tt
      | inr closed ↦ elim (Bool-cases (output == [])) [
        | inl nothing ↦ rw (closed, nothing) (refl, tt, (omega arith, tt))
        | inr something ↦
            rw (closed, something)
              (sorted-IsSnapshot (parse_records (split 0 (drop_last output)) [])
                (parse_records-AreEntries (split 0 (drop_last output)) [] (omega arith, tt)))
      ]
    ]
