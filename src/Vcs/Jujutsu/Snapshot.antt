-- ===== src/Vcs/Jujutsu/Snapshot.antt =====
-- What the parser of src/vcs/jj.rs promises of a snapshot.
use herdr_context.Base.{
  ℕ, ◌+◌, ◌≤◌, ◌≡◌, refl, Bool, false, ◌&&◌, Option, none, some, List, [], ◌∷◌, arith, All,
  All-append, length, length-append, ◌==◌, nat_eq, list_eq, if◌then◌else◌, inl, inr, Bool-cases,
  Option-cases,
}
use herdr_context.Base.Results.{Result, ok, err, ◌>>=◌, map_err}
use herdr_context.Base.Bytes.{split}
use herdr_context.Vcs.Status.{VcsStatusKind, VcsEntryStatus, VcsEntryStatusError, VcsStatusSnapshot}
use herdr_context.Vcs.Entries.{IsEntry, Every, Every-bind, new-IsEntry}
use herdr_context.Vcs.Jujutsu.{
  InvalidOutput, invalid_path, entry_limit, FileType, max_status_entries, is_structural, renames,
  kind_of, conflicted_if, make_entry, parse_record, pushed, parse_fields, parse_templated_diff,
  strip_last,
}

abbrev Found : Option VcsEntryStatus → Type 0
Found none = Unit
Found (some entry) = IsEntry entry

entry_of_result-Found :
    (m : Result VcsEntryStatusError VcsEntryStatus)
    → Every IsEntry m
    → Every {E = InvalidOutput} Found (map_err invalid_path m >>= λ entry. ok (some entry))
entry_of_result-Found (ok entry) h = h
entry_of_result-Found (err e) h = tt

make_entry-Found :
    (base : VcsStatusKind) (source target : List ℕ) (source_conflict target_conflict : Bool)
    (source_type target_type : FileType)
    → Every Found
        (make_entry base source target source_conflict target_conflict source_type target_type)
unfolding make_entry
make_entry-Found base source target source_conflict target_conflict source_type target_type =
    elim (Bool-cases (is_structural source_type && is_structural target_type)) [
      | inl skipped ↦ rw skipped tt
      | inr entry ↦ rw entry (
          entry_of_result-Found _ (
            new-IsEntry target (if renames base then some source else none)
              (kind_of base source_conflict target_conflict source_type target_type)
              (conflicted_if source_conflict) (conflicted_if target_conflict)))
    ]

parse_record-Found :
    (status : List ℕ) (fields : List (List ℕ)) → Every Found (parse_record status fields)
unfolding parse_record
parse_record-Found status fields = grind (arith, make_entry-Found)

-- After some records there are at most as many entries.
abbrev Counted : ℕ → List VcsEntryStatus → Type 0
Counted records entries =
    (records ≤ max_status_entries) × (length entries ≤ records) × All IsEntry entries

abbrev pub AreEntries : List VcsEntryStatus → Type 0
AreEntries entries = (length entries ≤ max_status_entries) × All IsEntry entries

pushed-Counted :
    (records : ℕ) (entries : List VcsEntryStatus) (entry : Option VcsEntryStatus)
    → (records == max_status_entries) ≡ false
    → Counted records entries
    → Found entry
    → Counted (records + 1) (pushed entries entry)
unfolding nat_eq
pushed-Counted records entries none room (most, h, all) e =
    (ground (arith, room, most), omega (arith, h), all)
pushed-Counted records entries (some entry) room (most, h, all) e = (
  ground (arith, room, most),
  omega (arith, h, length-append entries (entry ∷ [])),
  All-append IsEntry entries (entry ∷ []) all (e, tt),
)

ok-Found :
    (m : Result InvalidOutput (Option VcsEntryStatus)) (entry : Option VcsEntryStatus)
    → Every Found m
    → m ≡ ok entry
    → Found entry
ok-Found m entry h e = rw e at h

-- One round of the loop, whatever follows it.
round-AreEntries :
    (records : ℕ) (entries : List VcsEntryStatus) (status : List ℕ) (fields : List (List ℕ))
    (next : List VcsEntryStatus → Result InvalidOutput (List VcsEntryStatus))
    → ((es : List VcsEntryStatus) → Counted (records + 1) es → Every AreEntries (next es))
    → Counted records entries
    → Every AreEntries (
        if records == max_status_entries
        then err entry_limit
        else parse_record status fields >>= λ entry. next (pushed entries entry))
round-AreEntries records entries status fields next rest h =
    elim (Bool-cases (records == max_status_entries)) [
      | inl full ↦ rw full tt
      | inr room ↦ rw room (
          Every-bind AreEntries (parse_record status fields) (λ entry. next (pushed entries entry))
            λ entry e. rest (pushed entries entry) (
              pushed-Counted records entries entry room h
                (ok-Found (parse_record status fields) entry (parse_record-Found status fields) e)))
    ]

enough :
    (records : ℕ) (entries : List VcsEntryStatus) → Counted records entries → AreEntries entries
enough records entries (most, h, all) = (omega (arith, most, h), all)

parse_fields-AreEntries :
    (records : ℕ) (entries : List VcsEntryStatus) (fields : List (List ℕ))
    → Counted records entries
    → Every AreEntries (parse_fields records entries fields)
unfolding parse_fields
parse_fields-AreEntries records entries [] h = enough records entries h
parse_fields-AreEntries records entries (status ∷ a ∷ b ∷ c ∷ d ∷ e ∷ f ∷ rest) h =
    round-AreEntries records entries status (a ∷ b ∷ c ∷ d ∷ e ∷ f ∷ [])
      (λ es. parse_fields (records + 1) es rest)
      (λ es counted. parse_fields-AreEntries (records + 1) es rest counted) h
parse_fields-AreEntries records entries (status ∷ few) h =
    round-AreEntries records entries status few ok (λ es counted. enough (records + 1) es counted) h

-- The snapshot has proper entries, at most as many as the limit, and the staleness given.
abbrev pub IsSnapshot : Bool → VcsStatusSnapshot → Type 0
IsSnapshot stale snapshot = AreEntries snapshot.entries × (snapshot.stale ≡ stale)

entries-IsSnapshot :
    (stale : Bool) (m : Result InvalidOutput (List VcsEntryStatus))
    → Every AreEntries m
    → Every (IsSnapshot stale) (m >>= λ entries. ok (record { entries = entries; stale = stale }))
entries-IsSnapshot stale (ok entries) h = (h, refl)
entries-IsSnapshot stale (err e) h = tt

-- Whatever the bytes, a snapshot that the parser gives holds at most 100,000 entries, each of which
-- has a normalised path and, where it is a rename or a copy, a normalised source path, and it is
-- stale exactly where the caller says so.
pub parse_templated_diff-IsSnapshot :
    (output : List ℕ) (stale : Bool) → Every (IsSnapshot stale) (parse_templated_diff output stale)
unfolding parse_templated_diff
parse_templated_diff-IsSnapshot [] stale = ((omega arith, tt), refl)
parse_templated_diff-IsSnapshot (b ∷ bs) stale = elim (Option-cases (strip_last 0 (b ∷ bs))) [
  | inl unterminated ↦ rw (unterminated, Every) tt
  | inr (stripped, e) ↦
      rw (e, Every)
        (entries-IsSnapshot stale (parse_fields 0 [] (split 0 stripped))
          (parse_fields-AreEntries 0 [] (split 0 stripped) (omega arith, omega arith, tt)))
]
