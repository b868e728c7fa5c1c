-- ===== src/Vcs/Entries.antt =====
-- What the parser of src/vcs/git.rs promises of its entries.
use herdr_context.Base.{
  ℕ, ◌≤◌, ◌≡◌, refl, subst, true, not, ◌&&◌, Option, none, some, List, [], ◌∷◌, ◌++◌, arith, All,
  length, length-append, ◌==◌, nat_eq, if◌then◌else◌, inl, inr, Bool-cases,
}
use herdr_context.Base.Results.{Result, ok, err, ◌>>=◌, map_err}
use herdr_context.Vcs.Status.{
  VcsStatusKind, VcsEntryStatus, VcsEntryStatusError, path, source_path, missing_source_path, new,
  normalize_relative_path, normalize_source, needs_source, is_some,
}
use herdr_context.Vcs.Names.{IsNormal, IsNormal-normalize}
use herdr_context.Vcs.Fields.{InvalidOutput, invalid_entry, make_entry}
use herdr_context.Vcs.Porcelain.{
  Tag, empty, header, one, two, conflict, question, exclamation, other, max_status_entries,
  push_entry, parse_ordinary, parse_ordinary_fields, parse_rename_or_copy, parse_rename_fields,
  parse_unmerged, parse_unmerged_fields, parse_untracked, parse_single,
}

-- The result, if there is one, has the property.
abbrev pub Every {ℓ κ μ} : {E : Type ℓ} {A : Type κ} → (A → Type μ) → Result E A → Type μ
Every P (ok a) = P a
Every P (err e) = Unit

pub Every-bind {ℓ κ μ ν} :
    {E : Type ℓ} {A : Type κ} {B : Type ν} (P : B → Type μ) (m : Result E A) (f : A → Result E B)
    → ((a : A) → m ≡ ok a → Every P (f a))
    → Every P (m >>= f)
Every-bind P (ok a) f h = h a refl
Every-bind P (err e) f h = tt

Every-ok {ℓ κ μ} :
    {E : Type ℓ} {A : Type κ} (P : A → Type μ) (m : Result E A) {a : A} → Every P m → m ≡ ok a → P a
Every-ok P (ok a) h e = subst (Every P) e h
Every-ok P (err e') h e = absurd (ground arith)

abbrev IsSource : Option (List ℕ) → Type 0
IsSource none = Unit
IsSource (some source) = IsNormal source

-- The paths are normalised, and a rename or a copy has its source.
pub record IsEntry (entry : VcsEntryStatus) : Type 0 where
  pub path_normal : IsNormal entry.path
  pub source_normal : IsSource entry.source_path
  pub has_source : needs_source entry.kind ≡ true → is_some entry.source_path ≡ true

normalize_source-IsSource : (source : Option (List ℕ)) → Every IsSource (normalize_source source)
unfolding normalize_source
normalize_source-IsSource none = tt
normalize_source-IsSource (some bytes) =
    Every-bind IsSource (normalize_relative_path bytes source_path) _
      λ p e. IsNormal-normalize bytes source_path p e

of_kind :
    (kind : VcsStatusKind) (index worktree : Option VcsStatusKind) (p : List ℕ)
    (s : Option (List ℕ))
    → IsNormal p
    → IsSource s
    → Every {E = VcsEntryStatusError} IsEntry (
        if needs_source kind && not (is_some s)
        then err (missing_source_path kind)
        else ok (record {
          path = p;
          source_path = s;
          kind = kind;
          index_state = index;
          worktree_state = worktree;
        }))
of_kind kind index worktree p s normal source =
    elim (Bool-cases (needs_source kind && not (is_some s))) [
      | inl lost ↦ rw lost tt
      | inr fine ↦ rw fine (record {
        path_normal = normal;
        source_normal = source;
        has_source = λ needed. ground (arith, fine);
      })
    ]

pub new-IsEntry :
    (bytes : List ℕ) (source : Option (List ℕ)) (kind : VcsStatusKind)
    (index worktree : Option VcsStatusKind)
    → Every IsEntry (new bytes source kind index worktree)
unfolding new
new-IsEntry bytes source kind index worktree =
    Every-bind IsEntry (normalize_relative_path bytes path) _ λ p e.
      Every-bind IsEntry (normalize_source source) _ λ s e'.
        of_kind kind index worktree p s (IsNormal-normalize bytes path p e)
          (Every-ok IsSource (normalize_source source) (normalize_source-IsSource source) e')

make_entry-IsEntry :
    (bytes : List ℕ) (source : Option (List ℕ)) (kind : VcsStatusKind)
    (index worktree : Option VcsStatusKind)
    → Every IsEntry (make_entry bytes source kind index worktree)
unfolding make_entry
make_entry-IsEntry bytes source kind index worktree =
    go (new bytes source kind index worktree) (new-IsEntry bytes source kind index worktree)
  where
    go :
        (m : Result VcsEntryStatusError VcsEntryStatus)
        → Every IsEntry m
        → Every IsEntry (map_err invalid_entry m)
    go (ok entry) h = h
    go (err e) h = tt

parse_ordinary-IsEntry : (line : List ℕ) → Every IsEntry (parse_ordinary line)
unfolding parse_ordinary parse_ordinary_fields
parse_ordinary-IsEntry line = grind (arith, make_entry-IsEntry)

pub parse_rename-IsEntry : (line source : List ℕ) → Every IsEntry (parse_rename_or_copy line source)
unfolding parse_rename_or_copy parse_rename_fields
parse_rename-IsEntry line source = grind (arith, make_entry-IsEntry)

parse_unmerged-IsEntry : (line : List ℕ) → Every IsEntry (parse_unmerged line)
unfolding parse_unmerged parse_unmerged_fields
parse_unmerged-IsEntry line = grind (arith, make_entry-IsEntry)

parse_untracked-IsEntry : (line : List ℕ) → Every IsEntry (parse_untracked line)
unfolding parse_untracked
parse_untracked-IsEntry line = grind (arith, make_entry-IsEntry)

-- The entries of a snapshot: at most as many as it may hold, and each a proper entry.
abbrev pub AreEntries : List VcsEntryStatus → Type 0
AreEntries entries = (length entries ≤ max_status_entries) × All IsEntry entries

All-append :
    (xs : List VcsEntryStatus) (x : VcsEntryStatus)
    → All IsEntry xs
    → IsEntry x
    → All IsEntry (xs ++ x ∷ [])
All-append [] x h e = (e, tt)
All-append (y ∷ ys) x (p, h) e = (p, All-append ys x h e)

pub push_entry-AreEntries :
    (entries : List VcsEntryStatus) (entry : VcsEntryStatus)
    → AreEntries entries
    → IsEntry entry
    → Every AreEntries (push_entry entries entry)
unfolding push_entry nat_eq
push_entry-AreEntries entries entry (room, h) e =
    elim (Bool-cases (length entries == max_status_entries)) [
      | inl full ↦ rw full tt
      | inr some_room ↦ rw some_room (
        ground (arith, some_room, length-append entries (entry ∷ [])),
        All-append entries entry h e,
      )
    ]

pub push_parsed :
    (m : Result InvalidOutput VcsEntryStatus) (entries : List VcsEntryStatus)
    → Every IsEntry m
    → AreEntries entries
    → Every AreEntries (m >>= push_entry entries)
push_parsed (ok entry) entries e h = push_entry-AreEntries entries entry h e
push_parsed (err _) entries e h = tt

pub parse_single-AreEntries :
    (tag : Tag) (line : List ℕ) (entries : List VcsEntryStatus)
    → AreEntries entries
    → Every AreEntries (parse_single tag line entries)
unfolding parse_single
parse_single-AreEntries empty line entries h = tt
parse_single-AreEntries header line entries h = h
parse_single-AreEntries one line entries h =
    push_parsed (parse_ordinary line) entries (parse_ordinary-IsEntry line) h
parse_single-AreEntries two line entries h = tt
parse_single-AreEntries conflict line entries h =
    push_parsed (parse_unmerged line) entries (parse_unmerged-IsEntry line) h
parse_single-AreEntries question line entries h =
    push_parsed (parse_untracked line) entries (parse_untracked-IsEntry line) h
parse_single-AreEntries exclamation line entries h = grind (arith, h)
parse_single-AreEntries other line entries h = tt
