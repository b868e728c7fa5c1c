-- ===== src/Vcs/Jujutsu/Reread.antt =====
-- Records of Jujutsu's template, printed, and read back by src/vcs/jj.rs.
use herdr_context.Base.{
  ℕ, ◌+◌, ◌≤◌, ◌≡◌, refl, sym, ap, ◌∙◌, Bool, true, false, not, ◌&&◌, Option, none, some, List, [],
  ◌∷◌, ◌++◌, map, arith, All, any, append_assoc, append_nil, length, ◌==◌, nat_eq, list_eq, inl,
  inr, Bool-cases,
}
use herdr_context.Base.Results.{ok, ◌>>=◌}
use herdr_context.Base.Bytes.{split, join, Lacks, split-join, last-append, drop_last-append}
use herdr_context.Vcs.Status.{
  path, source_path, needs_source, normalize_source, VcsStatusKind, added, modified, deleted,
  renamed, copied, status_kind_eq, normal, VcsEntryStatus, new,
}
use herdr_context.Vcs.Names.{IsNormal, components-join, normalize-IsNormal}
use herdr_context.Vcs.Jujutsu.{
  FileType, file_type_eq, max_status_entries, type_name, next_field, parse_status, parse_bool,
  parse_file_type, validate_status_path, is_normal, is_structural, renames, kind_of, conflicted_if,
  make_entry, parse_record, pushed, parse_fields, parse_templated_diff, strip_last,
}
use herdr_context.Vcs.Jujutsu.Records.{DiffRecord, entry_of, built, built_lem}

abbrev pub status_code : VcsStatusKind → List ℕ
status_code modified = b'M' ∷ []
status_code added = b'A' ∷ []
status_code deleted = b'D' ∷ []
status_code copied = b'C' ∷ []
status_code renamed = b'R' ∷ []
status_code _ = b'?' ∷ []

abbrev pub has_code : VcsStatusKind → Bool
has_code modified = true
has_code added = true
has_code deleted = true
has_code copied = true
has_code renamed = true
has_code _ = false

abbrev pub bool_name : Bool → List ℕ
bool_name true = b't' ∷ b'r' ∷ b'u' ∷ b'e' ∷ []
bool_name false = b'f' ∷ b'a' ∷ b'l' ∷ b's' ∷ b'e' ∷ []

abbrev pub fields_of : DiffRecord → List (List ℕ)
fields_of r =
    r.source
    ∷ r.target
    ∷ bool_name r.source_conflict
    ∷ bool_name r.target_conflict
    ∷ type_name r.source_type
    ∷ type_name r.target_type
    ∷ []

abbrev pub all_fields : List DiffRecord → List (List ℕ)
all_fields [] = []
all_fields (r ∷ rs) = status_code r.status ∷ fields_of r ++ all_fields rs

-- Every field ends with a NUL.
abbrev pub print : List DiffRecord → List ℕ
print [] = []
print (r ∷ rs) = join 0 (all_fields (r ∷ rs)) ++ 0 ∷ []

abbrev pub entries_of : List DiffRecord → List VcsEntryStatus
entries_of [] = []
entries_of (r ∷ rs) = pushed [] (entry_of r) ++ entries_of rs

pub record IsPrintable (r : DiffRecord) : Type 0 where
  pub status_known : has_code r.status ≡ true
  pub source_normal : IsNormal r.source
  pub target_normal : IsNormal r.target
  pub source_free : Lacks 0 r.source
  pub target_free : Lacks 0 r.target

parse_status-code :
    (kind : VcsStatusKind) → has_code kind ≡ true → parse_status (status_code kind) ≡ ok kind
unfolding parse_status
parse_status-code kind h = ground arith

parse_bool-name : (b : Bool) → parse_bool (bool_name b) ≡ ok b
unfolding parse_bool
parse_bool-name true = refl
parse_bool-name false = refl

parse_file_type-name : (t : FileType) → parse_file_type (type_name t) ≡ ok t
unfolding parse_file_type
parse_file_type-name t = ground arith

no_other : (names : List (List ℕ)) → any (λ c. not (is_normal c)) (map normal names) ≡ false
no_other [] = refl
no_other (name ∷ names) = no_other names

validate-IsNormal :
    (bytes : List ℕ) (in_entry : Bool)
    → IsNormal bytes
    → validate_status_path bytes in_entry ≡ ok tt
unfolding validate_status_path
validate-IsNormal bytes false h = refl
validate-IsNormal bytes true (name, names, proper, e) =
    rw (e, components-join name names proper) (rw (no_other names) refl)

needs_source-kind_of :
    (base : VcsStatusKind) (source_conflict target_conflict : Bool)
    (source_type target_type : FileType)
    → renames base ≡ false
    → needs_source (kind_of base source_conflict target_conflict source_type target_type) ≡ false
needs_source-kind_of base source_conflict target_conflict source_type target_type plain =
    ground arith

new_renamed :
    (source target : List ℕ) (kind : VcsStatusKind) (index worktree : Option VcsStatusKind)
    → IsNormal source
    → IsNormal target
    → new target (some source) kind index worktree
      ≡ ok (record {
        path = target;
        source_path = some source;
        kind = kind;
        index_state = index;
        worktree_state = worktree;
      })
unfolding new normalize_source
new_renamed source target kind index worktree s t =
    rw (normalize-IsNormal target path t, normalize-IsNormal source source_path s, new)
      (ground arith)

new_plain :
    (target : List ℕ) (kind : VcsStatusKind) (index worktree : Option VcsStatusKind)
    → IsNormal target
    → needs_source kind ≡ false
    → new target none kind index worktree
      ≡ ok (record {
        path = target;
        source_path = none;
        kind = kind;
        index_state = index;
        worktree_state = worktree;
      })
unfolding new normalize_source
new_plain target kind index worktree t plain =
    rw (normalize-IsNormal target path t, plain, new) refl

make_entry-built :
    (r : DiffRecord)
    → IsPrintable r
    → make_entry r.status r.source r.target r.source_conflict r.target_conflict r.source_type
        r.target_type
      ≡ ok (built r)
unfolding make_entry
make_entry-built r h =
    elim (Bool-cases (is_structural r.source_type && is_structural r.target_type)) [
      | inl skipped ↦ rw skipped refl
      | inr kept ↦ elim (Bool-cases (renames r.status)) [
        | inl moved ↦
            rw
              (
                kept,
                moved,
                new_renamed r.source r.target
                    (kind_of r.status r.source_conflict r.target_conflict r.source_type
                      r.target_type)
                    (conflicted_if r.source_conflict) (conflicted_if r.target_conflict)
                    h.source_normal h.target_normal,
              )
              refl
        | inr plain ↦
            rw
              (
                kept,
                plain,
                new_plain r.target
                    (kind_of r.status r.source_conflict r.target_conflict r.source_type
                      r.target_type)
                    (conflicted_if r.source_conflict) (conflicted_if r.target_conflict)
                    h.target_normal
                    (needs_source-kind_of r.status r.source_conflict r.target_conflict r.source_type
                      r.target_type plain),
              )
              refl
      ]
    ]

make_entry-printable :
    (r : DiffRecord)
    → IsPrintable r
    → make_entry r.status r.source r.target r.source_conflict r.target_conflict r.source_type
        r.target_type
      ≡ ok (entry_of r)
make_entry-printable r h = make_entry-built r h ∙ ap ok (built_lem r)

parse_record-fields :
    (r : DiffRecord)
    → IsPrintable r
    → parse_record (status_code r.status) (fields_of r) ≡ ok (entry_of r)
unfolding next_field parse_record
parse_record-fields r h =
    rw
      (
        parse_status-code r.status h.status_known,
        parse_bool-name r.source_conflict,
        parse_bool-name r.target_conflict,
        parse_file_type-name r.source_type,
        parse_file_type-name r.target_type,
        validate-IsNormal r.source (renames r.status) h.source_normal,
        validate-IsNormal r.target true h.target_normal,
        parse_record,
      )
      (make_entry-printable r h)

pushed-append :
    (entries : List VcsEntryStatus) (entry : Option VcsEntryStatus) (rest : List VcsEntryStatus)
    → pushed entries entry ++ rest ≡ entries ++ (pushed [] entry ++ rest)
pushed-append entries none rest = refl
pushed-append entries (some entry) rest = sym (append_assoc entries (entry ∷ []) rest)

parse_fields-print :
    (records : ℕ) (entries : List VcsEntryStatus) (rs : List DiffRecord)
    → All IsPrintable rs
    → records + length rs ≤ max_status_entries
    → parse_fields records entries (all_fields rs) ≡ ok (entries ++ entries_of rs)
unfolding parse_fields
parse_fields-print records entries [] h room = ap ok (sym (append_nil entries))
parse_fields-print records entries (r ∷ rs) (p, h) room =
    let more : (records == max_status_entries) ≡ false = ground (arith, room) in
    let rest =
      parse_fields-print (records + 1) (pushed entries (entry_of r)) rs h (omega (arith, room)) in
    rw (more, parse_record-fields r p, parse_fields)
      (rest ∙ ap ok (pushed-append entries (entry_of r) (entries_of rs)))

strip_last-append : (bytes : List ℕ) → strip_last 0 (bytes ++ 0 ∷ []) ≡ some bytes
unfolding strip_last
strip_last-append bytes = rw (last-append bytes 0, drop_last-append bytes 0, strip_last) refl

terminated :
    (bytes : List ℕ) (stale : Bool)
    → parse_templated_diff (bytes ++ 0 ∷ []) stale ≡ (do
      entries ← parse_fields 0 [] (split 0 bytes)
      ok (record { entries = entries; stale = stale }))
unfolding parse_templated_diff strip_last
terminated [] stale = refl
terminated (b ∷ bs) stale = rw (strip_last-append (b ∷ bs), parse_templated_diff) refl

status_code-Lacks : (kind : VcsStatusKind) → Lacks 0 (status_code kind)
unfolding nat_eq
status_code-Lacks kind = ground arith

bool_name-Lacks : (b : Bool) → Lacks 0 (bool_name b)
unfolding nat_eq
bool_name-Lacks b = ground arith

type_name-Lacks : (t : FileType) → Lacks 0 (type_name t)
unfolding nat_eq
type_name-Lacks t = ground arith

-- No field holds a NUL.
all_fields-Lacks : (rs : List DiffRecord) → All IsPrintable rs → All (Lacks 0) (all_fields rs)
all_fields-Lacks [] h = tt
all_fields-Lacks (r ∷ rs) (p, h) = (
  status_code-Lacks r.status,
  (
    p.source_free,
    (
      p.target_free,
      (
        bool_name-Lacks r.source_conflict,
        (
          bool_name-Lacks r.target_conflict,
          (type_name-Lacks r.source_type, (type_name-Lacks r.target_type, all_fields-Lacks rs h)),
        ),
      ),
    ),
  ),
)

-- Records with normalised paths that hold no NUL, at most 100,000 of them, are read back from their
-- printed form: those whose two sides are both absent or a directory are dropped, and each other one
-- gives, in its place, an entry with its target path, its source path where it is a rename or a
-- copy, and its kind, which is a conflict where a side is in conflict, and a change of type where a
-- modified file has two different types.
pub parse_templated_diff-print :
    (rs : List DiffRecord) (stale : Bool)
    → All IsPrintable rs
    → length rs ≤ max_status_entries
    → parse_templated_diff (print rs) stale ≡ ok (record { entries = entries_of rs; stale = stale })
unfolding parse_templated_diff
parse_templated_diff-print [] stale h room = refl
parse_templated_diff-print (r ∷ rs) stale h room =
    let fields = fields_of r ++ all_fields rs in
    terminated (join 0 (status_code r.status ∷ fields)) stale
    ∙ rw
        (
          split-join 0 (status_code r.status) fields (all_fields-Lacks (r ∷ rs) h),
          parse_fields-print 0 [] (r ∷ rs) h (omega (arith, room)),
        )
        refl
