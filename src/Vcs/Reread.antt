-- ===== src/Vcs/Reread.antt =====
-- A printed ordinary record is read back by `parse_ordinary` in src/vcs/git.rs.
use herdr_context.Base.{
  ℕ, ◌≡◌, refl, sym, ap, ◌∙◌, subst, true, false, Option, none, some, List, [], ◌∷◌, arith, inl,
  inr, list_eq, nat_eq, ◌==◌,
}
use herdr_context.Base.Results.{ok}
use herdr_context.Base.Bytes.{Fields, splitn-join}
use herdr_context.Vcs.Status.{VcsStatusKind, path, new, normalize_source, needs_source}
use herdr_context.Vcs.Names.{IsNormal, normalize-IsNormal, join-filled}
use herdr_context.Vcs.Fields.{
  ordinary, next_field, expect_marker, validate_fields, validate_mode, validate_object_id,
  combined_kind, make_entry,
}
use herdr_context.Vcs.Kinds.{Strongest, combined_kind-Strongest}
use herdr_context.Vcs.Porcelain.{parse_ordinary, parse_ordinary_fields}
use herdr_context.Vcs.Printed.{
  OrdinaryRecord, IsPrintable, print, fields_of, is_ordinary, letter-Lacks, parse_xy-letters,
  submodule-IsField, mode-IsField, id-IsField, next_field-filled, validate_fields-suc,
  validate_ordinary_xy-letters,
}

needs_source_ordinary :
    (kind : VcsStatusKind) → is_ordinary (some kind) ≡ true → needs_source kind ≡ false
needs_source_ordinary kind h = ground arith

kind_of_ordinary :
    (i w : Option VcsStatusKind) (kind : VcsStatusKind)
    → is_ordinary i ≡ true
    → is_ordinary w ≡ true
    → combined_kind i w ≡ ok kind
    → needs_source kind ≡ false
kind_of_ordinary i w kind hi hw e = elim (subst (Strongest i w) e (combined_kind-Strongest i w)).0 [
  | inl same ↦ needs_source_ordinary kind (sym (ap is_ordinary same) ∙ hi)
  | inr same ↦ needs_source_ordinary kind (sym (ap is_ordinary same) ∙ hw)
]

make_entry-IsNormal :
    (p : List ℕ) (kind : VcsStatusKind) (i w : Option VcsStatusKind)
    → IsNormal p
    → needs_source kind ≡ false
    → make_entry p none kind i w
      ≡ ok (record {
        path = p;
        source_path = none;
        kind = kind;
        index_state = i;
        worktree_state = w;
      })
unfolding make_entry new normalize_source
make_entry-IsNormal p kind i w normal plain = rw (normalize-IsNormal p path normal, plain, new) refl

expect_marker-one :
    (rest : List (List ℕ)) → expect_marker ((b'1' ∷ []) ∷ rest) (b'1' ∷ []) ordinary ≡ ok rest
unfolding expect_marker next_field
expect_marker-one rest = refl

modes-ok :
    (r : OrdinaryRecord) (rest : List (List ℕ))
    → IsPrintable r
    → validate_fields (r.modes.0 ∷ r.modes.1 ∷ r.modes.2 ∷ rest) 3 ordinary validate_mode ≡ ok rest
unfolding validate_fields
modes-ok r rest h =
    let (a, b, c) = r.modes in
    validate_fields-suc a (b ∷ c ∷ rest) 2 ordinary validate_mode (mode-IsField a h.head_mode)
      h.head_mode
    ∙ validate_fields-suc b (c ∷ rest) 1 ordinary validate_mode (mode-IsField b h.index_mode)
        h.index_mode
    ∙ validate_fields-suc c rest 0 ordinary validate_mode (mode-IsField c h.worktree_mode)
        h.worktree_mode

ids-ok :
    (r : OrdinaryRecord) (rest : List (List ℕ))
    → IsPrintable r
    → validate_fields (r.ids.0 ∷ r.ids.1 ∷ rest) 2 ordinary validate_object_id ≡ ok rest
unfolding validate_fields
ids-ok r rest h =
    let (a, b) = r.ids in
    validate_fields-suc a (b ∷ rest) 1 ordinary validate_object_id (id-IsField a h.head_id)
      h.head_id
    ∙ validate_fields-suc b rest 0 ordinary validate_object_id (id-IsField b h.index_id) h.index_id

path-filled : (p : List ℕ) → IsNormal p → next_field (p ∷ []) ordinary ≡ ok (p, [])
path-filled p (name, names, proper, e) =
    next_field-filled p [] ordinary
      (subst (λ q. (q == []) ≡ false) (sym e) (join-filled name names (proper.0).1))

Fields-print : (r : OrdinaryRecord) → IsPrintable r → Fields b' ' ((b'1' ∷ []) ∷ fields_of r)
unfolding nat_eq
Fields-print r h = ground (
  arith,
  letter-Lacks r.index,
  letter-Lacks r.worktree,
  submodule-IsField r.submodule h.submodule_valid,
  mode-IsField r.modes.0 h.head_mode,
  mode-IsField r.modes.1 h.index_mode,
  mode-IsField r.modes.2 h.worktree_mode,
  id-IsField r.ids.0 h.head_id,
  id-IsField r.ids.1 h.index_id,
)

-- A printed ordinary record whose fields are valid and which shows a change is read back: its path,
-- its two states, and the combined kind.
pub parse_ordinary-print :
    (r : OrdinaryRecord) (kind : VcsStatusKind)
    → IsPrintable r
    → combined_kind r.index r.worktree ≡ ok kind
    → parse_ordinary (print r)
      ≡ ok (record {
        path = r.path;
        source_path = none;
        kind = kind;
        index_state = r.index;
        worktree_state = r.worktree;
      })
unfolding parse_ordinary parse_ordinary_fields next_field
parse_ordinary-print r kind h e =
    let rest = r.modes.0 ∷ r.modes.1 ∷ r.modes.2 ∷ r.ids.0 ∷ r.ids.1 ∷ r.path ∷ [] in
    ap parse_ordinary_fields (splitn-join b' ' (b'1' ∷ []) (fields_of r) (Fields-print r h))
    ∙ rw
        (
          expect_marker-one (fields_of r),
          parse_xy-letters r.index r.worktree h.index_ordinary h.worktree_ordinary,
          validate_ordinary_xy-letters r.index r.worktree h.index_ordinary h.worktree_ordinary kind
              e,
          next_field-filled r.submodule rest ordinary
              (submodule-IsField r.submodule h.submodule_valid).1,
          h.submodule_valid,
          modes-ok r (r.ids.0 ∷ r.ids.1 ∷ r.path ∷ []) h,
          ids-ok r (r.path ∷ []) h,
          path-filled r.path h.path_normal,
          e,
          parse_ordinary_fields,
        )
        (make_entry-IsNormal r.path kind r.index r.worktree h.path_normal
          (kind_of_ordinary r.index r.worktree kind h.index_ordinary h.worktree_ordinary e))
