-- ===== src/Vcs/Printed.antt =====
-- An ordinary record of Git's porcelain format, printed, and read back by src/vcs/git.rs.
use herdr_context.Base.{
  ℕ, suc, ◌≡◌, refl, Bool, true, false, ◌&&◌, Option, none, some, List, [], ◌∷◌, arith, ◌==◌,
  nat_eq, list_eq, leb,
}
use herdr_context.Base.Results.{Result, ok}
use herdr_context.Base.Bytes.{join, Lacks}
use herdr_context.Vcs.Status.{
  VcsStatusKind, added, modified, deleted, renamed, copied, conflicted, type_changed,
}
use herdr_context.Vcs.Names.{IsNormal}
use herdr_context.Vcs.Fields.{
  RecordName, InvalidOutput, next_field, validate_fields, every, validate_submodule, validate_mode,
  validate_object_id, is_ascii_hexdigit, validate_ordinary_xy, map_state, parse_xy, combined_kind,
}

-- The letter of a state.
abbrev pub letter : Option VcsStatusKind → ℕ
letter none = b'.'
letter (some added) = b'A'
letter (some modified) = b'M'
letter (some deleted) = b'D'
letter (some renamed) = b'R'
letter (some copied) = b'C'
letter (some VcsStatusKind.untracked) = b'?'
letter (some conflicted) = b'U'
letter (some type_changed) = b'T'

-- The states that an ordinary record can have.
abbrev pub is_ordinary : Option VcsStatusKind → Bool
is_ordinary none = true
is_ordinary (some added) = true
is_ordinary (some modified) = true
is_ordinary (some deleted) = true
is_ordinary (some type_changed) = true
is_ordinary (some _) = false

pub record OrdinaryRecord : Type 0 where
  pub index : Option VcsStatusKind
  pub worktree : Option VcsStatusKind
  pub submodule : List ℕ
  pub modes : List ℕ × List ℕ × List ℕ
  pub ids : List ℕ × List ℕ
  pub path : List ℕ

abbrev pub fields_of : OrdinaryRecord → List (List ℕ)
fields_of r =
    (letter r.index ∷ letter r.worktree ∷ [])
    ∷ r.submodule
    ∷ r.modes.0
    ∷ r.modes.1
    ∷ r.modes.2
    ∷ r.ids.0
    ∷ r.ids.1
    ∷ r.path
    ∷ []

-- The fields with a space between two.
abbrev pub print : OrdinaryRecord → List ℕ
print r = join b' ' ((b'1' ∷ []) ∷ fields_of r)

pub record IsPrintable (r : OrdinaryRecord) : Type 0 where
  pub index_ordinary : is_ordinary r.index ≡ true
  pub worktree_ordinary : is_ordinary r.worktree ≡ true
  pub submodule_valid : validate_submodule r.submodule ≡ ok tt
  pub head_mode : validate_mode r.modes.0 ≡ ok tt
  pub index_mode : validate_mode r.modes.1 ≡ ok tt
  pub worktree_mode : validate_mode r.modes.2 ≡ ok tt
  pub head_id : validate_object_id r.ids.0 ≡ ok tt
  pub index_id : validate_object_id r.ids.1 ≡ ok tt
  pub path_normal : IsNormal r.path

every-Lacks :
    (p : ℕ → Bool) (sep : ℕ) (bs : List ℕ) → p sep ≡ false → every p bs ≡ true → Lacks sep bs
every-Lacks p sep [] out h = tt
every-Lacks p sep (b ∷ bs) out h =
    (ground (arith, out, h), every-Lacks p sep bs out (ground (arith, h)))

pub letter-Lacks : (s : Option VcsStatusKind) → (letter s == b' ') ≡ false
unfolding nat_eq
letter-Lacks s = ground arith

map_state-letter : (s : Option VcsStatusKind) → is_ordinary s ≡ true → map_state (letter s) ≡ ok s
unfolding map_state
map_state-letter s h = ground arith

pub parse_xy-letters :
    (i w : Option VcsStatusKind)
    → is_ordinary i ≡ true
    → is_ordinary w ≡ true
    → parse_xy (letter i ∷ letter w ∷ []) ≡ ok (i, w)
unfolding parse_xy
parse_xy-letters i w hi hw = rw (map_state-letter i hi, map_state-letter w hw, parse_xy) refl

-- A field that the parser takes: not empty, and no space in it.
abbrev pub IsField : List ℕ → Type 0
IsField field = Lacks b' ' field × ((field == []) ≡ false)

pub submodule-IsField : (field : List ℕ) → validate_submodule field ≡ ok tt → IsField field
unfolding validate_submodule list_eq nat_eq
submodule-IsField [] h = absurd (ground arith)
submodule-IsField (a ∷ []) h = absurd (ground arith)
submodule-IsField (a ∷ b ∷ []) h = absurd (ground arith)
submodule-IsField (a ∷ b ∷ c ∷ []) h = absurd (ground arith)
submodule-IsField (a ∷ b ∷ c ∷ d ∷ []) h = ground arith
submodule-IsField (a ∷ b ∷ c ∷ d ∷ e ∷ rest) h = absurd (ground arith)

pub mode-IsField : (field : List ℕ) → validate_mode field ≡ ok tt → IsField field
unfolding validate_mode list_eq nat_eq
mode-IsField [] h = absurd (ground arith)
mode-IsField (b ∷ bs) h =
    (every-Lacks (λ b. leb b'0' b && leb b b'7') b' ' (b ∷ bs) refl (ground (arith, h)), refl)

pub id-IsField : (field : List ℕ) → validate_object_id field ≡ ok tt → IsField field
unfolding validate_object_id list_eq nat_eq
id-IsField [] h = absurd (ground arith)
id-IsField (b ∷ bs) h = (every-Lacks is_ascii_hexdigit b' ' (b ∷ bs) refl (ground (arith, h)), refl)

pub next_field-filled :
    (field : List ℕ) (rest : List (List ℕ)) (name : RecordName)
    → (field == []) ≡ false
    → next_field (field ∷ rest) name ≡ ok (field, rest)
unfolding next_field list_eq
next_field-filled [] rest name h = absurd (ground arith)
next_field-filled (b ∷ bs) rest name h = refl

pub validate_fields-suc :
    (field : List ℕ) (rest : List (List ℕ)) (n : ℕ) (name : RecordName)
    (validate : List ℕ → Result InvalidOutput (Unit {0}))
    → IsField field
    → validate field ≡ ok tt
    → validate_fields (field ∷ rest) (suc n) name validate ≡ validate_fields rest n name validate
unfolding validate_fields
validate_fields-suc field rest n name validate is_field valid =
    rw (next_field-filled field rest name is_field.1, valid, validate_fields) refl

pub validate_ordinary_xy-letters :
    (i w : Option VcsStatusKind)
    → is_ordinary i ≡ true
    → is_ordinary w ≡ true
    → (kind : VcsStatusKind) → combined_kind i w ≡ ok kind
    → validate_ordinary_xy (letter i ∷ letter w ∷ []) ≡ ok tt
unfolding validate_ordinary_xy combined_kind list_eq nat_eq
validate_ordinary_xy-letters none none hi hw kind e = absurd (ground arith)
validate_ordinary_xy-letters none (some w) hi hw kind e = ground (arith, hw)
validate_ordinary_xy-letters (some i) none hi hw kind e = ground (arith, hi)
validate_ordinary_xy-letters (some i) (some w) hi hw kind e = ground (arith, hi, hw)
