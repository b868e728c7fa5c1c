-- ===== src/Base/Bytes.antt =====
-- Slices of bytes: Rust's `split`, `splitn` and `strip_prefix`, and the lexicographic order.
use Prim.Native.Nat.{ℕ, zero, suc}
use mathlib.Core.Path.{◌≡◌, refl, ap, ◌∙◌}
use mathlib.Core.Bool.{Bool, true, false}
use mathlib.Core.Option.{Option, none, some}
use mathlib.Core.List.{List, [], ◌∷◌, ◌++◌}
use mathlib.Core.Logic.{inl, inr}
use native.Mathlib.Omega.{arith}
use herdr_context.Base.Tests.{if◌then◌else◌, Bool-cases}
use herdr_context.Base.Equality.{◌==◌, nat_eq}
use herdr_context.Base.Lists.{All, length}

abbrev prepend : ℕ → List (List ℕ) → List (List ℕ)
prepend b [] = (b ∷ []) ∷ []
prepend b (piece ∷ pieces) = (b ∷ piece) ∷ pieces

-- The pieces between the separators: one more than there are separators.
abbrev pub split : ℕ → List ℕ → List (List ℕ)
split sep [] = [] ∷ []
split sep (b ∷ bs) = let rest = split sep bs in if b == sep then [] ∷ rest else prepend b rest

abbrev cons_first : ℕ → Option (List ℕ × List ℕ) → Option (List ℕ × List ℕ)
cons_first b none = none
cons_first b (some (before, after)) = some (b ∷ before, after)

-- The parts before and after the first separator.
abbrev pub split_once : ℕ → List ℕ → Option (List ℕ × List ℕ)
split_once sep [] = none
split_once sep (b ∷ bs) = if b == sep then some ([], bs) else cons_first b (split_once sep bs)

-- At most n pieces, the last of which keeps its separators.
abbrev pub splitn : ℕ → ℕ → List ℕ → List (List ℕ)
splitn zero sep bs = []
splitn (suc zero) sep bs = bs ∷ []
splitn (suc (suc n)) sep bs = elim (split_once sep bs) [
  | none ↦ bs ∷ []
  | some (piece, rest) ↦ piece ∷ splitn (suc n) sep rest
]

abbrev pub strip_prefix : List ℕ → List ℕ → Option (List ℕ)
strip_prefix [] bs = some bs
strip_prefix (p ∷ ps) [] = none
strip_prefix (p ∷ ps) (b ∷ bs) = if p == b then strip_prefix ps bs else none

-- The derived order of slices, from the strict order of their elements.
abbrev pub lex_leb {ℓ} : {A : Type ℓ} → (A → A → Bool) → List A → List A → Bool
lex_leb lt [] ys = true
lex_leb lt (x ∷ xs) [] = false
lex_leb lt (x ∷ xs) (y ∷ ys) = if lt x y then true else if lt y x then false else lex_leb lt xs ys

pub lex_leb_total {ℓ} :
    {A : Type ℓ} (lt : A → A → Bool) (xs ys : List A)
    → lex_leb lt xs ys ≡ false
    → lex_leb lt ys xs ≡ true
lex_leb_total lt [] ys h = absurd (ground arith)
lex_leb_total lt (x ∷ xs) [] h = refl
lex_leb_total lt (x ∷ xs) (y ∷ ys) h = ground (arith, lex_leb_total lt xs ys)

-- No byte is the separator.
abbrev pub Lacks : ℕ → List ℕ → Type 0
Lacks sep bs = All (λ b. (b == sep) ≡ false) bs

-- The pieces with a separator between two.
abbrev pub join : ℕ → List (List ℕ) → List ℕ
join sep [] = []
join sep (piece ∷ []) = piece
join sep (piece ∷ next ∷ pieces) = piece ++ sep ∷ join sep (next ∷ pieces)

-- Every piece but the last lacks the separator.
abbrev pub Fields : ℕ → List (List ℕ) → Type 0
Fields sep [] = Unit
Fields sep (piece ∷ []) = Unit
Fields sep (piece ∷ next ∷ pieces) = Lacks sep piece × Fields sep (next ∷ pieces)

split_once-append :
    (sep : ℕ) (piece rest : List ℕ)
    → Lacks sep piece
    → split_once sep (piece ++ sep ∷ rest) ≡ some (piece, rest)
split_once-append sep [] rest h = ground arith
split_once-append sep (b ∷ piece) rest (fits, h) =
    rw (fits, split_once-append sep piece rest h) refl

-- `splitn` undoes `join`, whatever the last piece holds.
pub splitn-join :
    (sep : ℕ) (piece : List ℕ) (pieces : List (List ℕ))
    → Fields sep (piece ∷ pieces)
    → splitn (length (piece ∷ pieces)) sep (join sep (piece ∷ pieces)) ≡ piece ∷ pieces
splitn-join sep piece [] h = refl
splitn-join sep piece (next ∷ pieces) (fits, h) =
    rw (split_once-append sep piece (join sep (next ∷ pieces)) fits, splitn)
      (ap (◌∷◌ piece) (splitn-join sep next pieces h))

-- Rust's `last` and `[..len - 1]` of a slice.
abbrev pub last : List ℕ → Option ℕ
last [] = none
last (b ∷ []) = some b
last (b ∷ c ∷ bs) = last (c ∷ bs)

abbrev pub drop_last : List ℕ → List ℕ
drop_last [] = []
drop_last (b ∷ []) = []
drop_last (b ∷ c ∷ bs) = b ∷ drop_last (c ∷ bs)

pub last-append : (bs : List ℕ) (b : ℕ) → last (bs ++ b ∷ []) ≡ some b
last-append [] b = refl
last-append (x ∷ []) b = refl
last-append (x ∷ y ∷ bs) b = last-append (y ∷ bs) b

pub drop_last-append : (bs : List ℕ) (b : ℕ) → drop_last (bs ++ b ∷ []) ≡ bs
drop_last-append [] b = refl
drop_last-append (x ∷ []) b = refl
drop_last-append (x ∷ y ∷ bs) b = ap (◌∷◌ x) (drop_last-append (y ∷ bs) b)

split_one : (sep : ℕ) (bs : List ℕ) → Lacks sep bs → split sep bs ≡ bs ∷ []
split_one sep [] h = refl
split_one sep (b ∷ bs) (fits, h) = rw (fits, split_one sep bs h) refl

split-append :
    (sep : ℕ) (piece rest : List ℕ)
    → Lacks sep piece
    → split sep (piece ++ sep ∷ rest) ≡ piece ∷ split sep rest
split-append sep [] rest h = ground arith
split-append sep (b ∷ piece) rest (fits, h) = rw (fits, split-append sep piece rest h) refl

-- `split` undoes `join` of pieces that all lack the separator.
pub split-join :
    (sep : ℕ) (piece : List ℕ) (pieces : List (List ℕ))
    → All (Lacks sep) (piece ∷ pieces)
    → split sep (join sep (piece ∷ pieces)) ≡ piece ∷ pieces
split-join sep piece [] (fits, h) = split_one sep piece fits
split-join sep piece (next ∷ pieces) (fits, h) =
    split-append sep piece (join sep (next ∷ pieces)) fits
    ∙ ap (◌∷◌ piece) (split-join sep next pieces h)

prepend-Lacks :
    (sep b : ℕ) (pieces : List (List ℕ))
    → (b == sep) ≡ false
    → All (Lacks sep) pieces
    → All (Lacks sep) (prepend b pieces)
prepend-Lacks sep b [] fits h = ((fits, tt), tt)
prepend-Lacks sep b (piece ∷ pieces) fits (p, h) = ((fits, p), h)

-- The pieces of `split` lack the separator.
pub split-Lacks : (sep : ℕ) (bs : List ℕ) → All (Lacks sep) (split sep bs)
split-Lacks sep [] = (tt, tt)
split-Lacks sep (b ∷ bs) = elim (Bool-cases (b == sep)) [
  | inl hit ↦ rw hit (tt, split-Lacks sep bs)
  | inr miss ↦ rw miss (prepend-Lacks sep b (split sep bs) miss (split-Lacks sep bs))
]
