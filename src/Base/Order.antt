-- ===== src/Base/Order.antt =====
-- Rust's `Ord`, as far as a sorted map needs it: a strict order that decides between two
-- different keys.
use Prim.Native.Nat.{ℕ}
use mathlib.Core.Path.{◌≡◌, refl}
use mathlib.Core.Bool.{Bool, true, false}
use mathlib.Core.List.{List, [], ◌∷◌}
use native.Mathlib.Omega.{arith}
use herdr_context.Base.Tests.{ltb, if◌then◌else◌}
use herdr_context.Base.Equality.{Eq, ◌==◌, nat_eq, list_eq}

pub record Ord {ℓ} (K : Type ℓ) ⦃e : Eq K⦄ : Type ℓ where
  pub lt : K → K → Bool
  pub lt_asym : (a b : K) → lt a b ≡ true → lt b a ≡ false
  pub lt_total : (a b : K) → (a == b) ≡ false → lt a b ≡ false → lt b a ≡ true

pub nat-lt_asym : (a b : ℕ) → ltb a b ≡ true → ltb b a ≡ false
nat-lt_asym a b h = ground arith

pub nat-lt_total : (a b : ℕ) → (a == b) ≡ false → ltb a b ≡ false → ltb b a ≡ true
unfolding nat_eq
nat-lt_total a b differ h = ground arith

instance unfoldable pub nat_ord : Ord ℕ
nat_ord = record { lt = ltb; lt_asym = nat-lt_asym; lt_total = nat-lt_total }

module _ {ℓ} {K : Type ℓ} ⦃e : Eq K⦄ ⦃o : Ord K⦄ where
  -- Slices compare element by element, and a prefix comes first.
  abbrev pub list_lt : List K → List K → Bool
  list_lt [] [] = false
  list_lt [] (y ∷ ys) = true
  list_lt (x ∷ xs) [] = false
  list_lt (x ∷ xs) (y ∷ ys) = if x == y then list_lt xs ys else o.lt x y

  pub list-lt_asym : (xs ys : List K) → list_lt xs ys ≡ true → list_lt ys xs ≡ false
  list-lt_asym [] [] h = absurd (ground arith)
  list-lt_asym [] (y ∷ ys) h = refl
  list-lt_asym (x ∷ xs) [] h = absurd (ground arith)
  list-lt_asym (x ∷ xs) (y ∷ ys) h = ground (arith, o.lt_asym x y, list-lt_asym xs ys)

  pub list-lt_total :
      (xs ys : List K) → (xs == ys) ≡ false → list_lt xs ys ≡ false → list_lt ys xs ≡ true
  unfolding list_eq
  list-lt_total [] [] differ h = ground arith
  list-lt_total [] (y ∷ ys) differ h = ground arith
  list-lt_total (x ∷ xs) [] differ h = refl
  list-lt_total (x ∷ xs) (y ∷ ys) differ h = ground (arith, o.lt_total x y, list-lt_total xs ys)

  instance unfoldable pub list_ord : Ord (List K)
  list_ord = record { lt = list_lt; lt_asym = list-lt_asym; lt_total = list-lt_total }
