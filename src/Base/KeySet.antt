-- ===== src/Base/KeySet.antt =====
-- A `HashSet`: a list that holds each element at most once.
use herdr_context.Base.{
  suc, ◌≡◌, refl, Bool, false, ◌||◌, List, [], ◌∷◌, arith, length, Eq, ◌==◌, if◌then◌else◌,
}

module _ {ℓ} {K : Type ℓ} ⦃e : Eq K⦄ where
  unfoldable pub contains : K → List K → Bool
  contains k [] = false
  contains k (j ∷ s) = k == j || contains k s

  unfoldable pub insert : K → List K → List K
  unfolding contains
  insert k s = if contains k s then s else k ∷ s

  unfoldable pub remove : K → List K → List K
  remove k [] = []
  remove k (j ∷ s) = let rest = remove k s in if k == j then rest else j ∷ rest

  pub contains-insert : (j k : K) (s : List K) → contains j (insert k s) ≡ (j == k || contains j s)
  unfolding contains insert
  contains-insert j k s = ground arith

  pub contains-remove :
      (j k : K) (s : List K) → contains j (remove k s) ≡ (if j == k then false else contains j s)
  unfolding contains remove
  contains-remove j k [] = ground arith
  contains-remove j k (_ ∷ s) = ground (arith, contains-remove j k s)

  -- A set holds an element once.
  abbrev pub IsDistinct : List K → Type 0
  IsDistinct [] = Unit
  IsDistinct (j ∷ s) = (contains j s ≡ false) × IsDistinct s

  pub insert-IsDistinct : (k : K) (s : List K) → IsDistinct s → IsDistinct (insert k s)
  unfolding insert
  insert-IsDistinct k s d = ground arith

  pub remove-IsDistinct : (k : K) (s : List K) → IsDistinct s → IsDistinct (remove k s)
  unfolding remove
  remove-IsDistinct k [] d = tt
  remove-IsDistinct k (j ∷ s) d = ground (arith, remove-IsDistinct k s d.1, contains-remove j k s)

  pub length-insert :
      (k : K) (s : List K)
      → length (insert k s) ≡ (if contains k s then length s else suc (length s))
  unfolding insert
  length-insert k s = ground arith

  remove_absent : (k : K) (s : List K) → contains k s ≡ false → remove k s ≡ s
  unfolding remove contains
  remove_absent k [] h = refl
  remove_absent k (j ∷ s) h = ground (arith, remove_absent k s)

  pub length-remove :
      (k : K) (s : List K)
      → IsDistinct s
      → length s ≡ (if contains k s then suc (length (remove k s)) else length (remove k s))
  unfolding remove contains
  length-remove k [] d = refl
  length-remove k (j ∷ s) d = ground (arith, length-remove k s d.1, remove_absent k s)
