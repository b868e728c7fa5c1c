-- ===== src/Base/BTreeMap/Sorted.antt =====
-- The order of the keys of a `BTreeMap`.
use herdr_context.Base.{◌≡◌, true, false, List, [], ◌∷◌, arith, Eq, inl, inr, Bool-cases}
use herdr_context.Base.Map.{Map}
use herdr_context.Base.Order.{Ord}
use herdr_context.Base.BTreeMap.{contains_key, overwrite, place, insert, extend}

module _ {ℓ κ} {K : Type ℓ} {V : Type κ} ⦃e : Eq K⦄ ⦃o : Ord K⦄ where
  -- The keys are in strict order, so an iteration meets them in it.
  abbrev pub IsSorted : Map K V → Type 0
  IsSorted [] = Unit
  IsSorted ((k, _) ∷ []) = Unit
  IsSorted ((k, v) ∷ (j, w) ∷ m) = (o.lt k j ≡ true) × IsSorted ((j, w) ∷ m)

  place-IsSorted :
      (k : K) (v : V) (m : Map K V) → contains_key k m ≡ false → IsSorted m → IsSorted (place k v m)
  unfolding place contains_key
  place-IsSorted k v [] h s = tt
  place-IsSorted k v ((j, w) ∷ []) h s = ground (arith, h, o.lt_total k j)
  place-IsSorted k v ((j, w) ∷ (i, x) ∷ m) h s =
      ground (arith, h, o.lt_total k j, s, place-IsSorted k v ((i, x) ∷ m))

  overwrite-IsSorted : (k : K) (v : V) (m : Map K V) → IsSorted m → IsSorted (overwrite k v m)
  unfolding overwrite
  overwrite-IsSorted k v [] s = tt
  overwrite-IsSorted k v ((j, w) ∷ []) s = ground arith
  overwrite-IsSorted k v ((j, w) ∷ (i, x) ∷ m) s =
      ground (arith, s, overwrite-IsSorted k v ((i, x) ∷ m))

  pub insert-IsSorted : (k : K) (v : V) (m : Map K V) → IsSorted m → IsSorted (insert k v m)
  unfolding insert
  insert-IsSorted k v m s = elim (Bool-cases (contains_key k m)) [
    | inl old ↦ rw old (overwrite-IsSorted k v m s)
    | inr new ↦ rw new (place-IsSorted k v m new s)
  ]

  pub extend-IsSorted : (new : List (K × V)) (m : Map K V) → IsSorted m → IsSorted (extend new m)
  unfolding extend
  extend-IsSorted [] m s = s
  extend-IsSorted ((k, v) ∷ new) m s = extend-IsSorted new (insert k v m) (insert-IsSorted k v m s)
