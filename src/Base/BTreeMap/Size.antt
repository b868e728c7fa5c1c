-- ===== src/Base/BTreeMap/Size.antt =====
-- The number of entries of a `BTreeMap`.
use herdr_context.Base.{
  suc, ◌≡◌, refl, ap, [], ◌∷◌, length, Eq, ◌==◌, if◌then◌else◌, inl, inr, Bool-cases,
}
use herdr_context.Base.Map.{Map}
use herdr_context.Base.Order.{Ord}
use herdr_context.Base.BTreeMap.{contains_key, overwrite, place, insert}

module _ {ℓ κ} {K : Type ℓ} {V : Type κ} ⦃e : Eq K⦄ where
  length-overwrite : (k : K) (v : V) (m : Map K V) → length (overwrite k v m) ≡ length m
  unfolding overwrite
  length-overwrite k v [] = refl
  length-overwrite k v ((j, w) ∷ m) = elim (Bool-cases (k == j)) [
    | inl hit ↦ rw hit refl
    | inr miss ↦ rw miss (ap suc (length-overwrite k v m))
  ]

module _ {ℓ κ} {K : Type ℓ} {V : Type κ} ⦃e : Eq K⦄ ⦃o : Ord K⦄ where
  length-place : (k : K) (v : V) (m : Map K V) → length (place k v m) ≡ suc (length m)
  unfolding place
  length-place k v [] = refl
  length-place k v ((j, w) ∷ m) = elim (Bool-cases (o.lt k j)) [
    | inl before ↦ rw before refl
    | inr after ↦ rw after (ap suc (length-place k v m))
  ]

  pub length-insert :
      (k : K) (v : V) (m : Map K V)
      → length (insert k v m) ≡ (if contains_key k m then length m else suc (length m))
  unfolding insert
  length-insert k v m = elim (Bool-cases (contains_key k m)) [
    | inl old ↦ rw old (length-overwrite k v m)
    | inr new ↦ rw new (length-place k v m)
  ]
