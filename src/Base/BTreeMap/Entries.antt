-- ===== src/Base/BTreeMap/Entries.antt =====
-- A property of every entry of a `BTreeMap`.
use herdr_context.Base.{
  ◌≡◌, subst, All, Bool, true, some, List, [], ◌∷◌, arith, Eq, ◌==◌, inl, inr, Bool-cases,
}
use herdr_context.Base.Map
use herdr_context.Base.Map.{Map}
use herdr_context.Base.Order.{Ord}
use herdr_context.Base.BTreeMap.{contains_key, overwrite, retain, map_values, place, insert, extend}

-- Every entry has the property.
abbrev pub AllEntries {ℓ κ μ} : {K : Type ℓ} {V : Type κ} → (K → V → Type μ) → Map K V → Type μ
AllEntries P [] = Unit
AllEntries P ((k, v) ∷ m) = P k v × AllEntries P m

module _ {ℓ κ μ} {K : Type ℓ} {V : Type κ} ⦃e : Eq K⦄ (P : K → V → Type μ) where
  pub retain-AllEntries :
      (p : K → V → Bool) (m : Map K V) → AllEntries P m → AllEntries P (retain p m)
  unfolding retain
  retain-AllEntries p [] h = tt
  retain-AllEntries p ((k, v) ∷ m) (here, h) = elim (Bool-cases (p k v)) [
    | inl keep ↦ rw keep (here, retain-AllEntries p m h)
    | inr drop ↦ rw drop (retain-AllEntries p m h)
  ]

  pub overwrite-AllEntries :
      (k : K) (v : V) (m : Map K V) → P k v → AllEntries P m → AllEntries P (overwrite k v m)
  unfolding overwrite
  overwrite-AllEntries k v [] new h = tt
  overwrite-AllEntries k v ((j, w) ∷ m) new (here, h) = elim (Bool-cases (k == j)) [
    | inl hit ↦ rw hit (new, h)
    | inr miss ↦ rw miss (here, overwrite-AllEntries k v m new h)
  ]

  pub lookup-AllEntries :
      (k : K) (v : V) (m : Map K V)
      → AllEntries P m
      → Map.lookup k m ≡ some v
      → (j : K) × ((k == j) ≡ true) × P j v
  unfolding Map.lookup
  lookup-AllEntries k v [] h found = absurd (ground arith)
  lookup-AllEntries k v ((j, w) ∷ m) (here, h) found = elim (Bool-cases (k == j)) [
    | inl hit ↦ let same : w ≡ v = ground (arith, hit, found) in (j, hit, subst (P j) same here)
    | inr miss ↦ lookup-AllEntries k v m h (ground (arith, miss, found))
  ]

pub map_values-AllEntries {ℓ κ μ ν} :
    {K : Type ℓ} {V : Type κ} ⦃e : Eq K⦄ (P : K → V → Type μ) (Q : K → V → Type ν) (f : K → V → V)
    (m : Map K V)
    → ((k : K) (v : V) → P k v → Q k (f k v))
    → AllEntries P m
    → AllEntries Q (map_values f m)
unfolding map_values
map_values-AllEntries P Q f [] step h = tt
map_values-AllEntries P Q f ((k, v) ∷ m) step (here, h) =
    (step k v here, map_values-AllEntries P Q f m step h)

module _ {ℓ κ μ} {K : Type ℓ} {V : Type κ} ⦃e : Eq K⦄ ⦃o : Ord K⦄ (P : K → V → Type μ) where
  place-AllEntries :
      (k : K) (v : V) (m : Map K V) → P k v → AllEntries P m → AllEntries P (place k v m)
  unfolding place
  place-AllEntries k v [] new h = (new, tt)
  place-AllEntries k v ((j, w) ∷ m) new (here, h) = elim (Bool-cases (o.lt k j)) [
    | inl before ↦ rw before (new, (here, h))
    | inr after ↦ rw after (here, place-AllEntries k v m new h)
  ]

  pub insert-AllEntries :
      (k : K) (v : V) (m : Map K V) → P k v → AllEntries P m → AllEntries P (insert k v m)
  unfolding insert
  insert-AllEntries k v m new h = elim (Bool-cases (contains_key k m)) [
    | inl old ↦ rw old (overwrite-AllEntries P k v m new h)
    | inr absent ↦ rw absent (place-AllEntries k v m new h)
  ]

  pub extend-AllEntries :
      (new : List (K × V)) (m : Map K V)
      → All (λ entry. P entry.0 entry.1) new
      → AllEntries P m
      → AllEntries P (extend new m)
  unfolding extend
  extend-AllEntries [] m h g = g
  extend-AllEntries ((k, v) ∷ new) m (here, h) g =
      extend-AllEntries new (insert k v m) h (insert-AllEntries k v m here g)
