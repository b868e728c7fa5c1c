-- ===== src/Base/BTreeMap.antt =====
-- A `BTreeMap`: an association list that holds each key at most once, in the order of the keys.
use herdr_context.Base.{
  ◌≡◌, refl, sym, subst, ap, ◌∙◌, All, Bool, true, false, ◌&&◌, ◌||◌, Option, none, some, List, [],
  ◌∷◌, arith, Eq, ◌==◌, if◌then◌else◌, inl, inr, Bool-cases, map,
}
use herdr_context.Base.Map
use herdr_context.Base.Map.{Map}
use herdr_context.Base.Order.{Ord}
pub mod Entries
pub mod Sorted
pub mod Size

abbrev pub kept {ℓ} : {V : Type ℓ} → (V → Bool) → Option V → Option V
kept p none = none
kept p (some v) = if p v then some v else none

abbrev pub changed {ℓ} : {V : Type ℓ} → (V → V) → Option V → Option V
changed f none = none
changed f (some v) = some (f v)

module _ {ℓ κ} {K : Type ℓ} {V : Type κ} ⦃e : Eq K⦄ where
  unfoldable pub contains_key : K → Map K V → Bool
  contains_key k [] = false
  contains_key k ((j, _) ∷ m) = k == j || contains_key k m

  -- The value of a key that is there.
  unfoldable pub overwrite : K → V → Map K V → Map K V
  overwrite k v [] = []
  overwrite k v ((j, w) ∷ m) = if k == j then (k, v) ∷ m else (j, w) ∷ overwrite k v m

  unfoldable pub retain : (K → V → Bool) → Map K V → Map K V
  retain p [] = []
  retain p ((k, v) ∷ m) = let rest = retain p m in if p k v then (k, v) ∷ rest else rest

  -- `values_mut`.
  unfoldable pub map_values : (K → V → V) → Map K V → Map K V
  map_values f [] = []
  map_values f ((k, v) ∷ m) = (k, f k v) ∷ map_values f m

  abbrev pub values : Map K V → List V
  values [] = []
  values ((_, v) ∷ m) = v ∷ values m

  lookup_absent_retain :
      (j : K) (p : K → V → Bool) (m : Map K V)
      → Map.lookup j m ≡ none
      → Map.lookup j (retain p m) ≡ none
  unfolding Map.lookup retain
  lookup_absent_retain j p [] h = refl
  lookup_absent_retain j p ((k, v) ∷ m) h = ground (arith, lookup_absent_retain j p m)

  pub lookup-retain :
      (j : K) (p : K → V → Bool) (m : Map K V)
      → Map.IsDistinct m
      → Map.lookup j (retain p m) ≡ kept (p j) (Map.lookup j m)
  unfolding Map.lookup retain
  lookup-retain j p [] d = refl
  lookup-retain j p ((k, v) ∷ m) d =
      ground (arith, lookup-retain j p m d.1, lookup_absent_retain j p m)

  pub retain-IsDistinct :
      (p : K → V → Bool) (m : Map K V) → Map.IsDistinct m → Map.IsDistinct (retain p m)
  unfolding retain
  retain-IsDistinct p [] d = tt
  retain-IsDistinct p ((k, v) ∷ m) d =
      ground (arith, retain-IsDistinct p m d.1, lookup_absent_retain k p m d.0)

  pub lookup-map_values :
      (j : K) (f : K → V → V) (m : Map K V)
      → Map.lookup j (map_values f m) ≡ changed (f j) (Map.lookup j m)
  unfolding Map.lookup map_values
  lookup-map_values j f [] = refl
  lookup-map_values j f ((k, v) ∷ m) = ground (arith, lookup-map_values j f m)

  pub map_values-IsDistinct :
      (f : K → V → V) (m : Map K V) → Map.IsDistinct m → Map.IsDistinct (map_values f m)
  unfolding map_values
  map_values-IsDistinct f [] d = tt
  map_values-IsDistinct f ((k, v) ∷ m) d =
      ground (arith, map_values-IsDistinct f m d.1, lookup-map_values k f m, d.0)

  lookup-overwrite :
      (j k : K) (v : V) (m : Map K V)
      → contains_key k m ≡ true
      → Map.lookup j (overwrite k v m) ≡ (if j == k then some v else Map.lookup j m)
  unfolding Map.lookup overwrite contains_key
  lookup-overwrite j k v [] h = absurd (ground arith)
  lookup-overwrite j k v ((i, w) ∷ m) h = ground (arith, lookup-overwrite j k v m)

  overwrite-IsDistinct :
      (k : K) (v : V) (m : Map K V)
      → contains_key k m ≡ true
      → Map.IsDistinct m
      → Map.IsDistinct (overwrite k v m)
  unfolding overwrite contains_key Map.lookup
  overwrite-IsDistinct k v [] h d = tt
  overwrite-IsDistinct k v ((j, w) ∷ m) h d =
      ground (arith, d, overwrite-IsDistinct k v m, lookup-overwrite j k v m)

  pub lookup_absent : (k : K) (m : Map K V) → contains_key k m ≡ false → Map.lookup k m ≡ none
  unfolding Map.lookup contains_key
  lookup_absent k [] h = refl
  lookup_absent k ((j, w) ∷ m) h = ground (arith, lookup_absent k m)

  pub contains_key_of_lookup :
      (k : K) (m : Map K V) (v : V) → Map.lookup k m ≡ some v → contains_key k m ≡ true
  unfolding Map.lookup contains_key
  contains_key_of_lookup k [] v h = absurd (ground arith)
  contains_key_of_lookup k ((j, w) ∷ m) v h = ground (arith, contains_key_of_lookup k m v)

  pub lookup_present :
      (k : K) (m : Map K V) → contains_key k m ≡ true → (v : V) × (Map.lookup k m ≡ some v)
  unfolding Map.lookup contains_key
  lookup_present k [] h = absurd (ground arith)
  lookup_present k ((j, w) ∷ m) h = elim (Bool-cases (k == j)) [
    | inl hit ↦ (w, rw hit)
    | inr miss ↦ let (v, found) = lookup_present k m (ground (arith, miss, h)) in (v, rw miss found)
  ]

module _ {ℓ κ} {K : Type ℓ} {V : Type κ} ⦃e : Eq K⦄ ⦃o : Ord K⦄ where
  -- A new key goes before the first greater one.
  unfoldable pub place : K → V → Map K V → Map K V
  place k v [] = (k, v) ∷ []
  place k v ((j, w) ∷ m) = if o.lt k j then (k, v) ∷ (j, w) ∷ m else (j, w) ∷ place k v m

  unfoldable pub insert : K → V → Map K V → Map K V
  unfolding contains_key overwrite place
  insert k v m = if contains_key k m then overwrite k v m else place k v m

  unfoldable pub extend : List (K × V) → Map K V → Map K V
  extend [] m = m
  extend ((k, v) ∷ new) m = extend new (insert k v m)

  lookup-place :
      (j k : K) (v : V) (m : Map K V)
      → contains_key k m ≡ false
      → Map.lookup j (place k v m) ≡ (if j == k then some v else Map.lookup j m)
  unfolding Map.lookup place contains_key
  lookup-place j k v [] h = ground arith
  lookup-place j k v ((i, w) ∷ m) h = ground (arith, lookup-place j k v m)

  pub lookup-insert :
      (j k : K) (v : V) (m : Map K V)
      → Map.lookup j (insert k v m) ≡ (if j == k then some v else Map.lookup j m)
  unfolding insert
  lookup-insert j k v m = elim (Bool-cases (contains_key k m)) [
    | inl old ↦ rw old (lookup-overwrite j k v m old)
    | inr new ↦ rw new (lookup-place j k v m new)
  ]

  place-IsDistinct :
      (k : K) (v : V) (m : Map K V)
      → contains_key k m ≡ false
      → Map.IsDistinct m
      → Map.IsDistinct (place k v m)
  unfolding place contains_key Map.lookup
  place-IsDistinct k v [] h d = (refl, tt)
  place-IsDistinct k v ((j, w) ∷ m) h d =
      ground (arith, d, place-IsDistinct k v m, lookup-place j k v m, lookup_absent k m)

  pub insert-IsDistinct :
      (k : K) (v : V) (m : Map K V) → Map.IsDistinct m → Map.IsDistinct (insert k v m)
  unfolding insert
  insert-IsDistinct k v m d = elim (Bool-cases (contains_key k m)) [
    | inl old ↦ rw old (overwrite-IsDistinct k v m old d)
    | inr new ↦ rw new (place-IsDistinct k v m new d)
  ]

  pub extend-IsDistinct :
      (new : List (K × V)) (m : Map K V) → Map.IsDistinct m → Map.IsDistinct (extend new m)
  unfolding extend
  extend-IsDistinct [] m d = d
  extend-IsDistinct ((k, v) ∷ new) m d =
      extend-IsDistinct new (insert k v m) (insert-IsDistinct k v m d)

  -- The last value that the pairs give the key, or the one it had.
  abbrev pub last_value : K → List (K × V) → Option V → Option V
  last_value j [] before = before
  last_value j ((k, v) ∷ new) before = last_value j new (if j == k then some v else before)

  pub lookup-extend :
      (j : K) (new : List (K × V)) (m : Map K V)
      → Map.lookup j (extend new m) ≡ last_value j new (Map.lookup j m)
  unfolding extend
  lookup-extend j [] m = refl
  lookup-extend j ((k, v) ∷ new) m =
      lookup-extend j new (insert k v m) ∙ ap (last_value j new) (lookup-insert j k v m)
