-- ===== src/Prelude/Dicts.antt =====
-- A Python dict as an association list in insertion order, and a set as a list of its members.
use mathlib.Core.Path.{◌≡◌, refl}
use mathlib.Core.Bool.{Bool, false, ◌||◌}
use mathlib.Core.List.{List, [], ◌∷◌, map}
use mathlib.Core.Option.{Option, none, some}
use native.Mathlib.Omega.{arith}
use deltaengine.Prelude.Basics.{if◌then◌else◌, Eq, ◌==◌}

abbrev pub Dict {ℓ κ} : Type ℓ → Type κ → Type (ℓ ⊔ κ)
Dict K V = List (K × V)

module _ {ℓ κ} {K : Type ℓ} {V : Type κ} ⦃e : Eq K⦄ where
  -- `d.get(k)`
  abbrev pub lookup : K → Dict K V → Option V
  lookup k [] = none
  lookup k ((j, v) ∷ d) = if j == k then some v else lookup k d

  -- `d.get(k, z)`
  abbrev pub lookup_or : K → V → Dict K V → V
  lookup_or k z d = elim (lookup k d) [ none ↦ z | some v ↦ v ]

  -- `d[k] = v`
  abbrev pub insert : K → V → Dict K V → Dict K V
  insert k v [] = (k, v) ∷ []
  insert k v ((j, w) ∷ d) = if j == k then (j, v) ∷ d else (j, w) ∷ insert k v d

  -- `d.pop(k, None)`
  abbrev pub erase : K → Dict K V → Dict K V
  erase k [] = []
  erase k ((j, w) ∷ d) = if j == k then d else (j, w) ∷ erase k d

module _ {ℓ} {K : Type ℓ} ⦃e : Eq K⦄ where
  -- `k in s`
  abbrev pub contains : List K → K → Bool
  contains [] k = false
  contains (x ∷ xs) k = x == k || contains xs k

  -- No key is listed twice.
  abbrev pub Distinct : List K → Type 0
  Distinct [] = Unit
  Distinct (x ∷ xs) = (contains xs x ≡ false) × Distinct xs

abbrev pub keys {ℓ κ} : {K : Type ℓ} {V : Type κ} → Dict K V → List K
keys d = map (λ p. p.0) d

module _ {ℓ κ} {K : Type ℓ} {V : Type κ} ⦃e : Eq K⦄ where
  pub lookup-insert :
      (k j : K) (v : V) (d : Dict K V)
      → lookup j (insert k v d) ≡ (if k == j then some v else lookup j d)
  lookup-insert k j v [] = refl
  lookup-insert k j v ((i, w) ∷ d) =
      ground (arith, e.holds_iff i k, e.holds_iff i j, e.holds_iff k j, lookup-insert k j v d)

  pub contains-keys-lookup :
      (k : K) (d : Dict K V) → contains (keys d) k ≡ false → lookup k d ≡ none
  contains-keys-lookup k [] h = refl
  contains-keys-lookup k ((i, w) ∷ d) h = ground (arith, contains-keys-lookup k d)

  pub contains-keys-insert :
      (k j : K) (v : V) (d : Dict K V)
      → contains (keys (insert k v d)) j ≡ (k == j || contains (keys d) j)
  contains-keys-insert k j v [] = refl
  contains-keys-insert k j v ((i, w) ∷ d) =
      ground
        (arith, e.holds_iff i k, e.holds_iff i j, e.holds_iff k j, contains-keys-insert k j v d)

  pub insert-Distinct :
      (k : K) (v : V) (d : Dict K V) → Distinct (keys d) → Distinct (keys (insert k v d))
  insert-Distinct k v [] h = (refl, tt)
  insert-Distinct k v ((i, w) ∷ d) h =
      ground (
        arith,
        e.holds_iff i k,
        e.holds_iff k i,
        contains-keys-insert k i v d,
        insert-Distinct k v d,
      )

  pub contains-keys-erase-false :
      (k j : K) (d : Dict K V) → contains (keys d) j ≡ false → contains (keys (erase k d)) j ≡ false
  contains-keys-erase-false k j [] h = refl
  contains-keys-erase-false k j ((i, w) ∷ d) h = ground (arith, contains-keys-erase-false k j d)

  pub erase-Distinct : (k : K) (d : Dict K V) → Distinct (keys d) → Distinct (keys (erase k d))
  erase-Distinct k [] h = tt
  erase-Distinct k ((i, w) ∷ d) h =
      ground (arith, contains-keys-erase-false k i d, erase-Distinct k d)

  pub lookup-erase :
      (k j : K) (d : Dict K V)
      → Distinct (keys d)
      → lookup j (erase k d) ≡ (if k == j then none else lookup j d)
  lookup-erase k j [] h = ground arith
  lookup-erase k j ((i, w) ∷ d) h = ground (
    arith,
    e.holds_iff i k,
    e.holds_iff i j,
    e.holds_iff k j,
    contains-keys-lookup k d,
    lookup-erase k j d,
  )
