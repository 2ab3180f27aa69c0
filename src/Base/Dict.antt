-- ===== src/Base/Dict.antt =====
-- Python's dict: an association list in insertion order. An assignment to a key that is there
-- keeps its place.
use mathlib.Core.Path.{◌≡◌, refl}
use mathlib.Core.Option.{Option, none, some}
use mathlib.Core.List.{List, [], ◌∷◌}
use native.Mathlib.Omega.{arith}
use platform_ops.Base.Lists.{Elem, Nodup}
use mathlib.Core.Logic.{◌⊎◌, inl, inr}
use platform_ops.Base.Equality.{Eq, ◌==◌, if◌then◌else◌}

abbrev pub Dict {ℓ κ} : Type ℓ → Type κ → Type (ℓ ⊔ κ)
Dict K V = List (K × V)

-- `d.values()`
unfoldable pub values {ℓ κ} : {K : Type ℓ} {V : Type κ} → Dict K V → List V
values [] = []
values ((_, v) ∷ d) = v ∷ values d

module _ {ℓ κ} {K : Type ℓ} {V : Type κ} ⦃e : Eq K⦄ where
  -- `d.get(k)`
  unfoldable pub lookup : K → Dict K V → Option V
  lookup k [] = none
  lookup k ((j, v) ∷ d) = if k == j then some v else lookup k d

  -- `d[k] = v`
  unfoldable pub insert : K → V → Dict K V → Dict K V
  insert k v [] = (k, v) ∷ []
  insert k v ((j, w) ∷ d) = if k == j then (k, v) ∷ d else (j, w) ∷ insert k v d

  -- `d.pop(k, None)`
  unfoldable pub erase : K → Dict K V → Dict K V
  erase k [] = []
  erase k ((j, w) ∷ d) = let rest = erase k d in if k == j then rest else (j, w) ∷ rest

  pub lookup-nil : (k : K) → lookup k [] ≡ none
  unfolding lookup
  lookup-nil k = refl

  pub lookup-insert :
      (j k : K) (v : V) (d : Dict K V)
      → lookup j (insert k v d) ≡ (if j == k then some v else lookup j d)
  unfolding lookup insert
  lookup-insert j k v [] = refl
  lookup-insert j k v ((i, w) ∷ d) = ground (arith, lookup-insert j k v d)

  pub lookup-insert_same : (k : K) (v : V) (d : Dict K V) → lookup k (insert k v d) ≡ some v
  lookup-insert_same k v d = ground (arith, lookup-insert k k v d)

  -- What is stored under one key stays when a key that was free is taken.
  pub lookup-insert_free :
      (j k : K) (v w : V) (d : Dict K V)
      → lookup j d ≡ some v
      → lookup k d ≡ none
      → lookup j (insert k w d) ≡ some v
  lookup-insert_free j k v w d stored free = ground (arith, lookup-insert j k w d, stored, free)

  pub lookup-erase :
      (j k : K) (d : Dict K V) → lookup j (erase k d) ≡ (if j == k then none else lookup j d)
  unfolding lookup erase
  lookup-erase j k [] = ground arith
  lookup-erase j k ((i, w) ∷ d) = ground (arith, lookup-erase j k d)

  -- No key stands twice.
  abbrev pub NodupKeys : Dict K V → Type κ
  NodupKeys [] = Unit
  NodupKeys ((k, _) ∷ d) = (lookup k d ≡ none) × NodupKeys d

  pub insert-NodupKeys : (k : K) (v : V) (d : Dict K V) → NodupKeys d → NodupKeys (insert k v d)
  unfolding insert
  insert-NodupKeys k v [] u = (lookup-nil k, tt)
  insert-NodupKeys k v ((j, w) ∷ d) (fresh, u) =
      ground (arith, insert-NodupKeys k v d u, lookup-insert j k v d)

module _ {K V : Type 0} ⦃e : Eq K⦄ where
  -- What a lookup finds is among the values, and each value is found under some key.
  pub lookup-Elem : (k : K) (v : V) (d : Dict K V) → lookup k d ≡ some v → Elem v (values d)
  unfolding lookup values
  lookup-Elem k v [] h = cc
  lookup-Elem k v ((j, w) ∷ d) h = ground (arith, lookup-Elem k v d)

  pub Elem-values :
      (v : V) (d : Dict K V) → NodupKeys d → Elem v (values d) → (k : K) × (lookup k d ≡ some v)
  unfolding lookup values
  Elem-values v [] u m = elim m [ ]
  Elem-values v ((j, w) ∷ d) (fresh, u) (inl same) = (j, ground arith)
  Elem-values v ((j, w) ∷ d) (fresh, u) (inr m) = let r = Elem-values v d u m in (r.0, ground arith)

  -- Values that hold their own key stand once.
  pub values-Nodup :
      (id_of : V → K) (d : Dict K V)
      → NodupKeys d
      → ((k : K) (v : V) → lookup k d ≡ some v → id_of v ≡ k)
      → Nodup (values d)
  unfolding lookup values
  values-Nodup id_of [] u own = tt
  values-Nodup id_of ((k, v) ∷ d) (fresh, u) own = (
    λ m. let q = Elem-values v d u m in ground (arith, q.1, own k v, own q.0 v),
    values-Nodup id_of d u (λ j w h. own j w (ground arith)),
  )

  pub values-insert :
      (k : K) (v x : V) (d : Dict K V)
      → Elem x (values (insert k v d))
      → (x ≡ v) ⊎ Elem x (values d)
  unfolding insert values
  values-insert k v x [] m = m
  values-insert k v x ((j, w) ∷ d) m = ground (arith, values-insert k v x d)

  pub insert-values : (k : K) (v : V) (d : Dict K V) → Elem v (values (insert k v d))
  unfolding insert values
  insert-values k v [] = inl refl
  insert-values k v ((j, w) ∷ d) = ground (arith, insert-values k v d)
