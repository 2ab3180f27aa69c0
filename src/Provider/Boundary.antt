-- ===== src/Provider/Boundary.antt =====
-- Adapter registries hold each adapter under its provider, and an inquiry never leaves the boundary
-- of its connection.
use platform_ops.Base.{
  ◌≡◌, length, List, ◌+◌, ◌≤◌, ◌∷◌, ok, if◌then◌else◌, arith, none, some, is_some, Option-cases,
  ◌↔◌, [], inl, Elem, inr, ◌⊎◌, ap, refl, ◌∙◌,
}
use platform_ops.Base.Dict
use platform_ops.Base.Dict.{Dict, lookup-insert}
use platform_ops.Provider.{
  provider_eq, CloudProvider-discrete, CloudProvider, by_provider, registry_of,
}
use mathlib.Core.Path.{sym, subst}

length-insert :
    {A : Type 0} (k : CloudProvider) (v : A) (d : Dict CloudProvider A)
    → length (Dict.insert k v d) ≡ length d + (if is_some (Dict.lookup k d) then 0 else 1)
unfolding Dict.insert Dict.lookup
length-insert k v [] = refl
length-insert k v ((j, w) ∷ d) = ground (arith, length-insert k v d)

module _ {A : Type 0} (provider_of : A → CloudProvider) where
  by_provider_bound :
      (rest : List A) (d : Dict CloudProvider A)
      → length (by_provider provider_of rest d) ≤ length d + length rest
  unfolding by_provider
  by_provider_bound [] d = omega arith
  by_provider_bound (a ∷ rest) d =
      let small : length (Dict.insert (provider_of a) a d) ≤ length d + 1 =
        ground (arith, length-insert (provider_of a) a d) in
      omega (arith, small, by_provider_bound rest (Dict.insert (provider_of a) a d))

  by_provider_fresh :
      (a : A) (rest : List A) (d : Dict CloudProvider A)
      → length (by_provider provider_of (a ∷ rest) d) ≡ length d + length (a ∷ rest)
      → (Dict.lookup (provider_of a) d ≡ none)
        × (length (Dict.insert (provider_of a) a d) ≡ length d + 1)
  unfolding by_provider
  by_provider_fresh a rest d full = elim (Option-cases (Dict.lookup (provider_of a) d)) [
    | inl missing ↦ (missing, ground (arith, length-insert (provider_of a) a d, missing))
    | inr (b, found) ↦
        let same : length (Dict.insert (provider_of a) a d) ≡ length d =
          ground (arith, length-insert (provider_of a) a d, found) in
        absurd (omega (arith, full, same, by_provider_bound rest (Dict.insert (provider_of a) a d)))
  ]

  Found : (rest : List A) (d : Dict CloudProvider A) (k : CloudProvider) (a : A) → Type 0
  Found rest d k a = (Elem a rest × (provider_of a ≡ k)) ⊎ (Dict.lookup k d ≡ some a)

  -- What an insertion under a fresh key adds.
  Found-step :
      (b : A) (rest : List A) (d : Dict CloudProvider A) (k : CloudProvider) (a : A)
      → Dict.lookup (provider_of b) d ≡ none
      → Found rest (Dict.insert (provider_of b) b d) k a ↔ Found (b ∷ rest) d k a
  unfolding Found
  Found-step b rest d k a fresh = (to, from)
    where
      to :
          (Elem a rest × (provider_of a ≡ k))
            ⊎ (Dict.lookup k (Dict.insert (provider_of b) b d) ≡ some a)
          → (Elem a (b ∷ rest) × (provider_of a ≡ k)) ⊎ (Dict.lookup k d ≡ some a)
      to (inl later) = inl (inr later.0, later.1)
      to (inr now) = elim (CloudProvider-discrete k (provider_of b)) [
        | yes here ↦
            let e : a ≡ b = ground (arith, lookup-insert k (provider_of b) b d, now, here) in
            inl (inl e, ap provider_of e ∙ sym here)
        | no elsewhere ↦ inr (ground (arith, lookup-insert k (provider_of b) b d, now, elsewhere))
      ]

      from :
          (Elem a (b ∷ rest) × (provider_of a ≡ k)) ⊎ (Dict.lookup k d ≡ some a)
          → (Elem a rest × (provider_of a ≡ k))
            ⊎ (Dict.lookup k (Dict.insert (provider_of b) b d) ≡ some a)
      from (inl (inl e, p)) =
          let q : k ≡ provider_of b = sym p ∙ ap provider_of e in
          inr (ground (arith, lookup-insert k (provider_of b) b d, q, e))
      from (inl (inr m, p)) = inl (m, p)
      from (inr h) = inr (ground (arith, lookup-insert k (provider_of b) b d, fresh, h))

  by_provider-lookup :
      (rest : List A) (d : Dict CloudProvider A) (k : CloudProvider) (a : A)
      → length (by_provider provider_of rest d) ≡ length d + length rest
      → (Dict.lookup k (by_provider provider_of rest d) ≡ some a) ↔ Found rest d k a
  unfolding by_provider Found
  by_provider-lookup [] d k a full =
      ((λ h. inr h), (λ h. elim h [ inl nowhere ↦ elim nowhere.0 [ ] | inr found ↦ found ]))
  by_provider-lookup (b ∷ rest) d k a full =
      let fresh = by_provider_fresh b rest d full in
      let after =
        by_provider-lookup rest (Dict.insert (provider_of b) b d) k a
          (omega (arith, full, fresh.1)) in
      let next = Found-step b rest d k a fresh.0 in
      ((λ h. next.0 (after.0 h)), (λ h. after.1 (next.1 h)))

  -- A registry that is built finds under each provider exactly the adapters of the list with that
  -- provider.
  pub registry_of-lookup :
      (adapters : List A) (d : Dict CloudProvider A) (k : CloudProvider) (a : A)
      → registry_of provider_of adapters ≡ ok d
      → (Dict.lookup k d ≡ some a) ↔ (Elem a adapters × (provider_of a ≡ k))
  unfolding registry_of Found
  registry_of-lookup adapters d k a built =
      let full : length (by_provider provider_of adapters []) ≡ length adapters =
        ground (arith, built) in
      let same : by_provider provider_of adapters [] ≡ d = ground (arith, built) in
      let i = by_provider-lookup adapters [] k a (omega (arith, full)) in
      subst (λ x. (Dict.lookup k x ≡ some a) ↔ (Elem a adapters × (provider_of a ≡ k))) same
        (
          (λ h. elim (i.0 h) [
            | inl m ↦ m
            | inr h ↦ absurd (ground (arith, Dict.lookup-nil {V = A} k, h))
          ]),
          (λ m. i.1 (inl m)),
        )
