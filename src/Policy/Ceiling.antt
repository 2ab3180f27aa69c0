-- ===== src/Policy/Ceiling.antt =====
-- Policy ceilings of gateway/policy/ceiling.py, where a tie between different ceilings is an error,
-- and effective access, the lower of grant and ceiling.
use mathlib.Core.Path.{subst, sym}
use platform_ops.Base.{
  ◌≡◌, List, Elem, ok, true, ◌⊎◌, err, ◌≤◌, ◌∷◌, ◌==◌, Bool-cases, all, inl, arith, Bool, ap, ℕ,
  filter, false, inr, filter_iff, map, nat_eq, ==_iff, [], all-Elem, map-Elem, refl, ◌&&◌, ◌<◌,
  bind-eq-ok,
}
use platform_ops.Policy.Best.{
  top_specificity_bound, top_specificity_reached, Elem-map, Decides, min_capability-rank,
  resolve_execution_capability_cases,
}
use platform_ops.Policy.{
  one_ceiling, entry_scope, Scope, Intent, CeilingEntry, scope_matches, specificity,
  ambiguous_policy_ceiling, top_specificity, capability_eq, best_ceiling, resolve_ceiling,
  effective_access, none_granted, rank, intent_eq, ExecutionGrant, Capability, min_capability,
  resolve_execution_capability,
}

-- An entry that is in the list, is for the intent, matches the scope and is as specific as any
-- such entry.
pub record IsBest (s : Scope) (intent : Intent) (entries : List CeilingEntry) (e : CeilingEntry)
    : Type 0 where
  pub held : Elem e entries
  pub for_intent : e.intent ≡ intent
  pub fits : scope_matches e.scope s ≡ true
  pub most_specific :
      (x : CeilingEntry)
      → Elem x entries
      → x.intent ≡ intent
      → scope_matches x.scope s ≡ true
      → specificity x.scope ≤ specificity e.scope

all-false :
    {A : Type 0} (p : A → Bool) (xs : List A)
    → all p xs ≡ false
    → (y : A) × Elem y xs × (p y ≡ false)
unfolding all
all-false p [] h = absurd (ground (arith, h))
all-false p (x ∷ xs) h = elim (Bool-cases (p x)) [
  | inl passed ↦ let r = all-false p xs (ground (arith, h, passed)) in (r.0, inr r.1, r.2)
  | inr failed ↦ (x, inl refl, failed)
]

same_ceiling : CeilingEntry → CeilingEntry → Bool
same_ceiling x y = y.ceiling == x.ceiling

one_ceiling_cases :
    (es : List CeilingEntry) (e : CeilingEntry)
    → Elem e es
    → ((x : CeilingEntry) × Elem x es
        × (one_ceiling es ≡ ok x.ceiling)
        × ((y : CeilingEntry) → Elem y es → y.ceiling ≡ x.ceiling))
      ⊎ ((x : CeilingEntry) × (y : CeilingEntry) × Elem x es
          × Elem y es
          × ¬ (y.ceiling ≡ x.ceiling)
          × (one_ceiling es ≡ err ambiguous_policy_ceiling))
unfolding one_ceiling same_ceiling
one_ceiling_cases [] e m = elim m [ ]
one_ceiling_cases (x ∷ xs) e m = elim (Bool-cases (all (same_ceiling x) xs)) [
  | inl agree ↦ inl (x, inl refl, ground (arith, agree), agreeing agree)
  | inr differ ↦
      let d = all-false (same_ceiling x) xs differ in
      inr (x, d.0, inl refl, inr d.1, (λ q. ground (arith, q, d.2)), ground (arith, differ))
]
  where
    agreeing :
        all (same_ceiling x) xs ≡ true
        → (y : CeilingEntry) → Elem y (x ∷ xs)
        → y.ceiling ≡ x.ceiling
    agreeing agree y (inl e) = ap (λ (c : CeilingEntry). c.ceiling) e
    agreeing agree y (inr n) =
        (==_iff y.ceiling x.ceiling).0 (all-Elem (same_ceiling x) xs y agree n)

module _ (g : CeilingEntry) (gs : List CeilingEntry) where
  top : ℕ
  top = top_specificity g.scope (map entry_scope gs)

  is_tied : CeilingEntry → Bool
  is_tied x = specificity x.scope == top

  -- The tied entries, those of the greatest specificity.
  Top : CeilingEntry → Type 0
  Top x =
      Elem x (g ∷ gs)
      × ((y : CeilingEntry) → Elem y (g ∷ gs) → specificity y.scope ≤ specificity x.scope)

  Top-of_tied : (x : CeilingEntry) → Elem x (filter is_tied (g ∷ gs)) → Top x
  unfolding is_tied Top top
  Top-of_tied x m =
      let kept = (filter_iff is_tied (g ∷ gs) x).0 m in
      let at_top =
        (==_iff (specificity x.scope) (top_specificity g.scope (map entry_scope gs))).0 kept.1 in
      (
        kept.0,
        λ y n. omega (
          arith,
          at_top,
          top_specificity_bound g.scope (map entry_scope gs) y.scope
              (map-Elem entry_scope (g ∷ gs) y n),
        ),
      )

  tied_one : (x : CeilingEntry) × Elem x (filter is_tied (g ∷ gs))
  unfolding is_tied top
  tied_one =
      let t = top_specificity_reached g.scope (map entry_scope gs) in
      let w = Elem-map entry_scope (g ∷ gs) t.0 t.1 in
      (w.0, (filter_iff is_tied (g ∷ gs) w.0).1 (w.1, ground (arith, t.2, w.2)))

  best_ceiling-Top :
      ((x : CeilingEntry) × Top x
        × (best_ceiling (g ∷ gs) ≡ ok x.ceiling)
        × ((y : CeilingEntry) → Top y → y.ceiling ≡ x.ceiling))
      ⊎ ((x : CeilingEntry) × (y : CeilingEntry) × Top x
          × Top y
          × ¬ (y.ceiling ≡ x.ceiling)
          × (best_ceiling (g ∷ gs) ≡ err ambiguous_policy_ceiling))
  unfolding best_ceiling is_tied top Top
  best_ceiling-Top = elim (one_ceiling_cases (filter is_tied (g ∷ gs)) tied_one.0 tied_one.1) [
    | inl one ↦ inl (
      one.0,
      Top-of_tied one.0 one.1,
      one.2,
      λ y at_top. one.3 y (
          (filter_iff is_tied (g ∷ gs) y).1
            (at_top.0, (==_iff (specificity y.scope) top).1 (level y at_top))),
    )
    | inr two ↦ inr (two.0, two.1, Top-of_tied two.0 two.2, Top-of_tied two.1 two.3, two.4, two.5)
  ]
    where
      level : (y : CeilingEntry) → Top y → specificity y.scope ≡ top
      level y at_top =
          let w = tied_one in
          let k = (filter_iff is_tied (g ∷ gs) w.0).0 w.1 in
          let e = (==_iff (specificity w.0.scope) top).0 k.1 in
          omega (
            arith,
            e,
            at_top.1 w.0 k.0,
            top_specificity_bound g.scope (map entry_scope gs) y.scope
                (map-Elem entry_scope (g ∷ gs) y at_top.0),
          )

best_ceiling-cases :
    (gs : List CeilingEntry)
    → ((gs ≡ []) × (best_ceiling gs ≡ ok none_granted))
      ⊎ (((x : CeilingEntry) × Elem x gs
            × ((y : CeilingEntry) → Elem y gs → specificity y.scope ≤ specificity x.scope)
            × (best_ceiling gs ≡ ok x.ceiling)
            × ((y : CeilingEntry)
                → Elem y gs
                → ((z : CeilingEntry) → Elem z gs → specificity z.scope ≤ specificity y.scope)
                → y.ceiling ≡ x.ceiling))
          ⊎ ((x : CeilingEntry) × (y : CeilingEntry) × Elem x gs
              × ((z : CeilingEntry) → Elem z gs → specificity z.scope ≤ specificity x.scope)
              × Elem y gs
              × ((z : CeilingEntry) → Elem z gs → specificity z.scope ≤ specificity y.scope)
              × ¬ (y.ceiling ≡ x.ceiling)
              × (best_ceiling gs ≡ err ambiguous_policy_ceiling)))
unfolding best_ceiling Top
best_ceiling-cases [] = inl (refl, refl)
best_ceiling-cases (g ∷ gs) = inr (elim (best_ceiling-Top g gs) [
  | inl one ↦ inl (one.0, one.1.0, one.1.1, one.2, λ y m b. one.3 y (m, b))
  | inr two ↦ inr (two.0, two.1, two.2.0, two.2.1, two.3.0, two.3.1, two.4, two.5)
])

module _ (s : Scope) (intent : Intent) (entries : List CeilingEntry) where
  applies : CeilingEntry → Bool
  applies e = e.intent == intent && scope_matches e.scope s

  IsBest-of_kept :
      (e : CeilingEntry)
      → Elem e (filter applies entries)
      → ((z : CeilingEntry)
          → Elem z (filter applies entries)
          → specificity z.scope ≤ specificity e.scope)
      → IsBest s intent entries e
  unfolding applies
  IsBest-of_kept e m bound =
      let k = (filter_iff applies entries e).0 m in
      record {
        held = k.0;
        for_intent = ground (arith, k.1);
        fits = ground (arith, k.1);
        most_specific =
            λ x n i f. bound x ((filter_iff applies entries x).1 (n, ground (arith, i, f)));
      }

  kept_of_IsBest :
      (e : CeilingEntry)
      → IsBest s intent entries e
      → Elem e (filter applies entries)
        × ((z : CeilingEntry)
            → Elem z (filter applies entries)
            → specificity z.scope ≤ specificity e.scope)
  unfolding applies
  kept_of_IsBest e b = (
    (filter_iff applies entries e).1 (b.held, ground (arith, b.for_intent, b.fits)),
    λ z m.
        let k = (filter_iff applies entries z).0 m in
        b.most_specific z k.0 (ground (arith, k.1)) (ground (arith, k.1)),
  )

  -- For every scope, intent and list of ceiling entries, one of three things holds. No entry for
  -- the intent matches the scope, and the ceiling is none. Or there are best entries (in the list,
  -- for the intent, matching, none more specific), they all have one ceiling, and the ceiling is
  -- that one. Or two best entries have different ceilings, and the result is the error that calls
  -- the policy ambiguous.
  pub resolve_ceiling_cases :
      (((x : CeilingEntry) → Elem x entries → x.intent ≡ intent → scope_matches x.scope s ≡ false)
        × (resolve_ceiling s intent entries ≡ ok none_granted))
      ⊎ (((e : CeilingEntry) × IsBest s intent entries e
            × (resolve_ceiling s intent entries ≡ ok e.ceiling)
            × ((x : CeilingEntry) → IsBest s intent entries x → x.ceiling ≡ e.ceiling))
          ⊎ ((e : CeilingEntry) × (x : CeilingEntry) × IsBest s intent entries e
              × IsBest s intent entries x
              × ¬ (x.ceiling ≡ e.ceiling)
              × (resolve_ceiling s intent entries ≡ err ambiguous_policy_ceiling)))
  unfolding resolve_ceiling applies
  resolve_ceiling_cases = elim (best_ceiling-cases (filter applies entries)) [
    | inl empty ↦ inl (
      λ x m i. elim (Bool-cases (scope_matches x.scope s)) [
        | inl fits ↦
            elim (subst (Elem x) empty.0
              ((filter_iff applies entries x).1 (m, ground (arith, i, fits)))) [ ]
        | inr misses ↦ misses
      ],
      empty.1,
    )
    | inr (inl one) ↦ inr (
        inl (
          one.0,
          IsBest-of_kept one.0 one.1 one.2,
          one.3,
          λ x b. let k = kept_of_IsBest x b in one.4 x k.0 k.1,
        ))
    | inr (inr two) ↦ inr (
        inr (
          two.0,
          two.1,
          IsBest-of_kept two.0 two.2 two.3,
          IsBest-of_kept two.1 two.4 two.5,
          two.6,
          two.7,
        ))
  ]

-- If a capability above none is the effective access, a matching grant that decides the scope
-- allows at least it, and so does a best ceiling entry for the intent.
pub effective_access-bounded :
    (s : Scope) (intent : Intent) (grants : List ExecutionGrant) (entries : List CeilingEntry)
    (c : Capability)
    → effective_access s intent grants entries ≡ ok c
    → 0 < rank c
    → ((g : ExecutionGrant) × Decides s grants g × (rank c ≤ rank g.capability))
      × ((e : CeilingEntry) × IsBest s intent entries e × (rank c ≤ rank e.ceiling))
unfolding effective_access rank
effective_access-bounded s intent grants entries c h above = (by_grant, by_ceiling)
  where
    found :
        (x : Capability) × (resolve_ceiling s intent entries ≡ ok x)
        × (c ≡ min_capability (resolve_execution_capability s grants) x)
    found =
        let b = bind-eq-ok (resolve_ceiling s intent entries) _ h in (b.0, b.1, ground (arith, b.2))

    bounds : (rank c ≤ rank (resolve_execution_capability s grants)) × (rank c ≤ rank found.0)
    bounds =
        let m = min_capability-rank (resolve_execution_capability s grants) found.0 in
        (
          subst (λ d. rank d ≤ rank (resolve_execution_capability s grants)) (sym found.2) m.0,
          subst (λ d. rank d ≤ rank found.0) (sym found.2) m.1,
        )

    by_grant : (g : ExecutionGrant) × Decides s grants g × (rank c ≤ rank g.capability)
    by_grant = elim (resolve_execution_capability_cases s grants) [
      | inl denied ↦ absurd (impossible denied.1)
      | inr (g, d, e) ↦ (g, d, subst (λ k. rank c ≤ rank k) e bounds.0)
    ]
      where
        impossible : ¬ (resolve_execution_capability s grants ≡ none_granted)
        impossible e = omega (arith, subst (λ k. rank c ≤ rank k) e bounds.0, above)

    by_ceiling : (e : CeilingEntry) × IsBest s intent entries e × (rank c ≤ rank e.ceiling)
    by_ceiling = elim (resolve_ceiling_cases s intent entries) [
      | inl denied ↦ absurd (impossible denied.1)
      | inr (inl one) ↦ (
        one.0,
        one.1,
        subst (λ k. rank c ≤ rank k) (same found.0 one.0.ceiling found.1 one.2) bounds.1,
      )
      | inr (inr two) ↦ absurd (ground (arith, two.5, found.1))
    ]
      where
        same :
            (a b : Capability)
            → resolve_ceiling s intent entries ≡ ok a
            → resolve_ceiling s intent entries ≡ ok b
            → a ≡ b
        same a b p q = ground (arith, p, q)

        impossible : ¬ (resolve_ceiling s intent entries ≡ ok none_granted)
        impossible e = omega (
          arith,
          subst (λ k. rank c ≤ rank k) (same found.0 none_granted found.1 e) bounds.1,
          above,
        )
