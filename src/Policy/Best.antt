-- ===== src/Policy/Best.antt =====
-- The best match decides: most specific first, then the lower capability, and no tie between
-- ceilings.
use platform_ops.Base.{
  List, Elem, ◌∷◌, ◌≡◌, inl, true, ◌≤◌, dec_le, [], arith, refl, inr, ◌⊎◌, ◌∙◌, map, ℕ, Bool, false,
  map-Elem, ◌==◌, filter_iff, nat_eq, filter, ==_iff, Bool-cases,
}
use mathlib.Core.Path.{subst}
use platform_ops.Policy.{
  Scope, ExecutionGrant, top_specificity, least, Capability, min_capability, scope_matches,
  specificity, rank, least_of, best_grant, grant_scope, resolve_execution_capability, none_granted,
}

-- A grant that decides the query: it matches, no matching grant is more specific, and none
-- equally specific has a lower capability.
pub record Decides (s : Scope) (grants : List ExecutionGrant) (g : ExecutionGrant) : Type 0 where
  pub held : Elem g grants
  pub fits : scope_matches g.scope s ≡ true
  pub most_specific :
      (x : ExecutionGrant)
      → Elem x grants
      → scope_matches x.scope s ≡ true
      → specificity x.scope ≤ specificity g.scope
  pub lowest :
      (x : ExecutionGrant)
      → Elem x grants
      → scope_matches x.scope s ≡ true
      → specificity x.scope ≡ specificity g.scope
      → rank g.capability ≤ rank x.capability

pub top_specificity_bound :
    (s : Scope) (ts : List Scope) (t : Scope)
    → Elem t (s ∷ ts)
    → specificity t ≤ top_specificity s ts
unfolding top_specificity
top_specificity_bound s [] t (inl e) = rw e (omega arith)
top_specificity_bound s [] t (inr m) = elim m [ ]
top_specificity_bound s (x ∷ xs) t (inl e) = rw e (omega arith)
top_specificity_bound s (x ∷ xs) t (inr m) = omega (arith, top_specificity_bound x xs t m)

pub top_specificity_reached :
    (s : Scope) (ts : List Scope)
    → (t : Scope) × Elem t (s ∷ ts) × (specificity t ≡ top_specificity s ts)
unfolding top_specificity
top_specificity_reached s [] = (s, inl refl, refl)
top_specificity_reached s (x ∷ xs) =
    let r = top_specificity_reached x xs in
    elim (dec_le (top_specificity x xs) (specificity s)) [
      | yes small ↦ (s, inl refl, omega arith)
      | no large ↦ (r.0, inr r.1, omega (arith, r.2))
    ]

pub min_capability-rank :
    (c x : Capability) → (rank (min_capability c x) ≤ rank c) × (rank (min_capability c x) ≤ rank x)
unfolding min_capability
min_capability-rank c x = ground arith

min_capability-either : (c x : Capability) → (min_capability c x ≡ c) ⊎ (min_capability c x ≡ x)
unfolding min_capability
min_capability-either c x = ground arith

least_bound :
    (c : Capability) (ds : List Capability) (d : Capability)
    → Elem d (c ∷ ds)
    → rank (least c ds) ≤ rank d
unfolding least
least_bound c [] d (inl e) = rw e (omega arith)
least_bound c [] d (inr m) = elim m [ ]
least_bound c (x ∷ xs) d (inl e) = rw e (
    omega (
      arith,
      least_bound (min_capability c x) xs (min_capability c x) (inl refl),
      min_capability-rank c x,
    ))
least_bound c (x ∷ xs) d (inr (inl e)) = rw e (
    omega (
      arith,
      least_bound (min_capability c x) xs (min_capability c x) (inl refl),
      min_capability-rank c x,
    ))
least_bound c (x ∷ xs) d (inr (inr m)) = least_bound (min_capability c x) xs d (inr m)

least_reached : (c : Capability) (ds : List Capability) → Elem (least c ds) (c ∷ ds)
unfolding least
least_reached c [] = inl refl
least_reached c (x ∷ xs) = elim (least_reached (min_capability c x) xs) [
  | inl e ↦ elim (min_capability-either c x) [ inl f ↦ inl (e ∙ f) | inr f ↦ inr (inl (e ∙ f)) ]
  | inr m ↦ inr (inr m)
]

pub Elem-map :
    {A B : Type 0} (f : A → B) (xs : List A) (b : B)
    → Elem b (map f xs)
    → (a : A) × Elem a xs × (b ≡ f a)
Elem-map f [] b m = elim m [ ]
Elem-map f (x ∷ xs) b (inl e) = (x, inl refl, e)
Elem-map f (x ∷ xs) b (inr m) = let r = Elem-map f xs b m in (r.0, inr r.1, r.2)

abbrev capability_of : ExecutionGrant → Capability
capability_of g = g.capability

-- Among grants, one has the least capability.
least_of_reached :
    (gs : List ExecutionGrant) (g : ExecutionGrant)
    → Elem g gs
    → (x : ExecutionGrant) × Elem x gs
      × (least_of gs ≡ x.capability)
      × ((y : ExecutionGrant) → Elem y gs → rank x.capability ≤ rank y.capability)
unfolding least_of
least_of_reached [] g m = elim m [ ]
least_of_reached (h ∷ hs) g m =
    let r = Elem-map capability_of (h ∷ hs) _ (least_reached h.capability (map capability_of hs)) in
    (
      r.0,
      r.1,
      r.2,
      λ y n.
          subst (λ c. rank c ≤ rank y.capability) r.2
            (least_bound h.capability (map capability_of hs) y.capability
              (map-Elem capability_of (h ∷ hs) y n)),
    )

module _ (g : ExecutionGrant) (gs : List ExecutionGrant) where
  top : ℕ
  top = top_specificity g.scope (map grant_scope gs)

  is_tied : ExecutionGrant → Bool
  is_tied x = specificity x.scope == top

  best_grant-decides :
      (x : ExecutionGrant) × Elem x (g ∷ gs)
      × (best_grant (g ∷ gs) ≡ x.capability)
      × ((y : ExecutionGrant) → Elem y (g ∷ gs) → specificity y.scope ≤ specificity x.scope)
      × ((y : ExecutionGrant)
          → Elem y (g ∷ gs)
          → specificity y.scope ≡ specificity x.scope
          → rank x.capability ≤ rank y.capability)
  unfolding best_grant is_tied top
  best_grant-decides =
      let t = top_specificity_reached g.scope (map grant_scope gs) in
      let w = Elem-map grant_scope (g ∷ gs) t.0 t.1 in
      let tied = (filter_iff is_tied (g ∷ gs) w.0).1 (w.1, ground (arith, t.2, w.2)) in
      let l = least_of_reached (filter is_tied (g ∷ gs)) w.0 tied in
      let kept = (filter_iff is_tied (g ∷ gs) l.0).0 l.1 in
      let at_top =
        (==_iff (specificity l.0.scope) (top_specificity g.scope (map grant_scope gs))).0 kept.1 in
      (
        l.0,
        kept.0,
        l.2,
        λ y m. omega (
          arith,
          at_top,
          top_specificity_bound g.scope (map grant_scope gs) y.scope
              (map-Elem grant_scope (g ∷ gs) y m),
        ),
        λ y m e. l.3 y ((filter_iff is_tied (g ∷ gs) y).1 (m, (==_iff _ _).1 (e ∙ at_top))),
      )

best_grant-cases :
    (gs : List ExecutionGrant)
    → ((gs ≡ []) × (best_grant gs ≡ none_granted))
      ⊎ ((x : ExecutionGrant) × Elem x gs
          × (best_grant gs ≡ x.capability)
          × ((y : ExecutionGrant) → Elem y gs → specificity y.scope ≤ specificity x.scope)
          × ((y : ExecutionGrant)
              → Elem y gs
              → specificity y.scope ≡ specificity x.scope
              → rank x.capability ≤ rank y.capability))
unfolding best_grant
best_grant-cases [] = inl (refl, refl)
best_grant-cases (g ∷ gs) = inr (best_grant-decides g gs)

-- For every scope and every list of grants, one of two things holds. Either no grant matches the
-- scope, and the execution capability is none; or some grant decides the scope (it is in the
-- list and matches, no matching grant is more specific, and no matching grant of the same
-- specificity has a lower capability), and the execution capability is that grant's.
pub resolve_execution_capability_cases :
    (s : Scope) (grants : List ExecutionGrant)
    → (((x : ExecutionGrant) → Elem x grants → scope_matches x.scope s ≡ false)
        × (resolve_execution_capability s grants ≡ none_granted))
      ⊎ ((g : ExecutionGrant) × Decides s grants g
          × (resolve_execution_capability s grants ≡ g.capability))
unfolding resolve_execution_capability
resolve_execution_capability_cases s grants =
    let fits = λ (g : ExecutionGrant). scope_matches g.scope s in
    let keep = λ (y : ExecutionGrant) (m : Elem y grants) (f : scope_matches y.scope s ≡ true).
      (filter_iff fits grants y).1 (m, f) in
    elim (best_grant-cases (filter fits grants)) [
      | inl none_left ↦ inl (
        λ x m. elim (Bool-cases (scope_matches x.scope s)) [
          | inl yes_fits ↦ elim (subst (Elem x) none_left.0 (keep x m yes_fits)) [ ]
          | inr not_fits ↦ not_fits
        ],
        none_left.1,
      )
      | inr found ↦ inr (
        found.0,
        record {
          held = ((filter_iff fits grants found.0).0 found.1).0;
          fits = ((filter_iff fits grants found.0).0 found.1).1;
          most_specific = λ x m f. found.3 x (keep x m f);
          lowest = λ x m f e. found.4 x (keep x m f) e;
        },
        found.2,
      )
    ]
