-- ===== src/Provision/Topology/Checks.antt =====
-- What each check in front of the sorting accepts.
use platform_ops.Base.{
  ◌≡◌, List, String, ◌∷◌, is_some, Elem, ok, Nodup, if◌then◌else◌, ◌++◌, false, [], arith, ◌==◌,
  ◌↔◌, refl, string_eq, ◌∙◌, inl, contains, ◌⊎◌, contains_iff, ◌≢◌, ap, inr, Bool-cases,
  Elem-append,
}
use platform_ops.Base.Dict
use platform_ops.Base.Dict.{Dict, lookup-insert}
use mathlib.Core.Path.{subst, sym}
use mathlib.Core.List.{append_assoc, append-nil}
use platform_ops.Provision.Topology.{
  units_by_id, add_edges, keys, get_list, push, UnitSpec, EdgeSpec, Neighbours,
}
use platform_ops.Provision.Topology.Edges.{sources, targets, Distinct, Elem-targets, targets-Elem}

abbrev pub unit_ids : List UnitSpec → List String
unit_ids [] = []
unit_ids (u ∷ us) = u.unit_id ∷ unit_ids us

missing_iff :
    {V : Type 0} (k : String) (d : Dict String V)
    → (is_some (Dict.lookup k d) ≡ false) ↔ (¬ Elem k (keys d))
unfolding Dict.lookup
missing_iff k [] = (λ h m. elim m [ ], λ h. refl)
missing_iff k ((j, v) ∷ d) = ground (arith, missing_iff k d)

keys-insert :
    {V : Type 0} (k : String) (v : V) (d : Dict String V)
    → ¬ Elem k (keys d)
    → keys (Dict.insert k v d) ≡ keys d ++ (k ∷ [])
unfolding Dict.insert
keys-insert k v [] fresh = refl
keys-insert k v ((j, w) ∷ d) fresh = ground (arith, fresh, keys-insert k v d)

-- The units that the loop over them has accepted, and their keys.
pub units_by_id-eq-ok :
    (registered : List String) (us : List UnitSpec) (d t : Dict String UnitSpec)
    → units_by_id registered us d ≡ ok t
    → (keys t ≡ keys d ++ unit_ids us)
      × Nodup (unit_ids us)
      × ((u : UnitSpec) → Elem u us → Elem u.uses registered)
      × ((k : String) → Elem k (unit_ids us) → ¬ Elem k (keys d))
unfolding units_by_id
units_by_id-eq-ok registered [] d t h =
    (ground (arith, h, append-nil (keys d)), tt, (λ u m. elim m [ ]), (λ k m. elim m [ ]))
units_by_id-eq-ok registered (u ∷ us) d t h =
    let gone = (missing_iff u.unit_id d).0 (ground (arith, h)) in
    let same = keys-insert u.unit_id u d gone in
    let rest = units_by_id-eq-ok registered us (Dict.insert u.unit_id u d) t (ground (arith, h)) in
    let seen =
      λ (k : String) (m : Elem k (keys d ++ (u.unit_id ∷ []))). subst (Elem k) (sym same) m in
    (
      rest.0
          ∙ ap (λ xs. xs ++ unit_ids us) same
          ∙ append_assoc (keys d) (u.unit_id ∷ []) (unit_ids us),
      (
        (λ m. rest.3 u.unit_id m (
            seen u.unit_id ((Elem-append u.unit_id (keys d) (u.unit_id ∷ [])).1 (inr (inl refl))))),
        rest.1,
      ),
      (λ v m. elim m [
        | inl e ↦
            subst (λ w. Elem w.uses registered) (sym e)
              ((contains_iff registered u.uses).0 (ground (arith, h)))
        | inr n ↦ rest.2 v n
      ]),
      (λ k m n. elim m [
        | inl e ↦ gone (subst (λ j. Elem j (keys d)) e n)
        | inr q ↦ rest.3 k q (seen k ((Elem-append k (keys d) (u.unit_id ∷ [])).1 (inl n)))
      ]),
    )

pub units_by_id_accepts :
    (registered : List String) (us : List UnitSpec) (d : Dict String UnitSpec)
    → Nodup (unit_ids us)
    → ((u : UnitSpec) → Elem u us → Elem u.uses registered)
    → ((k : String) → Elem k (unit_ids us) → ¬ Elem k (keys d))
    → (t : Dict String UnitSpec) × (units_by_id registered us d ≡ ok t)
unfolding units_by_id
units_by_id_accepts registered [] d u fits apart = (d, refl)
units_by_id_accepts registered (u ∷ us) d (fresh, distinct) fits apart =
    let gone = apart u.unit_id (inl refl) in
    let missing = (missing_iff u.unit_id d).1 gone in
    let use_known = (contains_iff registered u.uses).1 (fits u (inl refl)) in
    let rest =
      units_by_id_accepts registered us (Dict.insert u.unit_id u d) distinct (λ v m. fits v (inr m))
        (λ k m n.
          elim ((Elem-append k (keys d) (u.unit_id ∷ [])).0
            (subst (Elem k) (keys-insert u.unit_id u d gone) n)) [
              | inl old ↦ apart k (inr m) old
              | inr (inl now) ↦ fresh (subst (λ j. Elem j (unit_ids us)) now m)
              | inr (inr never) ↦ elim never [ ]
            ]) in
    (rest.0, ground (arith, missing, use_known, rest.1))

get_list-push :
    (k j x : String) (d : Dict String (List String))
    → get_list k (push j x d) ≡ (if k == j then get_list k d ++ (x ∷ []) else get_list k d)
unfolding get_list push
get_list-push k j x d = ground (arith, lookup-insert k j (get_list j d ++ (x ∷ [])) d)

step : EdgeSpec → Neighbours → Neighbours
step e n = record {
  predecessors = push e.target e.source n.predecessors;
  successors = push e.source e.target n.successors;
}

absent : (xs : List String) (a : String) → ¬ Elem a xs → contains xs a ≡ false
absent xs a gone = elim (Bool-cases (contains xs a)) [
  | inl here ↦ absurd (gone ((contains_iff xs a).0 here))
  | inr there ↦ there
]

-- The predecessors of `t` after an edge was added
grown_iff :
    (s t : String) (e : EdgeSpec) (n : Neighbours)
    → Elem s (get_list t (step e n).predecessors)
      ↔ (Elem s (get_list t n.predecessors) ⊎ ((s ≡ e.source) × (t ≡ e.target)))
unfolding step
grown_iff s t e n = ground (
  arith,
  get_list-push t e.target e.source n.predecessors,
  Elem-append s (get_list t n.predecessors) (e.source ∷ []),
)

grows :
    (s t : String) (e : EdgeSpec) (n : Neighbours)
    → Elem s (get_list t n.predecessors) ⊎ ((s ≡ e.source) × (t ≡ e.target))
    → Elem s (get_list t (step e n).predecessors)
grows s t e n = (grown_iff s t e n).1

grown :
    (s t : String) (e : EdgeSpec) (n : Neighbours)
    → Elem s (get_list t (step e n).predecessors)
    → Elem s (get_list t n.predecessors) ⊎ ((s ≡ e.source) × (t ≡ e.target))
grown s t e n = (grown_iff s t e n).0

-- What the loop over the edges has accepted, and the neighbours that it has found.
pub record Accepts (ids : List String) (es : List EdgeSpec) (n m : Neighbours) : Type 0 where
  pub held_by : (k : String) → get_list k m.predecessors ≡ get_list k n.predecessors ++ sources es k
  pub leads_to : (k : String) → get_list k m.successors ≡ get_list k n.successors ++ targets es k
  pub known : (e : EdgeSpec) → Elem e es → Elem e.source ids × Elem e.target ids
  pub distinct : Distinct es
  pub fresh : (e : EdgeSpec) → Elem e es → ¬ Elem e.source (get_list e.target n.predecessors)

pub add_edges-Accepts :
    (ids : List String) (es : List EdgeSpec) (n m : Neighbours)
    → add_edges ids es n ≡ ok m
    → Accepts ids es n m
unfolding add_edges sources targets step
add_edges-Accepts ids [] n m h = record {
  held_by = λ k. ground (arith, h, append-nil (get_list k n.predecessors));
  leads_to = λ k. ground (arith, h, append-nil (get_list k n.successors));
  known = λ e q. elim q [ ];
  distinct = tt;
  fresh = λ e q. elim q [ ];
}
add_edges-Accepts ids (e ∷ es) n m h =
    let n' = step e n in
    let rest = add_edges-Accepts ids es n' m (ground (arith, h)) in
    let ends : Elem e.source ids × Elem e.target ids =
      ground (arith, h, contains_iff ids e.source, contains_iff ids e.target) in
    let free : ¬ Elem e.source (get_list e.target n.predecessors) =
      λ q. ground (arith, h, (contains_iff (get_list e.target n.predecessors) e.source).1 q) in
    record {
      held_by = λ k.
          rest.held_by k
          ∙ ground (
            arith,
            get_list-push k e.target e.source n.predecessors,
            append_assoc (get_list k n.predecessors) (e.source ∷ []) (sources es k),
          );
      leads_to = λ k.
          rest.leads_to k
          ∙ ground (
            arith,
            get_list-push k e.source e.target n.successors,
            append_assoc (get_list k n.successors) (e.target ∷ []) (targets es k),
          );
      known = λ d q. elim q [
        | inl here ↦ subst (λ x. Elem x.source ids × Elem x.target ids) (sym here) ends
        | inr later ↦ rest.known d later
      ];
      distinct = (
        (λ q.
            let d = Elem-targets es e.source e.target q in
            rest.fresh d.0 d.1 (grows d.0.source d.0.target e n (inr (d.2, d.3)))),
        rest.distinct,
      );
      fresh = λ d q. elim q [
        | inl here ↦ subst (λ x. ¬ Elem x.source (get_list x.target n.predecessors)) (sym here) free
        | inr later ↦ λ old. rest.fresh d later (grows d.source d.target e n (inl old))
      ];
    }

-- Neighbours under which no edge of the list is a duplicate accept the list.
pub add_edges_accepts :
    (ids : List String) (es : List EdgeSpec) (n : Neighbours)
    → ((e : EdgeSpec) → Elem e es → Elem e.source ids × Elem e.target ids)
    → ((e : EdgeSpec) → Elem e es → e.source ≢ e.target)
    → Distinct es
    → ((e : EdgeSpec) → Elem e es → ¬ Elem e.source (get_list e.target n.predecessors))
    → (m : Neighbours) × (add_edges ids es n ≡ ok m)
unfolding add_edges step
add_edges_accepts ids [] n known proper d fresh = (n, refl)
add_edges_accepts ids (e ∷ es) n known proper (only, d) fresh =
    let ends = known e (inl refl) in
    let source_known = (contains_iff ids e.source).1 ends.0 in
    let target_known = (contains_iff ids e.target).1 ends.1 in
    let not_self = proper e (inl refl) in
    let free : contains (get_list e.target n.predecessors) e.source ≡ false =
      absent (get_list e.target n.predecessors) e.source (fresh e (inl refl)) in
    let rest =
      add_edges_accepts ids es (step e n) (λ x m. known x (inr m)) (λ x m. proper x (inr m)) d
        (λ x m q. elim (grown x.source x.target e n q) [
          | inl old ↦ fresh x (inr m) old
          | inr (s, t) ↦ only (
              subst (λ k. Elem k (targets es e.source)) t
                (subst (λ k. Elem x.target (targets es k)) s (targets-Elem es x m)))
        ]) in
    (rest.0, ground (arith, source_known, target_known, not_self, free, rest.1))
