-- ===== src/Provision/Topology/Sorting.antt =====
-- The sorting loop: an invariant of its rounds, enough fuel, and what the order says of the graph.
use platform_ops.Base.{
  ◌≡◌, List, String, Nodup, ℕ, Elem, ◌++◌, ◌∷◌, some, contains, [], filter, ◌↔◌, false, ◌+◌, ◌==◌,
  string_eq, Bool-cases, if◌then◌else◌, filter_iff, nat_eq, inl, arith, append_apart, contains_iff,
  inr, refl, ◌∙◌, ◌-◌, Elem-append, append-Nodup, length, filter-Nodup, ◌≤◌, length-append,
  length-le_of_Nodup, ap, ◌<◌, suc, covers_of_length, zero,
}
use platform_ops.Base.Dict
use platform_ops.Base.Dict.{Dict}
use mathlib.Core.Path.{subst, sym}
use mathlib.Core.List.{append_assoc, append-nil}
use platform_ops.Provision.Topology.{indegrees, ready, relax, degree, get_list, drain, EdgeSpec}
use platform_ops.Provision.Topology.Queue.{
  ready-Nodup, lookup-indegrees, ready_iff, lookup-relax, queue-relax,
}
use platform_ops.Provision.Topology.Edges.{
  sources, length-sources, place, Before-place, waiting, targets, Distinct, Before, Elem-targets,
  targets-Nodup, waiting-visit, waiting_zero, zero_waiting, Before-append, Before-snoc,
}

module _ (ids : List String) (es : List EdgeSpec) (successors : Dict String (List String)) where
  -- The units are distinct, the edges are distinct and lead between units, and the dictionary has
  -- the successors of each unit.
  pub record IsGraph : Type 0 where
    pub distinct_ids : Nodup ids
    pub distinct : Distinct es
    pub known : (e : EdgeSpec) → Elem e es → Elem e.source ids × Elem e.target ids
    pub listed : (k : String) → get_list k successors ≡ targets es k

  -- What holds in front of each round.
  pub record Inv (indegree : Dict String ℕ) (queue ordered : List String) : Type 0 where
    pub once : Nodup (ordered ++ queue)
    pub degrees : (t : String) → Elem t ids → Dict.lookup t indegree ≡ some (waiting es ordered t)
    pub reached :
        (t : String) → Elem t (ordered ++ queue) ↔ (Elem t ids × (waiting es ordered t ≡ 0))
    pub sorted :
        (e : EdgeSpec) → Elem e es → Elem e.target ordered → Before ordered e.source e.target

  module _ (g : IsGraph) (u : String) (indegree : Dict String ℕ) (queue ordered : List String)
      (before : Inv indegree (u ∷ queue) ordered) where
    fresh : contains ordered u ≡ false
    fresh = elim (Bool-cases (contains ordered u)) [
      | inl seen ↦ absurd (
          append_apart ordered (u ∷ queue) u before.once ((contains_iff ordered u).0 seen)
            (inl refl))
      | inr new ↦ new
    ]

    visited :
        (t : String)
        → waiting es (ordered ++ (u ∷ [])) t + (if contains (targets es u) t then 1 else 0)
          ≡ waiting es ordered t
    visited t = waiting-visit es ordered u t g.distinct fresh

    -- The successors that one more visited source sets free
    freed : List String
    freed = filter (λ t. degree t indegree == 1) (targets es u)

    freed_iff :
        (t : String)
        → Elem t freed ↔ (Elem t (targets es u) × Elem t ids × (waiting es ordered t ≡ 1))
    unfolding freed degree
    freed_iff t = (to, from)
      where
        target_known : Elem t (targets es u) → Elem t ids
        target_known m =
            let q = Elem-targets es u t m in subst (λ k. Elem k ids) q.3 (g.known q.0 q.1).1

        to :
            Elem t (filter (λ t. degree t indegree == 1) (targets es u))
            → Elem t (targets es u) × Elem t ids × (waiting es ordered t ≡ 1)
        to m =
            let k = (filter_iff (λ t. degree t indegree == 1) (targets es u) t).0 m in
            let known = target_known k.0 in
            (k.0, known, ground (arith, k.1, before.degrees t known))

        from :
            Elem t (targets es u) × Elem t ids × (waiting es ordered t ≡ 1)
            → Elem t (filter (λ t. degree t indegree == 1) (targets es u))
        from m =
            (filter_iff (λ t. degree t indegree == 1) (targets es u) t).1
              (m.0, ground (arith, m.2, before.degrees t m.1))

    same_list : (ordered ++ (u ∷ queue)) ++ freed ≡ (ordered ++ (u ∷ [])) ++ (queue ++ freed)
    same_list =
        append_assoc ordered (u ∷ queue) freed
        ∙ sym (append_assoc ordered (u ∷ []) (queue ++ freed))

    lost :
        (t : String)
        → Dict.lookup t (relax (targets es u) indegree queue).0 ≡ (
            if contains (targets es u) t
            then some (degree t indegree - 1)
            else Dict.lookup t indegree)
    lost t = lookup-relax t (targets es u) indegree queue (targets-Nodup es u g.distinct)

    at_front : waiting es ordered u ≡ 0
    at_front = ((before.reached u).0 ((Elem-append u ordered (u ∷ queue)).1 (inr (inl refl)))).1

    next_degrees :
        (t : String)
        → Elem t ids
        → Dict.lookup t (relax (targets es u) indegree queue).0
          ≡ some (waiting es (ordered ++ (u ∷ [])) t)
    unfolding degree
    next_degrees t m = lost t ∙ ground (arith, before.degrees t m, visited t)

    next_reached :
        (t : String)
        → Elem t ((ordered ++ (u ∷ queue)) ++ freed)
          ↔ (Elem t ids × (waiting es (ordered ++ (u ∷ [])) t ≡ 0))
    next_reached t = (to, from)
      where
        to :
            Elem t ((ordered ++ (u ∷ queue)) ++ freed)
            → Elem t ids × (waiting es (ordered ++ (u ∷ [])) t ≡ 0)
        to m = elim ((Elem-append t (ordered ++ (u ∷ queue)) freed).0 m) [
          | inl old ↦ let k = (before.reached t).0 old in (k.0, ground (arith, k.1, visited t))
          | inr new ↦
              let k = (freed_iff t).0 new in
              (k.1, ground (arith, k.2, visited t, (contains_iff (targets es u) t).1 k.0))
        ]

        from :
            Elem t ids × (waiting es (ordered ++ (u ∷ [])) t ≡ 0)
            → Elem t ((ordered ++ (u ∷ queue)) ++ freed)
        from (m, h) =
            (Elem-append t (ordered ++ (u ∷ queue)) freed).1
              (elim (Bool-cases (contains (targets es u) t)) [
                | inl hit ↦ inr (
                    (freed_iff t).1
                      ((contains_iff (targets es u) t).0 hit, m, ground (arith, h, hit, visited t)))
                | inr miss ↦ inl ((before.reached t).1 (m, ground (arith, h, miss, visited t)))
              ])

    next_once : Nodup ((ordered ++ (u ∷ queue)) ++ freed)
    unfolding freed
    next_once =
        append-Nodup (ordered ++ (u ∷ queue)) freed before.once
          (filter-Nodup (λ t. degree t indegree == 1) (targets es u)
            (targets-Nodup es u g.distinct))
          (λ a m n. omega (arith, ((before.reached a).0 m).1, ((freed_iff a).0 n).2))

    next_sorted :
        (e : EdgeSpec)
        → Elem e es
        → Elem e.target (ordered ++ (u ∷ []))
        → Before (ordered ++ (u ∷ [])) e.source e.target
    next_sorted e m t = elim ((Elem-append e.target ordered (u ∷ [])).0 t) [
      | inl old ↦ Before-append ordered (u ∷ []) e.source e.target (before.sorted e m old)
      | inr (inl now) ↦
          subst (λ k. Before (ordered ++ (u ∷ [])) e.source k) (sym now)
            (Before-snoc ordered e.source u (waiting_zero es ordered u e at_front m now))
      | inr (inr never) ↦ elim never [ ]
    ]

    -- One round keeps the invariant.
    round-Inv :
        Inv
          (relax (get_list u successors) indegree queue).0
          (relax (get_list u successors) indegree queue).1
          (ordered ++ (u ∷ []))
    unfolding freed
    round-Inv =
        subst
          (λ ts. Inv (relax ts indegree queue).0 (relax ts indegree queue).1 (ordered ++ (u ∷ [])))
          (sym (g.listed u))
          (subst (λ q. Inv (relax (targets es u) indegree queue).0 q (ordered ++ (u ∷ [])))
            (sym (queue-relax (targets es u) indegree queue (targets-Nodup es u g.distinct)))
            (record {
              once = subst Nodup same_list next_once;
              degrees = next_degrees;
              reached = λ t.
                  subst (λ xs. Elem t xs ↔ (Elem t ids × (waiting es (ordered ++ (u ∷ [])) t ≡ 0)))
                    same_list (next_reached t);
              sorted = next_sorted;
            }))

  -- With a round for each unit that is not sorted yet the loop ends, and the invariant holds with
  -- an empty queue.
  pub drain-Inv :
      (g : IsGraph) (fuel : ℕ) (indegree : Dict String ℕ) (queue ordered : List String)
      → Inv indegree queue ordered
      → length ids ≤ fuel + length ordered
      → (final : Dict String ℕ) × (order : List String) × (drain fuel successors indegree queue
            ordered
          ≡ some order)
        × Inv final [] order
  unfolding drain
  drain-Inv g fuel indegree [] ordered inv enough = (indegree, ordered, refl, inv)
  drain-Inv g zero indegree (u ∷ queue) ordered inv enough = absurd (
      omega (
        arith,
        enough,
        length-append ordered (u ∷ queue),
        length-le_of_Nodup (ordered ++ (u ∷ queue)) ids inv.once (λ a m. ((inv.reached a).0 m).0),
      ))
  drain-Inv g (suc fuel) indegree (u ∷ queue) ordered inv enough =
      drain-Inv g fuel (relax (get_list u successors) indegree queue).0
        (relax (get_list u successors) indegree queue).1 (ordered ++ (u ∷ []))
        (round-Inv g u indegree queue ordered inv)
        (omega (arith, enough, length-append ordered (u ∷ [])))

  pub start-Inv :
      (predecessors : Dict String (List String))
      → Nodup ids
      → ((k : String) → get_list k predecessors ≡ sources es k)
      → Inv (indegrees predecessors ids) (ready (indegrees predecessors ids)) []
  start-Inv predecessors distinct held = record {
    once = ready-Nodup predecessors ids distinct;
    degrees = λ t m. lookup-indegrees t predecessors ids m ∙ ap some (count t);
    reached = λ t. (
      (λ m. let k = (ready_iff t predecessors ids).0 m in (k.0, sym (count t) ∙ k.1)),
      (λ m. (ready_iff t predecessors ids).1 (m.0, count t ∙ m.1)),
    );
    sorted = λ e m n. elim n [ ];
  }
    where
      count : (t : String) → length (get_list t predecessors) ≡ waiting es [] t
      count t = ap (λ (xs : List String). length xs) (held t) ∙ length-sources es t

  order_known :
      (final : Dict String ℕ) (order : List String)
      → Inv final [] order
      → (t : String) → Elem t order
      → Elem t ids
  order_known final order inv t m = ((inv.reached t).0 ((Elem-append t order []).1 (inl m))).0

  -- Units of a rank below `k` are all in the order.
  order_all :
      (final : Dict String ℕ) (order : List String) (rank : String → ℕ)
      → IsGraph
      → Inv final [] order
      → ((e : EdgeSpec) → Elem e es → rank e.source < rank e.target)
      → (k : ℕ) (t : String) → rank t < k
      → Elem t ids
      → Elem t order
  order_all final order rank g inv ranked zero t small m = elim small [ ]
  order_all final order rank g inv ranked (suc k) t small m =
      elim ((Elem-append t order []).0 (
        (inv.reached t).1 (
          m,
          zero_waiting es order t (λ e n same.
              order_all final order rank g inv ranked k e.source
                (omega (arith, ranked e n, ap rank same)) (g.known e n).0),
        ))) [ inl here ↦ here | inr never ↦ elim never [ ] ]

  -- An order of all units numbers each source below its target.
  pub order-place :
      (final : Dict String ℕ) (order : List String) (e : EdgeSpec)
      → IsGraph
      → Inv final [] order
      → length order ≡ length ids
      → Elem e es
      → place order e.source < place order e.target
  order-place final order e g inv full m =
      let once = subst Nodup (append-nil order) inv.once in
      Before-place order e.source e.target once (
        inv.sorted e m (
          covers_of_length order ids e.target once (order_known final order inv)
            (omega (arith, full)) (g.known e m).1))

  -- If some numbering puts each source below its target, the order has all units.
  pub order-full :
      (final : Dict String ℕ) (order : List String) (rank : String → ℕ)
      → IsGraph
      → Inv final [] order
      → ((e : EdgeSpec) → Elem e es → rank e.source < rank e.target)
      → length order ≡ length ids
  order-full final order rank g inv ranked =
      let once = subst Nodup (append-nil order) inv.once in
      omega (
        arith,
        length-le_of_Nodup order ids once (order_known final order inv),
        length-le_of_Nodup ids order g.distinct_ids
            (λ t m. order_all final order rank g inv ranked (rank t + 1) t (omega arith) m),
      )
