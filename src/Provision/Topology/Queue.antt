-- ===== src/Provision/Topology/Queue.antt =====
-- What one round of the sorting loop does to the indegrees and to the queue.
use platform_ops.Base.{
  ◌≡◌, filter, List, String, Bool, ◌++◌, ℕ, Elem, Nodup, ◌∷◌, if◌then◌else◌, ◌==◌, some, ◌↔◌, arith,
  [], contains, sym, length, inl, ap, ◌-◌, string_eq, inr, ◌∙◌, refl, contains_iff, nat_eq,
}
use platform_ops.Base.Dict
use mathlib.Core.List.{append-nil}
use platform_ops.Base.Dict.{Dict, lookup-insert}
use platform_ops.Provision.Topology.{relax, degree, indegrees, ready, get_list}

filter_same :
    {A : Type 0} (p q : A → Bool) (xs : List A)
    → ((a : A) → Elem a xs → p a ≡ q a)
    → filter p xs ≡ filter q xs
unfolding filter
filter_same p q [] same = refl
filter_same p q (x ∷ xs) same =
    ground (arith, same x (inl refl), filter_same p q xs (λ a m. same a (inr m)))

append_snoc :
    {A : Type 0} (xs : List A) (y : A) (ys : List A) → (xs ++ (y ∷ [])) ++ ys ≡ xs ++ (y ∷ ys)
append_snoc [] y ys = refl
append_snoc (x ∷ xs) y ys = ap (λ zs. x ∷ zs) (append_snoc xs y ys)

degree-insert :
    (k t : String) (n : ℕ) (d : Dict String ℕ)
    → degree k (Dict.insert t n d) ≡ (if k == t then n else degree k d)
unfolding degree
degree-insert k t n d = ground (arith, lookup-insert k t n d)

-- Each successor loses one, and nothing else changes.
pub lookup-relax :
    (k : String) (ts : List String) (d : Dict String ℕ) (queue : List String)
    → Nodup ts
    → Dict.lookup k (relax ts d queue).0
      ≡ (if contains ts k then some (degree k d - 1) else Dict.lookup k d)
unfolding relax
lookup-relax k [] d queue u = refl
lookup-relax k (t ∷ ts) d queue (fresh, u) =
    lookup-relax k ts (Dict.insert t (degree t d - 1) d)
      (if degree t d == 1 then queue ++ (t ∷ []) else queue) u
    ∙ ground (
      arith,
      degree-insert k t (degree t d - 1) d,
      lookup-insert k t (degree t d - 1) d,
      contains_iff ts k,
      fresh,
    )

-- The successors whose degree was 1 join the queue, in their order.
pub queue-relax :
    (ts : List String) (d : Dict String ℕ) (queue : List String)
    → Nodup ts
    → (relax ts d queue).1 ≡ queue ++ filter (λ t. degree t d == 1) ts
unfolding relax filter
queue-relax [] d queue u = sym (append-nil queue)
queue-relax (t ∷ ts) d queue (fresh, u) =
    queue-relax ts (Dict.insert t (degree t d - 1) d)
      (if degree t d == 1 then queue ++ (t ∷ []) else queue) u
    ∙ ap (λ xs. (if degree t d == 1 then queue ++ (t ∷ []) else queue) ++ xs)
        (filter_same (λ k. degree k (Dict.insert t (degree t d - 1) d) == 1) (λ k. degree k d == 1)
          ts (λ a m. ap (λ (n : ℕ). n == 1) (degree-insert a t (degree t d - 1) d ∙ other a m)))
    ∙ ground (arith, append_snoc queue t (filter (λ k. degree k d == 1) ts))
  where
    other : (a : String) → Elem a ts → (if a == t then degree t d - 1 else degree a d) ≡ degree a d
    other a m = ground (arith, fresh, m)

-- The indegrees at the start.
pub lookup-indegrees :
    (k : String) (predecessors : Dict String (List String)) (ks : List String)
    → Elem k ks
    → Dict.lookup k (indegrees predecessors ks) ≡ some (length (get_list k predecessors))
unfolding indegrees Dict.lookup
lookup-indegrees k p [] m = elim m [ ]
lookup-indegrees k p (j ∷ ks) m = ground (arith, lookup-indegrees k p ks)

pub ready_iff :
    (k : String) (p : Dict String (List String)) (ks : List String)
    → Elem k (ready (indegrees p ks)) ↔ (Elem k ks × (length (get_list k p) ≡ 0))
unfolding ready indegrees
ready_iff k p [] = (λ m. elim m [ ], λ m. elim m.0 [ ])
ready_iff k p (j ∷ ks) = ground (arith, ready_iff k p ks)

pub ready-Nodup :
    (p : Dict String (List String)) (ks : List String) → Nodup ks → Nodup (ready (indegrees p ks))
unfolding ready indegrees
ready-Nodup p [] u = tt
ready-Nodup p (j ∷ ks) (fresh, u) = ground (arith, ready-Nodup p ks u, ready_iff j p ks, fresh)
