-- ===== src/Provision/Topology/Edges.antt =====
-- Edge lists: the successors of a unit, the edges that still hold a unit back, and the order that
-- a sorted list gives.
use platform_ops.Base.{
  ◌≡◌, List, String, ◌∷◌, Elem, if◌then◌else◌, ℕ, ◌⊎◌, Bool-cases, inl, Nodup, contains, arith,
  length, ◌++◌, [], ◌==◌, inr, false, contains_iff, Elem-append, ◌<◌, refl, ◌&&◌, string_eq, ◌+◌,
  ap, not, ==_iff, contains-snoc,
}
use mathlib.Core.Path.{sym}
use platform_ops.Provision.Topology.{EdgeSpec}

unfoldable pub sources : List EdgeSpec → String → List String
sources [] t = []
sources (e ∷ es) t = let rest = sources es t in if e.target == t then e.source ∷ rest else rest

unfoldable pub targets : List EdgeSpec → String → List String
targets [] s = []
targets (e ∷ es) s = let rest = targets es s in if e.source == s then e.target ∷ rest else rest

-- The number of edges to `t` whose source is not in `done`.
unfoldable pub waiting : List EdgeSpec → List String → String → ℕ
waiting [] done t = 0
waiting (e ∷ es) done t =
    (if e.target == t && not (contains done e.source) then 1 else 0) + waiting es done t

-- No edge stands twice.
abbrev pub Distinct : List EdgeSpec → Type 0
Distinct [] = Unit
Distinct (e ∷ es) = ¬ Elem e.target (targets es e.source) × Distinct es

-- In a list, `s` stands in front of `t`.
abbrev pub Before : List String → String → String → Type 0
Before [] s t = ⊥
Before (x ∷ xs) s t = ((x ≡ s) × Elem t xs) ⊎ Before xs s t

pub Elem-targets :
    (es : List EdgeSpec) (s t : String)
    → Elem t (targets es s)
    → (e : EdgeSpec) × Elem e es × (e.source ≡ s) × (e.target ≡ t)
unfolding targets
Elem-targets [] s t m = elim m [ ]
Elem-targets (e ∷ es) s t m = elim (Bool-cases (e.source == s)) [
  | inl here ↦ elim (string_eq.dec e.target t) [
    | yes same ↦ (e, inl refl, (==_iff e.source s).0 here, same)
    | no other ↦
        let r = Elem-targets es s t (ground (arith, m, here, other)) in (r.0, inr r.1, r.2, r.3)
  ]
  | inr there ↦ let r = Elem-targets es s t (ground (arith, m, there)) in (r.0, inr r.1, r.2, r.3)
]

pub targets-Elem :
    (es : List EdgeSpec) (e : EdgeSpec) → Elem e es → Elem e.target (targets es e.source)
unfolding targets
targets-Elem [] e m = elim m [ ]
targets-Elem (d ∷ es) e (inl same) = rw same (ground arith)
targets-Elem (d ∷ es) e (inr m) = ground (arith, targets-Elem es e m)

pub targets-Nodup : (es : List EdgeSpec) (s : String) → Distinct es → Nodup (targets es s)
unfolding targets
targets-Nodup [] s u = tt
targets-Nodup (e ∷ es) s (fresh, u) = ground (arith, targets-Nodup es s u, fresh)

-- Taking a unit up lowers the count by one exactly at its successors.
pub waiting-visit :
    (es : List EdgeSpec) (done : List String) (u t : String)
    → Distinct es
    → contains done u ≡ false
    → waiting es (done ++ (u ∷ [])) t + (if contains (targets es u) t then 1 else 0)
      ≡ waiting es done t
unfolding waiting targets
waiting-visit [] done u t d fresh = refl
waiting-visit (e ∷ es) done u t (only, d) fresh = ground (
  arith,
  waiting-visit es done u t d fresh,
  contains-snoc done u e.source,
  contains_iff (targets es u) t,
)

-- A unit that nothing holds back has all its sources in `done`, and the other way round.
pub waiting_zero :
    (es : List EdgeSpec) (done : List String) (t : String) (e : EdgeSpec)
    → waiting es done t ≡ 0
    → Elem e es
    → e.target ≡ t
    → Elem e.source done
unfolding waiting
waiting_zero [] done t e h m same = elim m [ ]
waiting_zero (d ∷ es) done t e h (inl here) same = (contains_iff done e.source).0 (
    ground
      (arith, h, same, ap (λ (x : EdgeSpec). x.source) here, ap (λ (x : EdgeSpec). x.target) here))
waiting_zero (d ∷ es) done t e h (inr m) same = waiting_zero es done t e (ground (arith, h)) m same

pub zero_waiting :
    (es : List EdgeSpec) (done : List String) (t : String)
    → ((e : EdgeSpec) → Elem e es → e.target ≡ t → Elem e.source done)
    → waiting es done t ≡ 0
unfolding waiting
zero_waiting [] done t all_done = refl
zero_waiting (e ∷ es) done t all_done = ground (
  arith,
  all_done e (inl refl),
  contains_iff done e.source,
  zero_waiting es done t (λ d m. all_done d (inr m)),
)

pub length-sources : (es : List EdgeSpec) (t : String) → length (sources es t) ≡ waiting es [] t
unfolding sources waiting
length-sources [] t = refl
length-sources (e ∷ es) t = ground (arith, length-sources es t)

pub Before-append : (xs ys : List String) (s t : String) → Before xs s t → Before (xs ++ ys) s t
Before-append [] ys s t b = elim b [ ]
Before-append (x ∷ xs) ys s t (inl (same, m)) = inl (same, (Elem-append t xs ys).1 (inl m))
Before-append (x ∷ xs) ys s t (inr b) = inr (Before-append xs ys s t b)

pub Before-snoc : (xs : List String) (s t : String) → Elem s xs → Before (xs ++ (t ∷ [])) s t
Before-snoc [] s t m = elim m [ ]
Before-snoc (x ∷ xs) s t (inl same) = inl (sym same, (Elem-append t xs (t ∷ [])).1 (inr (inl refl)))
Before-snoc (x ∷ xs) s t (inr m) = inr (Before-snoc xs s t m)

-- The place of the first `t`.
unfoldable pub place : List String → String → ℕ
place [] t = 0
place (x ∷ xs) t = if x == t then 0 else place xs t + 1

Before-Elem : (xs : List String) (s t : String) → Before xs s t → Elem s xs × Elem t xs
Before-Elem [] s t b = elim b [ ]
Before-Elem (x ∷ xs) s t (inl (same, m)) = (inl (sym same), inr m)
Before-Elem (x ∷ xs) s t (inr b) = let r = Before-Elem xs s t b in (inr r.0, inr r.1)

pub Before-place :
    (xs : List String) (s t : String) → Nodup xs → Before xs s t → place xs s < place xs t
unfolding place
Before-place [] s t u b = elim b [ ]
Before-place (x ∷ xs) s t (fresh, u) (inl (same, m)) = ground (arith, same, fresh, m)
Before-place (x ∷ xs) s t (fresh, u) (inr b) =
    ground (arith, Before-place xs s t u b, fresh, Before-Elem xs s t b)
