-- ===== src/Base/Lists.antt =====
-- Lists measured by native numbers, and the comprehensions of the source: `any`, `all`, `filter`.
use Prim.Native.Nat.{ℕ, suc}
use mathlib.Core.Path.{◌≡◌, ap, refl, sym, subst, ◌∙◌}
use mathlib.Core.Logic.{◌⊎◌, ◌↔◌, inl, inr}
use mathlib.Core.Bool.{Bool, true, false, ◌&&◌, ◌||◌}
use native.Mathlib.Omega.{arith}
use mathlib.Core.List.{List, [], ◌∷◌, map}
use platform_ops.Base.Equality.{if◌then◌else◌, Eq, contains, Bool-cases}

module _ {ℓ} {A : Type ℓ} where
  abbrev pub length : List A → ℕ
  length [] = 0
  length (x ∷ xs) = suc (length xs)

  unfoldable pub any : (A → Bool) → List A → Bool
  any p [] = false
  any p (x ∷ xs) = p x || any p xs

  unfoldable pub all : (A → Bool) → List A → Bool
  all p [] = true
  all p (x ∷ xs) = p x && all p xs

  unfoldable pub filter : (A → Bool) → List A → List A
  filter p [] = []
  filter p (x ∷ xs) = let rest = filter p xs in if p x then x ∷ rest else rest

-- Membership by recursion, which computes to sums that the tactics read.
abbrev pub Elem : {A : Type 0} → A → List A → Type 0
Elem a [] = ⊥
Elem a (x ∷ xs) = (a ≡ x) ⊎ Elem a xs

abbrev pub All {ℓ κ} : {A : Type ℓ} → (A → Type κ) → List A → Type κ
All P [] = Unit
All P (x ∷ xs) = P x × All P xs

-- Python's `in` is membership.
pub contains_iff :
    {A : Type 0} ⦃e : Eq A⦄ (xs : List A) (a : A) → (contains xs a ≡ true) ↔ Elem a xs
contains_iff [] a = (λ h. cc, λ h. elim h [ ])
contains_iff (x ∷ xs) a = ground (arith, contains_iff xs a)

pub filter_iff :
    {A : Type 0} (p : A → Bool) (xs : List A) (a : A)
    → Elem a (filter p xs) ↔ (Elem a xs × (p a ≡ true))
unfolding filter
filter_iff p [] a = (λ h. elim h [ ], λ h. elim h.0 [ ])
filter_iff p (x ∷ xs) a = ground (arith, filter_iff p xs a)

pub any-Elem :
    {A : Type 0} (p : A → Bool) (xs : List A) → any p xs ≡ true → (a : A) × Elem a xs × (p a ≡ true)
unfolding any
any-Elem p [] h = cc
any-Elem p (x ∷ xs) h = elim (Bool-cases (p x)) [
  | inl holds ↦ (x, inl refl, holds)
  | inr fails ↦ let r = any-Elem p xs (ground (arith, fails)) in (r.0, inr r.1, r.2)
]

pub any_of_Elem :
    {A : Type 0} (p : A → Bool) (xs : List A) (a : A) → Elem a xs → p a ≡ true → any p xs ≡ true
unfolding any
any_of_Elem p [] a m h = elim m [ ]
any_of_Elem p (x ∷ xs) a m h = ground (arith, any_of_Elem p xs a)

pub all-Elem :
    {A : Type 0} (p : A → Bool) (xs : List A) (a : A) → all p xs ≡ true → Elem a xs → p a ≡ true
unfolding all
all-Elem p [] a h m = elim m [ ]
all-Elem p (x ∷ xs) a h m = ground (arith, all-Elem p xs a)

pub map-Elem : {A B : Type 0} (f : A → B) (xs : List A) (a : A) → Elem a xs → Elem (f a) (map f xs)
map-Elem f [] a m = elim m [ ]
map-Elem f (x ∷ xs) a (inl same) = inl (ap f same)
map-Elem f (x ∷ xs) a (inr m) = inr (map-Elem f xs a m)

-- `bool(xs)` of a sequence
abbrev pub nonempty {ℓ} : {A : Type ℓ} → List A → Bool
nonempty [] = false
nonempty (x ∷ xs) = true

pub All-elem {κ} : {A : Type 0} (P : A → Type κ) (xs : List A) (a : A) → All P xs → Elem a xs → P a
All-elem P [] a h m = elim m [ ]
All-elem P (x ∷ xs) a h (inl same) = subst P (sym same) h.0
All-elem P (x ∷ xs) a h (inr m) = All-elem P xs a h.1 m

pub All-of_Elem {κ} :
    {A : Type 0} (P : A → Type κ) (xs : List A) → ((a : A) → Elem a xs → P a) → All P xs
All-of_Elem P [] h = tt
All-of_Elem P (x ∷ xs) h = (h x (inl refl), All-of_Elem P xs (λ a m. h a (inr m)))

abbrev pub Nodup : {A : Type 0} → List A → Type 0
Nodup [] = Unit
Nodup (x ∷ xs) = ¬ Elem x xs × Nodup xs

pub filter-Nodup : {A : Type 0} (p : A → Bool) (xs : List A) → Nodup xs → Nodup (filter p xs)
unfolding filter
filter-Nodup p [] u = tt
filter-Nodup p (x ∷ xs) (fresh, u) = elim (Bool-cases (p x)) [
  | inl keep ↦ rw keep ((λ m. fresh ((filter_iff p xs x).0 m).0), filter-Nodup p xs u)
  | inr skip ↦ rw skip (filter-Nodup p xs u)
]

-- A list without repetition whose only element is `a` is that singleton.
pub singleton_of_unique :
    {A : Type 0} (xs : List A) (a : A)
    → Nodup xs
    → Elem a xs
    → ((b : A) → Elem b xs → b ≡ a)
    → xs ≡ a ∷ []
singleton_of_unique [] a u m only = elim m [ ]
singleton_of_unique (x ∷ []) a u m only = ap (λ y. y ∷ []) (only x (inl refl))
singleton_of_unique (x ∷ y ∷ xs) a (fresh, u) m only =
    absurd (fresh (inl (only x (inl refl) ∙ sym (only y (inr (inl refl))))))
