-- ===== src/Base/Counting.antt =====
-- Counting without repetition: a list of distinct elements is no longer than a list that has them
-- all.
use mathlib.Core.Bool.{◌||◌}
use mathlib.Core.List.{List, [], ◌∷◌, ◌++◌}
use mathlib.Core.Path.{◌≡◌, refl, sym, subst}
use mathlib.Core.Logic.{◌⊎◌, ◌↔◌, inl, inr, ◌≢◌}
use Prim.Native.Nat.{◌+◌, ◌≤◌}
use native.Mathlib.Omega.{arith}
use platform_ops.Base.Equality.{Eq, ◌==◌, if◌then◌else◌, Bool-cases, contains}
use platform_ops.Base.Lists.{Elem, Nodup, length, contains_iff}

pub length-append {ℓ} : {A : Type ℓ} (xs ys : List A) → length (xs ++ ys) ≡ length xs + length ys
length-append [] ys = omega arith
length-append (x ∷ xs) ys = omega (arith, length-append xs ys)

pub Elem-append :
    {A : Type 0} (a : A) (xs ys : List A) → Elem a (xs ++ ys) ↔ (Elem a xs ⊎ Elem a ys)
Elem-append a [] ys = (λ m. inr m, λ m. elim m [ inl h ↦ elim h [ ] | inr h ↦ h ])
Elem-append a (x ∷ xs) ys = ground (arith, Elem-append a xs ys)

pub append-Nodup :
    {A : Type 0} (xs ys : List A)
    → Nodup xs
    → Nodup ys
    → ((a : A) → Elem a xs → ¬ Elem a ys)
    → Nodup (xs ++ ys)
append-Nodup [] ys u v apart = v
append-Nodup (x ∷ xs) ys (fresh, u) v apart = (
  (λ m. elim ((Elem-append x xs ys).0 m) [ inl h ↦ fresh h | inr h ↦ apart x (inl refl) h ]),
  append-Nodup xs ys u v (λ a m. apart a (inr m)),
)

module _ {A : Type 0} ⦃e : Eq A⦄ where
  remove : A → List A → List A
  remove a [] = []
  remove a (x ∷ xs) = if a == x then xs else x ∷ remove a xs

  length-remove : (a : A) (xs : List A) → Elem a xs → length xs ≡ length (remove a xs) + 1
  unfolding remove
  length-remove a [] m = elim m [ ]
  length-remove a (x ∷ xs) m = ground (arith, length-remove a xs)

  Elem-remove : (a b : A) (xs : List A) → Elem b xs → b ≢ a → Elem b (remove a xs)
  unfolding remove
  Elem-remove a b [] m other = m
  Elem-remove a b (x ∷ xs) m other = ground (arith, Elem-remove a b xs)

  pub length-le_of_Nodup :
      (xs ys : List A) → Nodup xs → ((a : A) → Elem a xs → Elem a ys) → length xs ≤ length ys
  length-le_of_Nodup [] ys u sub = omega arith
  length-le_of_Nodup (x ∷ xs) ys (fresh, u) sub = omega (
    arith,
    length-remove x ys (sub x (inl refl)),
    length-le_of_Nodup xs (remove x ys) u
        (λ a m. Elem-remove x a ys (sub a (inr m)) (λ same. fresh (subst (λ b. Elem b xs) same m))),
  )

  -- Distinct elements that are as many as those of a list that has them all are all of them.
  pub covers_of_length :
      (xs ys : List A) (b : A)
      → Nodup xs
      → ((a : A) → Elem a xs → Elem a ys)
      → length ys ≤ length xs
      → Elem b ys
      → Elem b xs
  covers_of_length xs ys b u sub long m = elim (Bool-cases (contains xs b)) [
    | inl here ↦ (contains_iff xs b).0 here
    | inr missing ↦ absurd (
        omega (
          arith,
          long,
          length-le_of_Nodup (b ∷ xs) ys ((λ h. cc ((contains_iff xs b).1 h, missing)), u)
              (λ a h. elim h [ inl e ↦ subst (λ c. Elem c ys) (sym e) m | inr h ↦ sub a h ]),
        ))
  ]

  pub contains-snoc :
      (xs : List A) (a b : A) → contains (xs ++ (a ∷ [])) b ≡ (contains xs b || b == a)
  contains-snoc [] a b = ground arith
  contains-snoc (x ∷ xs) a b = ground (arith, contains-snoc xs a b)

-- The parts of a list without repetition have nothing in common.
pub append_apart :
    {A : Type 0} (xs ys : List A) (a : A) → Nodup (xs ++ ys) → Elem a xs → ¬ Elem a ys
append_apart [] ys a u m n = elim m [ ]
append_apart (x ∷ xs) ys a (fresh, u) (inl same) n =
    fresh ((Elem-append x xs ys).1 (inr (subst (λ b. Elem b ys) same n)))
append_apart (x ∷ xs) ys a (fresh, u) (inr m) n = append_apart xs ys a u m n
