-- ===== src/Registration/Limiter/Windows.antt =====
-- The rate limiter keeps, for each address, the accepted calls of a sliding window.
use platform_ops.Base.{
  ◌≡◌, String, List, ℕ, filter, ◌++◌, ◌∷◌, [], true, length, ◌≤◌, arith, refl, Bool, Option, ◌+◌,
  if◌then◌else◌, ◌==◌, ◌&&◌, string_eq, false, ◌<◌, Bool-cases, inl, inr, ◌≢◌, none, ◌↔◌,
}
use platform_ops.Base.Dict
use platform_ops.Base.Dict.{Dict, lookup-insert}
use mathlib.Core.Path.{subst, sym}
use platform_ops.Registration.Limiter.{
  RateLimiterConfig, RateLimiter, empty_limiter, is_recent, attempts_of, recent, allow,
  recent_of_source, given,
}

-- The times of the accepted calls for the address `e` after a call for `email`
abbrev pub accepted_after : String → String → Bool → List ℕ → ℕ → List ℕ
accepted_after e email answer accepted now =
    if (e == email) && answer then accepted ++ (now ∷ []) else accepted

-- Calls in the order of their times: the accepted times of the address `e`, the limiter after them and
-- the time of the last.
pub data Run (c : RateLimiterConfig) (e : String) : List ℕ → RateLimiter → ℕ → Type 0 where
  start : Run c e [] empty_limiter 0
  called :
      (accepted : List ℕ) (l : RateLimiter) (last : ℕ) (email : String) (source : Option String)
      (now : ℕ)
      → Run c e accepted l last
      → last ≤ now
      → Run c e
          (accepted_after e email (allow c email source now l).0 accepted now)
          (allow c email source now l).1
          now

-- The stored times agree with the accepted ones in each later window, and are no more than allowed.
pub record IsFaithful (c : RateLimiterConfig) (e : String) (accepted : List ℕ) (l : RateLimiter)
    (last : ℕ) : Type 0 where
  pub agrees :
      (t : ℕ)
      → last ≤ t
      → filter (is_recent c t) (attempts_of e l.email_attempts) ≡ filter (is_recent c t) accepted
  pub bounded : length (attempts_of e l.email_attempts) ≤ c.max_per_email

filter-snoc :
    (test : ℕ → Bool) (xs : List ℕ) (x : ℕ)
    → filter test (xs ++ (x ∷ [])) ≡ filter test xs ++ filter test (x ∷ [])
unfolding filter
filter-snoc test [] x = refl
filter-snoc test (y ∷ xs) x = ground (arith, filter-snoc test xs x)

filter_later :
    (c : RateLimiterConfig) (now t : ℕ) (xs : List ℕ)
    → now ≤ t
    → filter (is_recent c t) (filter (is_recent c now) xs) ≡ filter (is_recent c t) xs
unfolding is_recent filter
filter_later c now t [] h = refl
filter_later c now t (x ∷ xs) h = ground (arith, filter_later c now t xs h)

length-filter : (test : ℕ → Bool) (xs : List ℕ) → length (filter test xs) ≤ length xs
unfolding filter
length-filter test [] = omega arith
length-filter test (x ∷ xs) = ground (arith, length-filter test xs)

length-snoc : (xs : List ℕ) (x : ℕ) → length (xs ++ (x ∷ [])) ≡ length xs + 1
length-snoc [] x = refl
length-snoc (y ∷ xs) x = ground (arith, length-snoc xs x)

attempts_of-insert :
    (e email : String) (v : List ℕ) (d : Dict String (List ℕ))
    → attempts_of e (Dict.insert email v d) ≡ (if e == email then v else attempts_of e d)
unfolding attempts_of
attempts_of-insert e email v d = ground (arith, lookup-insert e email v d)

allow_refused :
    (c : RateLimiterConfig) (email : String) (source : Option String) (now : ℕ) (l : RateLimiter)
    → (allow c email source now l).0 ≡ false
    → (allow c email source now l).1 ≡ l
unfolding allow
allow_refused c email source now l h = ground (arith, h)

allow_accepted :
    (c : RateLimiterConfig) (email : String) (source : Option String) (now : ℕ) (l : RateLimiter)
    → (allow c email source now l).0 ≡ true
    → ((allow c email source now l).1.email_attempts
        ≡ Dict.insert email (recent c l.email_attempts email now ++ (now ∷ [])) l.email_attempts)
      × (length (recent c l.email_attempts email now) < c.max_per_email)
unfolding allow
allow_accepted c email source now l h = ground (arith, h)

module _ (c : RateLimiterConfig) (e : String) (accepted : List ℕ) (l : RateLimiter) (last now : ℕ)
    (f : IsFaithful c e accepted l last) (order : last ≤ now) where
  IsFaithful-refused : IsFaithful c e accepted l now
  IsFaithful-refused = record { agrees = λ t h. f.agrees t (omega arith); bounded = f.bounded }

  -- The entry of the address after an accepted call for it
  faithful_accepted :
      (t : ℕ)
      → now ≤ t
      → filter (is_recent c t) (recent c l.email_attempts e now ++ (now ∷ []))
        ≡ filter (is_recent c t) (accepted ++ (now ∷ []))
  unfolding recent
  faithful_accepted t h = ground (
    arith,
    filter-snoc (is_recent c t) (filter (is_recent c now) (attempts_of e l.email_attempts)) now,
    filter-snoc (is_recent c t) accepted now,
    filter_later c now t (attempts_of e l.email_attempts) h,
    f.agrees t,
  )

  accepted_here :
      (source : Option String)
      → (allow c e source now l).0 ≡ true
      → IsFaithful c e (accepted ++ (now ∷ [])) (allow c e source now l).1 now
  accepted_here source h = record {
    agrees = λ t order. ground (
      arith,
      faithful_accepted t order,
      allow_accepted c e source now l h,
      attempts_of-insert e e (recent c l.email_attempts e now ++ (now ∷ [])) l.email_attempts,
    );
    bounded = ground (
      arith,
      length-snoc (recent c l.email_attempts e now) now,
      allow_accepted c e source now l h,
      attempts_of-insert e e (recent c l.email_attempts e now ++ (now ∷ [])) l.email_attempts,
    );
  }

  accepted_elsewhere :
      (email : String) (source : Option String)
      → e ≢ email
      → (allow c email source now l).0 ≡ true
      → IsFaithful c e accepted (allow c email source now l).1 now
  accepted_elsewhere email source other h = record {
    agrees = λ t later. ground (
      arith,
      f.agrees t,
      allow_accepted c email source now l h,
      attempts_of-insert e email (recent c l.email_attempts email now ++ (now ∷ []))
          l.email_attempts,
    );
    bounded = ground (
      arith,
      f.bounded,
      allow_accepted c email source now l h,
      attempts_of-insert e email (recent c l.email_attempts email now ++ (now ∷ []))
          l.email_attempts,
    );
  }

  step-IsFaithful :
      (email : String) (source : Option String)
      → IsFaithful c e
          (accepted_after e email (allow c email source now l).0 accepted now)
          (allow c email source now l).1
          now
  step-IsFaithful email source = elim (Bool-cases (allow c email source now l).0) [
    | inl said ↦ elim (string_eq.dec e email) [
      | yes same ↦ at (accepted ++ (now ∷ [])) (ground (arith, said, same)) (
          subst (λ x. IsFaithful c e (accepted ++ (now ∷ [])) (allow c x source now l).1 now) same
            (accepted_here source (ground (arith, said, same))))
      | no other ↦ at accepted (ground (arith, other)) (accepted_elsewhere email source other said)
    ]
    | inr refused ↦ at accepted (ground (arith, refused)) (
        subst (λ x. IsFaithful c e accepted x now)
          (sym (allow_refused c email source now l refused)) IsFaithful-refused)
  ]
    where
      at :
          (xs : List ℕ)
          → xs ≡ accepted_after e email (allow c email source now l).0 accepted now
          → IsFaithful c e xs (allow c email source now l).1 now
          → IsFaithful c e
              (accepted_after e email (allow c email source now l).0 accepted now)
              (allow c email source now l).1
              now
      at xs h g = subst (λ ys. IsFaithful c e ys (allow c email source now l).1 now) h g

run-IsFaithful :
    (c : RateLimiterConfig) (e : String) (accepted : List ℕ) (l : RateLimiter) (last : ℕ)
    → Run c e accepted l last
    → IsFaithful c e accepted l last
unfolding attempts_of Dict.lookup
run-IsFaithful c e _ _ _ start = record { agrees = λ t h. refl; bounded = omega arith }
run-IsFaithful c e _ _ _ (called accepted l last email source now r order) =
    step-IsFaithful c e accepted l last now (run-IsFaithful c e accepted l last r) order email
      source

-- After any sequence of calls in the order of their times, with any addresses and sources, at most
-- `max_per_email` of the accepted calls for an address stand in the window that ends at the last
-- call, or at any later time.
pub accepted_within_limit :
    (c : RateLimiterConfig) (e : String) (accepted : List ℕ) (l : RateLimiter) (last : ℕ) (t : ℕ)
    → Run c e accepted l last
    → last ≤ t
    → length (filter (is_recent c t) accepted) ≤ c.max_per_email
accepted_within_limit c e accepted l last t r order = ground (
  arith,
  (run-IsFaithful c e accepted l last r).agrees t,
  (run-IsFaithful c e accepted l last r).bounded,
  length-filter (is_recent c t) (attempts_of e l.email_attempts),
)

-- After such a sequence, a call without a source (absent or empty) is accepted exactly when fewer
-- than `max_per_email` accepted calls for its address stand in the window, provided that the limit
-- of a source is not 0.
pub allow_iff_below_limit :
    (c : RateLimiterConfig) (e : String) (accepted : List ℕ) (l : RateLimiter) (last : ℕ)
    (source : Option String) (now : ℕ)
    → Run c e accepted l last
    → last ≤ now
    → given source ≡ none
    → 0 < c.max_per_source
    → ((allow c e source now l).0 ≡ true)
      ↔ (length (filter (is_recent c now) accepted) < c.max_per_email)
unfolding allow recent recent_of_source
allow_iff_below_limit c e accepted l last source now r order h positive =
    ground (arith, (run-IsFaithful c e accepted l last r).agrees now, h, positive)
