-- ===== src/Registration/Attempts/Open.antt =====
-- An address has at most one open attempt: a new one retires the one before it.
use platform_ops.Base.{
  ◌≡◌, none, String, ℕ, some, arith, ok, is_some, ◌≢◌, Option-cases, true, ap, inl, ◌∙◌, inr,
  string_eq, ◌⊎◌, [], ◌∷◌, Bool-cases, refl,
}
use platform_ops.Base.Dict
use platform_ops.Base.Dict.{Dict, lookup-insert}
use mathlib.Core.Path.{sym, subst}
use platform_ops.Registration.Attempts.{
  VerificationAttempt, AttemptStore, save_new_attempt, invalidate, consume_first,
  consume_email_by_digest, empty_attempts, is_open,
}

-- Neither consumed nor invalidated
pub record IsPending (a : VerificationAttempt) : Type 0 where
  pub not_consumed : a.consumed_at ≡ none
  pub not_invalidated : a.invalidated_at ≡ none

-- The index names stored attempts, and each pending attempt is the one that it names.
pub record IsIndexed (s : AttemptStore) : Type 0 where
  pub named :
      (e k : String)
      → Dict.lookup e s.active_attempt_id_by_email ≡ some k
      → is_some (Dict.lookup k s.attempts_by_id) ≡ true
  pub pending_named :
      (k : String) (a : VerificationAttempt)
      → Dict.lookup k s.attempts_by_id ≡ some a
      → a.consumed_at ≡ none
      → a.invalidated_at ≡ none
      → Dict.lookup a.canonical_email s.active_attempt_id_by_email ≡ some k

invalidate_closes :
    (now : ℕ) (a : VerificationAttempt)
    → (invalidate now a).consumed_at ≡ none
    → (invalidate now a).invalidated_at ≡ none
    → ⊥
unfolding invalidate
invalidate_closes now a p q = ground arith

module _ (a : VerificationAttempt) (now : ℕ) (s : AttemptStore) (c : IsIndexed s) where
  save_first :
      Dict.lookup a.canonical_email s.active_attempt_id_by_email ≡ none
      → (t : AttemptStore) × (save_new_attempt a now s ≡ ok t) × IsIndexed t
  unfolding save_new_attempt
  save_first new = (
    t,
    ground (arith, new),
    record {
      named = λ e k h. ground (
        arith,
        c.named e k,
        lookup-insert e a.canonical_email a.attempt_id s.active_attempt_id_by_email,
        lookup-insert k a.attempt_id a s.attempts_by_id,
      );
      pending_named = λ k x h p q. ground (
        arith,
        c.pending_named k x,
        lookup-insert k a.attempt_id a s.attempts_by_id,
        lookup-insert x.canonical_email a.canonical_email a.attempt_id s.active_attempt_id_by_email,
      );
    },
  )
    where
      t : AttemptStore
      t = record {
        attempts_by_id = Dict.insert a.attempt_id a s.attempts_by_id;
        active_attempt_id_by_email =
            Dict.insert a.canonical_email a.attempt_id s.active_attempt_id_by_email;
      }

  save_next :
      (k : String) (previous : VerificationAttempt)
      → Dict.lookup a.canonical_email s.active_attempt_id_by_email ≡ some k
      → Dict.lookup k s.attempts_by_id ≡ some previous
      → (t : AttemptStore) × (save_new_attempt a now s ≡ ok t) × IsIndexed t
  unfolding save_new_attempt
  save_next k previous old found = (
    t,
    ground (arith, old, found),
    record {
      named = λ e j h. ground (
        arith,
        c.named e j,
        lookup-insert e a.canonical_email a.attempt_id s.active_attempt_id_by_email,
        lookup-insert j a.attempt_id a retired,
        lookup-insert j k (invalidate now previous) s.attempts_by_id,
      );
      pending_named = λ j x h p q. ground (
        arith,
        c.pending_named j x,
        lookup-insert j a.attempt_id a retired,
        old,
        lookup-insert j k (invalidate now previous) s.attempts_by_id,
        lookup-insert x.canonical_email a.canonical_email a.attempt_id s.active_attempt_id_by_email,
        closed x p q,
      );
    },
  )
    where
      retired : Dict String VerificationAttempt
      retired = Dict.insert k (invalidate now previous) s.attempts_by_id

      t : AttemptStore
      t = record {
        attempts_by_id = Dict.insert a.attempt_id a retired;
        active_attempt_id_by_email =
            Dict.insert a.canonical_email a.attempt_id s.active_attempt_id_by_email;
      }

      closed :
          (x : VerificationAttempt)
          → x.consumed_at ≡ none
          → x.invalidated_at ≡ none
          → x ≢ invalidate now previous
      closed x p q same =
          invalidate_closes now previous
            (ap (λ (y : VerificationAttempt). y.consumed_at) (sym same) ∙ p)
            (ap (λ (y : VerificationAttempt). y.invalidated_at) (sym same) ∙ q)

  -- A save into an indexed store succeeds and keeps it indexed.
  pub save_new_attempt-IsIndexed :
      (t : AttemptStore) × (save_new_attempt a now s ≡ ok t) × IsIndexed t
  save_new_attempt-IsIndexed =
      elim (Option-cases (Dict.lookup a.canonical_email s.active_attempt_id_by_email)) [
        | inl new ↦ save_first new
        | inr (k, old) ↦ elim (Option-cases (Dict.lookup k s.attempts_by_id)) [
          | inl lost ↦ absurd (ground (arith, c.named a.canonical_email k, old, lost))
          | inr (previous, found) ↦ save_next k previous old found
        ]
      ]

-- A consumption changes nothing but the instant of consumption of one attempt.
consume_first-back :
    (digest : String) (now : ℕ) (d : Dict String VerificationAttempt) (k : String)
    (b : VerificationAttempt)
    → Dict.lookup k (consume_first digest now d).1 ≡ some b
    → (Dict.lookup k d ≡ some b)
      ⊎ ((a : VerificationAttempt) × (Dict.lookup k d ≡ some a)
          × (b ≡ record a { consumed_at = some now }))
unfolding consume_first Dict.lookup
consume_first-back digest now [] k b h = inl h
consume_first-back digest now ((j, a) ∷ d) k b h = elim (string_eq.dec k j) [
  | yes here ↦ elim (Bool-cases (is_open digest now a)) [
    | inl opened ↦ inr (a, ground (arith, here), ground (arith, h, here, opened))
    | inr closed ↦ inl (ground (arith, h, here, closed))
  ]
  | no there ↦ elim (Bool-cases (is_open digest now a)) [
    | inl opened ↦ inl (ground (arith, h, there, opened))
    | inr closed ↦
        let later = consume_first-back digest now d k b (ground (arith, h, there, closed)) in
        elim later [
          | inl same ↦ inl (ground (arith, there, same))
          | inr (x, found, changed) ↦ inr (x, ground (arith, there, found), changed)
        ]
  ]
]

consume_first-keeps :
    (digest : String) (now : ℕ) (d : Dict String VerificationAttempt) (k : String)
    → is_some (Dict.lookup k (consume_first digest now d).1) ≡ is_some (Dict.lookup k d)
unfolding consume_first Dict.lookup
consume_first-keeps digest now [] k = refl
consume_first-keeps digest now ((j, a) ∷ d) k = ground (arith, consume_first-keeps digest now d k)

consume_email_by_digest-IsIndexed :
    (digest : String) (now : ℕ) (s : AttemptStore)
    → IsIndexed s
    → IsIndexed (consume_email_by_digest digest now s).1
unfolding consume_email_by_digest
consume_email_by_digest-IsIndexed digest now s c = record {
  named = λ e k h. consume_first-keeps digest now s.attempts_by_id k ∙ c.named e k h;
  pending_named = λ k b h p q. elim (consume_first-back digest now s.attempts_by_id k b h) [
    | inl same ↦ c.pending_named k b same p q
    | inr (a, found, changed) ↦
        absurd (ground (arith, p, ap (λ (x : VerificationAttempt). x.consumed_at) changed))
  ];
}

-- The stores that new attempts and consumptions lead to.
pub data Reachable : AttemptStore → Type 0 where
  start : Reachable empty_attempts
  saved :
      {s t : AttemptStore} (a : VerificationAttempt) (now : ℕ)
      → Reachable s
      → save_new_attempt a now s ≡ ok t
      → Reachable t
  consumed :
      {s : AttemptStore} (digest : String) (now : ℕ)
      → Reachable s
      → Reachable (consume_email_by_digest digest now s).1

pub Reachable-IsIndexed : {s : AttemptStore} → Reachable s → IsIndexed s
unfolding Dict.lookup
Reachable-IsIndexed start = record { named = λ e k h. cc; pending_named = λ k a h p q. cc }
Reachable-IsIndexed (saved {s = s} {t = t} a now before h) =
    let r = save_new_attempt-IsIndexed a now s (Reachable-IsIndexed before) in
    subst IsIndexed (ground (arith, h, r.1)) r.2
Reachable-IsIndexed (consumed {s = s} digest now before) =
    consume_email_by_digest-IsIndexed digest now s (Reachable-IsIndexed before)

-- In every store that new attempts and consumptions lead to, two attempts for one address that
-- are neither consumed nor invalidated stand under the same id, and they are equal.
pub one_pending_attempt :
    {s : AttemptStore} (i j : String) (a b : VerificationAttempt)
    → Reachable s
    → Dict.lookup i s.attempts_by_id ≡ some a
    → Dict.lookup j s.attempts_by_id ≡ some b
    → IsPending a
    → IsPending b
    → a.canonical_email ≡ b.canonical_email
    → (i ≡ j) × (a ≡ b)
one_pending_attempt i j a b reached ha hb pa pb same =
    let c = Reachable-IsIndexed reached in
    ground (
      arith,
      c.pending_named i a ha pa.not_consumed pa.not_invalidated,
      c.pending_named j b hb pb.not_consumed pb.not_invalidated,
    )

-- In every such store a new attempt can be saved: the previous attempt that the index names is
-- there.
pub save_new_attempt_total :
    {s : AttemptStore} (a : VerificationAttempt) (now : ℕ)
    → Reachable s
    → (t : AttemptStore) × (save_new_attempt a now s ≡ ok t) × Reachable t
save_new_attempt_total {s} a now reached =
    let r = save_new_attempt-IsIndexed a now s (Reachable-IsIndexed reached) in
    (r.0, r.1, saved a now reached r.1)
