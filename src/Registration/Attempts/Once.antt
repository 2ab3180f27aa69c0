-- ===== src/Registration/Attempts/Once.antt =====
-- A token is consumed at most once.
use platform_ops.Base.{
  ◌≡◌, String, List, Elem, ◌∷◌, ℕ, is_some, inl, Nodup, none, ◌⊎◌, [], ◌||◌, ap, some, arith, true,
  inr, Bool-cases, refl, false, ◌∙◌, ◌≢◌, ok, bind-eq-ok, Option, ok-injective, string_eq, or_raise,
}
use platform_ops.Base.Dict
use platform_ops.Base.Dict.{Dict, values-insert, lookup-Elem}
use mathlib.Core.Path.{subst, sym}
use platform_ops.Registration.Attempts.{
  VerificationAttempt, AttemptStore, save_new_attempt, consume_first, consume_email_by_digest,
  invalidate, is_open, retire_previous, missing_attempt,
}

-- No attempt in the list with the digest can be consumed any more.
abbrev pub Closed : String → List VerificationAttempt → Type 0
Closed digest xs =
    (a : VerificationAttempt)
    → Elem a xs
    → a.token_digest ≡ digest
    → (is_some a.consumed_at || is_some a.invalidated_at) ≡ true

-- The digests of the stored attempts
abbrev pub digests : List VerificationAttempt → List String
digests [] = []
digests (a ∷ xs) = a.token_digest ∷ digests xs

digest-Elem :
    (a : VerificationAttempt) (xs : List VerificationAttempt)
    → Elem a xs
    → Elem a.token_digest (digests xs)
digest-Elem a [] m = elim m [ ]
digest-Elem a (x ∷ xs) (inl same) = inl (ap (λ (y : VerificationAttempt). y.token_digest) same)
digest-Elem a (x ∷ xs) (inr m) = inr (digest-Elem a xs m)

consume_first-open :
    (digest : String) (now : ℕ) (k : String) (a : VerificationAttempt)
    (d : Dict String VerificationAttempt)
    → is_open digest now a ≡ true
    → consume_first digest now ((k, a) ∷ d)
      ≡ (some a.canonical_email, (k, record a { consumed_at = some now }) ∷ d)
unfolding consume_first
consume_first-open digest now k a d h = ground (arith, h)

consume_first-shut :
    (digest : String) (now : ℕ) (k : String) (a : VerificationAttempt)
    (d : Dict String VerificationAttempt)
    → is_open digest now a ≡ false
    → consume_first digest now ((k, a) ∷ d)
      ≡ ((consume_first digest now d).0, (k, a) ∷ (consume_first digest now d).1)
unfolding consume_first
consume_first-shut digest now k a d h = ground (arith, h)

open_digest :
    (digest : String) (now : ℕ) (a : VerificationAttempt)
    → is_open digest now a ≡ true
    → a.token_digest ≡ digest
unfolding is_open
open_digest digest now a h = ground (arith, h)

Closed-not_consumed :
    (digest : String) (now : ℕ) (d : Dict String VerificationAttempt)
    → Closed digest (Dict.values d)
    → (consume_first digest now d).0 ≡ none
unfolding consume_first Dict.values is_open
Closed-not_consumed digest now [] c = refl
Closed-not_consumed digest now ((k, a) ∷ d) c =
    ground (arith, c a (inl refl), Closed-not_consumed digest now d (λ x m. c x (inr m)))

-- The values after a consumption: each keeps its digest, and what was closed stays closed.
consume_first-values :
    (digest : String) (now : ℕ) (d : Dict String VerificationAttempt) (b : VerificationAttempt)
    → Elem b (Dict.values (consume_first digest now d).1)
    → (a : VerificationAttempt) × Elem a (Dict.values d)
      × ((b ≡ a) ⊎ (b ≡ record a { consumed_at = some now }))
unfolding Dict.values consume_first
consume_first-values digest now [] b m = elim m [ ]
consume_first-values digest now ((k, a) ∷ d) b m = elim (Bool-cases (is_open digest now a)) [
  | inl opened ↦
      elim (subst (λ r. Elem b (Dict.values r.1)) (consume_first-open digest now k a d opened) m) [
        | inl new ↦ (a, inl refl, inr new)
        | inr old ↦ (b, inr old, inl refl)
      ]
  | inr shut ↦
      elim (subst (λ r. Elem b (Dict.values r.1)) (consume_first-shut digest now k a d shut) m) [
        | inl same ↦ (a, inl refl, inl same)
        | inr later ↦ (let t = consume_first-values digest now d b later in (t.0, inr t.1, t.2))
      ]
]

consume_first-found :
    (digest email : String) (now : ℕ) (d : Dict String VerificationAttempt)
    → (consume_first digest now d).0 ≡ some email
    → Elem digest (digests (Dict.values d))
unfolding consume_first Dict.values
consume_first-found digest email now [] h = absurd (ground (arith, h))
consume_first-found digest email now ((k, a) ∷ d) h = elim (Bool-cases (is_open digest now a)) [
  | inl opened ↦ inl (sym (open_digest digest now a opened))
  | inr shut ↦ inr (consume_first-found digest email now d (ground (arith, h, shut)))
]

-- The consumption of a digest that stands once closes it.
consume_first-Closed :
    (digest email : String) (now : ℕ) (d : Dict String VerificationAttempt)
    → Nodup (digests (Dict.values d))
    → (consume_first digest now d).0 ≡ some email
    → Closed digest (Dict.values (consume_first digest now d).1)
unfolding consume_first Dict.values
consume_first-Closed digest email now [] u h = absurd (ground (arith, h))
consume_first-Closed digest email now ((k, a) ∷ d) (only, u) h =
    elim (Bool-cases (is_open digest now a)) [
      | inl opened ↦
          subst (λ r. Closed digest (Dict.values r.1))
            (sym (consume_first-open digest now k a d opened))
            (λ b m same. elim m [
              | inl new ↦ ground (arith, ap (λ (x : VerificationAttempt). x.consumed_at) new)
              | inr old ↦ absurd (
                  only (
                    subst (λ t. Elem t (digests (Dict.values d)))
                      (same ∙ sym (open_digest digest now a opened))
                      (digest-Elem b (Dict.values d) old)))
            ])
      | inr shut ↦
          subst (λ r. Closed digest (Dict.values r.1))
            (sym (consume_first-shut digest now k a d shut))
            (λ b m same. elim m [
              | inl old ↦ absurd (
                  only (
                    subst (λ t. Elem t (digests (Dict.values d)))
                      (sym (sym (ap (λ (x : VerificationAttempt). x.token_digest) old) ∙ same))
                      (consume_first-found digest email now d (ground (arith, h, shut)))))
              | inr later ↦
                  consume_first-Closed digest email now d u (ground (arith, h, shut)) b later same
            ])
    ]

-- What may happen to the store afterwards: an attempt with another digest is saved, or any digest is
-- consumed.
pub data Later (digest : String) : AttemptStore → AttemptStore → Type 0 where
  rest : (s : AttemptStore) → Later digest s s
  saved :
      (s t u : AttemptStore) (a : VerificationAttempt) (now : ℕ)
      → a.token_digest ≢ digest
      → save_new_attempt a now s ≡ ok t
      → Later digest t u
      → Later digest s u
  consumed :
      (s u : AttemptStore) (other : String) (now : ℕ)
      → Later digest (consume_email_by_digest other now s).1 u
      → Later digest s u

invalidate-is_closed :
    (now : ℕ) (a : VerificationAttempt)
    → (is_some (invalidate now a).consumed_at || is_some (invalidate now a).invalidated_at) ≡ true
unfolding invalidate
invalidate-is_closed now a = ground arith

retire-Closed :
    (digest : String) (previous : Option String) (now : ℕ) (d e : Dict String VerificationAttempt)
    → retire_previous previous now d ≡ ok e
    → Closed digest (Dict.values d)
    → Closed digest (Dict.values e)
unfolding retire_previous
retire-Closed digest none now d e h c =
    subst (λ x. Closed digest (Dict.values x)) (ok-injective h) c
retire-Closed digest (some k) now d e h c =
    let (p, found, done) = bind-eq-ok (or_raise (Dict.lookup k d) missing_attempt) _ h in
    subst (λ x. Closed digest (Dict.values x)) (ok-injective done)
      (λ b m same. elim (values-insert k (invalidate now p) b d m) [
        | inl new ↦
            subst
              (λ (x : VerificationAttempt).
                (is_some x.consumed_at || is_some x.invalidated_at) ≡ true)
              (sym new) (invalidate-is_closed now p)
        | inr old ↦ c b old same
      ])

save-Closed :
    (digest : String) (a : VerificationAttempt) (now : ℕ) (s t : AttemptStore)
    → a.token_digest ≢ digest
    → save_new_attempt a now s ≡ ok t
    → Closed digest (Dict.values s.attempts_by_id)
    → Closed digest (Dict.values t.attempts_by_id)
unfolding save_new_attempt
save-Closed digest a now s t other h c =
    let (e, retired, done) =
      bind-eq-ok
        (retire_previous (Dict.lookup a.canonical_email s.active_attempt_id_by_email) now
          s.attempts_by_id)
        _ h in
    subst (λ (x : AttemptStore). Closed digest (Dict.values x.attempts_by_id)) (ok-injective done)
      (λ b m same. elim (values-insert a.attempt_id a b e m) [
        | inl new ↦
            absurd (other (sym (ap (λ (x : VerificationAttempt). x.token_digest) new) ∙ same))
        | inr old ↦ retire-Closed digest _ now s.attempts_by_id e retired c b old same
      ])

consume-Closed :
    (digest other : String) (now : ℕ) (s : AttemptStore)
    → Closed digest (Dict.values s.attempts_by_id)
    → Closed digest (Dict.values (consume_email_by_digest other now s).1.attempts_by_id)
unfolding consume_email_by_digest
consume-Closed digest other now s c b m same =
    (let t = consume_first-values other now s.attempts_by_id b m in
      elim t.2 [
        | inl kept ↦ c b (subst (λ x. Elem x (Dict.values s.attempts_by_id)) (sym kept) t.1) same
        | inr new ↦ ground (arith, ap (λ (x : VerificationAttempt). x.consumed_at) new)
      ])

Later-Closed :
    (digest : String) (s u : AttemptStore)
    → Later digest s u
    → Closed digest (Dict.values s.attempts_by_id)
    → Closed digest (Dict.values u.attempts_by_id)
Later-Closed digest s u (rest _) c = c
Later-Closed digest s u (saved _ t _ a now new h l) c =
    Later-Closed digest t u l (save-Closed digest a now s t new h c)
Later-Closed digest s u (consumed _ _ other now l) c =
    Later-Closed digest (consume_email_by_digest other now s).1 u l
      (consume-Closed digest other now s c)

-- In a store where no two attempts share a digest, once the digest of a token was consumed, it is
-- refused at every time after any sequence of consumptions and of saves of attempts with other
-- digests.
pub consume_once :
    (digest email : String) (now later : ℕ) (s u : AttemptStore)
    → Nodup (digests (Dict.values s.attempts_by_id))
    → (consume_email_by_digest digest now s).0 ≡ some email
    → Later digest (consume_email_by_digest digest now s).1 u
    → (consume_email_by_digest digest later u).0 ≡ none
unfolding consume_email_by_digest
consume_once digest email now later s u distinct first l =
    Closed-not_consumed digest later u.attempts_by_id (
      Later-Closed digest (consume_email_by_digest digest now s).1 u l
        (consume_first-Closed digest email now s.attempts_by_id distinct first))
