-- ===== src/Harness/Answering.antt =====
-- When an answer is taken to the model: the checks of `resume_clarification`, and what an error
-- leaves of the pending clarifications.
use platform_ops.Base.{
  ◌≡◌, String, ok, true, ◌≢◌, ℕ, string_eq, some, false, arith, ◌<◌, inl, inr, ◌⊎◌, ◌↔◌, Result,
  err, ◌∙◌, ap, refl,
}
use platform_ops.Base.Dict
use platform_ops.Base.Dict.{Dict, lookup-insert, lookup-erase}
use platform_ops.Harness.Rounds.{answers_left_of, is_sound, answers_left}
use platform_ops.Identity.{ActorSession, is_expired}
use platform_ops.Harness.{
  Harness, HarnessConfig, Moment, PendingClarification, HarnessError, Event, model_failed,
}
use platform_ops.Harness.Runs.{check_resume, resume_clarification}
use platform_ops.Harness.Models.{IsAnswering, resume_checked-NotRaised}
use platform_ops.Harness.Success.{is_ok, is_ok-is_taken, IsTaken, is_taken, is_model_failure}
use platform_ops.Harness.Resumes.{checked-Verdict}

-- Each pending clarification holds what its kind is resumed with.
abbrev pub IsSound : Harness → Type 0
IsSound h = (k : String) (p : PendingClarification) → Dict.lookup k h ≡ some p → is_sound p ≡ true

-- The clarification that an answer fits: the session is alive, the clarification is pending for the
-- request, it was asked with the interrupt and of the actor, the answer is not empty, and there is an
-- answer left.
pub record IsFitting (actor : ActorSession) (request_id interrupt_id answer : String) (now : ℕ)
    (h : Harness) (p : PendingClarification) : Type 0 where
  pub alive : is_expired actor now ≡ false
  pub pending : Dict.lookup request_id h ≡ some p
  pub interrupt : p.interrupt_id ≡ interrupt_id
  pub same_actor : p.actor_id ≡ actor.actor.user_id
  pub given : answer ≢ ""

check_resume_iff :
    (actor : ActorSession) (request_id interrupt_id answer : String) (now : ℕ) (h : Harness)
    (p : PendingClarification)
    → (check_resume actor request_id interrupt_id answer now h ≡ ok p)
      ↔ IsFitting actor request_id interrupt_id answer now h p
unfolding check_resume
check_resume_iff actor request_id interrupt_id answer now h p = (
  λ e. record {
    alive = ground (arith, e);
    pending = ground (arith, e);
    interrupt = ground (arith, e);
    same_actor = ground (arith, e);
    given = ground (arith, e);
  },
  λ f. ground (arith, f.alive, f.pending, f.interrupt, f.same_actor, f.given),
)

check_resume_refuses :
    (actor : ActorSession) (request_id interrupt_id answer : String) (now : ℕ) (h : Harness)
    (e : HarnessError)
    → check_resume actor request_id interrupt_id answer now h ≡ err e
    → is_model_failure e ≡ false
unfolding check_resume is_model_failure
check_resume_refuses actor request_id interrupt_id answer now h e failed = ground (arith, failed)

pub resume-cases :
    (c : HarnessConfig) (actor : ActorSession) (request_id interrupt_id answer : String)
    (moment : Moment) (h : Harness)
    → IsSound h
    → ((p : PendingClarification) × IsFitting actor request_id interrupt_id answer moment.checked_at
          h p
        × (0 < answers_left p)
        × IsTaken
            (Dict.erase request_id h)
            (resume_clarification c actor request_id interrupt_id answer moment h)
        × (answers_left_of (
              Dict.lookup request_id
                (resume_clarification c actor request_id interrupt_id answer moment h).1)
            < answers_left p))
      ⊎ (((p : PendingClarification)
            → IsFitting actor request_id interrupt_id answer moment.checked_at h p
            → answers_left p ≡ 0)
          × (is_taken (resume_clarification c actor request_id interrupt_id answer moment h).0
              ≡ false)
          × ((resume_clarification c actor request_id interrupt_id answer moment h).1 ≡ h))
unfolding resume_clarification
resume-cases c actor request_id interrupt_id answer moment h sound =
    elim (checked-Verdict c actor request_id answer moment h
      (check_resume actor request_id interrupt_id answer moment.checked_at h)
      (check_resume_refuses actor request_id interrupt_id answer moment.checked_at h)
      (λ p found. sound request_id p ((fits p).0 found).pending)) [
        | inl (p, found, left, done, less) ↦ inl (p, (fits p).0 found, left, done, less)
        | inr (spent, failed, kept) ↦ inr ((λ p f. spent p ((fits p).1 f)), failed, kept)
      ]
  where
    fits :
        (p : PendingClarification)
        → (check_resume actor request_id interrupt_id answer moment.checked_at h ≡ ok p)
          ↔ IsFitting actor request_id interrupt_id answer moment.checked_at h p
    fits p = check_resume_iff actor request_id interrupt_id answer moment.checked_at h p

-- Some pending clarification with an answer left fits.
abbrev pub Fits : ActorSession → String → String → String → ℕ → Harness → Type 0
Fits actor request_id interrupt_id answer now h =
    (p : PendingClarification) × IsFitting actor request_id interrupt_id answer now h p
    × (0 < answers_left p)

-- Where each pending clarification holds what its kind needs, a resume is taken, so that it ends in
-- an event or in an error of the model, exactly when it fits.
pub resume_taken_iff :
    (c : HarnessConfig) (actor : ActorSession) (request_id interrupt_id answer : String)
    (moment : Moment) (h : Harness)
    → IsSound h
    → (is_taken (resume_clarification c actor request_id interrupt_id answer moment h).0 ≡ true)
      ↔ Fits actor request_id interrupt_id answer moment.checked_at h
resume_taken_iff c actor request_id interrupt_id answer moment h sound =
    elim (resume-cases c actor request_id interrupt_id answer moment h sound) [
      | inl (p, fit, left, done, _) ↦ ((λ _. (p, fit, left)), (λ _. done.taken))
      | inr (spent, failed, kept) ↦ (
        (λ done. absurd (ground (arith, done, failed))),
        (λ (q, fit, left). absurd (ground (arith, spent q fit, left))),
      )
    ]

-- The error of the model, or another one, in the place where an outcome has it
error_cases :
    (r : Result HarnessError Event) (e : HarnessError)
    → r ≡ err e
    → ((is_taken r ≡ true) × (e ≡ model_failed)) ⊎ ((is_taken r ≡ false) × (e ≢ model_failed))
unfolding is_taken is_model_failure
error_cases (ok event) e h = absurd (ground (arith, h))
error_cases (err f) e h = ground (arith, h)

taken_is_ok :
    (r : Result HarnessError Event) → r ≢ err model_failed → is_taken r ≡ true → is_ok r ≡ true
unfolding is_ok is_taken is_model_failure
taken_is_ok (ok event) other taken = refl
taken_is_ok (err e) other taken = absurd (other (ground (arith, taken)))

check_resume-other :
    (actor : ActorSession) (request_id interrupt_id answer : String) (now : ℕ) (h : Harness)
    → check_resume actor request_id interrupt_id answer now h ≢ err model_failed
unfolding is_model_failure
check_resume-other actor request_id interrupt_id answer now h e =
    ground (arith, check_resume_refuses actor request_id interrupt_id answer now h model_failed e)

-- Where each pending clarification holds what its kind needs and the model answers every text, a
-- resume succeeds exactly when it fits a clarification that has an answer left: live session,
-- pending request, the interrupt that asked, the actor who was asked, an answer that is not empty.
pub resume_succeeds_iff :
    (c : HarnessConfig) (actor : ActorSession) (request_id interrupt_id answer : String)
    (moment : Moment) (h : Harness)
    → IsAnswering c
    → IsSound h
    → (is_ok (resume_clarification c actor request_id interrupt_id answer moment h).0 ≡ true)
      ↔ Fits actor request_id interrupt_id answer moment.checked_at h
unfolding resume_clarification
resume_succeeds_iff c actor request_id interrupt_id answer moment h answering sound =
    let taken = resume_taken_iff c actor request_id interrupt_id answer moment h sound in
    (
      λ done. taken.0 (is_ok-is_taken _ done),
      λ fits.
          taken_is_ok _
            (resume_checked-NotRaised c answering actor request_id moment _ answer h
              (check_resume-other actor request_id interrupt_id answer moment.checked_at h))
            (taken.1 fits),
    )

-- Where each pending clarification holds what its kind needs, and whatever the model does, a resume
-- that fails either failed with the error of the model: then it fits a clarification with an answer
-- left, and exactly the clarification of its request is gone. Or it failed with another error: then
-- it fits none, and the pending clarifications are as they were.
pub failed_resume_leaves :
    (c : HarnessConfig) (actor : ActorSession) (request_id interrupt_id answer : String)
    (moment : Moment) (h : Harness) (e : HarnessError)
    → IsSound h
    → (resume_clarification c actor request_id interrupt_id answer moment h).0 ≡ err e
    → ((e ≡ model_failed)
        × Fits actor request_id interrupt_id answer moment.checked_at h
        × ((resume_clarification c actor request_id interrupt_id answer moment h).1
            ≡ Dict.erase request_id h))
      ⊎ ((e ≢ model_failed)
          × (¬ Fits actor request_id interrupt_id answer moment.checked_at h)
          × ((resume_clarification c actor request_id interrupt_id answer moment h).1 ≡ h))
failed_resume_leaves c actor request_id interrupt_id answer moment h e sound failed =
    elim (error_cases _ e failed) [
      | inl (taken, same) ↦
          elim (resume-cases c actor request_id interrupt_id answer moment h sound) [
            | inl (p, fit, left, done, _) ↦
                inl (same, (p, fit, left), done.kept (failed ∙ ap (λ x. err x) same))
            | inr (_, refused, _) ↦ absurd (ground (arith, taken, refused))
          ]
      | inr (refused, other) ↦
          elim (resume-cases c actor request_id interrupt_id answer moment h sound) [
            | inl (_, _, _, done, _) ↦ absurd (ground (arith, done.taken, refused))
            | inr (spent, _, kept) ↦
                inr (other, (λ (q, fit, left). ground (arith, spent q fit, left)), kept)
          ]
    ]
