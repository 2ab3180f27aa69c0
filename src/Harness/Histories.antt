-- ===== src/Harness/Histories.antt =====
-- What the harness keeps over a history of runs and resumes.
use platform_ops.Base.{
  ◌≡◌, Result, Bool, String, ok, true, ℕ, Option, err, if◌then◌else◌, some, false, refl, none,
  arith, ◌≤◌, ◌+◌, leb, inl, inr, suc, [], string_eq, ap,
}
use platform_ops.Base.Dict
use platform_ops.Base.Dict.{Dict, lookup-insert, lookup-erase}
use platform_ops.Intake.{ScopeHint, IntakeRequest}
use platform_ops.Draft.{ProvisionInvocation}
use platform_ops.Identity.{ActorSession, is_expired}
use platform_ops.Harness.{
  Harness, Outcome, HarnessConfig, Moment, HarnessError, round_cap, PendingClarification,
  PendingKind, intake, provision_draft, session_expired,
}
use platform_ops.Harness.Runs.{
  pending_intake, with_answer, redispatch, reclassify, classify, resume_checked, check_resume,
  resume_kind, resume_clarification, start_run,
}
use platform_ops.Harness.Rounds.{
  answers_left_of, IsRun, dispatch_text-IsRun, report_classified-IsRun, answers_left,
}
use platform_ops.Harness.Success.{is_ok, is_ok-is_taken}
use platform_ops.Harness.Answering.{IsSound, resume-cases}

answers_left-bounded : (p : PendingClarification) → answers_left p ≤ 2
unfolding answers_left
answers_left-bounded p = ground (arith)

answers_left_of-bounded : (p : Option PendingClarification) → answers_left_of p ≤ 2
unfolding answers_left_of
answers_left_of-bounded none = omega arith
answers_left_of-bounded (some p) = answers_left-bounded p

run-IsSound :
    (request_id : String) (bound : ℕ) (h after : Harness)
    → IsSound h
    → IsRun request_id bound h after
    → IsSound after
run-IsSound request_id bound h after s r k p found = ground (arith, r.sound k p found, s k p)

erase-IsSound : (request_id : String) (h : Harness) → IsSound h → IsSound (Dict.erase request_id h)
erase-IsSound request_id h s k p found = ground (arith, lookup-erase k request_id h, s k p, found)

if-IsSound : (b : Bool) (x y : Outcome) → IsSound x.1 → IsSound y.1 → IsSound (if b then x else y).1
if-IsSound true x y r q = r
if-IsSound false x y r q = q

classify-IsSound :
    (c : HarnessConfig) (actor : ActorSession) (request_id : String) (request : IntakeRequest)
    (hint : Option ScopeHint) (moment : Moment) (h : Harness)
    → IsSound h
    → IsSound (classify c actor request_id request hint moment h).1
unfolding classify
classify-IsSound c actor request_id request hint moment h s = run-IsSound request_id 2 h _ s (
    report_classified-IsRun c actor request_id request hint 2 moment _ h
      (answers_left-bounded (pending_intake actor request hint moment)) (omega arith))

start_run-IsSound :
    (c : HarnessConfig) (actor : ActorSession) (request_id raw_text : String)
    (hint : Option ScopeHint) (moment : Moment) (h : Harness)
    → IsSound h
    → IsSound (start_run c actor request_id raw_text hint moment h).1
unfolding start_run
start_run-IsSound c actor request_id raw_text hint moment h s =
    if-IsSound (is_expired actor moment.checked_at) (err session_expired, h) _ s
      (classify-IsSound c actor request_id _ hint moment h s)

module _ (c : HarnessConfig) (actor : ActorSession) (request_id answer : String) (moment : Moment)
    (h : Harness) (s : IsSound h) where
  reclassify-IsSound :
      (prior : Option IntakeRequest) (hint : Option ScopeHint)
      → IsSound (reclassify c actor request_id prior hint answer moment h).1
  unfolding reclassify
  reclassify-IsSound none hint = s
  reclassify-IsSound (some prior) hint =
      if-IsSound (leb 2 (prior.clarification_round + 1)) (err round_cap, h) _ s
        (classify-IsSound c actor request_id _ hint moment (Dict.erase request_id h)
          (erase-IsSound request_id h s))

  redispatch-IsSound :
      (prior : Option ProvisionInvocation) (round : ℕ)
      → IsSound
          (redispatch c actor request_id prior round answer moment (Dict.erase request_id h)).1
  unfolding redispatch
  redispatch-IsSound none round = erase-IsSound request_id h s
  redispatch-IsSound (some prior) round =
      run-IsSound request_id 2 (Dict.erase request_id h) _ (erase-IsSound request_id h s) (
        dispatch_text-IsRun c actor request_id (with_answer prior.raw_text answer) prior.scope_hint
          round 2 moment (Dict.erase request_id h) (answers_left-bounded _))

  kind-IsSound :
      (kind : PendingKind) (p : PendingClarification)
      → IsSound (resume_kind kind c actor request_id p answer moment h).1
  unfolding resume_kind
  kind-IsSound intake p = reclassify-IsSound p.intake_request p.scope_hint
  kind-IsSound provision_draft p =
      if-IsSound (leb 2 (p.provision_round + 1)) (err round_cap, h) _ s
        (redispatch-IsSound p.provision_invocation (p.provision_round + 1))

  checked-IsSound :
      (r : Result HarnessError PendingClarification)
      → IsSound (resume_checked c actor request_id r answer moment h).1
  unfolding resume_checked
  checked-IsSound (err e) = s
  checked-IsSound (ok p) = kind-IsSound p.pending_kind p

  resume-IsSound :
      (interrupt_id : String)
      → IsSound (resume_clarification c actor request_id interrupt_id answer moment h).1
  unfolding resume_clarification
  resume-IsSound interrupt_id =
      checked-IsSound (check_resume actor request_id interrupt_id answer moment.checked_at h)

-- What runs and resumes, in any order and with any models' answers, lead to
pub data Reached : Harness → Type 0 where
  new : Reached []
  started :
      (c : HarnessConfig) (actor : ActorSession) (request_id raw_text : String)
      (hint : Option ScopeHint) (moment : Moment) (h : Harness)
      → Reached h
      → Reached (start_run c actor request_id raw_text hint moment h).1
  resumed :
      (c : HarnessConfig) (actor : ActorSession) (request_id interrupt_id answer : String)
      (moment : Moment) (h : Harness)
      → Reached h
      → Reached (resume_clarification c actor request_id interrupt_id answer moment h).1

-- After any history of runs and resumes, each pending clarification of the intake holds its request
-- and each of the provision workflow its invocation: what a resume asserts is there.
pub Reached-IsSound : (h : Harness) → Reached h → IsSound h
unfolding Dict.lookup
Reached-IsSound h new = λ k p found. absurd (ground (arith, found))
Reached-IsSound h (started c actor request_id raw_text hint moment g r) =
    start_run-IsSound c actor request_id raw_text hint moment g (Reached-IsSound g r)
Reached-IsSound h (resumed c actor request_id interrupt_id answer moment g r) =
    resume-IsSound c actor request_id answer moment g (Reached-IsSound g r) interrupt_id

-- So many resumes of one request that succeed, one after the other
pub data Answers (c : HarnessConfig) (request_id : String) : ℕ → Harness → Harness → Type 0 where
  no_answer : (h : Harness) → Answers c request_id 0 h h
  one_more :
      (n : ℕ) (actor : ActorSession) (interrupt_id answer : String) (moment : Moment)
      (h after : Harness)
      → is_ok (resume_clarification c actor request_id interrupt_id answer moment h).0 ≡ true
      → Answers c request_id n
          (resume_clarification c actor request_id interrupt_id answer moment h).1
          after
      → Answers c request_id (suc n) h after

left_of_some : (p : PendingClarification) → answers_left_of (some p) ≡ answers_left p
unfolding answers_left_of
left_of_some p = refl

Answers-use :
    (c : HarnessConfig) (request_id : String) (n : ℕ) (h after : Harness)
    → IsSound h
    → Answers c request_id n h after
    → n + answers_left_of (Dict.lookup request_id after)
      ≤ answers_left_of (Dict.lookup request_id h)
Answers-use c request_id _ _ _ s (no_answer h) = omega arith
Answers-use c request_id _ h after s (one_more n actor interrupt_id answer moment _ _ done rest) =
    let later =
      Answers-use c request_id n
        (resume_clarification c actor request_id interrupt_id answer moment h).1 after
        (resume-IsSound c actor request_id answer moment h s interrupt_id) rest in
    elim (resume-cases c actor request_id interrupt_id answer moment h s) [
      | inl (p, fit, _, _, less) ↦
          ground (arith, later, less, ap answers_left_of fit.pending, left_of_some p)
      | inr (_, failed, _) ↦ absurd (ground (arith, is_ok-is_taken _ done, failed))
    ]

-- After any history, at most two resumes of one request succeed one after the other, whatever is
-- answered and asked: the questions of a run end.
pub at_most_two-Answers :
    (c : HarnessConfig) (request_id : String) (n : ℕ) (h after : Harness)
    → Reached h
    → Answers c request_id n h after
    → n ≤ 2
at_most_two-Answers c request_id n h after r a = ground (
  arith,
  Answers-use c request_id n h after (Reached-IsSound h r) a,
  answers_left_of-bounded (Dict.lookup request_id h),
)
