-- ===== src/Harness/Resumes.antt =====
-- A resume either takes the answer to the model, and the pending clarification has fewer answers
-- left, or changes nothing.
use platform_ops.Base.{
  ◌≡◌, Result, Bool, String, ok, true, ◌≢◌, ℕ, Option, err, if◌then◌else◌, string_eq, some, false,
  refl, none, arith, ◌<◌, is_some, ◌≤◌, ltb, ◌+◌, leb, inl, inr, ◌⊎◌, ok-injective,
}
use platform_ops.Base.Dict
use mathlib.Core.Path.{subst}
use platform_ops.Base.Dict.{Dict, lookup-insert, lookup-erase}
use platform_ops.Intake.{ScopeHint, IntakeRequest}
use platform_ops.Draft.{ProvisionInvocation}
use platform_ops.Harness.Rounds.{
  answers_left_of, IsRun, dispatch_text-IsRun, report_classified-IsRun, late_provision_left,
  late_intake_left, is_sound, answers_left, report_classified-IsRun,
}
use platform_ops.Identity.{ActorSession}
use platform_ops.Harness.{
  Harness, Outcome, HarnessConfig, Moment, HarnessError, round_cap, PendingClarification,
  PendingKind, intake, provision_draft,
}
use platform_ops.Harness.Runs.{
  with_answer, redispatch, reclassify, classify, resume_checked, resume_kind,
}
use platform_ops.Harness.Success.{
  IsTaken, is_taken, is_model_failure, with_answer_given, dispatch_text-IsTaken,
  report_classified-IsTaken,
}

-- An outcome of an answer that is taken, after which the request has at most so many answers left
abbrev pub Answered : String → ℕ → Harness → Outcome → Type 0
Answered request_id bound h o =
    IsTaken (Dict.erase request_id h) o × (answers_left_of (Dict.lookup request_id o.1) ≤ bound)

-- Either there is an answer left, and the outcome uses it up, or the outcome is an error that is not
-- the model's and nothing has changed.
abbrev pub Verdict : String → ℕ → Harness → Outcome → Type 0
Verdict request_id left h o =
    ((0 < left)
      × IsTaken (Dict.erase request_id h) o
      × (answers_left_of (Dict.lookup request_id o.1) < left))
    ⊎ ((left ≡ 0) × (is_taken o.0 ≡ false) × (o.1 ≡ h))

cap_is_not_the_model : is_model_failure round_cap ≡ false
unfolding is_model_failure
cap_is_not_the_model = refl

erased_entry :
    (request_id : String) (bound : ℕ) (h after : Harness)
    → IsRun request_id bound (Dict.erase request_id h) after
    → answers_left_of (Dict.lookup request_id after) ≤ bound
unfolding answers_left_of
erased_entry request_id bound h after r =
    ground (arith, r.entry, lookup-erase request_id request_id h)

module _ (c : HarnessConfig) (actor : ActorSession) (request_id answer : String) (moment : Moment)
    (h : Harness) where
  redispatch-Answered :
      (prior : Option ProvisionInvocation) (round : ℕ)
      → is_some prior ≡ true
      → 1 ≤ round
      → Answered request_id 0 h
          (redispatch c actor request_id prior round answer moment (Dict.erase request_id h))
  unfolding redispatch
  redispatch-Answered none round given late = absurd (ground (arith, given))
  redispatch-Answered (some prior) round given late = (
    dispatch_text-IsTaken c actor request_id (with_answer prior.raw_text answer) prior.scope_hint
        round moment (Dict.erase request_id h) (with_answer_given prior.raw_text answer),
    erased_entry request_id 0 h _ (
        dispatch_text-IsRun c actor request_id (with_answer prior.raw_text answer) prior.scope_hint
          round 0 moment (Dict.erase request_id h) (late_provision_left actor _ round moment late)),
  )

  classify-Answered :
      (request : IntakeRequest) (scope_hint : Option ScopeHint)
      → request.raw_text ≢ ""
      → 1 ≤ request.clarification_round
      → Answered request_id 1 h
          (classify c actor request_id request scope_hint moment (Dict.erase request_id h))
  unfolding classify
  classify-Answered request scope_hint given late = (
    report_classified-IsTaken c actor request_id request scope_hint moment _
        (Dict.erase request_id h) given,
    erased_entry request_id 1 h _ (
        report_classified-IsRun c actor request_id request scope_hint 1 moment _
          (Dict.erase request_id h) (late_intake_left actor request scope_hint moment late)
          (omega arith)),
  )

  choose-Verdict :
      (b : Bool) (left : ℕ) (e : HarnessError) (o : Outcome)
      → is_model_failure e ≡ false
      → (b ≡ true → left ≡ 0)
      → (b ≡ false
          → (0 < left)
            × IsTaken (Dict.erase request_id h) o
            × (answers_left_of (Dict.lookup request_id o.1) < left))
      → Verdict request_id left h (if b then (err e, h) else o)
  unfolding is_taken
  choose-Verdict true left e o n f g = inr (f refl, n, refl)
  choose-Verdict false left e o n f g = inl (g refl)

  reclassify-Verdict :
      (prior : IntakeRequest) (scope_hint : Option ScopeHint)
      → Verdict request_id
          (if ltb (prior.clarification_round + 1) 2 then 2 else 0)
          h
          (reclassify c actor request_id (some prior) scope_hint answer moment h)
  unfolding reclassify
  reclassify-Verdict prior scope_hint =
      choose-Verdict (leb 2 (prior.clarification_round + 1)) _ round_cap _ cap_is_not_the_model
        (λ late. ground (arith, late))
        (λ early.
          let a =
            classify-Answered
              (record {
                raw_text = with_answer prior.raw_text answer;
                clarification_round = prior.clarification_round + 1;
              })
              scope_hint (with_answer_given prior.raw_text answer) (omega arith) in
          (ground (arith, early), a.0, ground (arith, early, a.1)))

  redispatch-Verdict :
      (prior : Option ProvisionInvocation) (round : ℕ)
      → is_some prior ≡ true
      → Verdict request_id (if ltb (round + 1) 2 then 1 else 0) h (
          if leb 2 (round + 1)
          then (err round_cap, h)
          else redispatch c actor request_id prior
              (round + 1)
              answer
              moment
              (Dict.erase request_id h))
  redispatch-Verdict prior round given =
      choose-Verdict (leb 2 (round + 1)) _ round_cap _ cap_is_not_the_model
        (λ late. ground (arith, late))
        (λ early.
          let a = redispatch-Answered prior (round + 1) given (omega arith) in
          (ground (arith, early), a.0, ground (arith, early, a.1)))

  parts-Verdict :
      (kind : PendingKind) (interrupt_id actor_id : String) (hint : Option ScopeHint)
      (request : Option IntakeRequest) (invocation : Option ProvisionInvocation) (round : ℕ)
      → is_sound (record {
        pending_kind = kind;
        interrupt_id = interrupt_id;
        actor_id = actor_id;
        scope_hint = hint;
        intake_request = request;
        provision_invocation = invocation;
        provision_round = round;
      })
        ≡ true
      → Verdict request_id
          (answers_left (record {
            pending_kind = kind;
            interrupt_id = interrupt_id;
            actor_id = actor_id;
            scope_hint = hint;
            intake_request = request;
            provision_invocation = invocation;
            provision_round = round;
          }))
          h
          (resume_kind kind c actor request_id
            (record {
              pending_kind = kind;
              interrupt_id = interrupt_id;
              actor_id = actor_id;
              scope_hint = hint;
              intake_request = request;
              provision_invocation = invocation;
              provision_round = round;
            })
            answer
            moment
            h)
  unfolding is_sound answers_left resume_kind
  parts-Verdict intake i a hint none invocation round given = absurd (ground (arith, given))
  parts-Verdict intake i a hint (some prior) invocation round given = reclassify-Verdict prior hint
  parts-Verdict provision_draft i a hint request invocation round given =
      redispatch-Verdict invocation round given

  kind-Verdict :
      (p : PendingClarification)
      → is_sound p ≡ true
      → Verdict request_id
          (answers_left p)
          h
          (resume_kind p.pending_kind c actor request_id p answer moment h)
  kind-Verdict p given =
      parts-Verdict p.pending_kind p.interrupt_id p.actor_id p.scope_hint p.intake_request
        p.provision_invocation p.provision_round given

  -- What a resume does after its checks
  pub checked-Verdict :
      (r : Result HarnessError PendingClarification)
      → ((e : HarnessError) → r ≡ err e → is_model_failure e ≡ false)
      → ((p : PendingClarification) → r ≡ ok p → is_sound p ≡ true)
      → ((p : PendingClarification) × (r ≡ ok p)
          × (0 < answers_left p)
          × IsTaken (Dict.erase request_id h) (resume_checked c actor request_id r answer moment h)
          × (answers_left_of
                (Dict.lookup request_id (resume_checked c actor request_id r answer moment h).1)
              < answers_left p))
        ⊎ (((p : PendingClarification) → r ≡ ok p → answers_left p ≡ 0)
            × (is_taken (resume_checked c actor request_id r answer moment h).0 ≡ false)
            × ((resume_checked c actor request_id r answer moment h).1 ≡ h))
  unfolding resume_checked is_taken
  checked-Verdict (err e) refused sound =
      inr ((λ p same. absurd (ground (arith, same))), refused e refl, refl)
  checked-Verdict (ok p) refused sound = elim (kind-Verdict p (sound p refl)) [
    | inl used ↦ inl (p, refl, used.0, used.1, used.2)
    | inr kept ↦
        inr ((λ q same. subst (λ x. answers_left x ≡ 0) (ok-injective same) kept.0), kept.1, kept.2)
  ]
