-- ===== src/Commands/Review/Current.antt =====
-- An accepted review is current: the gate's test of it passes on the record that the command leaves.
use done_means_done.Base.{
  ◌≡◌, refl, sym, ◌∙◌, ap, inl, inr, Bool, true, false, Option, none, some, String, ◌<>◌, arith,
  ◌==◌, string_eq, option_eq, eq_self, eq_true, Bool-cases, if◌then◌else◌, >>=-eq-some,
}
use mathlib.Core.Path.{subst}
use mathlib.Core.Bool.{true≢false}
use mathlib.Core.Option.{some-injective}
use done_means_done.Storage.{evidence_ok}
use done_means_done.Authority.{record_decision, decision_ok}
use done_means_done.Authority.Decisions.{decision_ok-record_decision}
use done_means_done.Check.Definition.{SourceMap}
use done_means_done.Contract.{contract, contract_digest, review_signature, reviewed}
use done_means_done.Gate.{evaluate, task_fingerprint}
use done_means_done.Assessment.Reasons.{review_reason, held_against, or_default, no_review}
use done_means_done.Commands.{require_text, Context}
use done_means_done.Commands.Standing.{assessed}
use done_means_done.Commands.Review.{
  review_binding, review_of, with_review, decide_review, accept_review, reject, record_review,
}
use done_means_done.Task.{Task, Artifact, no_prior}

module _ (ctx : Context) (kind reviewer note : String) (artifact : Artifact) where
  module _ (signature : String) (t : Task) (fp : SourceMap) where
    signature-with_review :
        review_signature ctx.host (with_review ctx kind reviewer note artifact signature t) fp
        ≡ review_signature ctx.host t fp
    unfolding review_signature reviewed contract_digest contract
    signature-with_review = refl

    signature-decide_review :
        review_signature ctx.host (decide_review ctx kind reviewer note artifact signature t) fp
        ≡ review_signature ctx.host t fp
    unfolding review_signature reviewed contract_digest contract decide_review record_decision
    signature-decide_review = refl

  -- What `review_reason` tests, of a record that carries the review.
  record IsCurrent (fp : SourceMap) (u : Task) : Type 0 where
    decision : Option String
    kept :
        u.review
        ≡ some (review_of ctx kind reviewer note artifact (review_signature ctx.host u fp) decision)
    shown : evidence_ok ctx.host ctx.task_dir (some artifact) ≡ true
    policy : u.require_independent_review ≡ true → (kind == "independent") ≡ true
    decided :
        (kind == "independent") ≡ true
        → decision_ok u decision "review.independent" "review"
            (some (review_binding ctx kind reviewer note artifact (review_signature ctx.host u fp)))
          ≡ true

  held_against-review_of :
      (fp : SourceMap) (u : Task)
      → (c : IsCurrent fp u)
      → held_against
          (assessed ctx fp u)
          (review_of ctx kind reviewer note artifact (review_signature ctx.host u fp) c.decision)
        ≡ none
  held_against-review_of fp u c = elim (Bool-cases (kind == "independent")) [
    | inl e ↦
        rw (eq_self (some (review_signature ctx.host u fp)), c.shown, c.decided e) (ground arith)
    | inr e ↦
        rw (eq_self (some (review_signature ctx.host u fp)), c.shown) (ground (arith, c.policy))
  ]

  review_reason-IsCurrent :
      (fp : SourceMap) (u : Task) → IsCurrent fp u → review_reason (assessed ctx fp u) true ≡ none
  unfolding review_reason
  review_reason-IsCurrent fp u c =
      ap (λ r. held_against (assessed ctx fp u) (or_default no_review r)) c.kept
      ∙ held_against-review_of fp u c

  module _ (t : Task) (fp : SourceMap) where
    abbrev sig : String
    sig = review_signature ctx.host t fp

    -- What the record and the command must agree on.
    record IsAllowed : Type 0 where
      shown : evidence_ok ctx.host ctx.task_dir (some artifact) ≡ true
      policy : t.require_independent_review ≡ true → kind ≡ "independent"

    with_review-IsCurrent :
        IsAllowed
        → (kind == "independent") ≡ false
        → IsCurrent fp (with_review ctx kind reviewer note artifact sig t)
    with_review-IsCurrent h e = record {
      decision = none;
      kept =
          ap (λ s. some (review_of ctx kind reviewer note artifact s none))
            (sym (signature-with_review sig t fp));
      shown = h.shown;
      policy = λ p. ground (arith, h.policy p);
      decided = λ k. cc;
    }

    decided_as : Option String
    decided_as =
        some
          (record_decision (with_review ctx kind reviewer note artifact sig t) "review.independent"
            "review" (reviewer <> (": " <> note)) (ctx.now 1)
            (record no_prior { review = t.review })
            (some (review_binding ctx kind reviewer note artifact sig))).1.ident

    decision_ok-decide_review :
        decision_ok
          (decide_review ctx kind reviewer note artifact sig t)
          decided_as
          "review.independent"
          "review"
          (some (review_binding ctx kind reviewer note artifact sig))
        ≡ true
    unfolding decision_ok decide_review record_decision decided_as
    decision_ok-decide_review =
        decision_ok-record_decision (with_review ctx kind reviewer note artifact sig t)
          "review.independent" "review" (reviewer <> (": " <> note)) (ctx.now 1)
          (record no_prior { review = t.review })
          (some (review_binding ctx kind reviewer note artifact sig))

    review-decide_review :
        (decide_review ctx kind reviewer note artifact sig t).review
        ≡ some (review_of ctx kind reviewer note artifact sig decided_as)
    unfolding decide_review decided_as record_decision
    review-decide_review = refl

    policy-decide_review :
        (decide_review ctx kind reviewer note artifact sig t).require_independent_review
        ≡ t.require_independent_review
    unfolding decide_review record_decision
    policy-decide_review = refl

    decide_review-IsCurrent :
        IsAllowed
        → (kind == "independent") ≡ true
        → IsCurrent fp (decide_review ctx kind reviewer note artifact sig t)
    decide_review-IsCurrent h e = record {
      decision = decided_as;
      kept =
          review-decide_review
          ∙ ap (λ s. some (review_of ctx kind reviewer note artifact s decided_as))
              (sym (signature-decide_review sig t fp));
      shown = h.shown;
      policy = λ p. e;
      decided = λ k. rw (signature-decide_review sig t fp) decision_ok-decide_review;
    }

    accept_review-IsCurrent :
        IsAllowed → IsCurrent fp (accept_review ctx kind reviewer note artifact fp t)
    unfolding accept_review
    accept_review-IsCurrent h = elim (Bool-cases (kind == "independent")) [
      | inl e ↦ rw (e, accept_review) (decide_review-IsCurrent h e)
      | inr e ↦ rw (e, accept_review) (with_review-IsCurrent h e)
    ]

-- The pair that `record_review` answers, where nothing is refused.
abbrev outcome : Context → String → String → String → Artifact → SourceMap → Task → Task × Bool
outcome ctx kind who what file fp t =
    if (evaluate ctx.host ctx.task_dir t (some fp) false).status == "COMPLETE"
    then (accept_review ctx kind who what file fp t, true)
    else (reject ctx kind who what file t, false)

module _ (ctx : Context) (kind : String) where
  outcome-accepted :
      (who what : String) (file : Artifact) (fp : SourceMap) (t u : Task)
      → outcome ctx kind who what file fp t ≡ (u, true)
      → ((evaluate ctx.host ctx.task_dir t (some fp) false).status ≡ "COMPLETE")
        × (accept_review ctx kind who what file fp t ≡ u)
  outcome-accepted who what file fp t u h =
      elim (Bool-cases ((evaluate ctx.host ctx.task_dir t (some fp) false).status == "COMPLETE")) [
        | inl e ↦ (eq_true _ "COMPLETE" e, ap (λ x. x.0) (rw e at h))
        | inr e ↦ absurd (true≢false (sym (ap (λ x. x.1) (rw e at h))))
      ]

  -- A review that was accepted, with an intact evidence file and of the kind that the task asks for, found
  -- nothing else owed, and is the current final review of the record that it leaves.
  pub record_review-review_reason :
      (reviewer note : Option String) (artifact : Artifact) (t u : Task) (fp : SourceMap)
      → evidence_ok ctx.host ctx.task_dir (some artifact) ≡ true
      → (t.require_independent_review ≡ true → kind ≡ "independent")
      → task_fingerprint ctx.host t ≡ some fp
      → record_review ctx kind reviewer note (some artifact) t ≡ some (u, true)
      → ((evaluate ctx.host ctx.task_dir t (some fp) false).status ≡ "COMPLETE")
        × (review_reason (assessed ctx fp u) true ≡ none)
  unfolding record_review
  record_review-review_reason reviewer note artifact t u fp shown policy found done =
      let (who, (_, h1)) =
        >>=-eq-some (require_text reviewer) (rw (found, record_review) at done) in
      let (what, (_, h2)) = >>=-eq-some (require_text note) h1 in
      let (complete, same) = outcome-accepted who what artifact fp t u (some-injective _ _ h2) in
      (
        complete,
        subst (λ v. review_reason (assessed ctx fp v) true ≡ none) same
            (review_reason-IsCurrent ctx kind who what artifact fp _ (
              accept_review-IsCurrent ctx kind who what artifact t fp
                (record { shown = shown; policy = policy }))),
      )
