-- ===== src/Assessment/Reasons.antt =====
-- `Assessment._collect`, `coverage_ok`, `review_reason` and `actionable` (lines 545 to 625): what is
-- still owed, each reason with the item that owns it.
pub mod Complete
use done_means_done.Base.{
  ℕ, Bool, true, false, not, ◌&&◌, ◌||◌, Option, none, some, String, List, [], ◌∷◌, ◌++◌, map, ◌==◌,
  ◌/=◌, string_eq, option_eq, contains, filter, any, for_each, when, is_empty, if◌then◌else◌,
}
use done_means_done.Base.Text.{starts_with}
use done_means_done.Storage.{digest, evidence_ok}
use done_means_done.Json.{Json, arr, cons, nil, str}
use done_means_done.Authority.{decision_ok, unconfirmed}
use done_means_done.Contract.{contract_digest, review_signature, unmapped_clauses, artifact_value}
use done_means_done.Check.Verdict.{Verdict, Cause, Reason, is_some}
use done_means_done.Task.{
  Task, Check, Work, Requirement, Blocker, Uncertain, Entry, Coverage, Review, live, get, ids,
  requirement_row, removable_work, removable_check, blocker_row, clause_row,
}
use done_means_done.Assessment.Evidence.{
  Assessment, verdict_of, accepted, red_accepted, active, work_owed, work_ok, checks_for,
  executed_checks, attested_checks, blocker_supported, inflight,
}
use done_means_done.Assessment.Findings.{FindingReason, open_findings}
use done_means_done.Assessment.Blocked.{waits}

-- The texts of the reasons, with what they name.
pub data Obligation : Type 0 where
  unmapped_items : List String → Obligation
  coverage_unasserted no_requirements missing_check only_attested : Obligation
  checks_owed : List String → Obligation
  no_mapped_check dependency_unverified : Obligation
  check_open : Reason → Obligation
  in_recorded_run no_red_evidence : Obligation
  finding_open : FindingReason → Obligation
  unresolved_prerequisite : String → Obligation
  blocker_unsupported : String → Obligation
  unknown_outcome run_active : Obligation
  awaits_confirmation : String → String → Obligation

-- An owner with a reason.
abbrev pub Owed : Type 0
Owed = String × Obligation

abbrev pub no_coverage : Coverage
no_coverage = record { digest = none; decision = none }

abbrev pub no_review : Review
no_review = record { signature = none; kind = none; artifact = none; decision = none }

abbrev pub or_default {ℓ} : {A : Type ℓ} → A → Option A → A
or_default d none = d
or_default d (some a) = a

pub data ReviewReason : Type 0 where
  review_stale review_not_independent review_unconfirmed : ReviewReason

module _ (a : Assessment) where
  unfoldable pub coverage_ok : Bool
  coverage_ok =
      let cov = or_default no_coverage a.t.coverage in
      cov.digest == some (contract_digest a.host a.t)
      && decision_ok a.t cov.decision "coverage.assert" "coverage" cov.digest

  coverage_reasons : List Owed
  coverage_reasons =
      if not (is_empty (unmapped_clauses a.t))
      then ("coverage", unmapped_items (ids (unmapped_clauses a.t))) ∷ []
      else when (not coverage_ok) ("coverage", coverage_unasserted)

  unfoldable pub attest_only : String → Bool
  attest_only rid = elim (get a.t.requirements rid) [ none ↦ false | some r ↦ r.attest_only ]

  -- Attestation is all that carries a requirement, and the operator did not accept that.
  abbrev pub attested_alone : String → Bool
  attested_alone rid =
      not (is_empty (attested_checks a rid))
      && is_empty (executed_checks a rid)
      && not (attest_only rid)

  work_reasons : Work → List Owed
  work_reasons w =
      when (not (work_ok a w.ident)) (
        w.ident,
        (if is_empty (work_owed a w.ident)
            then no_mapped_check
            else checks_owed (work_owed a w.ident)),
      )
      ++ when (any (λ d. not (work_ok a d)) w.deps) (w.ident, dependency_unverified)

  verdict_reasons : Check → Option Verdict → List Owed
  verdict_reasons c (some (some (cause, reason))) =
      (c.ident, (if contains (inflight a) c.ident then in_recorded_run else check_open reason)) ∷ []
  verdict_reasons c _ = []

  check_reasons : Check → List Owed
  unfolding verdict_reasons
  check_reasons c =
      verdict_reasons c (verdict_of a c.ident)
      ++ when (c.regression && not (red_accepted a c.ident)) (c.ident, no_red_evidence)

  requirement_reasons : String → List Owed
  unfolding work_reasons check_reasons
  requirement_reasons rid =
      when (is_empty (checks_for a rid)) (rid, missing_check)
      ++ (when (attested_alone rid) (rid, only_attested)
          ++ (for_each (filter (λ w. w.req == rid) (live a.t.work)) work_reasons
              ++ for_each (checks_for a rid) check_reasons))

  blocker_reasons : Blocker → List Owed
  blocker_reasons b =
      if b.resolved
      then []
      else (b.ident, unresolved_prerequisite b.item)
        ∷ when (not (blocker_supported a b)) ("blocker-evidence", blocker_unsupported b.ident)

  unfoldable pub reasons : List Owed
  unfolding coverage_reasons requirement_reasons blocker_reasons
  reasons =
      coverage_reasons
      ++ (when (is_empty (active a)) ("task", no_requirements)
          ++ (for_each (active a) requirement_reasons
              ++ (map (λ (fid, r). (fid, finding_open r)) (open_findings a)
                  ++ (for_each a.t.blockers blocker_reasons
                      ++ (for_each a.t.uncertain
                            (λ u. when (not u.resolved) (u.ident, unknown_outcome))
                          ++ (when (is_some a.t.running) ("running", run_active)
                              ++ map (λ (e : Entry). (e.ident, awaits_confirmation e.op e.target))
                                  (unconfirmed a.t)))))))

  -- What is held against a review.
  abbrev pub held_against : Review → Option ReviewReason
  held_against r =
      if r.signature /= some (review_signature a.host a.t a.fp)
        || not (evidence_ok a.host a.task_dir r.artifact)
      then some review_stale
      else if a.t.require_independent_review && r.kind /= some "independent"
      then some review_not_independent
      else if r.kind == some "independent"
          && not (
              decision_ok a.t r.decision "review.independent" "review" (
                some (
                  digest a.host (
                    arr (
                      cons (str (review_signature a.host a.t a.fp))
                        (cons (artifact_value r.artifact) nil))))))
      then some review_unconfirmed
      else none

  unfoldable pub review_reason : Bool → Option ReviewReason
  review_reason require_review =
      if require_review then held_against (or_default no_review a.t.review) else none

  unfoldable pub open_blockers : List String
  open_blockers = ids (filter (λ b. not b.resolved) a.t.blockers)

  abbrev pub is_actionable : Owed → Bool
  is_actionable (owner, text) =
      starts_with owner "AU-" || (not (contains open_blockers owner) && not (waits a owner))

  unfoldable pub actionable : List Owed
  actionable = filter is_actionable reasons
