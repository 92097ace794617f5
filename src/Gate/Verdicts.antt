-- ===== src/Gate/Verdicts.antt =====
-- What each status of the gate means.
use done_means_done.Base.{
  ◌≡◌, ◌≢◌, refl, ◌↔◌, ◌⊎◌, inl, inr, Bool, true, false, Option, none, some, String, [], ◌∷◌, map,
  arith, string_eq, is_empty, Bool-cases, Option-cases,
}
use done_means_done.Host.{Host}
use done_means_done.Check.Definition.{SourceMap}
use done_means_done.Validation.{validation_errors}
use done_means_done.Task.{Task}
use done_means_done.Assessment.Evidence.{Assessment}
use done_means_done.Assessment.Reasons.{review_reason}
use done_means_done.Assessment.Reasons.Complete.{IsDelivered}
use done_means_done.Assessment.Actions.{suspended}
use done_means_done.Gate.{
  Gate, evaluate, evaluate_in_force, effective_state, assessed_gate, or_fingerprint,
  task_fingerprint, unassessed, invalid, execution_suspended, missing_candidate,
}
use done_means_done.Gate.Assessed.{
  invalid-ne-complete, invalid-ne-active, invalid-ne-blocked, blocked-ne-complete,
  blocked-ne-active, suspended_lem, IsStuck, gate_status_complete, all_reasons-eq-nil,
  assessed-active, assessed-blocked,
}

module _ (h : Host) (task_dir : String) (t : Task) (fp : Option SourceMap)
    (require_review : Bool) where
  abbrev in_force : Task
  in_force = record t { state = effective_state t }

  abbrev pub assessment : SourceMap → Assessment
  assessment found = record { host = h; task_dir = task_dir; t = in_force; fp = found }

  -- What COMPLETE stands for.
  pub record IsComplete : Type 0 where
    pub valid : validation_errors t ≡ []
    pub in_progress : suspended (effective_state t) ≡ false
    pub source : SourceMap
    pub tree_found : or_fingerprint fp (task_fingerprint h in_force) ≡ some source
    pub delivered : IsDelivered (assessment source)
    pub reviewed : review_reason (assessment source) require_review ≡ none

  abbrev result : Gate
  result = evaluate h task_dir t fp require_review

  -- The four ways through `evaluate`.
  data Outcome : Type 0 where
    rejected :
        validation_errors t ≢ []
        → result ≡ unassessed "INVALID" (map invalid (validation_errors t))
        → Outcome
    halted :
        suspended (effective_state t) ≡ true
        → result ≡ unassessed (effective_state t) (execution_suspended ∷ [])
        → Outcome
    lost :
        or_fingerprint fp (task_fingerprint h in_force) ≡ none
        → result ≡ unassessed "BLOCKED" (missing_candidate ∷ [])
        → Outcome
    judged :
        validation_errors t ≡ []
        → suspended (effective_state t) ≡ false
        → (found : SourceMap) → or_fingerprint fp (task_fingerprint h in_force) ≡ some found
        → result ≡ assessed_gate (assessment found) require_review
        → Outcome

  outcome : Outcome
  unfolding evaluate
  outcome = elim (Bool-cases (is_empty (validation_errors t))) [
    | inr e ↦ rejected (λ n. ground arith) (rw e refl)
    | inl e ↦ elim (Bool-cases (suspended (effective_state t))) [
      | inl s ↦ halted s (rw (e, s, evaluate_in_force) refl)
      | inr s ↦ elim (Option-cases (or_fingerprint fp (task_fingerprint h in_force))) [
        | inl f ↦ lost f (rw (e, s, f, evaluate_in_force) refl)
        | inr (found, f) ↦ judged (ground arith) s found f (rw (e, s, f, evaluate_in_force) refl)
      ]
    ]
  ]

  -- The gate says COMPLETE exactly for a valid record in progress whose every obligation is met, with
  -- the final review current.
  pub evaluate-IsComplete : (result.status ≡ "COMPLETE") ↔ IsComplete
  unfolding assessed_gate
  evaluate-IsComplete = (complete_of outcome, of_complete outcome)
    where
      complete_of : Outcome → result.status ≡ "COMPLETE" → IsComplete
      complete_of (rejected n e) c = absurd (invalid-ne-complete (rw e at c))
      complete_of (halted s e) c = absurd ((suspended_lem (effective_state t) s).0 (rw e at c))
      complete_of (lost f e) c = absurd (blocked-ne-complete (rw e at c))
      complete_of (judged v s found f e) c =
          let all_met =
            (all_reasons-eq-nil (assessment found) require_review).0
              ((gate_status_complete (assessment found) require_review).0 (rw e at c)) in
          record {
            valid = v;
            in_progress = s;
            source = found;
            tree_found = f;
            delivered = all_met.0;
            reviewed = all_met.1;
          }

      of_complete : Outcome → IsComplete → result.status ≡ "COMPLETE"
      of_complete (rejected n e) c = absurd (n c.valid)
      of_complete (halted s e) c = absurd (ground (arith, c.in_progress))
      of_complete (lost f e) c = absurd (ground (arith, c.tree_found))
      of_complete (judged v s found f e) c =
          let same : c.source ≡ found = ground (arith, c.tree_found) in
          rw (e, ← same)
            ((gate_status_complete (assessment c.source) require_review).1 (
              (all_reasons-eq-nil (assessment c.source) require_review).1
                (c.delivered, c.reviewed)))

  -- The gate names something to do exactly when it says ACTIVE.
  pub evaluate-active : (result.status ≡ "ACTIVE") ↔ (result.next ≢ [])
  evaluate-active = by_outcome outcome
    where
      by_outcome : Outcome → (result.status ≡ "ACTIVE") ↔ (result.next ≢ [])
      by_outcome (rejected n e) = rw e (λ c. absurd (invalid-ne-active c), λ c. absurd (c refl))
      by_outcome (halted s e) =
          rw e (λ c. absurd ((suspended_lem (effective_state t) s).1.0 c), λ c. absurd (c refl))
      by_outcome (lost f e) = rw e (λ c. absurd (blocked-ne-active c), λ c. absurd (c refl))
      by_outcome (judged v s found f e) = rw e (assessed-active (assessment found) require_review)

  -- A task that is ACTIVE was assessed.
  pub evaluate-assessed : result.status ≡ "ACTIVE" → (a : Assessment) × (result.assessed ≡ some a)
  unfolding assessed_gate
  evaluate-assessed = by_outcome outcome
    where
      by_outcome :
          Outcome → result.status ≡ "ACTIVE" → (a : Assessment) × (result.assessed ≡ some a)
      by_outcome (rejected n e) c = absurd (invalid-ne-active (rw e at c))
      by_outcome (halted s e) c = absurd ((suspended_lem (effective_state t) s).1.0 (rw e at c))
      by_outcome (lost f e) c = absurd (blocked-ne-active (rw e at c))
      by_outcome (judged v s found f e) c = (assessment found, rw e refl)

  -- A gate that says BLOCKED names nothing to do; either no candidate tree is found, or an unresolved
  -- blocker stands and every reason the assessment owes is a blocker's own or waits on one, which the
  -- confirmation of a decision never does.
  pub evaluate-blocked :
      result.status ≡ "BLOCKED"
      → (result.next ≡ [])
        × ((or_fingerprint fp (task_fingerprint h in_force) ≡ none)
            ⊎ ((found : SourceMap) × (or_fingerprint fp (task_fingerprint h in_force) ≡ some found)
                × IsStuck (assessment found)))
  evaluate-blocked = by_outcome outcome
    where
      by_outcome :
          Outcome
          → result.status ≡ "BLOCKED"
          → (result.next ≡ [])
            × ((or_fingerprint fp (task_fingerprint h in_force) ≡ none)
                ⊎ ((found : SourceMap) × (or_fingerprint fp (task_fingerprint h in_force)
                      ≡ some found)
                    × IsStuck (assessment found)))
      by_outcome (rejected n e) c = absurd (invalid-ne-blocked (rw e at c))
      by_outcome (halted s e) c = absurd ((suspended_lem (effective_state t) s).1.1 (rw e at c))
      by_outcome (lost f e) c = rw e (refl, inl f)
      by_outcome (judged v s found f e) c =
          let (quiet, stuck) = assessed-blocked (assessment found) require_review (rw e at c) in
          rw e (quiet, inr (found, f, stuck))
