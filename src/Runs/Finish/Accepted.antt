-- ===== src/Runs/Finish/Accepted.antt =====
-- A passing run is what the gate accepts: the receipt that a run writes, read back by `check_verdict`.
use done_means_done.Base.{
  ◌≡◌, refl, sym, ap, ◌∙◌, pos, Bool, true, false, none, some, String, List, [], arith, string_eq,
  option_eq, nat_eq, int_eq, bool_eq, if◌then◌else◌,
}
use mathlib.Core.Path.{subst}
use mathlib.Core.Option.{some-injective}
use done_means_done.Host.{Host}
use done_means_done.Storage.{digest, evidence_ok}
use done_means_done.Authority.{decision_ok, unconfirmed}
use done_means_done.Check.Definition.{
  check_definition, definition_fields, missing_inputs, source_for, by_tree, input_path,
  check_candidate,
}
use done_means_done.Check.Approvals.{approval_reason, approval_signature, approval_parts}
use done_means_done.Check.Verdict.{check_verdict}
use done_means_done.Check.Verdict.Accepting.{IsCurrent, check_verdict-eq-none}
use done_means_done.Check.Approvals.Signatures.{approval_reason-eq-none}
use done_means_done.Authority.Rows.{get-replace}
use done_means_done.Task.{Task, Check, get, check_row}
use done_means_done.Runs.Plan.{Planned, plan_check, same_approval, ok}
use done_means_done.Runs.Finish.{
  Executed, Observed, Judged, success, judge_run, definition_changed, receipt_of, record_run,
  add_attempt, finish_check,
}

module _ (h : Host) (seen : Observed) (t : Task) (halted : Bool) (current : Check) (p : Planned)
    (e : Executed) where
  abbrev j : Judged
  j = judge_run h seen false t halted current p e

  record IsClean : Type 0 where
    unchanged : j.changed ≡ false
    same_definition : digest h (check_definition current) ≡ p.definition
    approved : same_approval h t current p.signature ≡ true
    matched : j.matched ≡ true
    exited : e.exit ≡ some (pos 0)
    no_failure : j.failure ≡ none

  success-IsClean : success j ≡ true → IsClean
  unfolding judge_run definition_changed
  success-IsClean s = record {
    unchanged = ground arith;
    same_definition = ground arith;
    approved = ground arith;
    matched = ground arith;
    exited = ground arith;
    no_failure = ground arith;
  }

  -- What the run writes into the record leaves the approval and the definition as they were.
  abbrev recorded : Check
  recorded = record_run h seen false t current p e j

  abbrev after : List Check → Task
  after checks = record t { checks = checks; attempts = add_attempt h seen false p e j t.attempts }

  approval_reason-recorded :
      (checks : List Check)
      → approval_reason h (after checks) recorded ≡ approval_reason h t current
  unfolding record_run approval_reason approval_parts check_definition definition_fields input_path
      decision_ok unconfirmed
  approval_reason-recorded checks = refl

  check_definition-recorded : check_definition recorded ≡ check_definition current
  unfolding record_run check_definition definition_fields
  check_definition-recorded = refl

  missing_inputs-recorded : missing_inputs h recorded ≡ missing_inputs h current
  unfolding record_run missing_inputs input_path
  missing_inputs-recorded = refl

  source_for-recorded :
      source_for (by_tree seen.final_fps) recorded ≡ source_for (by_tree seen.final_fps) current
  unfolding record_run source_for check_candidate
  source_for-recorded = refl

  recorded-IsCurrent :
      (task_dir : String) (checks : List Check)
      → success j ≡ true
      → p.check ≡ current
      → current.removed ≡ false
      → current.needs_review ≡ false
      → missing_inputs h current ≡ []
      → evidence_ok h task_dir (some e.artifact) ≡ true
      → IsCurrent h task_dir (by_tree seen.final_fps) (after checks) recorded
  unfolding record_run receipt_of same_approval
  recorded-IsCurrent task_dir checks s same live reviewed there intact =
      let clean = success-IsClean s in
      let no_reason : approval_reason h t current ≡ none = ground (arith, clean.approved) in
      let own : approval_signature h current false ≡ some p.signature =
        ground (arith, clean.approved) in
      let (signature, _) = approval_reason-eq-none h t current no_reason in
      record {
        live = live;
        reviewed = reviewed;
        inputs_there = missing_inputs-recorded ∙ there;
        passed = rw s refl;
        same_definition =
            sym (
              ap (λ v. some (digest h v)) check_definition-recorded
              ∙ ap some clean.same_definition);
        new_enough = refl;
        same_source =
            ap (λ b. source_for (by_tree (if b then seen.fps else seen.final_fps)) p.check)
              clean.unchanged
            ∙ (ap (source_for (by_tree seen.final_fps)) same ∙ sym source_for-recorded);
        intact = intact;
        approved = approval_reason-recorded checks ∙ no_reason;
        same_approval = sym own ∙ sym signature;
        of_command = refl;
        exited = clean.exited;
        matched = ap some clean.matched;
        no_failure = clean.no_failure;
      }

module _ (h : Host) (seen : Observed) (task_dir : String) where
  -- What the plan knows of its checks.
  plan_check_lem :
      (t : Task) (c : Check) {p : Planned}
      → plan_check h t false c ≡ ok p
      → (p.check ≡ c) × ((c.method ≡ "command") × ((c.removed ≡ false) × (c.needs_review ≡ false)))
  unfolding plan_check
  plan_check_lem t c e = ground arith

  -- A run that passes is accepted: a check was planned at some time and is still in the record as it was
  -- planned, its inputs are there and the evidence file is intact. If its result is recorded as a
  -- success, then the record has the check, and the gate accepts its evidence against the trees as the
  -- run left them.
  pub finish_check-accepted :
      (planned t : Task) (halted : Bool) (p : Planned) (e : Executed) (next : Task)
      (judged : Judged)
      → plan_check h planned false p.check ≡ ok p
      → get t.checks p.check.ident ≡ some p.check
      → missing_inputs h p.check ≡ []
      → evidence_ok h task_dir (some e.artifact) ≡ true
      → finish_check h seen false t halted p e ≡ some (next, judged)
      → success judged ≡ true
      → (c : Check) × (get next.checks p.check.ident ≡ some c)
        × (check_verdict h task_dir (by_tree seen.final_fps) next c ≡ none)
  unfolding finish_check record_run
  finish_check-accepted planned t halted p e next judged made there inputs intact done s =
      let (_, (method, (live, reviewed))) = plan_check_lem planned p.check made in
      let c : Check = record_run h seen false t p.check p e (j h seen t halted p.check p e) in
      let (checks, replaced, found) = get-replace p.check.ident t.checks c there refl in
      let end : some (after h seen t halted p.check p e checks, j h seen t halted p.check p e)
          ≡ some (next, judged) =
        rw (there, replaced) at done in
      let same = some-injective _ _ end in
      let passed : success (j h seen t halted p.check p e) ≡ true =
        ap (λ q. success q.1) same ∙ s in
      let current =
        recorded-IsCurrent h seen t halted p.check p e task_dir checks passed refl live reviewed
          inputs intact in
      subst
        (λ q.
          (c : Check) × (get q.0.checks p.check.ident ≡ some c)
          × (check_verdict h task_dir (by_tree seen.final_fps) q.0 c ≡ none))
        same
        (
          c,
          found,
          (check_verdict-eq-none h task_dir (by_tree seen.final_fps)
                (after h seen t halted p.check p e checks) c method).1
              current,
        )
