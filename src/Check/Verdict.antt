-- ===== src/Check/Verdict.antt =====
-- dmdlib/model.py, lines 285 to 369: the verdict on a check's evidence, and its red baseline.
pub mod Accepting
use done_means_done.Base.{
  pos, Bool, true, false, not, ◌&&◌, ◌||◌, Option, none, some, String, List, ◌==◌, ◌/=◌, string_eq,
  option_eq, nat_eq, int_eq, bool_eq, if◌then◌else◌, is_empty,
}
use done_means_done.Json.{Json, num, str, bool, obj, optional, null, end, Fields}
use done_means_done.Host.{Host}
use done_means_done.Storage.{digest, evidence_ok}
use done_means_done.Authority.{decision_ok, truthy}
use done_means_done.Task.{Check, Task, Receipt, no_receipt}
use done_means_done.Check.Definition.{
  check_definition, check_candidate, source_for, missing_inputs, SourceMap,
}
use done_means_done.Check.Approvals.{approval_reason, approval_of, ApprovalReason}

pub data Cause : Type 0 where
  superseded edited inputs_missing not_run stale failed other : Cause

-- The texts of `check_verdict`, with what they name.
pub data Reason : Type 0 where
  is_superseded definition_edited : Reason
  input_missing : List String → Reason
  never_run moved_during_run : Reason
  run_failed : Option String → Reason
  edited_since_receipt receipt_too_old : Reason
  candidate_changed : String → Option String → Reason
  artifact_altered : Reason
  approval_lapsed : ApprovalReason → Reason
  approved_otherwise not_clean_pass no_observation : Reason

abbrev pub or_empty : Option Receipt → Receipt
or_empty none = no_receipt
or_empty (some r) = r

abbrev pub is_some {ℓ} : {A : Type ℓ} → Option A → Bool
is_some none = false
is_some (some a) = true

-- `legacy_receipt`
unfoldable pub legacy_receipt : Check → Bool
legacy_receipt c = is_some c.receipt && not (is_some (or_empty c.receipt).candidate)

abbrev pub Verdict : Type 0
Verdict = Option (Cause × Reason)

module _ (h : Host) (task_dir : String) where
  clean_pass : Receipt → Bool
  clean_pass r =
      r.kind == some "command"
      && r.exit == some (pos 0)
      && r.matched == some true
      && r.failure == none

  -- The branch of a command check: its approval, then the shape of the receipt.
  command_verdict : Task → Check → Receipt → Verdict
  unfolding clean_pass
  command_verdict t c r = elim (approval_reason h t c) [
    | some reason ↦ some (edited, approval_lapsed reason)
    | none ↦
        if r.approval /= (approval_of t c.ident).signature
        then some (edited, approved_otherwise)
        else if not (clean_pass r)
        then some (other, not_clean_pass)
        else none
  ]

  attested_verdict : Check → Receipt → Verdict
  attested_verdict c r =
      if r.kind == some c.method && truthy r.note then none else some (other, no_observation)

  -- A check whose stored status is PASS.
  passed_verdict : SourceMap → Task → Check → Receipt → Verdict
  unfolding command_verdict attested_verdict
  passed_verdict fp t c r =
      if r.definition /= some (digest h (check_definition c))
      then some (edited, edited_since_receipt)
      else if r.assurance_version /= some 2
      then some (stale, receipt_too_old)
      else if r.source /= source_for fp c
      then some (stale, candidate_changed (check_candidate c (some t.root)) r.head)
      else if not (evidence_ok h task_dir r.artifact)
      then some (other, artifact_altered)
      else if c.method == "command"
      then command_verdict t c r
      else attested_verdict c r

  failed_verdict : Receipt → Verdict
  failed_verdict r =
      if is_some r.stale || r.failure == some "CANDIDATE_OR_DEFINITION_CHANGED"
      then some (stale, moved_during_run)
      else some (failed, run_failed r.failure)

  -- `check_verdict`, as the Assessment calls it, with the task and its root.
  unfoldable pub check_verdict : SourceMap → Task → Check → Verdict
  unfolding passed_verdict failed_verdict
  check_verdict fp t c =
      if c.removed
      then some (superseded, is_superseded)
      else if c.needs_review
      then some (edited, definition_edited)
      else if not (is_empty (missing_inputs h c))
      then some (inputs_missing, input_missing (missing_inputs h c))
      else if c.status == "NOT_RUN"
      then some (not_run, never_run)
      else if c.status /= "PASS"
      then failed_verdict (or_empty c.receipt)
      else passed_verdict fp t c (or_empty c.receipt)

  red_run_ok : Task → Check → Receipt → Bool
  red_run_ok t c red =
      red.assurance_version == some 2
      && red.approval == (approval_of t c.ident).signature
      && red.definition == some (digest h (check_definition c))
      && red.matched == some true
      && red.failure == none
      && red.exit == c.red_exit
      && evidence_ok h task_dir red.artifact

  baseline_ok : Task → Check → Receipt → Bool
  baseline_ok t c baseline =
      truthy baseline.reason
      && baseline.definition == some (digest h (check_definition c))
      && evidence_ok h task_dir baseline.artifact
      && decision_ok t baseline.decision "check.baseline" c.ident baseline.definition

  -- `red_ok`, with the task
  unfoldable pub red_ok : Task → Check → Bool
  unfolding red_run_ok baseline_ok
  red_ok t c =
      if is_some (approval_reason h t c)
      then false
      else red_run_ok t c (or_empty c.red) || baseline_ok t c (or_empty c.baseline)

-- `evidence_identity`: what a review vouched for in a receipt, red run or baseline.
identity_fields : Receipt → Fields
identity_fields r = optional "kind" str r.kind (
    optional "source" str r.source (
      optional "definition" str r.definition (
        optional "candidate" str r.candidate (
          optional "exit" num r.exit (
            optional "matched" bool r.matched (
              optional "failure" str r.failure (
                optional "note" str r.note (
                  optional "stale" (λ s. s) r.stale
                    (optional "reason" str r.reason (
                      optional "approval" str r.approval (
                        optional "assurance_version" (λ n. num (pos n)) r.assurance_version
                          end)))))))))))

unfoldable pub evidence_identity : Option Receipt → Json
unfolding identity_fields
evidence_identity none = null
evidence_identity (some r) = obj (identity_fields r)
