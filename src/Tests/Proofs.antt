-- ===== src/Tests/Proofs.antt =====
-- Evidence about the sample record: coverage, approval, review and results.
use done_means_done.Base.{
  ◌==◌, String, string_eq, ◌≡◌, refl, inr, Bool, true, false, Option, none, some, [], ◌∷◌,
}
use done_means_done.Tests.{program}
use done_means_done.Tests.Changes.{commands, ctx, left_by}
use done_means_done.Tests.Samples.{host, done, check, artifact}
use done_means_done.Check.Approvals.{approval_reason}
use done_means_done.Check.Definition.{SourceMap, by_tree}
use done_means_done.Gate.{evaluate, task_fingerprint}
use done_means_done.Storage.{evidence_ok}
use done_means_done.Assessment.Reasons.{coverage_ok, review_reason}
use done_means_done.Commands.Standing.{assessed, assert_coverage-coverage_ok}
use done_means_done.Commands.Approvals.{approve}
use done_means_done.Commands.Approvals.Granted.{approve-approval_reason}
use done_means_done.Commands.Coverage.{assert_coverage}
use done_means_done.Commands.Review.{record_review}
use done_means_done.Commands.Review.Current.{record_review-review_reason}
use done_means_done.Commands.Findings.{FindingArgs, set_finding}
use done_means_done.Commands.Findings.Closing.{Closes, set_finding-Closes}
use done_means_done.Commands.Work.{Change, set_work}
use done_means_done.Commands.Work.Verified.{IsDone, set_work-IsDone}
use done_means_done.Commands.Checks.{edit_check, set_check}
use done_means_done.Commands.Checks.Authoring.{CheckArgs}
use done_means_done.Commands.Checks.Unproven.{
  IsUnproven, edit_check-IsUnproven, set_check-IsUnproven,
}
use done_means_done.Task.{Task, Check, get, check_row}

abbrev trees : SourceMap
trees = by_tree (("/p", "tree") ∷ [])

abbrev covered : Task
covered = left_by (assert_coverage ctx (some "one outcome") done)

covered_run : assert_coverage ctx (some "one outcome") done ≡ some covered
unfolding program commands
covered_run = refl

assert_coverage-coverage_ok_example : coverage_ok (assessed ctx trees covered) ≡ true
assert_coverage-coverage_ok_example =
    assert_coverage-coverage_ok ctx trees (some "one outcome") done covered covered_run

abbrev unapproved : Task
unapproved = record done { approvals = [] }

abbrev approved_task : Task
approved_task = left_by (approve ctx "A-01" (some "inspected") unapproved)

approved_run : approve ctx "A-01" (some "inspected") unapproved ≡ some approved_task
unfolding program commands
approved_run = refl

approve-approval_reason_example : approval_reason host approved_task check ≡ none
unfolding program
approve-approval_reason_example =
    approve-approval_reason ctx "A-01" (some "inspected") unapproved approved_task check refl refl
      approved_run

abbrev first_of : Option (Task × Bool) → Task
first_of none = done
first_of (some (t, b)) = t

abbrev pub reviewed_task : Task
reviewed_task =
    first_of (record_review ctx "self" (some "me") (some "read it") (some artifact) done)

reviewed_run :
    record_review ctx "self" (some "me") (some "read it") (some artifact) done
    ≡ some (reviewed_task, true)
unfolding program commands
reviewed_run = refl

intact : evidence_ok host "/s" (some artifact) ≡ true
unfolding program
intact = refl

snapshots : task_fingerprint host done ≡ some trees
unfolding program
snapshots = refl

record_review-review_reason_example :
    ((evaluate host "/s" done (some trees) false).status ≡ "COMPLETE")
    × (review_reason (assessed ctx trees reviewed_task) true ≡ none)
record_review-review_reason_example =
    record_review-review_reason ctx "self" (some "me") (some "read it") artifact done reviewed_task
      trees intact (λ h. cc) snapshots reviewed_run

abbrev disproof : FindingArgs
disproof = record {
  status = some "disproved";
  origin = none;
  work = none;
  checks = none;
  note = some "tabs are accepted";
  artifact = some artifact;
  inputs = [];
  duplicate = none;
}

abbrev disproved_task : Task
disproved_task = left_by (set_finding ctx "F-01" disproof done)

disproved_run : set_finding ctx "F-01" disproof done ≡ some disproved_task
unfolding program commands
disproved_run = refl

set_finding-Closes_example : Closes ctx "F-01" disproved_task
set_finding-Closes_example =
    set_finding-Closes ctx "F-01" "disproved" disproof done disproved_task refl (inr refl)
      disproved_run

abbrev new_command : CheckArgs
new_command = record {
  req = none;
  work = none;
  method = none;
  command = some "make check";
  run_cwd = none;
  expect = none;
  match = none;
  timeout = none;
  max_output = none;
  inputs = none;
  regression = false;
  no_regression = false;
  red_match = none;
  red_exit = none;
  attested_because = none;
  candidate = none;
  exclusive = none;
  writes = none;
  clear_inputs = false;
  clear_exclusive = false;
  clear_writes = false;
  approve = some "inspected";
  authority = none;
}

abbrev edited_task : Task
edited_task = left_by (edit_check ctx "A-01" new_command done)

edited_run : edit_check ctx "A-01" new_command done ≡ some edited_task
unfolding program commands
edited_run = refl

edit_check-IsUnproven_example :
    ((c : Check) × (get edited_task.checks "A-01" ≡ some c) × (c.status ≡ "NOT_RUN"))
    × IsUnproven ctx "A-01" edited_task
edit_check-IsUnproven_example =
    edit_check-IsUnproven ctx "A-01" new_command done edited_task edited_run

abbrev failed_task : Task
failed_task = left_by (set_check ctx "A-01" "FAIL" (some "it hangs") none done)

failed_run : set_check ctx "A-01" "FAIL" (some "it hangs") none done ≡ some failed_task
unfolding program commands
failed_run = refl

set_check-IsUnproven_example :
    (◌==◌ {A = String} "FAIL" "PASS" ≡ false)
    × ((result : Check) × (get failed_task.checks "A-01" ≡ some result)
        × (result.status ≡ "FAIL")
        × (result.receipt ≡ none))
    × IsUnproven ctx "A-01" failed_task
unfolding program
set_check-IsUnproven_example =
    set_check-IsUnproven ctx "A-01" "FAIL" (some "it hangs") none done failed_task check refl refl
      failed_run

abbrev settled_work : Change
settled_work = record {
  replacement = none;
  note = none;
  clear_deps = false;
  deps = none;
  owns = none;
  status = some "verified";
}

abbrev verified_task : Task
verified_task = left_by (set_work host "/s" "W-01" settled_work done)

verified_run : set_work host "/s" "W-01" settled_work done ≡ some verified_task
unfolding program commands
verified_run = refl

set_work-IsDone_example : IsDone host "/s" "W-01" verified_task
set_work-IsDone_example =
    set_work-IsDone host "/s" "W-01" settled_work done verified_task refl verified_run
