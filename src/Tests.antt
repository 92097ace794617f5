-- ===== src/Tests.antt =====
-- Runs of the gate on the sample tasks, and the theorems at concrete inputs.
mod Samples
mod Runs
mod Stops
mod Changes
mod Decisions
mod Proofs
mod Records
use done_means_done.Base.{
  ◌≡◌, ◌≢◌, refl, ◌↔◌, ◌⊎◌, inl, inr, Bool, true, false, Option, none, some, String, List, [], ◌∷◌,
}
use done_means_done.Base.{contains, string_eq, option_eq, nat_eq, int_eq, bool_eq, All, Memᴰ}
use done_means_done.Base.Text.{
  is_space, nonblank, is_digit, is_alnum, drop_prefix, is_id, is_identifier, until_dash, id_number,
  join, decimal, two_digits,
}
use done_means_done.Task.{live, get, new_id, Task}
use done_means_done.FilePath.{of_text, to_text, is_absolute, parents, is_below, child}
use done_means_done.Storage.{digest, regular, evidence_ok, pid_alive}
use done_means_done.Authority.{unconfirmed, decision_ok}
use done_means_done.Check.Definition.{
  attested, definition_fields, check_definition, check_candidate, lookup, source_for, input_path,
  missing_inputs, SourceMap, by_tree,
}
use done_means_done.Check.Approvals.{
  approval_parts, approval_signature, sign, approval_drift, approval_reason,
}
use done_means_done.Storage.Save.{save}
use done_means_done.Source.{output_match, drift}
use done_means_done.Authority.{record_decision, undo, withdraw}
use done_means_done.Runs.Plan.{select_checks, plan_check, plan, same_approval, start}
use done_means_done.Runs.Outputs.{generated_outputs, moved_tree, moved, candidate_drift}
use done_means_done.Runs.Finish.{
  judge_run, receipt_of, record_run, add_attempt, finish_check, finish_checks, finish, exit_code,
}
use done_means_done.Hooks.{
  config_errors, prune_watches, next_count, counted, let_go, watchdog, stop_assessed, gate_of, stop,
  task_completed,
}
use done_means_done.Base.Text.{has_slash, behind_slash, has_part}
use done_means_done.Check.Verdict.{check_verdict, red_ok, evidence_identity, legacy_receipt}
use done_means_done.Contract.{
  unmapped_clauses, contract, source_json, artifact_value, contract_digest, source_digest, reviewed,
  review_signature,
}
use done_means_done.Validation.{validation_errors}
use done_means_done.Validation.Order.{dependency_sets, release, visit, visited_count, order_ok}
use done_means_done.Assessment.Evidence.{
  Assessment, sorted, verdict_of, accepted, red_accepted, active, mapped_checks, work_owed, work_ok,
  checks_for, executed_checks, attested_checks, executed, blocker_supported, inflight, runner_alive,
}
use done_means_done.Assessment.Findings.{
  file_digest, own_reason, link_reason, judge, walk, settle, rounds, open_findings,
}
use done_means_done.Assessment.Blocked.{
  pass, spread, add_checks, add_findings, directly_blocked, work_waiting, blocked, waits,
}
use done_means_done.Assessment.Reasons.{
  coverage_ok, attest_only, reasons, review_reason, open_blockers, actionable,
}
use done_means_done.Assessment.Actions.{repeated_attempts, owners, next_actions, status}
use done_means_done.Assessment.Summary.{group_of, members, rerun, summary, progress}
use done_means_done.Gate.{
  task_candidates, task_fingerprint, task_snapshot, effective_state, next_steps, gate_status,
  assessed_gate, evaluate, Gate,
}
use done_means_done.Base.Text.{strip}
use done_means_done.Commands.{require_text, cap_histories, reopened, commit, transaction}
use done_means_done.Commands.Requirements.{add_requirement}
use done_means_done.Commands.Work.{
  supersede_work, supersede_check, remove_work, add_work, edited_work, status_allowed, set_work,
}
use done_means_done.Commands.Blockers.{
  add_blocker, resolve_blocker, add_uncertain, resolve_uncertain,
}
use done_means_done.Tests.Samples.{
  host, done, open_task, blocked_task, cyclic, chained, duplicate, deferred,
}
use done_means_done.Assessment.Findings.Resolution.{Resolves}
use done_means_done.Assessment.Findings.Coverage.{
  rounds_total, lookup-open_findings, open_findings-eq-nil, empty_memo,
}
use done_means_done.Assessment.Findings.Cycles.{Names, direct, onward, open_findings-cycle}
use done_means_done.Assessment.Findings.{Memo, FindingReason}
use done_means_done.Assessment.Blocked.Waiting.{
  Waits, direct, by_prerequisite, work_waiting_total, contains-work_waiting,
}
use done_means_done.Gate.Verdicts.{
  IsComplete, evaluate-IsComplete, evaluate-active, evaluate-blocked,
}

program : Unit {0}
unfolding config_errors strip require_text cap_histories reopened commit transaction add_requirement
    supersede_work supersede_check remove_work add_work edited_work status_allowed set_work
    add_blocker resolve_blocker add_uncertain resolve_uncertain save output_match drift
    record_decision undo withdraw select_checks plan_check plan same_approval start
    generated_outputs moved_tree moved candidate_drift judge_run receipt_of record_run add_attempt
    finish_check finish_checks finish exit_code prune_watches next_count counted let_go watchdog
    stop_assessed gate_of stop task_completed has_slash behind_slash has_part approval_signature
    string_eq option_eq nat_eq int_eq bool_eq is_space nonblank is_digit is_alnum drop_prefix is_id
    is_identifier until_dash id_number join decimal two_digits live get new_id of_text to_text
    is_absolute parents is_below child digest regular evidence_ok pid_alive unconfirmed decision_ok
    attested definition_fields check_definition check_candidate lookup source_for input_path
    missing_inputs approval_parts sign approval_drift approval_reason check_verdict red_ok
    evidence_identity legacy_receipt unmapped_clauses contract source_json artifact_value
    contract_digest source_digest reviewed review_signature validation_errors dependency_sets
    release visit visited_count order_ok sorted verdict_of accepted red_accepted active
    mapped_checks work_owed work_ok checks_for executed_checks attested_checks executed
    blocker_supported inflight runner_alive file_digest own_reason link_reason judge walk settle
    rounds open_findings pass spread add_checks add_findings directly_blocked work_waiting blocked
    waits coverage_ok attest_only reasons review_reason open_blockers actionable repeated_attempts
    owners next_actions status group_of members rerun summary progress task_candidates
    task_fingerprint task_snapshot effective_state next_steps gate_status assessed_gate evaluate
program = tt

abbrev gate : Task → Gate
gate t = evaluate host "/s" t none true

gate_done : (evaluate host "/s" done none false).status ≡ "COMPLETE"
unfolding program
gate_done = refl

gate_open : (gate open_task).status ≡ "ACTIVE"
unfolding program
gate_open = refl

gate_blocked : (gate blocked_task).status ≡ "BLOCKED"
unfolding program
gate_blocked = refl

abbrev assessed : Task → Assessment
assessed t = record { host = host; task_dir = "/s"; t = t; fp = by_tree (("/p", "tree") ∷ []) }

evaluate-IsComplete_example : IsComplete host "/s" done none false
evaluate-IsComplete_example = (evaluate-IsComplete host "/s" done none false).0 gate_done

evaluate-active_example : (gate open_task).next ≢ []
evaluate-active_example = (evaluate-active host "/s" open_task none true).0 gate_open

evaluate-blocked_example : (gate blocked_task).next ≡ []
evaluate-blocked_example = (evaluate-blocked host "/s" blocked_task none true gate_blocked).0

rounds_total_example :
    (memo : Memo) × (rounds
        (assessed cyclic)
        (assessed cyclic).t.findings
        (empty_memo (assessed cyclic))
      ≡ some memo)
rounds_total_example = rounds_total (assessed cyclic)

not_open : lookup "F-01" (open_findings (assessed done)) ≡ none
unfolding program
not_open = refl

lookup-open_findings_example : Resolves (assessed done) "F-01"
lookup-open_findings_example =
    (lookup-open_findings (assessed done) (duplicate "F-01" "F-02") (Memᴰ.head refl)).0 not_open

none_open : open_findings (assessed done) ≡ []
unfolding program
none_open = refl

open_findings-eq-nil_example : All (λ f. Resolves (assessed done) f.ident) done.findings
open_findings-eq-nil_example = (open_findings-eq-nil (assessed done)).0 none_open

there : Names (assessed cyclic) "F-01" "F-02"
unfolding program
there = record { row = duplicate "F-01" "F-02"; found = refl; duplicate = refl; target = refl }

back : Names (assessed cyclic) "F-02" "F-01"
unfolding program
back = record { row = duplicate "F-02" "F-01"; found = refl; duplicate = refl; target = refl }

open_findings-cycle_example :
    (r : FindingReason) × (lookup "F-01" (open_findings (assessed cyclic)) ≡ some r)
open_findings-cycle_example =
    open_findings-cycle (assessed cyclic) (duplicate "F-01" "F-02") "F-01" (Memᴰ.head refl)
      (onward (direct there) back) (onward (direct there) back)

work_waiting_total_example : (final : List String) × (work_waiting (assessed chained) ≡ some final)
work_waiting_total_example = work_waiting_total (assessed chained)

waiting_two : work_waiting (assessed chained) ≡ some ("W-02" ∷ "W-01" ∷ [])
unfolding program
waiting_two = refl

two_waits : contains {A = String} ("W-02" ∷ "W-01" ∷ []) "W-02" ≡ true
unfolding program
two_waits = refl

contains-work_waiting_example : Waits (assessed chained) "W-02"
contains-work_waiting_example =
    (contains-work_waiting (assessed chained) "W-02" waiting_two).0 two_waits
