-- ===== src/Tests/Changes.antt =====
-- One change of the sample record.
use done_means_done.Base.{
  ℕ, zero, suc, ◌≤◌, length, arith, String, Option, ◌≡◌, refl, true, false, none, some, [], ◌∷◌,
}
use done_means_done.Tests.{program}
use done_means_done.Tests.Samples.{host, done}
use done_means_done.Task.{Task}
use done_means_done.Storage.Save.{save}
use done_means_done.Contract.{contract_digest}
use done_means_done.Validation.{validation_errors}
use done_means_done.Commands.{Context, cap_histories, transaction}
use done_means_done.Commands.Bounds.{transaction-IsBounded, IsBounded, remember_session_lem, Knows}
use done_means_done.Commands.Blockers.{add_uncertain}
use done_means_done.Authority.{find_entry, loosens_when_withdrawn}
use done_means_done.FilePath.{split_slash, path_name}
use done_means_done.Base.Text.{before_slash, before_dot}
use done_means_done.Source.{candidate_root, is_line_suffix, without_line, location_file}
use done_means_done.Clauses.{
  split_lines, list_item, line_item, fence_after, clauses_from, extract_clauses,
}
use done_means_done.Commands.Quotes.{operator_words, bounded, operator_quote, spends, quoted}
use done_means_done.Commands.Requirements.{
  sources, decide_requirement, accept_attestation, cancel_requirement,
}
use done_means_done.Commands.Work.{with_status}
use done_means_done.Commands.Approvals.{approve_parts, inspected_approval, approve}
use done_means_done.Commands.Checks.Authoring.{
  new_check, edited_check, declared_input, trivial_command, glob_ok, output_globs, candidate_for,
  method_ok, authored,
}
use done_means_done.Commands.Checks.{
  remove_check, approved, add_check, unprotect, edit_check, set_check, limit_baseline,
}
use done_means_done.Commands.Findings.{
  add_finding, defer_finding, edited_finding, holds, disprove, chain_ends, duplicate_of, by_status,
  set_finding,
}
use done_means_done.Commands.Coverage.{map_clauses, mark_context, assert_coverage}
use done_means_done.Commands.Review.{accept_review, record_review}
use done_means_done.Commands.Decisions.{
  authorized, withdraw_decision, resume_previous, confirm_decision,
}
use done_means_done.Commands.Tasks.{
  amend, set_review_policy, set_state, add_attempt_at, remember_session, map_host_task, recover_run,
}
use done_means_done.Commands.Transactions.{transaction_lem}
use done_means_done.Commands.Inspect.{trees_before, gate_command}
use done_means_done.Commands.Capture.{machine_turn, capture_prompt, submitted}
use done_means_done.Commands.Relocate.{moved, moved_check, relocated, meant, relocate}
use done_means_done.Commands.Create.{request_of, blank_task, supersede, create_task}

unfoldable pub commands : Unit {0}
unfolding find_entry loosens_when_withdrawn sources split_slash path_name before_slash before_dot
    candidate_root is_line_suffix without_line location_file split_lines list_item line_item
    fence_after clauses_from extract_clauses operator_words bounded operator_quote spends quoted
    decide_requirement accept_attestation cancel_requirement with_status approve_parts
    inspected_approval approve new_check edited_check declared_input trivial_command glob_ok
    output_globs candidate_for method_ok authored remove_check approved add_check unprotect
    edit_check set_check limit_baseline add_finding defer_finding edited_finding holds disprove
    chain_ends duplicate_of by_status set_finding map_clauses mark_context assert_coverage
    accept_review record_review authorized withdraw_decision resume_previous confirm_decision amend
    set_review_policy set_state add_attempt_at remember_session map_host_task recover_run
    trees_before gate_command request_of blank_task supersede create_task moved moved_check
    relocated meant relocate machine_turn capture_prompt submitted
commands = tt

-- A command, on a host where the operator typed one prompt.
abbrev clock : ℕ → String
clock zero = "2026-02-01"
clock (suc n) = "2026-02-02"

abbrev pub ctx : Context
ctx = record {
  host = host;
  task_dir = "/s";
  history = some (record {
    root = some "/p";
    prompts =
        record {
          text = "please drop tabs, we pause";
          digest = some "digest";
          at = some "2026-01-02";
        }
        ∷ [];
  });
  now = clock;
}

-- The record that a command leaves.
abbrev pub left_by : Option Task → Task
left_by none = done
left_by (some t) = t

abbrev noted : Task
noted =
    save
      (cap_histories (record done {
        uncertain =
            record { ident = "U-01"; text = some "mail sent"; proof = none; resolved = false } ∷ [];
      }))
      "uncertain.add" "2026-01-02"

noted_run :
    transaction host done (add_uncertain (some " mail sent ")) "uncertain.add" "2026-01-02" false
    ≡ some noted
unfolding program
noted_run = refl

transaction_lem_example :
    (validation_errors noted ≡ [])
    × (noted.state ≡ "COMPLETE" → contract_digest host noted ≡ contract_digest host done)
    × (done.state ≡ "CANCELLED" → false ≡ true)
transaction_lem_example =
    transaction_lem host done (add_uncertain (some " mail sent ")) "uncertain.add" "2026-01-02"
      false noted noted_run

transaction-IsBounded_example : IsBounded noted
transaction-IsBounded_example =
    transaction-IsBounded host done (add_uncertain (some " mail sent ")) "uncertain.add"
      "2026-01-02" false noted noted_run

remember_session_lem_example :
    let u = remember_session host "s-1" done in
    Knows host "s-1" u × (length u.sessions ≤ 50) × (remember_session host "s-1" u ≡ u)
remember_session_lem_example = remember_session_lem host "s-1" done (omega arith)
