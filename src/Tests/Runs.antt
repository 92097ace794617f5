-- ===== src/Tests/Runs.antt =====
-- One run of the sample check, and the theorems on decisions, verdicts and runs at concrete inputs.
use done_means_done.Base.{
  List, Option, string_eq, ◌≡◌, ◌≢◌, refl, arith, pos, Bool, true, false, none, some, String, [],
  ◌∷◌, All,
}
use text.Mathlib.TextEquality.{eq_iff}
use done_means_done.Tests.{program}
use done_means_done.Tests.Samples.{host, done, check, artifact, entry}
use done_means_done.Task.{no_prior}
use done_means_done.Task.{Task, Check, get, check_row}
use done_means_done.Storage.Save.{save}
use done_means_done.Storage.{evidence_ok}
use done_means_done.Authority.{record_decision, decision_ok, withdraw, withdrawn_to, mark}
use done_means_done.Authority.Decisions.{decision_ok-record_decision, decision_ok-withdraw}
use done_means_done.Check.Definition.{SourceMap, by_tree, missing_inputs}
use done_means_done.Check.Verdict.{check_verdict}
use done_means_done.Check.Verdict.Accepting.{IsCurrent, check_verdict-eq-none}
use done_means_done.Runs.Plan.{Planned, plan_check, ok}
use done_means_done.Runs.Finish.{
  Executed, Observed, Judged, success, judge_run, record_run, add_attempt, finish_check, finish,
  exit_code, zip,
}
use done_means_done.Runs.Finish.Accepted.{finish_check-accepted}
use done_means_done.Runs.Finish.Codes.{IsFailed, IsPassed, finish_halted, exit_code-eq-zero}
use done_means_done.Runs.Finish.Recorded.{Holds}

abbrev tree_map : SourceMap
tree_map = by_tree (("/p", "tree") ∷ [])

accepted_check : check_verdict host "/s" tree_map done check ≡ none
unfolding program
accepted_check = refl

check_verdict-eq-none_example : IsCurrent host "/s" tree_map done check
check_verdict-eq-none_example =
    (check_verdict-eq-none host "/s" tree_map done check refl).0 accepted_check

abbrev planned : Planned
planned = record { check = check; signature = "digest"; definition = "digest" }

abbrev executed : Executed
executed = record {
  exit = some (pos 0);
  output = "tests: ok";
  failure = none;
  artifact = artifact;
  at = "2026-01-02";
}

abbrev seen : Observed
seen = record {
  fps = ("/p", "tree") ∷ [];
  heads = [];
  final_fps = ("/p", "tree") ∷ [];
  outputs = [];
  deltas = [];
}

abbrev judged : Bool → Judged
judged halted = judge_run host seen false done halted check planned executed

abbrev finished : Bool → Task
finished halted = record done {
  checks = record_run host seen false done check planned executed (judged halted) ∷ [];
  attempts = add_attempt host seen false planned executed (judged halted) [];
}

made : plan_check host done false check ≡ ok planned
unfolding program
made = refl

there : get done.checks "A-01" ≡ some check
unfolding program
there = refl

intact : evidence_ok host "/s" (some artifact) ≡ true
unfolding program
intact = refl

no_input_missing : missing_inputs host check ≡ []
unfolding program
no_input_missing = refl

recorded_run :
    finish_check host seen false done false planned executed ≡ some (finished false, judged false)
unfolding program
recorded_run = refl

passed : success (judged false) ≡ true
unfolding program
passed = refl

finish_check-accepted_example :
    (c : Check) × (get (finished false).checks "A-01" ≡ some c)
    × (check_verdict host "/s" tree_map (finished false) c ≡ none)
finish_check-accepted_example =
    finish_check-accepted host seen "/s" done done false planned executed (finished false)
      (judged false) made there no_input_missing intact recorded_run passed

lost_run :
    finish host seen false done "token" (planned ∷ []) (executed ∷ []) "2026-01-02"
    ≡ some (save (finished true) "run.finish" "2026-01-02", judged true ∷ [])
unfolding program
lost_run = refl

finish_halted_example :
    All (λ j. success j ≡ false) (judged true ∷ [])
    × All
        (λ (p, e). Holds (IsFailed false) (finished true).checks p.check.ident)
        (zip (planned ∷ []) (executed ∷ []))
unfolding save
finish_halted_example =
    finish_halted host seen false done "token" (planned ∷ []) (executed ∷ []) "2026-01-02"
      (save (finished true) "run.finish" "2026-01-02") (judged true ∷ []) refl lost_run

code_zero : exit_code (planned ∷ []) (judged false ∷ []) ≡ 0
unfolding program
code_zero = refl

-- The sample record while the run holds it.
abbrev holding : Task
holding = record done {
  running = some (record {
    token = "token";
    checks = "A-01" ∷ [];
    check = some "A-01";
    started = "2026-01-02";
    pid = some 7;
    host = some "here";
    red = false;
    interrupted = false;
  });
}

abbrev final_of : Option (Task × List Judged) → Task
final_of none = done
final_of (some (final, js)) = final

abbrev released_run : Task
released_run =
    final_of (finish host seen false holding "token" (planned ∷ []) (executed ∷ []) "2026-01-02")

held_run :
    finish host seen false holding "token" (planned ∷ []) (executed ∷ []) "2026-01-02"
    ≡ some (released_run, judged false ∷ [])
unfolding program
held_run = refl

exit_code-eq-zero_example :
    All (λ p. Holds (IsPassed false) released_run.checks p.check.ident) (planned ∷ [])
exit_code-eq-zero_example =
    exit_code-eq-zero host seen false holding "token" (planned ∷ []) (executed ∷ []) "2026-01-02"
      released_run (judged false ∷ []) held_run code_zero

decision_ok-record_decision_example :
    let (u, e) =
      record_decision done "review-policy" "review" "no review" "2026-01-02" no_prior none in
    decision_ok u (some e.ident) "review-policy" "review" none ≡ true
decision_ok-record_decision_example =
    decision_ok-record_decision done "review-policy" "review" "no review" "2026-01-02" no_prior none

abbrev withdrawn : Task
withdrawn = record done { coverage = none; authority = mark "AU-01" "2026-01-02" done.authority }

undone :
    withdraw done (entry "AU-01" "coverage.assert" "coverage") "2026-01-02" ≡ withdrawn_to withdrawn
unfolding program
undone = refl

dated : ◌≢◌ {A = String} "2026-01-02" ""
dated = ground (arith, eq_iff "2026-01-02" "")

decision_ok-withdraw_example :
    decision_ok withdrawn (some "AU-01") "coverage.assert" "coverage" (some "digest") ≡ false
unfolding string_eq
decision_ok-withdraw_example =
    decision_ok-withdraw done (entry "AU-01" "coverage.assert" "coverage") "2026-01-02" withdrawn
      "coverage.assert" "coverage" (some "digest") dated (omega arith) undone
