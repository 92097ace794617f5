-- ===== src/Tests/Records.antt =====
-- The sample record at `dmd gate`, and where a new assignment supersedes it.
use done_means_done.Base.{
  String, ◌≡◌, ◌↔◌, refl, true, false, Option, none, some, [], ◌∷◌, map, string_eq,
}
use done_means_done.Tests.{program}
use done_means_done.Commands.Relocate.{moved, relocate}
use done_means_done.Tests.Changes.{commands, ctx, left_by}
use done_means_done.Tests.Proofs.{reviewed_task}
use done_means_done.Tests.Samples.{host, done}
use done_means_done.Check.Verdict.{is_some}
use done_means_done.Assessment.Actions.{suspended}
use done_means_done.Commands.{Context, History}
use done_means_done.Commands.Capture.{capture_prompt, submitted}
use done_means_done.Commands.Capture.Quotable.{Promise, capture_prompt-IsQuotable}
use done_means_done.Commands.Inspect.{gate_command}
use done_means_done.Commands.Inspect.Closes.{IsFinished, gate_command_lem}
use done_means_done.Commands.Create.{Captured, NewTask, create_task}
use done_means_done.Commands.Create.Superseded.{IsPaused, create_task-IsPaused}
use done_means_done.Task.{Task}

gate_command_lem_example :
    (((gate_command ctx done reviewed_task).1 ≡ 0) ↔ IsFinished ctx done reviewed_task)
    × (IsFinished ctx done reviewed_task
        → suspended reviewed_task.state ≡ false
        → (gate_command ctx done reviewed_task).0.state ≡ "COMPLETE")
gate_command_lem_example = gate_command_lem ctx done reviewed_task

-- The sample record is complete once it is reviewed, so that `dmd gate` exits with 0.
gate_reviewed : (gate_command ctx done reviewed_task).1 ≡ 0
unfolding program commands
gate_reviewed = refl

gate_unreviewed : (gate_command ctx done done).1 ≡ 1
unfolding program commands
gate_unreviewed = refl

abbrev asked : NewTask
asked = record {
  root = "/p";
  task_id = "t-2";
  request = "use spaces";
  authorization = some "drop tabs, we pause";
  session = none;
  is_new = true;
  require_review = true;
  captured = none;
  from_host = false;
  free = true;
}

abbrev pair_of : Option (Task × Option Task) → Task × Task
pair_of (some (t, some p)) = (t, p)
pair_of made = (done, done)

abbrev made : Task × Task
made = pair_of (create_task ctx asked (some done))

create_run : create_task ctx asked (some done) ≡ some (made.0, some made.1)
unfolding program commands
create_run = refl

create_task-IsPaused_example :
    (asked.is_new ≡ true) × (is_some done.running ≡ false) × IsPaused ctx done made.0 made.1
unfolding program
create_task-IsPaused_example = create_task-IsPaused ctx done asked made.0 made.1 refl create_run

abbrev captured_by : Option (Captured × History) → Captured × History
captured_by (some made) = made
captured_by none =
    (record { session = ""; text = ""; digest = ""; at = "" }, record { root = none; prompts = [] })

abbrev typed : Option String
typed = some "pause this one"

abbrev captured : Captured × History
captured = captured_by (capture_prompt host "s-1" "/p" typed ctx.history ctx.now)

capture_run :
    capture_prompt host "s-1" "/p" typed ctx.history ctx.now ≡ some (captured.0, captured.1)
unfolding program commands
capture_run = refl

-- A turn of the host's own leaves the history as it is.
machine_run :
    submitted host "s-1" "/p" none (some " <system-reminder> pause") ctx.history ctx.now
    ≡ some (none, ctx.history)
unfolding program commands
machine_run = refl

capture_prompt-IsQuotable_example : Promise host "/p" typed "2026-01-01" captured.0 captured.1
capture_prompt-IsQuotable_example =
    capture_prompt-IsQuotable host "/p" "s-1" typed ctx.history ctx.now captured.0 captured.1
      capture_run "2026-01-01" refl

-- The same, where Git answers.
abbrev in_checkout : Context
in_checkout = record ctx { host = record host { toplevel = λ path. some path } }

abbrev away : Task
away = left_by (relocate in_checkout "/q" (some "we moved it") (some "t") (done ∷ []) true done)

-- The directory of the check moves along.
away_directories : map (λ c. c.cwd) away.checks ≡ "/q" ∷ []
unfolding program commands
away_directories = refl

moved_below : moved "/p" "/q" "/p/src/a" ≡ "/q/src/a"
unfolding program commands
moved_below = refl

moved_beside : moved "/p" "/q" "/p2/a" ≡ "/p2/a"
unfolding program commands
moved_beside = refl
