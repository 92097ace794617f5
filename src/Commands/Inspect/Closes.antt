-- ===== src/Commands/Inspect/Closes.antt =====
-- What the exit code of `dmd gate` says.
use done_means_done.Base.{◌≡◌, ◌↔◌, refl, ◌∙◌, true, false, String, arith, string_eq}
use done_means_done.Storage.Save.{save}
use done_means_done.Assessment.Actions.{suspended}
use done_means_done.Gate.{evaluate}
use done_means_done.Gate.Verdicts.{IsComplete, evaluate-IsComplete}
use done_means_done.Commands.{Context}
use done_means_done.Commands.Inspect.{trees_before, with_verdict, gate_command}
use done_means_done.Task.{Task}

module _ (ctx : Context) (seen t : Task) where
  abbrev status : String
  status = (evaluate ctx.host ctx.task_dir t (trees_before ctx.host seen) true).status

  -- The assignment is complete against the trees that were read before the lock.
  abbrev pub IsFinished : Type 0
  IsFinished = IsComplete ctx.host ctx.task_dir t (trees_before ctx.host seen) true

  exit-zero : ((gate_command ctx seen t).1 ≡ 0) ↔ (status ≡ "COMPLETE")
  unfolding gate_command
  exit-zero = ground arith

  state-with_verdict :
      status ≡ "COMPLETE" → suspended t.state ≡ false → (with_verdict status t).state ≡ "COMPLETE"
  unfolding string_eq
  state-with_verdict e free = rw (e, free) refl

  state-gate_command : (gate_command ctx seen t).0.state ≡ (with_verdict status t).state
  unfolding gate_command save
  state-gate_command = refl

  -- `dmd gate` exits with 0 exactly when the assignment is complete; the record then says so, unless it is
  -- paused or cancelled.
  pub gate_command_lem :
      (((gate_command ctx seen t).1 ≡ 0) ↔ IsFinished)
      × (IsFinished → suspended t.state ≡ false → (gate_command ctx seen t).0.state ≡ "COMPLETE")
  gate_command_lem =
      let complete =
        evaluate-IsComplete ctx.host ctx.task_dir t (trees_before ctx.host seen) true in
      (
        (λ z. complete.0 (exit-zero.0 z), λ f. exit-zero.1 (complete.1 f)),
        λ f free. state-gate_command ∙ state-with_verdict (complete.1 f) free,
      )
