-- ===== src/Commands/Inspect.antt =====
-- `dmd gate`: `inspect_task` of dmdlib/cli.py, as far as it changes the record, and its exit code.
pub mod Closes
use done_means_done.Base.{
  ℕ, Bool, true, not, ◌&&◌, Option, none, some, String, List, [], ◌∷◌, contains, ◌==◌, string_eq,
  if◌then◌else◌,
}
use done_means_done.Host.{Host}
use done_means_done.Storage.Save.{save}
use done_means_done.Check.Definition.{SourceMap}
use done_means_done.Assessment.Actions.{suspended}
use done_means_done.Gate.{effective_state, evaluate, task_fingerprint}
use done_means_done.Commands.{Context}
use done_means_done.Task.{Task}

-- The trees, read from the record before the lock; `none` where it is suspended or a tree is gone.
unfoldable pub trees_before : Host → Task → Option SourceMap
trees_before h seen = if suspended (effective_state seen) then none else task_fingerprint h seen

-- The record with the gate's status, unless it is suspended.
abbrev pub with_verdict : String → Task → Task
with_verdict status t =
    if contains ("ACTIVE" ∷ "BLOCKED" ∷ "COMPLETE" ∷ []) status && not (suspended t.state)
    then record t { state = status }
    else t

abbrev gate_exit : String → ℕ
gate_exit status = if status == "COMPLETE" then 0 else 1

-- `dmd gate`: the record as it is saved, and the exit code. `seen` is the record before the lock, `t` the one
-- under it.
unfoldable pub gate_command : Context → Task → Task → Task × ℕ
gate_command ctx seen t =
    let g = evaluate ctx.host ctx.task_dir t (trees_before ctx.host seen) true in
    (save (with_verdict g.status t) "gate" (ctx.now 0), gate_exit g.status)
