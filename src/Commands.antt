-- ===== src/Commands.antt =====
-- The commands that change a record: `transaction` of dmdlib/store.py, under which each runs, and the
-- state changes of dmdlib/cli.py. `none` is a DmdError: the record on disk stays as it was.
pub mod Work
pub mod Coverage
pub mod Review
pub mod Decisions
pub mod Tasks
pub mod Findings
pub mod Approvals
pub mod Checks
pub mod Blockers
pub mod Standing
pub mod Quotes
pub mod Requirements
pub mod Transactions
pub mod Bounds
pub mod Inspect
pub mod Relocate
pub mod Capture
pub mod Create
pub mod Undo
use done_means_done.Base.{
  ℕ, Bool, true, false, not, ◌&&◌, ◌||◌, Option, none, some, String, List, [], ◌∷◌, map, is_empty,
  last_n, ◌==◌, ◌/=◌, string_eq, if◌then◌else◌,
}
use done_means_done.Base.Text.{nonblank, strip}
use done_means_done.Host.{Host}
use done_means_done.Storage.Save.{save}
use done_means_done.Contract.{contract_digest}
use done_means_done.Validation.{validation_errors}
use done_means_done.Authority.{and_then}
use done_means_done.Task.{Task, Attempt}

-- A prompt of the operator, as the UserPromptSubmit hook keeps it, and the file of them.
pub record Prompt : Type 0 where
  pub text : String
  pub digest : Option String
  pub at : Option String

pub record History : Type 0 where
  pub root : Option String
  pub prompts : List Prompt

-- What a command reads besides the record; `now i` is the clock at its i-th reading.
pub record Context : Type 0 where
  pub host : Host
  pub task_dir : String
  pub history : Option History
  pub now : ℕ → String

-- `require_text`
unfoldable pub require_text : Option String → Option String
require_text none = none
require_text (some text) = if nonblank text then some (strip text) else none

abbrev pub max_history : ℕ
max_history = 50

-- `cap_histories`, of the histories that the record has here
unfoldable pub cap_histories : Task → Task
cap_histories t = record t {
  review_log = last_n max_history t.review_log;
  attempts = map (λ (key, history). (key, last_n max_history history)) t.attempts;
}

-- A finished task with another contract is open again.
unfoldable pub reopened : Host → Task → Task → Task
reopened h before t =
    if t.state == "COMPLETE" && contract_digest h t /= contract_digest h before
    then record t { state = "ACTIVE" }
    else t

unfoldable pub commit : Task → String → String → Option Task
commit t kind at =
    if is_empty (validation_errors t) then some (save (cap_histories t) kind at) else none

-- `transaction`: one change of the record, saved when the result is valid.
unfoldable pub transaction :
    Host → Task → (Task → Option Task) → String → String → Bool → Option Task
transaction h t change kind at allow_cancelled =
    if t.state == "CANCELLED" && not allow_cancelled
    then none
    else and_then (change t) λ u. commit (reopened h t u) kind at
