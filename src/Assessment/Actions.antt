-- ===== src/Assessment/Actions.antt =====
-- `next_actions`, `check_action`, `finding_action` and `status` (lines 627 to 742), and
-- `repeated_attempts`: what the agent is told to do, one action for each actionable item.
use done_means_done.Base.{
  Bool, true, false, not, ◌&&◌, ◌||◌, Option, none, some, String, List, [], ◌∷◌, map, ◌==◌,
  string_eq, option_eq, leb, contains, filter, any, all, for_each, is_empty, unique, count, last_n,
  if◌then◌else◌,
}
use done_means_done.Base.Text.{starts_with}
use done_means_done.Authority.{truthy}
use done_means_done.Contract.{unmapped_clauses}
use done_means_done.Check.Definition.{lookup}
use done_means_done.Check.Verdict.{
  Verdict, superseded, edited, inputs_missing, not_run, stale, failed, other, Reason,
}
use done_means_done.Task.{
  Check, Work, Finding, Blocker, Attempt, get, ids, work_row, check_row, finding_row, clause_row,
}
use done_means_done.Assessment.Evidence.{
  Assessment, verdict_of, red_accepted, work_owed, work_ok, inflight, runner_alive, sorted,
}
use done_means_done.Assessment.Findings.{FindingReason, open_findings}
use done_means_done.Assessment.Blocked.{waits}
use done_means_done.Assessment.Reasons.{Obligation, missing_check, reasons, actionable}

-- What `check_action` says of the verdict, before what it says of the red baseline.
pub data Step : Type 0 where
  run_it : Step
  fix_and_run : Reason → Step
  inspect_and_approve : Step
  follow : Reason → Step
  nothing : Step

-- The texts of the actions, with what they name.
pub data Action : Type 0 where
  record_evidence : Action
  account_for : List String → Action
  assert_coverage record_outcomes : Action
  recover_stranded wait_for wait_or_recover : List String → Action
  confirm_or_withdraw verify_outcome add_check add_executed_check : String → Action
  investigate fix_with_regression : String → Action
  resolve_finding : String → Option FindingReason → Action
  rerun_stale implement_and_run : List String → Action
  map_check_or_remove : Action
  check_step : Step → (record_red : Bool) → Action

pub record Item : Type 0 where
  pub owner : String
  pub action : Action
  pub repeated : Bool

-- Two equal failures among the last six.
unfoldable pub repeated_attempts : List Attempt → Bool
repeated_attempts history =
    let recent = last_n 6 (map (λ (x : Attempt). x.signature) history) in
    any (λ s. leb 2 (count s recent) && truthy s) recent

abbrev pub suspended : String → Bool
suspended = contains ("PAUSED" ∷ "CANCELLED" ∷ [])

module _ (a : Assessment) where
  step_of : Option Verdict → Step
  step_of none = nothing
  step_of (some none) = nothing
  step_of (some (some (not_run, r))) = run_it
  step_of (some (some (stale, r))) = run_it
  step_of (some (some (failed, r))) = fix_and_run r
  step_of (some (some (edited, r))) = inspect_and_approve
  step_of (some (some (superseded, r))) = follow r
  step_of (some (some (inputs_missing, r))) = follow r
  step_of (some (some (other, r))) = follow r

  check_action : Check → Action
  unfolding step_of
  check_action c =
      check_step (step_of (verdict_of a c.ident)) (c.regression && not (red_accepted a c.ident))

  finding_action : Finding → Action
  finding_action f =
      if f.status == "suspected"
      then investigate f.ident
      else if f.status == "confirmed" || f.status == "fixed-unverified"
      then fix_with_regression f.ident
      else resolve_finding f.ident (lookup f.ident (open_findings a))

  -- The owners of actionable reasons, each once.
  unfoldable pub owners : List String
  owners = unique (map (λ (owner, _). owner) (actionable a))

  abbrev is_missing_check : Obligation → Bool
  is_missing_check missing_check = true
  is_missing_check _ = false

  abbrev lacks_check : String → Bool
  lacks_check rid = any (λ (owner, text). owner == rid && is_missing_check text) (reasons a)

  coverage_action : Action
  coverage_action =
      if is_empty (unmapped_clauses a.t)
      then assert_coverage
      else account_for (ids (unmapped_clauses a.t))

  running_action : Option Bool → Action
  running_action (some false) = recover_stranded (sorted (inflight a))
  running_action (some true) = wait_for (sorted (inflight a))
  running_action none = wait_or_recover (sorted (inflight a))

  -- The checks that a work item owes and that no recorded run carries.
  abbrev left_over : String → List String
  left_over wid = filter (λ c. not (contains (inflight a) c)) (work_owed a wid)

  work_action : Work → Option Action
  work_action w =
      let owed = work_owed a w.ident in
      if any (λ d. not (work_ok a d)) w.deps
      then none
      else if not (is_empty owed) && all (contains (inflight a)) owed
      then none
      else if is_empty (left_over w.ident)
      then some map_check_or_remove
      else if w.status == "verified"
      then some (rerun_stale (left_over w.ident))
      else some (implement_and_run (left_over w.ident))

  abbrev is_open : Option Verdict → Bool
  is_open (some (some v)) = true
  is_open _ = false

  open_check_action : Check → Option Action
  unfolding check_action
  open_check_action c =
      if contains (inflight a) c.ident
      then none
      else if is_open (verdict_of a c.ident) && any (contains owners) c.work
      then none
      else some (check_action c)

  -- The `if owner == …` chain; `none` is a `continue`.
  action_for : String → Option Action
  unfolding coverage_action running_action finding_action work_action open_check_action
  action_for owner =
      if owner == "blocker-evidence"
      then some record_evidence
      else if owner == "coverage"
      then some coverage_action
      else if owner == "task"
      then some record_outcomes
      else if owner == "running"
      then some (running_action (runner_alive a))
      else if starts_with owner "AU-"
      then some (confirm_or_withdraw owner)
      else if starts_with owner "U-"
      then some (verify_outcome owner)
      else if starts_with owner "R-"
      then some (if lacks_check owner then add_check owner else add_executed_check owner)
      else if starts_with owner "F-"
      then elim (get a.t.findings owner) [ none ↦ none | some f ↦ some (finding_action f) ]
      else if starts_with owner "W-"
      then elim (get a.t.work owner) [ none ↦ none | some w ↦ work_action w ]
      else if starts_with owner "A-"
      then elim (get a.t.checks owner) [ none ↦ none | some c ↦ open_check_action c ]
      else none

  abbrev attempts_of : String → List Attempt
  attempts_of owner = elim (lookup owner a.t.attempts) [ none ↦ [] | some history ↦ history ]

  abbrev item : String → Option Action → List Item
  item owner none = []
  item owner (some action) =
      record { owner = owner; action = action; repeated = repeated_attempts (attempts_of owner) }
      ∷ []

  unfoldable pub next_actions : List Item
  unfolding action_for
  next_actions =
      if suspended a.t.state || waits a "task"
      then []
      else for_each owners (λ owner. item owner (action_for owner))

  -- `status(reasons)`, with whether any reason is left
  unfoldable pub status : Bool → String
  status complete =
      if complete
      then "COMPLETE"
      else if any (λ (b : Blocker). not b.resolved) a.t.blockers && is_empty (actionable a)
      then "BLOCKED"
      else "ACTIVE"
