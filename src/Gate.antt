-- ===== src/Gate.antt =====
-- The gate: `evaluate`, `gate`, `effective_state` and the source map of dmdlib/model.py (lines 124 to 154
-- and 811 to 859). The gate's status is computed from the record and the evidence, never declared.
mod Assessed
pub mod Verdicts
use done_means_done.Base.{
  ℕ, ◌<>◌, Bool, true, false, not, ◌&&◌, ◌||◌, Option, none, some, String, List, [], ◌∷◌, ◌++◌, map,
  ◌==◌, ◌/=◌, string_eq, contains, filter, when, is_empty, unique, if◌then◌else◌, for_each, length,
}
use done_means_done.Host.{Host, Snapshot}
use done_means_done.FilePath.{of_text, to_text}
use done_means_done.Authority.{unconfirmed, and_then}
use done_means_done.Check.Definition.{SourceMap, by_tree, check_candidate}
use done_means_done.Check.Verdict.{is_some}
use done_means_done.Validation.{Invalid, validation_errors}
use done_means_done.Task.{Task, Check, Entry, live, removable_check}
use done_means_done.Assessment.Evidence.{
  Assessment, sorted, active, executed_checks, attested_checks,
}
use done_means_done.Assessment.Reasons.{Owed, reasons, ReviewReason, review_reason}
use done_means_done.Assessment.Actions.{Item, Action, next_actions, suspended, status}
use done_means_done.Assessment.Summary.{Summary, summary}

-- `found.setdefault(tree, set()).update(inputs)`
abbrev add_inputs : String → List String → List (String × List String) → List (String × List String)
add_inputs tree inputs [] = (tree, inputs) ∷ []
add_inputs tree inputs ((p, found) ∷ rest) =
    let more = add_inputs tree inputs rest in
    if p == tree then (p, found ++ inputs) ∷ rest else (p, found) ∷ more

abbrev add_candidates :
    String → List Check → List (String × List String) → List (String × List String)
add_candidates root [] found = found
add_candidates root (c ∷ cs) found =
    add_candidates root cs (add_inputs (check_candidate c (some root)) c.inputs found)

-- `task_candidates`: every tree that evidence is bound to, with its declared inputs; the root comes first.
unfoldable pub task_candidates : Task → List (String × List String)
task_candidates t =
    let root = to_text (of_text t.root) in
    map (λ (path, inputs). (path, sorted (unique inputs)))
      (add_candidates root (live t.checks) ((root, []) ∷ []))

-- The snapshot of a tree that is gone, where the caller asks for one.
abbrev lost_snapshot : String → Snapshot
lost_snapshot path = record { fingerprint = "missing:" <> path; head = none; files = [] }

snapshot_at : Host → Bool → String → List String → Option Snapshot
snapshot_at h missing_ok path inputs = elim (h.snapshot path inputs) [
  | some s ↦ some s
  | none ↦ if missing_ok then some (lost_snapshot path) else none
]

abbrev snapshots : Host → Bool → List (String × List String) → Option (List (String × Snapshot))
unfolding snapshot_at
snapshots h missing_ok [] = some []
snapshots h missing_ok ((path, inputs) ∷ rest) =
    let more = snapshots h missing_ok rest in
    and_then (snapshot_at h missing_ok path inputs)
      λ s. and_then more λ found. some ((path, s) ∷ found)

-- `task_snapshot`; `none` is MissingCandidate.
unfoldable pub task_snapshot : Host → Task → Bool → Option (List (String × Snapshot))
unfolding snapshot_at
task_snapshot h t missing_ok = snapshots h missing_ok (task_candidates t)

abbrev pub fingerprints : List (String × Snapshot) → List (String × String)
fingerprints found = map (λ (path, s). (path, s.fingerprint)) found

-- `task_fingerprint`; `none` is MissingCandidate.
unfoldable pub task_fingerprint : Host → Task → Option SourceMap
task_fingerprint h t =
    and_then (task_snapshot h t false) λ found. some (by_tree (fingerprints found))

abbrev state_decisions : Task → List Entry
state_decisions t = filter (λ (e : Entry). e.op == "state") (unconfirmed t)

abbrev replaced_state : String → List Entry → String
replaced_state state [] = state
replaced_state state (e ∷ es) = elim (e.prior.state) [ none ↦ state | some s ↦ s ]

-- `effective_state`: the state that an unconfirmed pause or cancellation would replace stays in force.
unfoldable pub effective_state : Task → String
effective_state t = replaced_state t.state (state_decisions t)

pub data GateReason : Type 0 where
  invalid : Invalid → GateReason
  execution_suspended missing_candidate : GateReason
  owed : Owed → GateReason
  review_owed : ReviewReason → GateReason

pub data Next : Type 0 where
  act : Item → Next
  review : (independent : Bool) → Next
  replan : Next

-- What `evaluate` answers. `assessed` is the Assessment behind it, where there is one.
pub record Gate : Type 0 where
  pub status : String
  pub reasons : List GateReason
  pub next : List Next
  pub assessed : Option Assessment
  pub summary : Option Summary
  pub executed : ℕ
  pub self_attested : ℕ

abbrev unassessed : String → List GateReason → Gate
unassessed status reasons = record {
  status = status;
  reasons = reasons;
  next = [];
  assessed = none;
  summary = none;
  executed = 0;
  self_attested = 0;
}

abbrev pub review_list : Option ReviewReason → List GateReason
review_list none = []
review_list (some r) = review_owed r ∷ []

-- `reasons`: what the assessment owes, then the final review.
abbrev pub all_reasons : Assessment → Bool → List GateReason
all_reasons a require_review = map owed (reasons a) ++ review_list (review_reason a require_review)

-- `nxt`, before the plan is called stuck: the review comes only when nothing else is open.
unfoldable pub next_steps : Assessment → Bool → List Next
next_steps a require_review =
    map act (next_actions a)
    ++ when (is_some (review_reason a require_review) && is_empty (reasons a))
        (review a.t.require_independent_review)

unfoldable pub gate_status : Assessment → Bool → String
gate_status a require_review =
    if is_empty (all_reasons a require_review)
    then "COMPLETE"
    else if not (is_empty (next_steps a require_review))
    then "ACTIVE"
    else status a (is_empty (all_reasons a require_review))

abbrev with_plan : String → List Next → List Next
with_plan state next = if state == "ACTIVE" && is_empty next then replan ∷ [] else next

-- The verdict on an assessed task.
unfoldable pub assessed_gate : Assessment → Bool → Gate
assessed_gate a require_review = record {
  status = gate_status a require_review;
  reasons = all_reasons a require_review;
  next = with_plan (gate_status a require_review) (next_steps a require_review);
  assessed = some a;
  summary = some (summary a (is_some (review_reason a require_review)));
  executed = length (for_each (active a) (executed_checks a));
  self_attested = length (for_each (active a) (attested_checks a));
}

abbrev or_fingerprint : Option SourceMap → Option SourceMap → Option SourceMap
or_fingerprint (some fp) own = some fp
or_fingerprint none own = own

module _ (h : Host) (task_dir : String) where
  evaluate_in_force : Task → Option SourceMap → Bool → Gate
  evaluate_in_force t fp require_review =
      if suspended t.state
      then unassessed t.state (execution_suspended ∷ [])
      else elim (or_fingerprint fp (task_fingerprint h t)) [
        | none ↦ unassessed "BLOCKED" (missing_candidate ∷ [])
        | some found ↦
            assessed_gate (record { host = h; task_dir = task_dir; t = t; fp = found })
              require_review
      ]

  unfoldable pub evaluate : Task → Option SourceMap → Bool → Gate
  unfolding evaluate_in_force
  evaluate t fp require_review =
      if not (is_empty (validation_errors t))
      then unassessed "INVALID" (map invalid (validation_errors t))
      else evaluate_in_force (record t { state = effective_state t }) fp require_review
