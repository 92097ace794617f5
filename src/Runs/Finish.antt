-- ===== src/Runs/Finish.antt =====
-- The end of a run: each result becomes a receipt, under a third lock (dmdlib/runs.py, lines 251 to 334).
pub mod Accepted
pub mod Recorded
pub mod Codes
use done_means_done.Base.{
  ℕ, ℤ, pos, Bool, true, false, not, ◌&&◌, ◌||◌, Option, none, some, String, ◌<>◌, List, [], ◌∷◌,
  ◌++◌, map, filter, drop, length, is_empty, last_n, ◌==◌, ◌/=◌, string_eq, option_eq, int_eq,
  if◌then◌else◌,
}
use done_means_done.Base.Text.{has_part}
use done_means_done.Json.{Json, bool, str, dict, maybe, maybe_str, num, null, texts}
use done_means_done.Host.{Host, Snapshot}
use done_means_done.Storage.{digest}
use done_means_done.Storage.Save.{save}
use done_means_done.Source.{Delta, output_match}
use done_means_done.Authority.{truthy, replace, and_then}
use done_means_done.Check.Definition.{
  check_definition, check_candidate, source_for, lookup, by_tree, value_of,
}
use done_means_done.Check.Verdict.{is_some}
use done_means_done.Assessment.Actions.{suspended}
use done_means_done.Runs.Plan.{Planned, same_approval}
use done_means_done.Runs.Outputs.{Outputs, outputs_of, candidate_drift, put}
use done_means_done.Task.{
  Task, Check, Receipt, no_receipt, Artifact, RunRow, Attempt, Running, get, check_row,
}

-- What `execute` answers for one check, with the evidence file that holds it and the clock's reading.
pub record Executed : Type 0 where
  pub exit : Option ℤ
  pub output : String
  pub failure : Option String
  pub artifact : Artifact
  pub at : String

-- What the run observed of the trees: their fingerprints and commits before, their fingerprints after,
-- the files that the checks were allowed to create, and the trees that moved.
pub record Observed : Type 0 where
  pub fps : List (String × String)
  pub heads : List (String × Option String)
  pub final_fps : List (String × String)
  pub outputs : Outputs
  pub deltas : List (String × Delta)

-- The judgement of one result: the local variables of the loop.
pub record Judged : Type 0 where
  pub changed : Bool
  pub matched : Bool
  pub ran_ok : Bool
  pub failure : Option String
  pub stale : Option Json

abbrev pub success : Judged → Bool
success j = j.ran_ok && not (is_some j.failure)

abbrev pub max_runs : ℕ
max_runs = 50

delta_json : Delta → Json
delta_json d = dict (
    ("head_before", maybe_str d.head_before)
    ∷ ("head_after", maybe_str d.head_after)
    ∷ ("changed", texts d.changed)
    ∷ ("changed_total", num (pos d.changed_total))
    ∷ [])

-- `bool(match and match in output)`
abbrev pub matches : Option String → String → Bool
matches none output = false
matches (some part) output = part /= "" && has_part part output

abbrev pub failure_of : Executed → Bool → Option String
failure_of e changed =
    if truthy e.failure
    then e.failure
    else if changed
    then some "CANDIDATE_OR_DEFINITION_CHANGED"
    else none

-- The labels of a run.
abbrev pub label : Bool → Judged → String
label red j =
    if red
    then (if success j then "RED-OK" else if is_some j.stale then "RED-STALE" else "RED-INVALID")
    else if success j
    then "PASS"
    else if is_some j.stale
    then "STALE"
    else "FAIL"

module _ (h : Host) (seen : Observed) (red : Bool) where
  definition_changed : Task → Check → Planned → Bool
  definition_changed t current p =
      digest h (check_definition current) /= p.definition
      || not (same_approval h t current p.signature)

  abbrev stale_reason : Bool → Bool → String → Option Delta → Json
  unfolding delta_json
  stale_reason halted edited tree drift = dict (
      ("suspended", bool halted)
      ∷ ("definition_changed", bool edited)
      ∷ ("candidate", str tree)
      ∷ ("drift", maybe delta_json drift)
      ∷ [])

  unfoldable pub judge_run : Task → Bool → Check → Planned → Executed → Judged
  unfolding definition_changed delta_json
  judge_run t halted current p e =
      let tree = check_candidate p.check (some t.root) in
      let edited = definition_changed t current p in
      let drift = candidate_drift seen.deltas tree in
      let changed = halted || edited || is_some drift in
      let matched = matches (if red then p.check.red_match else p.check.match) e.output in
      let ran_ok =
        e.exit == (if red then p.check.red_exit else some (pos 0))
        && matched
        && not (is_some e.failure) in
      record {
        changed = changed;
        matched = matched;
        ran_ok = ran_ok;
        failure = failure_of e changed;
        stale = if ran_ok && changed then some (stale_reason halted edited tree drift) else none;
      }

  abbrev head_of : String → Option String
  head_of tree = elim (lookup tree seen.heads) [ none ↦ none | some head ↦ head ]

  unfoldable pub receipt_of : Task → Planned → Executed → Judged → Receipt
  receipt_of t p e j =
      let tree = check_candidate p.check (some t.root) in
      record no_receipt {
        kind = some "command";
        source = source_for (by_tree (if j.changed then seen.fps else seen.final_fps)) p.check;
        candidate = some tree;
        assurance_version = some 2;
        approval = some p.signature;
        outputs =
            filter (λ (path, _). output_match h path p.check.writes) (outputs_of tree seen.outputs);
        head = head_of tree;
        definition = some p.definition;
        artifact = some e.artifact;
        exit = e.exit;
        matched = some j.matched;
        failure = j.failure;
        stale = j.stale;
      }

  abbrev add_run : Judged → Executed → List RunRow → List RunRow
  add_run j e runs =
      last_n max_runs
        (runs ++ (record { red = red; artifact = e.artifact; result = label red j } ∷ []))

  -- The check with its new status, receipt and run.
  unfoldable pub record_run : Task → Check → Planned → Executed → Judged → Check
  record_run t current p e j =
      let r = receipt_of t p e j in
      let runs = add_run j e current.runs in
      if red
      then record current { red = if success j then some r else none; runs = runs }
      else record current {
        status = if success j then "PASS" else "FAIL";
        receipt = some r;
        runs = runs;
      }

  attempt : Planned → Executed → Judged → Attempt
  attempt p e j = record {
    at = e.at;
    signature = some (
        digest h (
          dict (
            ("exit", maybe num e.exit)
            ∷ ("failure", maybe_str j.failure)
            ∷ ("matched", bool j.matched)
            ∷ ("output", str (digest h (str e.output)))
            ∷ [])));
    failure = some (
        if truthy j.failure
        then value_of j.failure
        else if red
        then "expected red baseline not observed"
        else "exit or success match failed");
    strategy = p.check.command;
  }

  abbrev attempts_of : String → List (String × List Attempt) → List Attempt
  attempts_of cid attempts = elim (lookup cid attempts) [ none ↦ [] | some history ↦ history ]

  unfoldable pub add_attempt :
      Planned → Executed → Judged → List (String × List Attempt) → List (String × List Attempt)
  unfolding attempt
  add_attempt p e j attempts =
      if success j
      then attempts
      else put p.check.ident
          (last_n max_runs (attempts_of p.check.ident attempts ++ (attempt p e j ∷ []))) attempts

  -- One round of the loop; `none` is the DmdError of a check that is gone.
  unfoldable pub finish_check : Task → Bool → Planned → Executed → Option (Task × Judged)
  finish_check t halted p e = and_then (get t.checks p.check.ident) λ current.
      let j = judge_run t halted current p e in
      and_then (replace p.check.ident (record_run t current p e j) t.checks)
        λ checks. some (record t { checks = checks; attempts = add_attempt p e j t.attempts }, j)

  -- The loop over `zip(plan, results)`.
  unfoldable pub finish_checks :
      Task → Bool → List (Planned × Executed) → Option (Task × List Judged)
  finish_checks t halted [] = some (t, [])
  finish_checks t halted ((p, e) ∷ rest) = elim (finish_check t halted p e) [
    | none ↦ none
    | some (next, j) ↦ elim (finish_checks next halted rest) [
      | none ↦ none
      | some (final, js) ↦ some (final, j ∷ js)
    ]
  ]

abbrev pub holds_token : Task → String → Bool
holds_token t token = elim (t.running) [ none ↦ false | some r ↦ r.token == token ]

abbrev clear_run : String → Task → Task
clear_run token t = if holds_token t token then record t { running = none } else t

-- `zip(plan, results)`
abbrev pub zip {ℓ κ} : {A : Type ℓ} {B : Type κ} → List A → List B → List (A × B)
zip [] ys = []
zip (x ∷ xs) [] = []
zip (x ∷ xs) (y ∷ ys) = (x, y) ∷ zip xs ys

-- The third lock: every result is recorded, and the record of this run is cleared.
unfoldable pub finish :
    Host
    → Observed
    → Bool
    → Task
    → String
    → List Planned
    → List Executed
    → String
    → Option (Task × List Judged)
finish h seen red t token plan results at =
    and_then
      (finish_checks h seen red t (not (holds_token t token) || suspended t.state)
        (zip plan results))
      λ (final, js). some (save (clear_run token final) "run.finish" at, js)

-- `run_checks`'s exit code, where no check was refused for a held resource.
unfoldable pub exit_code : List Planned → List Judged → ℕ
exit_code plan js =
    if is_empty (filter (λ j. not (success j)) js) && is_empty (drop (length js) plan) then 0 else 1
