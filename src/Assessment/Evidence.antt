-- ===== src/Assessment/Evidence.antt =====
-- The Assessment of a task: which checks are accepted and which work is done (lines 387 to 440).
-- Each judgement is a function of the four fields; Python caches them, and nothing changes them.
use done_means_done.Base.{
  Bool, false, not, ◌&&◌, ◌||◌, Option, none, some, String, List, [], ◌∷◌, map, ◌==◌, string_eq,
  option_eq, contains, filter, all, is_empty, if◌then◌else◌,
}
use done_means_done.Base.Text.{text_lt}
use done_means_done.Host.{Host}
use done_means_done.Storage.{pid_alive, digest, evidence_ok}
use done_means_done.Contract.{artifact_value}
use done_means_done.Authority.{decision_ok}
use done_means_done.Check.Definition.{SourceMap, attested}
use done_means_done.Check.Verdict.{check_verdict, red_ok, Verdict, is_some}
use done_means_done.Task.{
  Task, Check, Running, Blocker, get, live, check_row, work_row, removable_check, removable_work,
  requirement_row,
}

pub record Assessment : Type 0 where
  pub host : Host
  pub task_dir : String
  pub t : Task
  pub fp : SourceMap

-- `sorted(texts)`
abbrev insert_text : String → List String → List String
insert_text s [] = s ∷ []
insert_text s (x ∷ xs) = let rest = insert_text s xs in if text_lt x s then x ∷ rest else s ∷ x ∷ xs

unfoldable pub sorted : List String → List String
sorted [] = []
sorted (x ∷ xs) = insert_text x (sorted xs)

module _ (a : Assessment) where
  abbrev pub verdict : Check → Verdict
  verdict c = check_verdict a.host a.task_dir a.fp a.t c

  -- `self.verdicts[cid]`. An ID that no check has is a KeyError, which validation rules out.
  unfoldable pub verdict_of : String → Option Verdict
  verdict_of cid = elim (get a.t.checks cid) [ none ↦ none | some c ↦ some (verdict c) ]

  unfoldable pub accepted : String → Bool
  accepted cid = elim (verdict_of cid) [ none ↦ false | some v ↦ not (is_some v) ]

  -- `self.red.get(cid)`: recorded for live regression checks only.
  unfoldable pub red_accepted : String → Bool
  red_accepted cid = elim (get a.t.checks cid) [
    | none ↦ false
    | some c ↦ not c.removed && c.regression && red_ok a.host a.task_dir a.t c
  ]

  unfoldable pub active : List String
  active = sorted (map (λ r. r.ident) (filter (λ r. r.status == "active") a.t.requirements))

  unfoldable pub mapped_checks : String → List Check
  mapped_checks wid = filter (λ c. contains c.work wid) (live a.t.checks)

  unfoldable pub work_owed : String → List String
  work_owed wid = map (λ c. c.ident) (filter (λ c. not (accepted c.ident)) (mapped_checks wid))

  -- An unknown work ID is a DmdError of `get`, which validation rules out.
  unfoldable pub work_ok : String → Bool
  work_ok wid = elim (get a.t.work wid) [
    | none ↦ false
    | some w ↦
        not w.removed
        && not (is_empty (mapped_checks wid))
        && all (λ c. accepted c.ident) (mapped_checks wid)
  ]

  unfoldable pub checks_for : String → List Check
  checks_for rid = filter (λ c. c.req == rid) (live a.t.checks)

  -- `requirement_attestation`: the accepted checks, executed and self-attested.
  unfoldable pub executed_checks : String → List Check
  executed_checks rid =
      filter (λ c. not (attested c)) (filter (λ c. accepted c.ident) (checks_for rid))

  unfoldable pub attested_checks : String → List Check
  attested_checks rid = filter attested (filter (λ c. accepted c.ident) (checks_for rid))

  -- `accepted(c) and not attested(get(checks, c))`
  unfoldable pub executed : String → Bool
  executed cid = elim (get a.t.checks cid) [
    | none ↦ false
    | some c ↦ accepted cid && not (attested c)
  ]

  unfoldable pub blocker_supported : Blocker → Bool
  blocker_supported b =
      evidence_ok a.host a.task_dir b.artifact
      && (not (b.item == "task")
          || decision_ok a.t b.decision "blocker.task" b.ident
              (some (digest a.host (artifact_value b.artifact))))

  abbrev running_checks : Running → List String
  running_checks r =
      if is_empty r.checks then elim (r.check) [ none ↦ [] | some c ↦ c ∷ [] ] else r.checks

  unfoldable pub inflight : List String
  inflight = elim (a.t.running) [ none ↦ [] | some r ↦ running_checks r ]

  unfoldable pub runner_alive : Option Bool
  runner_alive = elim (a.t.running) [ none ↦ none | some r ↦ pid_alive a.host r.pid r.host ]
