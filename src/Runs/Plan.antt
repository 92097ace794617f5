-- ===== src/Runs/Plan.antt =====
-- The start of a run: `select_checks`, the plan under the first lock, and the record of the run under
-- the second (dmdlib/runs.py, lines 71 to 84 and 136 to 174).
use done_means_done.Base.{
  ℕ, Bool, false, not, ◌&&◌, ◌||◌, Option, none, some, String, List, [], ◌∷◌, map, filter, is_empty,
  is_nodup, ◌==◌, string_eq, option_eq, if◌then◌else◌,
}
use done_means_done.Host.{Host}
use done_means_done.Storage.{digest}
use done_means_done.Storage.Save.{save}
use done_means_done.Authority.{truthy}
use done_means_done.Check.Definition.{check_definition}
use done_means_done.Check.Approvals.{ApprovalReason, approval_reason, approval_signature}
use done_means_done.Check.Verdict.{is_some}
use done_means_done.Assessment.Actions.{suspended}
use done_means_done.Task.{Task, Check, Running, live, get, check_row, removable_check}

-- The DmdErrors of a run.
pub data Refusal : Type 0 where
  ids_and_all no_runnable_checks no_check_named duplicate_checks : Refusal
  unknown_check not_runnable no_red_match : String → Refusal
  approval_input : String → Refusal
  not_approved : String → ApprovalReason → Refusal
  execution_suspended previous_run approval_changed missing_candidate : Refusal

pub data Tried {ℓ} (A : Type ℓ) : Type ℓ where
  ok : A → Tried A
  refused : Refusal → Tried A

abbrev pub and_try {ℓ κ} : {A : Type ℓ} {B : Type κ} → Tried A → (A → Tried B) → Tried B
and_try (ok a) f = f a
and_try (refused r) f = refused r

abbrev or_refused {ℓ} : {A : Type ℓ} → Refusal → Option A → Tried A
or_refused r none = refused r
or_refused r (some a) = ok a

abbrev try_each {ℓ κ} : {A : Type ℓ} {B : Type κ} → (A → Tried B) → List A → Tried (List B)
try_each f [] = ok []
try_each f (x ∷ xs) = let rest = try_each f xs in and_try (f x) λ y. and_try rest λ ys. ok (y ∷ ys)

abbrev is_runnable : Check → Bool
is_runnable c = c.method == "command" && not c.needs_review

unfoldable pub select_checks : Task → List String → Bool → Tried (List Check)
select_checks t ids everything =
    if everything && not (is_empty ids)
    then refused ids_and_all
    else if everything
    then (if is_empty (filter is_runnable (live t.checks))
        then refused no_runnable_checks
        else ok (filter is_runnable (live t.checks)))
    else if is_empty ids
    then refused no_check_named
    else if not (is_nodup ids)
    then refused duplicate_checks
    else try_each (λ cid. or_refused (unknown_check cid) (get t.checks cid)) ids

-- A check of the plan, with the approval's signature and the definition that it was planned with.
pub record Planned : Type 0 where
  pub check : Check
  pub signature : String
  pub definition : String

module _ (h : Host) where
  unfoldable pub plan_check : Task → Bool → Check → Tried Planned
  plan_check t red c =
      if not (c.method == "command") || c.needs_review || c.removed
      then refused (not_runnable c.ident)
      else elim (approval_signature h c false) [
        | none ↦ refused (approval_input c.ident)
        | some signature ↦ elim (approval_reason h t c) [
          | some reason ↦ refused (not_approved c.ident reason)
          | none ↦
              if red && (not c.regression || not (truthy c.red_match))
              then refused (no_red_match c.ident)
              else ok (record {
                check = c;
                signature = signature;
                definition = digest h (check_definition c);
              })
        ]
      ]

  -- Under the first lock: the task is read, and the checks are chosen and inspected.
  unfoldable pub plan : Task → List String → Bool → Bool → Tried (List Planned)
  plan t ids everything red =
      if suspended t.state
      then refused execution_suspended
      else if is_some t.running
      then refused previous_run
      else and_try (select_checks t ids everything) λ checks. try_each (plan_check t red) checks

  -- Whether the approval that the check was planned with still stands.
  unfoldable pub same_approval : Task → Check → String → Bool
  same_approval t current signature =
      not (is_some (approval_reason h t current))
      && approval_signature h current false == some signature

  recheck : Task → List Planned → Tried Task
  recheck t [] = ok t
  recheck t (p ∷ ps) =
      let rest = recheck t ps in
      elim (get t.checks p.check.ident) [
        | none ↦ refused (unknown_check p.check.ident)
        | some current ↦
            if same_approval t current p.signature then rest else refused approval_changed
      ]

  abbrev check_ids : List Planned → List String
  check_ids plan = map (λ (p : Planned). p.check.ident) plan

  abbrev first_id : List Planned → Option String
  first_id [] = none
  first_id (p ∷ ps) = some p.check.ident

  abbrev started : String → String → ℕ → Bool → List Planned → Running
  started token at pid red plan = record {
    token = token;
    checks = check_ids plan;
    check = first_id plan;
    started = at;
    pid = some pid;
    host = some h.hostname;
    red = red;
    interrupted = false;
  }

  -- Under the second lock: the task is read again, and the run is recorded.
  unfoldable pub start : Task → List Planned → String → String → ℕ → Bool → Tried Task
  unfolding recheck
  start t plan token at pid red =
      if suspended t.state
      then refused execution_suspended
      else and_try (recheck t plan) λ _.
        ok (save (record t { running = some (started token at pid red plan) }) "run.start" at)
