-- ===== src/Commands/Work.antt =====
-- `dmd work` and `supersede`: dmdlib/cli.py, lines 169 to 262, as changes of the record.
pub mod Verified
use done_means_done.Base.{
  Bool, true, false, not, ◌&&◌, ◌||◌, Option, none, some, String, List, [], ◌∷◌, ◌++◌, filter, any,
  all, is_empty, contains, ◌==◌, string_eq, if◌then◌else◌, ◌>>=◌, ◌>>◌, guard,
}
use done_means_done.Host.{Host}
use done_means_done.Authority.{replace, truthy}
use done_means_done.Gate.{task_fingerprint}
use done_means_done.Assessment.Evidence.{Assessment, work_ok, work_owed, mapped_checks}
use done_means_done.Commands.{require_text}
use done_means_done.Task.{
  Task, Work, Check, Finding, live, get, new_id, ids, requirement_row, work_row, check_row,
  removable_work,
}

-- The findings that a work item or a check carries the remediation of.
abbrev held_by : (Finding → List String) → String → Task → List Finding
held_by links key t =
    filter
      (λ (f : Finding).
        contains (links f) key
        && contains ("suspected" ∷ "confirmed" ∷ "fixed-unverified" ∷ "fixed-verified" ∷ [])
            f.status)
      t.findings

abbrev pub dependents : String → Task → List Work
dependents wid t = filter (λ (w : Work). contains w.deps wid) (live t.work)

-- `supersede`, for a work item
unfoldable pub supersede_work : Task → Work → Option String → Option Work
supersede_work t w note = do
  reason ← require_text note
  guard (not w.removed)
  guard (is_empty (dependents w.ident t))
  guard (is_empty (held_by (λ f. f.work) w.ident t))
  some (record w { removed = true; removed_reason = some reason })

-- `supersede`, for a check
unfoldable pub supersede_check : Task → Check → Option String → Option Check
supersede_check t c note = do
  reason ← require_text note
  guard (not c.removed)
  guard (is_empty (held_by (λ f. f.checks) c.ident t))
  some (record c { removed = true; removed_reason = some reason })

-- A changed item in its place.
abbrev pub put_work : Work → Task → Option Task
put_work w t = do rows ← replace w.ident w t.work; some (record t { work = rows })

unfoldable pub remove_work : String → Option String → Task → Option Task
remove_work wid note t = do
  w ← get t.work wid
  retired ← supersede_work t w note
  put_work retired t

-- `dmd work add`: its requirement and its prerequisites exist.
unfoldable pub add_work :
    Option String → Option String → List String → List String → Task → Option Task
add_work req text deps owns t = do
  rid ← req
  r ← get t.requirements rid
  guard (all (contains (ids t.work)) deps)
  outcome ← require_text text
  let w : Work = record {
    ident = new_id t.work "W";
    req = rid;
    text = some outcome;
    status = "todo";
    deps = deps;
    owns = owns;
    removed = false;
    removed_reason = none;
    note = some "";
  }
  some (record t { work = t.work ++ (w ∷ []) })

-- The arguments of `dmd work set`.
pub record Change : Type 0 where
  pub replacement : Option String
  pub note : Option String
  pub clear_deps : Bool
  pub deps : Option (List String)
  pub owns : Option (List String)
  pub status : Option String

abbrev pub or_keep {ℓ} : {A : Type ℓ} → A → Option A → A
or_keep old none = old
or_keep old (some new) = new

-- The item with everything but its new status; a new text needs a note.
unfoldable pub edited_work : Work → Change → Option Work
edited_work w c = do
  guard (not (truthy c.replacement) || truthy (require_text c.note))
  some (record w {
    text = if truthy c.replacement then c.replacement else w.text;
    status = if truthy c.replacement then "todo" else w.status;
    deps = or_keep (if c.clear_deps then [] else w.deps) c.deps;
    owns = or_keep w.owns c.owns;
    note = if truthy c.note then c.note else w.note;
  })

-- Whether the evidence allows the status: work starts behind verified prerequisites, and is verified by
-- accepted checks only.
unfoldable pub status_allowed : Assessment → Work → String → Bool
status_allowed a w status =
    not w.removed
    && not (contains ("doing" ∷ "verified" ∷ []) status && any (λ d. not (work_ok a d)) w.deps)
    && not (
        status == "verified"
        && (is_empty (mapped_checks a w.ident) || not (is_empty (work_owed a w.ident))))

unfoldable pub with_status : Host → String → Task → Work → Option String → Option Work
with_status h task_dir t w none = some w
with_status h task_dir t w (some status) = if status == "" then some w else do
  guard (not w.removed)
  fp ← task_fingerprint h t
  guard (status_allowed (record { host = h; task_dir = task_dir; t = t; fp = fp }) w status)
  some (record w { status = status })

-- `dmd work set`; the assessment is of the record with the item already edited.
unfoldable pub set_work : Host → String → String → Change → Task → Option Task
set_work h task_dir wid c t = do
  w ← get t.work wid
  edited ← edited_work w c
  u ← put_work edited t
  final ← with_status h task_dir u edited c.status
  put_work final u
