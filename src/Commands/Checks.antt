-- ===== src/Commands/Checks.antt =====
-- `dmd check`: dmdlib/cli.py, lines 123 to 166 and 265 to 387, as changes of the record.
pub mod Authoring
pub mod Unproven
use done_means_done.Base.{
  Bool, true, false, not, ◌&&◌, ◌||◌, Option, none, some, String, List, [], ◌∷◌, ◌++◌, pos, any,
  filter, is_empty, contains, ◌==◌, ◌/=◌, string_eq, if◌then◌else◌, ◌>>=◌, ◌>>◌, guard,
}
use done_means_done.Authority.{record_decision, replace, truthy}
use done_means_done.Storage.{digest}
use done_means_done.Check.Definition.{
  check_definition, check_candidate, source_for, SourceMap, value_of,
}
use done_means_done.Gate.{task_fingerprint}
use done_means_done.Commands.{require_text, Context}
use done_means_done.Commands.Quotes.{quoted}
use done_means_done.Commands.Work.{supersede_check}
use done_means_done.Commands.Approvals.{inspected_approval}
use done_means_done.Commands.Checks.Authoring.{CheckArgs, new_check, edited_check, authored}
use done_means_done.Task.{
  Task, Check, Artifact, Receipt, no_receipt, no_prior, live, get, check_row, removable_check,
}

-- A changed check in its place.
abbrev pub put_check : Check → Task → Option Task
put_check c t = do rows ← replace c.ident c t.checks; some (record t { checks = rows })

-- Other live checks of the same requirement.
abbrev remaining : Task → Check → List Check
remaining t c = filter (λ (x : Check). x.req == c.req && x.ident /= c.ident) (live t.checks)

-- `dmd check remove`: another check is left to the requirement.
unfoldable pub remove_check : String → Option String → Task → Option Task
remove_check cid note t = do
  c ← get t.checks cid
  guard (not (is_empty (remaining t c)))
  retired ← supersede_check t c note
  put_check retired t

-- `--approve`
unfoldable pub approved : Context → Option String → Check → Task → Option Task
approved ctx none c t = some t
approved ctx (some note) c t = do
  guard (c.method == "command")
  inspected_approval ctx c (some note) t

-- `dmd check add`
unfoldable pub add_check : Context → CheckArgs → Task → Option Task
add_check ctx args t = do
  guard (not (args.regression && args.no_regression))
  guard (truthy args.req)
  c ← authored ctx.host args args.candidate t.root (new_check ctx.host args t)
  approved ctx args.approve c (record t { checks = t.checks ++ (c ∷ []) })

-- The decision that lifts regression protection: the operator's words, bound to the new definition.
unfoldable pub unprotect : Context → CheckArgs → Check → Check → Task → Option Task
unprotect ctx args old c t = if not (args.no_regression && old.regression) then some t else do
  words ← quoted ctx t args.authority
  some
      (record_decision t "check.no-regression" c.ident words (ctx.now 0)
        (record no_prior { check = some old }) (some (digest ctx.host (check_definition c)))).0

abbrev pub explicit_candidate : CheckArgs → Check → Option String
explicit_candidate args c = elim (args.candidate) [ none ↦ c.candidate | some path ↦ some path ]

-- `dmd check edit`
unfoldable pub edit_check : Context → String → CheckArgs → Task → Option Task
edit_check ctx cid args t = do
  guard (not (args.regression && args.no_regression))
  old ← get t.checks cid
  c ← authored ctx.host args (explicit_candidate args old) t.root (edited_check args old)
  u ← put_check c t
  v ← unprotect ctx args old c u
  approved ctx args.approve c v

abbrev observed : Context → Check → SourceMap → Artifact → Option String → Task → Receipt
observed ctx c fp artifact note t = record no_receipt {
  kind = some c.method;
  assurance_version = some 2;
  source = source_for fp c;
  candidate = some (check_candidate c (some t.root));
  definition = some (digest ctx.host (check_definition c));
  artifact = some artifact;
  note = note;
}

abbrev pub recorded :
    Context → Check → String → Option String → Option Artifact → Task → Option Check
recorded ctx c status note artifact t =
    if status == "PASS"
    then (do
      file ← artifact
      fp ← task_fingerprint ctx.host t
      some (record c { status = status; receipt = some (observed ctx c fp file note t) }))
    else some (record c { status = status; receipt = none })

-- `dmd check set`; `artifact` is the evidence file that was written, if it could be.
unfoldable pub set_check :
    Context → String → String → Option String → Option Artifact → Task → Option Task
set_check ctx cid status note artifact t = do
  c ← get t.checks cid
  guard (not (c.needs_review && status == "PASS"))
  guard (not (c.method == "command" && status == "PASS"))
  guard (contains ("PASS" ∷ "FAIL" ∷ "NOT_RUN" ∷ []) status)
  reason ← require_text note
  result ← recorded ctx c status note artifact t
  put_check result t

-- `dmd check baseline`: why the regression has no red run.
unfoldable pub limit_baseline :
    Context → String → Option String → Option Artifact → Task → Option Task
limit_baseline ctx cid note artifact t = do
  c ← get t.checks cid
  guard c.regression
  reason ← require_text note
  file ← artifact
  let definition = digest ctx.host (check_definition c)
  let (u, e) =
      record_decision t "check.baseline" c.ident reason (ctx.now 1)
        (record no_prior { baseline = c.baseline }) (some definition)
  let limit = record no_receipt {
    definition = some definition;
    reason = some reason;
    artifact = some file;
    decision = some e.ident;
  }
  put_check (record c { baseline = some limit }) u
