-- ===== src/Commands/Checks/Unproven.antt =====
-- An edited check, and a command check whose result was set by hand, are not accepted as they then are.
use done_means_done.Base.{
  ◌≡◌, refl, sym, ◌∙◌, ap, inl, inr, Bool, true, false, not, ◌&&◌, Option, none, some, String, [],
  ◌∷◌, arith, ◌==◌, string_eq, contains, Bool-cases, >>=-eq-some, guard-eq-some, if◌then◌else◌, all,
  traverse,
}
use text.Mathlib.TextEquality.{eq_iff}
use mathlib.Core.Path.{subst}
use mathlib.Core.Option.{some-injective}
use done_means_done.Host.{Host}
use done_means_done.Authority.{record_decision, replace}
use done_means_done.Authority.Rows.{get-replaced, id_of-get}
use done_means_done.Check.Definition.{SourceMap}
use done_means_done.Check.Verdict.Accepting.{check_verdict-not_passed}
use done_means_done.Assessment.Evidence.{accepted, verdict_of}
use done_means_done.Commands.{require_text, Context}
use done_means_done.Commands.Quotes.{quoted}
use done_means_done.Commands.Standing.{assessed}
use done_means_done.Commands.Approvals.Granted.{checks-inspected_approval}
use done_means_done.Commands.Checks.Authoring.{
  CheckArgs, edited_check, authored, resolved, working_directory, declared_input, candidate_for,
  output_globs, method_ok,
}
use done_means_done.Base.Text.{is_identifier}
use done_means_done.Commands.Checks.{
  put_check, approved, unprotect, edit_check, explicit_candidate, recorded, set_check,
}
use done_means_done.Task.{Task, Check, Artifact, get, check_row}

-- Against no source map is the check accepted.
abbrev pub IsUnproven : Context → String → Task → Type 0
IsUnproven ctx cid u = (fp : SourceMap) → accepted (assessed ctx fp u) cid ≡ false

not_passed-IsUnproven :
    (ctx : Context) (cid : String) (u : Task) (c : Check)
    → get u.checks cid ≡ some c
    → (c.status == "PASS") ≡ false
    → IsUnproven ctx cid u
unfolding accepted verdict_of
not_passed-IsUnproven ctx cid u c found failed fp =
    rw (accepted, verdict_of, found)
      (ground (arith, check_verdict-not_passed ctx.host ctx.task_dir fp u c failed))

put_check-get :
    (c old : Check) (t u : Task)
    → get t.checks c.ident ≡ some old
    → put_check c t ≡ some u
    → get u.checks c.ident ≡ some c
put_check-get c old t u found done =
    let (rows, (hr, h1)) = >>=-eq-some (replace c.ident c t.checks) done in
    subst (λ v. get v.checks c.ident ≡ some c) (some-injective _ _ h1)
      (get-replaced c.ident t.checks {x = old} c found refl hr)

-- What `--approve` and a lifted protection leave alone.
checks-approved :
    (ctx : Context) (note : Option String) (c : Check) (t u : Task)
    → approved ctx note c t ≡ some u
    → u.checks ≡ t.checks
unfolding approved
checks-approved ctx none c t u done = ap (λ v. v.checks) (sym (some-injective _ _ done))
checks-approved ctx (some note) c t u done =
    let (_, h) = guard-eq-some (c.method == "command") done in
    checks-inspected_approval ctx c (some note) t u h

checks-unprotect :
    (ctx : Context) (args : CheckArgs) (old c : Check) (t u : Task)
    → unprotect ctx args old c t ≡ some u
    → u.checks ≡ t.checks
unfolding unprotect record_decision
checks-unprotect ctx args old c t u done =
    elim (Bool-cases (args.no_regression && old.regression)) [
      | inr e ↦ ap (λ v. v.checks) (sym (some-injective _ _ (rw (e, unprotect) at done)))
      | inl e ↦
          let (words, (_, h)) =
            >>=-eq-some (quoted ctx t args.authority) (rw (e, unprotect) at done) in
          ap (λ v. v.checks) (sym (some-injective _ _ h))
    ]

authored_lem :
    (h : Host) (args : CheckArgs) (explicit : Option String) (root : String) (c made : Check)
    → authored h args explicit root c ≡ some made
    → (made.ident ≡ c.ident) × (made.status ≡ c.status)
unfolding authored
authored_lem h args explicit root c made done =
    let cwd = working_directory h c in
    let (_, h1) = guard-eq-some (h.exists cwd) done in
    let (inputs, (_, h2)) =
      >>=-eq-some (traverse (declared_input h cwd) (if args.clear_inputs then [] else c.inputs))
        h1 in
    let (candidate, (_, h3)) = >>=-eq-some (candidate_for h explicit cwd root) h2 in
    let row = resolved args cwd inputs candidate c in
    let (_, h4) = guard-eq-some (all is_identifier row.exclusive) h3 in
    let (_, h5) = guard-eq-some (output_globs h row && method_ok row) h4 in
    (
      ap (λ v. v.ident) (sym (some-injective _ _ h5)),
      ap (λ v. v.status) (sym (some-injective _ _ h5)),
    )

not_run : (c : Check) → c.status ≡ "NOT_RUN" → (c.status == "PASS") ≡ false
not_run c e = ground (arith, eq_iff "NOT_RUN" "PASS")

status-edited_check : (args : CheckArgs) (c : Check) → (edited_check args c).status ≡ "NOT_RUN"
unfolding edited_check
status-edited_check args c = refl

ident-edited_check : (args : CheckArgs) (c : Check) → (edited_check args c).ident ≡ c.ident
unfolding edited_check
ident-edited_check args c = refl

-- The record that an edit of a check leaves has the check with NOT_RUN, and does not accept it, whatever the
-- trees are.
pub edit_check-IsUnproven :
    (ctx : Context) (cid : String) (args : CheckArgs) (t u : Task)
    → edit_check ctx cid args t ≡ some u
    → ((c : Check) × (get u.checks cid ≡ some c) × (c.status ≡ "NOT_RUN")) × IsUnproven ctx cid u
unfolding edit_check
edit_check-IsUnproven ctx cid args t u done =
    let (_, h1) = guard-eq-some (not (args.regression && args.no_regression)) done in
    let (old, (ho, h2)) = >>=-eq-some (get t.checks cid) h1 in
    let (c, (hc, h3)) =
      >>=-eq-some
        (authored ctx.host args (explicit_candidate args old) t.root (edited_check args old)) h2 in
    let (v, (hv, h4)) = >>=-eq-some (put_check c t) h3 in
    let (w, (hw, h5)) = >>=-eq-some (unprotect ctx args old c v) h4 in
    let (same_id, same_status) = authored_lem ctx.host args _ t.root (edited_check args old) c hc in
    let named = same_id ∙ (ident-edited_check args old ∙ id_of-get cid t.checks ho) in
    let there =
      put_check-get c old t v (subst (λ k. get t.checks k ≡ some old) (sym named) ho) hv in
    let kept = checks-approved ctx args.approve c w u h5 ∙ checks-unprotect ctx args old c v w hw in
    let here =
      subst (λ k. get u.checks k ≡ some c) named (ap (λ rows. get rows c.ident) kept ∙ there) in
    let fresh = same_status ∙ status-edited_check args old in
    ((c, here, fresh), not_passed-IsUnproven ctx cid u c here (not_run c fresh))

recorded_lem :
    (ctx : Context) (c result : Check) (status : String) (observation : Option String)
    (artifact : Option Artifact) (t : Task)
    → (status == "PASS") ≡ false
    → recorded ctx c status observation artifact t ≡ some result
    → (result.ident ≡ c.ident) × (result.status ≡ status) × (result.receipt ≡ none)
recorded_lem ctx c result status observation artifact t failed done =
    let same = some-injective _ _ (rw failed at done) in
    (ap (λ v. v.ident) (sym same), ap (λ v. v.status) (sym same), ap (λ v. v.receipt) (sym same))

-- A result that is set by hand on a command check is never PASS: the check then has that other status and no
-- receipt, and is accepted against no trees.
pub set_check-IsUnproven :
    (ctx : Context) (cid status : String) (note : Option String) (artifact : Option Artifact)
    (t u : Task) (c : Check)
    → get t.checks cid ≡ some c
    → (c.method == "command") ≡ true
    → set_check ctx cid status note artifact t ≡ some u
    → ((status == "PASS") ≡ false)
      × ((result : Check) × (get u.checks cid ≡ some result)
          × (result.status ≡ status)
          × (result.receipt ≡ none))
      × IsUnproven ctx cid u
unfolding set_check
set_check-IsUnproven ctx cid status note artifact t u c found of_command done =
    let (_, h1) =
      guard-eq-some (not (c.needs_review && status == "PASS")) (rw (found, set_check) at done) in
    let (by_run, h2) = guard-eq-some (not (c.method == "command" && status == "PASS")) h1 in
    let (_, h3) = guard-eq-some (contains ("PASS" ∷ "FAIL" ∷ "NOT_RUN" ∷ []) status) h2 in
    let (reason, (_, h4)) = >>=-eq-some (require_text note) h3 in
    let (result, (hr, h5)) = >>=-eq-some (recorded ctx c status note artifact t) h4 in
    let failed = not_by_hand of_command by_run in
    let (same, as_set, gone) = recorded_lem ctx c result status note artifact t failed hr in
    let named = same ∙ id_of-get cid t.checks found in
    let there =
      put_check-get result c t u (subst (λ k. get t.checks k ≡ some c) (sym named) found) h5 in
    let here = subst (λ k. get u.checks k ≡ some result) named there in
    (
      failed,
      (result, here, as_set, gone),
      not_passed-IsUnproven ctx cid u result here (ap (λ s. s == "PASS") as_set ∙ failed),
    )
  where
    not_by_hand : {a b : Bool} → a ≡ true → not (a && b) ≡ true → b ≡ false
    not_by_hand e h = ground arith
