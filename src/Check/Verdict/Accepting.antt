-- ===== src/Check/Verdict/Accepting.antt =====
-- When `check_verdict` accepts a command check: every part of the evidence is current.
use text.Mathlib.TextEquality.{eq_iff}
use done_means_done.Base.{
  ◌≡◌, ◌≢◌, refl, List, ◌↔◌, pos, true, none, some, String, [], arith, ◌==◌, false, string_eq,
  option_eq, nat_eq, int_eq, bool_eq,
}
use done_means_done.Host.{Host}
use done_means_done.Storage.{digest, evidence_ok}
use done_means_done.Authority.{decision_ok, unconfirmed}
use done_means_done.Task.{Task, Check, Work, Receipt}
use done_means_done.Check.Definition.{check_definition, source_for, SourceMap, missing_inputs}
use done_means_done.Check.Approvals.{approval_reason, approval_of}
use done_means_done.Check.Verdict.{
  check_verdict, is_some, passed_verdict, command_verdict, failed_verdict, clean_pass, or_empty,
}

module _ (h : Host) (task_dir : String) (fp : SourceMap) (t : Task) (c : Check) where
  abbrev receipt : Receipt
  receipt = or_empty c.receipt

  -- The evidence of a command check that is current in every part.
  pub record IsCurrent : Type 0 where
    pub live : c.removed ≡ false
    pub reviewed : c.needs_review ≡ false
    pub inputs_there : missing_inputs h c ≡ []
    pub passed : c.status ≡ "PASS"
    pub same_definition : receipt.definition ≡ some (digest h (check_definition c))
    pub new_enough : receipt.assurance_version ≡ some 2
    pub same_source : receipt.source ≡ source_for fp c
    pub intact : evidence_ok h task_dir receipt.artifact ≡ true
    pub approved : approval_reason h t c ≡ none
    pub same_approval : receipt.approval ≡ (approval_of t c.ident).signature
    pub of_command : receipt.kind ≡ some "command"
    pub exited : receipt.exit ≡ some (pos 0)
    pub matched : receipt.matched ≡ some true
    pub no_failure : receipt.failure ≡ none

  pass-ne-not_run : ◌≢◌ {A = String} "PASS" "NOT_RUN"
  pass-ne-not_run = ground (arith, eq_iff "PASS" "NOT_RUN")

  clean_pass-eq-true : (clean_pass h task_dir receipt ≡ true) ↔ (
      (receipt.kind ≡ some "command")
      × (receipt.exit ≡ some (pos 0))
      × (receipt.matched ≡ some true)
      × (receipt.failure ≡ none))
  unfolding clean_pass
  clean_pass-eq-true = ground arith

  command_verdict-eq-none : (command_verdict h task_dir t c receipt ≡ none) ↔ (
      (approval_reason h t c ≡ none)
      × (receipt.approval ≡ (approval_of t c.ident).signature)
      × (clean_pass h task_dir receipt ≡ true))
  unfolding command_verdict
  command_verdict-eq-none = ground arith

  passed_verdict-eq-none :
      c.method ≡ "command"
      → (passed_verdict h task_dir fp t c receipt ≡ none) ↔ (
          (receipt.definition ≡ some (digest h (check_definition c)))
          × (receipt.assurance_version ≡ some 2)
          × (receipt.source ≡ source_for fp c)
          × (evidence_ok h task_dir receipt.artifact ≡ true)
          × (command_verdict h task_dir t c receipt ≡ none))
  unfolding passed_verdict
  passed_verdict-eq-none m = ground arith

  failed_verdict_ne : failed_verdict h task_dir receipt ≢ none
  unfolding failed_verdict
  failed_verdict_ne = ground arith

  check_verdict_passed : (check_verdict h task_dir fp t c ≡ none) ↔ (
      (c.removed ≡ false)
      × (c.needs_review ≡ false)
      × (missing_inputs h c ≡ [])
      × (c.status ≡ "PASS")
      × (passed_verdict h task_dir fp t c receipt ≡ none))
  unfolding check_verdict
  check_verdict_passed =
      (λ e. ground (arith, failed_verdict_ne), λ (a, b, m, s, v). ground (arith, pass-ne-not_run))

  -- A command check is accepted exactly when every part of its evidence is current: the definition, the
  -- source, the evidence file, the approval, and a run that exited with 0, matched and did not fail.
  pub check_verdict-eq-none :
      c.method ≡ "command" → (check_verdict h task_dir fp t c ≡ none) ↔ IsCurrent
  check_verdict-eq-none m = (
    λ e.
        let (a, b, i, s, v) = check_verdict_passed.0 e in
        let (d, n, o, f, w) = (passed_verdict-eq-none m).0 v in
        let (r, u, k) = command_verdict-eq-none.0 w in
        let (x, y, z, q) = clean_pass-eq-true.0 k in
        record {
          live = a;
          reviewed = b;
          inputs_there = i;
          passed = s;
          same_definition = d;
          new_enough = n;
          same_source = o;
          intact = f;
          approved = r;
          same_approval = u;
          of_command = x;
          exited = y;
          matched = z;
          no_failure = q;
        },
    λ k. check_verdict_passed.1 (
      k.live,
      k.reviewed,
      k.inputs_there,
      k.passed,
      (passed_verdict-eq-none m).1 (
        k.same_definition,
        k.new_enough,
        k.same_source,
        k.intact,
        command_verdict-eq-none.1 (
          k.approved,
          k.same_approval,
          clean_pass-eq-true.1 (k.of_command, k.exited, k.matched, k.no_failure),
        ),
      ),
    ),
  )

-- A check whose status is not PASS has a verdict against it.
pub check_verdict-not_passed :
    (h : Host) (task_dir : String) (fp : SourceMap) (t : Task) (c : Check)
    → (c.status == "PASS") ≡ false
    → is_some (check_verdict h task_dir fp t c) ≡ true
unfolding check_verdict failed_verdict
check_verdict-not_passed h task_dir fp t c e = ground arith

-- A verdict does not depend on the work items.
pub check_verdict-work :
    (h : Host) (task_dir : String) (fp : SourceMap) (t : Task) (rows : List Work) (c : Check)
    → check_verdict h task_dir fp (record t { work = rows }) c ≡ check_verdict h task_dir fp t c
unfolding check_verdict passed_verdict command_verdict approval_reason decision_ok unconfirmed
check_verdict-work h task_dir fp t rows c = refl
