-- ===== src/Commands/Standing.antt =====
-- What a recorded decision achieves: the gate's own test of coverage, approval and review passes on the
-- record that the command leaves.
use done_means_done.Base.{
  ◌≡◌, refl, true, not, Option, some, String, string_eq, option_eq, eq_self, is_empty, >>=-eq-some,
  guard-eq-some,
}
use mathlib.Core.Path.{subst}
use mathlib.Core.Option.{some-injective}
use done_means_done.Authority.{record_decision, decision_ok}
use done_means_done.Authority.Decisions.{decision_ok-record_decision}
use done_means_done.Check.Definition.{SourceMap}
use done_means_done.Contract.{contract, contract_digest, unmapped_clauses}
use done_means_done.Assessment.Evidence.{Assessment}
use done_means_done.Assessment.Reasons.{coverage_ok}
use done_means_done.Commands.{require_text, Context}
use done_means_done.Commands.Coverage.{assert_coverage}
use done_means_done.Task.{Task, no_prior}

module _ (ctx : Context) where
  abbrev pub assessed : SourceMap → Task → Assessment
  assessed fp t = record { host = ctx.host; task_dir = ctx.task_dir; t = t; fp = fp }

  -- The record with an assertion, and its decision.
  abbrev asserted : String → Task → Task
  asserted reason t =
      let signed = contract_digest ctx.host t in
      let (u, e) =
        record_decision t "coverage.assert" "coverage" reason (ctx.now 1)
          (record no_prior { coverage = t.coverage }) (some signed) in
      record u { coverage = some (record { digest = some signed; decision = some e.ident }) }

  contract_digest-asserted :
      (reason : String) (t : Task)
      → contract_digest ctx.host (asserted reason t) ≡ contract_digest ctx.host t
  unfolding contract_digest contract record_decision
  contract_digest-asserted reason t = refl

  decision_ok-asserted :
      (reason : String) (t : Task)
      → let signed = contract_digest ctx.host t in
        let prior = record no_prior { coverage = t.coverage } in
        let e =
          (record_decision t "coverage.assert" "coverage" reason
            (ctx.now 1)
            prior
            (some signed)).1 in
        decision_ok (asserted reason t) (some e.ident) "coverage.assert" "coverage" (some signed)
        ≡ true
  unfolding decision_ok record_decision
  decision_ok-asserted reason t =
      decision_ok-record_decision t "coverage.assert" "coverage" reason (ctx.now 1)
        (record no_prior { coverage = t.coverage }) (some (contract_digest ctx.host t))

  coverage_ok-asserted :
      (fp : SourceMap) (reason : String) (t : Task)
      → coverage_ok (assessed fp (asserted reason t)) ≡ true
  unfolding coverage_ok
  coverage_ok-asserted fp reason t =
      rw
        (
          contract_digest-asserted reason t,
          eq_self (some (contract_digest ctx.host t)),
          decision_ok-asserted reason t,
        )
        refl

  -- A recorded assertion of coverage is what the gate asks for.
  pub assert_coverage-coverage_ok :
      (fp : SourceMap) (note : Option String) (t u : Task)
      → assert_coverage ctx note t ≡ some u
      → coverage_ok (assessed fp u) ≡ true
  unfolding assert_coverage
  assert_coverage-coverage_ok fp note t u done =
      let (_, h1) = guard-eq-some (not (is_empty t.requirements)) done in
      let (_, h2) = guard-eq-some (is_empty (unmapped_clauses t)) h1 in
      let (reason, (_, h3)) = >>=-eq-some (require_text note) h2 in
      subst (λ v. coverage_ok (assessed fp v) ≡ true) (some-injective _ _ h3)
        (coverage_ok-asserted fp reason t)
