-- ===== src/Runs/Finish/Codes.antt =====
-- A run that lost its record, or whose task was suspended, passes nothing; and what exit code 0 means.
use done_means_done.Base.{
  ℕ, zero, suc, ◌≤◌, ◌≡◌, refl, ◌↔◌, Bool, true, false, not, ◌||◌, none, some, String, List, [],
  ◌∷◌, arith, ap, ◌∙◌, sym, All, filter, drop, length, is_empty, Bool-cases, Option-cases, inl, inr,
}
use mathlib.Core.Path.{subst}
use mathlib.Core.Option.{some-injective, some-ne-none}
use done_means_done.Host.{Host}
use done_means_done.Authority.{replace}
use done_means_done.Task.{Task, Check, get, check_row}
use done_means_done.Assessment.Actions.{suspended}
use done_means_done.Runs.Plan.{Planned}
use done_means_done.Check.Verdict.{is_some}
use done_means_done.Storage.Save.{save}
use done_means_done.Runs.Finish.Recorded.{and_then-eq-some, Holds, finish_checks-Holds}
use done_means_done.Runs.Finish.{
  clear_run, Executed, Observed, Judged, success, judge_run, record_run, add_attempt, finish_check,
  finish_checks, finish, holds_token, zip, exit_code,
}

-- How the record shows a run's failure, and its success.
abbrev pub IsFailed : Bool → Check → Type 0
IsFailed true c = c.red ≡ none
IsFailed false c = c.status ≡ "FAIL"

abbrev pub IsPassed : Bool → Check → Type 0
IsPassed true c = is_some c.red ≡ true
IsPassed false c = c.status ≡ "PASS"

module _ (h : Host) (seen : Observed) (red : Bool) where
  success-judge_run :
      (t : Task) (current : Check) (p : Planned) (e : Executed)
      → success (judge_run h seen red t true current p e) ≡ false
  unfolding judge_run
  success-judge_run t current p e = ground arith

  finish_check_halted :
      (t : Task) (p : Planned) (e : Executed) {next : Task} {j : Judged}
      → finish_check h seen red t true p e ≡ some (next, j)
      → success j ≡ false
  unfolding finish_check
  finish_check_halted t p e {next} {j} done = elim (Option-cases (get t.checks p.check.ident)) [
    | inl f ↦ absurd (some-ne-none _ (sym (rw (f, finish_check) at done)))
    | inr (c, f) ↦
        elim (Option-cases (
          replace p.check.ident (record_run h seen red t c p e (judge_run h seen red t true c p e))
            t.checks)) [
              | inl g ↦ absurd (some-ne-none _ (sym (rw (f, g, finish_check) at done)))
              | inr (checks, g) ↦
                  let end : some (
                    record t {
                      checks = checks;
                      attempts =
                          add_attempt h seen red p e (judge_run h seen red t true c p e) t.attempts;
                    },
                    judge_run h seen red t true c p e,
                  )
                      ≡ some (next, j) =
                    rw (f, g, finish_check) at done in
                  sym (ap (λ q. success q.1) (some-injective _ _ end)) ∙ success-judge_run t c p e
            ]
  ]

  finish_checks_halted :
      (t : Task) (rest : List (Planned × Executed)) {final : Task} {js : List Judged}
      → finish_checks h seen red t true rest ≡ some (final, js)
      → All (λ j. success j ≡ false) js
  unfolding finish_checks
  finish_checks_halted t [] done =
      subst (λ q. All (λ j. success j ≡ false) q.1) (some-injective _ _ done) tt
  finish_checks_halted t ((p, e) ∷ rest) {final} {js} done =
      elim (Option-cases (finish_check h seen red t true p e)) [
        | inl f ↦ absurd (some-ne-none _ (sym (rw (f, finish_checks) at done)))
        | inr ((next, j), f) ↦ elim (Option-cases (finish_checks h seen red next true rest)) [
          | inl g ↦ absurd (some-ne-none _ (sym (rw (f, g, finish_checks) at done)))
          | inr ((last, more), g) ↦
              let end : some (last, j ∷ more) ≡ some (final, js) =
                rw (f, g, finish_checks) at done in
              subst (λ q. All (λ j. success j ≡ false) q.1) (some-injective _ _ end)
                (finish_check_halted t p e f, finish_checks_halted next rest g)
        ]
      ]

  record_run-IsFailed :
      (t : Task) (current : Check) (p : Planned) (e : Executed) (j : Judged)
      → success j ≡ false
      → IsFailed red (record_run h seen red t current p e j)
  unfolding record_run
  record_run-IsFailed t current p e j failed = elim (Bool-cases red) [
    | inl r ↦ rw (r, record_run) (rw failed refl)
    | inr r ↦ rw (r, record_run) (rw failed refl)
  ]

  record_run-IsPassed :
      (t : Task) (current : Check) (p : Planned) (e : Executed) (j : Judged)
      → success j ≡ true
      → IsPassed red (record_run h seen red t current p e j)
  unfolding record_run
  record_run-IsPassed t current p e j passed = elim (Bool-cases red) [
    | inl r ↦ rw (r, record_run) (rw passed refl)
    | inr r ↦ rw (r, record_run) (rw passed refl)
  ]

  length-finish_checks :
      (t : Task) (halted : Bool) (rest : List (Planned × Executed)) (final : Task)
      (js : List Judged)
      → finish_checks h seen red t halted rest ≡ some (final, js)
      → length js ≡ length rest
  unfolding finish_checks
  length-finish_checks t halted [] final js done =
      ap (λ q. length q.1) (sym (some-injective _ _ done))
  length-finish_checks t halted ((p, e) ∷ rest) final js done =
      elim (Option-cases (finish_check h seen red t halted p e)) [
        | inl f ↦ absurd (some-ne-none _ (sym (rw (f, finish_checks) at done)))
        | inr ((next, j), f) ↦ elim (Option-cases (finish_checks h seen red next halted rest)) [
          | inl g ↦ absurd (some-ne-none _ (sym (rw (f, g, finish_checks) at done)))
          | inr ((last, more), g) ↦
              let end : some (last, j ∷ more) ≡ some (final, js) =
                rw (f, g, finish_checks) at done in
              sym (ap (λ q. length q.1) (some-injective _ _ end))
              ∙ ap suc (length-finish_checks next halted rest last more g)
        ]
      ]

  checks-clear_run : (token : String) (t : Task) → (clear_run token t).checks ≡ t.checks
  checks-clear_run token t = ground arith

  -- The loop behind a finished run.
  loop_of :
      (t : Task) (token : String) (plan : List Planned) (results : List Executed) (at : String)
      (final : Task) (js : List Judged)
      → finish h seen red t token plan results at ≡ some (final, js)
      → (u : Task) × (finish_checks h seen red t
            (not (holds_token t token) || suspended t.state)
            (zip plan results)
          ≡ some (u, js))
        × (u.checks ≡ final.checks)
  unfolding finish save
  loop_of t token plan results at final js done =
      let ((u, found), (loop, end)) =
        and_then-eq-some
          (finish_checks h seen red t (not (holds_token t token) || suspended t.state)
            (zip plan results))
          done in
      let both = some-injective _ _ end in
      (
        u,
        loop ∙ ap (λ ks. some (u, ks)) (ap (λ q. q.1) both),
        sym (checks-clear_run token u) ∙ ap (λ q. q.0.checks) both,
      )

  -- Where the record names another run, or the task was suspended meanwhile, no result of the run is
  -- recorded as a success, whatever the commands answered: each check that has a result is there with FAIL, or
  -- without a red baseline if that is what was run.
  pub finish_halted :
      (t : Task) (token : String) (plan : List Planned) (results : List Executed) (at : String)
      (final : Task) (js : List Judged)
      → (not (holds_token t token) || suspended t.state) ≡ true
      → finish h seen red t token plan results at ≡ some (final, js)
      → All (λ j. success j ≡ false) js
        × All (λ (p, e). Holds (IsFailed red) final.checks p.check.ident) (zip plan results)
  finish_halted t token plan results at final js halted done =
      let (u, loop, same) = loop_of t token plan results at final js done in
      let failed = finish_checks_halted t (zip plan results) (rw halted at loop) in
      (
        failed,
        subst (λ rows. All (λ (p, e). Holds (IsFailed red) rows p.check.ident) (zip plan results))
            same
            (finish_checks-Holds (IsFailed red) h seen red true false
              (λ t' c p e. record_run-IsFailed t' c p e _) t (zip plan results) u js
              (rw halted at loop) failed).0,
      )

all_good : List Judged → Bool
all_good js = is_empty (filter (λ j. not (success j)) js)

all_good_iff : (js : List Judged) → (all_good js ≡ true) ↔ All (λ j. success j ≡ true) js
unfolding all_good
all_good_iff [] = (λ _. tt, λ _. refl)
all_good_iff (j ∷ js) = ground (arith, all_good_iff js)

drop_iff : (n : ℕ) (xs : List Planned) → (is_empty (drop n xs) ≡ true) ↔ (length xs ≤ n)
drop_iff zero [] = ground arith
drop_iff zero (x ∷ xs) = ground arith
drop_iff (suc n) [] = ground arith
drop_iff (suc n) (x ∷ xs) = ground (arith, drop_iff n xs)

-- Where every check of the plan has a result, what holds of those with one holds of the plan.
enough_results :
    (Q : Planned → Type 0) (plan : List Planned) (results : List Executed)
    → length plan ≤ length (zip plan results)
    → All (λ (p, e). Q p) (zip plan results)
    → All Q plan
enough_results Q [] results enough held = tt
enough_results Q (p ∷ plan) [] enough held = absurd (omega arith)
enough_results Q (p ∷ plan) (e ∷ results) enough held =
    (held.0, enough_results Q plan results (omega arith) held.1)

-- Where a finished run exits with 0, every check of its plan is in the record with PASS, or with a red baseline
-- if that is what was run.
pub exit_code-eq-zero :
    (h : Host) (seen : Observed) (red : Bool) (t : Task) (token : String) (plan : List Planned)
    (results : List Executed) (at : String) (final : Task) (js : List Judged)
    → finish h seen red t token plan results at ≡ some (final, js)
    → exit_code plan js ≡ 0
    → All (λ p. Holds (IsPassed red) final.checks p.check.ident) plan
unfolding exit_code all_good
exit_code-eq-zero h seen red t token plan results at final js done zero_code =
    let (u, loop, same) = loop_of h seen red t token plan results at final js done in
    let good : all_good js ≡ true = ground arith in
    let covered : is_empty (drop (length js) plan) ≡ true = ground arith in
    let halted = not (holds_token t token) || suspended t.state in
    let size = length-finish_checks h seen red t halted (zip plan results) u js loop in
    let few = (drop_iff (length js) plan).0 covered in
    let held =
      (finish_checks-Holds (IsPassed red) h seen red halted true
        (λ t' c p e. record_run-IsPassed h seen red t' c p e _) t (zip plan results) u js loop
        ((all_good_iff js).0 good)).0 in
    enough_results (λ p. Holds (IsPassed red) final.checks p.check.ident) plan results (omega arith)
      (subst (λ rows. All (λ (p, e). Holds (IsPassed red) rows p.check.ident) (zip plan results))
        same held)
