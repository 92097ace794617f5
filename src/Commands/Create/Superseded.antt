-- ===== src/Commands/Create/Superseded.antt =====
-- An assignment that a new one supersedes can be resumed as it was.
use done_means_done.Base.{
  ◌≡◌, refl, sym, ◌∙◌, ap, ◌++◌, Bool, true, false, not, Option, none, some, String, [], ◌∷◌,
  string_eq, >>=-eq-some, guard-eq-some,
}
use mathlib.Core.Path.{subst}
use mathlib.Core.Option.{some-injective}
use done_means_done.Base.Text.{is_identifier, strip}
use done_means_done.Storage.Save.{save}
use done_means_done.Authority.{record_decision}
use done_means_done.Check.Verdict.{is_some}
use done_means_done.Clauses.{extract_clauses}
use done_means_done.Commands.{Context}
use done_means_done.Commands.Quotes.{operator_quote}
use done_means_done.Commands.Decisions.{resume_previous}
use done_means_done.Commands.Create.{
  NewTask, request_of, blank_task, finished, superseding, supersede, create_task,
}
use done_means_done.Task.{Task, Entry, no_prior}

-- The two records of a result.
results :
    {a b u p : Task}
    → (let found : Option (Task × Option Task) = some (a, some b) in found ≡ some (u, some p))
    → (a ≡ u) × (b ≡ p)
results same =
    let pair = some-injective _ _ same in
    (ap (λ x. x.0) pair, some-injective _ _ (ap (λ x. x.1) pair))

not-true : (b : Bool) → not b ≡ true → b ≡ false
not-true false h = refl
not-true true h = sym h

module _ (ctx : Context) (old : Task) where
  -- The old record is paused, and the decision of the new one holds what resumes it.
  pub record IsPaused (t p : Task) : Type 0 where
    pub entry : Entry
    pub only : t.authority ≡ entry ∷ []
    pub paused : p.state ≡ "PAUSED"
    pub resumed : Context → Task
    pub resumes : (later : Context) → resume_previous later entry p ≡ some (resumed later)
    pub same_state : (later : Context) → (resumed later).state ≡ old.state
    pub same_reason : (later : Context) → (resumed later).state_reason ≡ old.state_reason

  abbrev decision : Context → String → Task → Entry
  decision at words t =
      (record_decision t "init.new" old.task_id words (at.now 1)
        (record no_prior { state = some old.state; state_reason = old.state_reason }) none).1

  superseding-IsPaused :
      (words kind at : String) (t : Task)
      → t.authority ≡ []
      → IsPaused (save (superseding ctx words t old).0 kind at) (superseding ctx words t old).1
  unfolding record_decision save resume_previous
  superseding-IsPaused words kind at t blank = record {
    entry = decision ctx words t;
    only = ap (λ es. es ++ decision ctx words t ∷ []) blank;
    paused = refl;
    resumed = λ later.
        save
          (record (superseding ctx words t old).1 {
            state = old.state;
            state_reason = old.state_reason;
          })
          "supersede-withdrawn" (later.now 0);
    resumes = λ later. refl;
    same_state = λ later. refl;
    same_reason = λ later. refl;
  }

  supersede-IsPaused :
      (n : NewTask) (t u p : Task)
      → t.authority ≡ []
      → finished old ≡ false
      → supersede ctx n t (some old) ≡ some (u, some p)
      → (n.is_new ≡ true)
        × (is_some old.running ≡ false)
        × ((kind at : String) → IsPaused (save u kind at) p)
  unfolding supersede
  supersede-IsPaused n t u p blank unfinished ran =
      let (new, h1) = guard-eq-some n.is_new (rw (unfinished, supersede) at ran) in
      let (idle, h2) = guard-eq-some (not (is_some old.running)) h1 in
      let (words, (hw, h3)) =
        >>=-eq-some (operator_quote ctx.host ctx.history n.authorization n.root old.created_at)
          h2 in
      let (same, gone) = results h3 in
      (
        new,
        not-true (is_some old.running) idle,
        λ kind at. subst (IsPaused (save u kind at)) gone (
            subst (λ x. IsPaused (save x kind at) (superseding ctx words t old).1) same
              (superseding-IsPaused words kind at t blank)),
      )

  -- An unfinished assignment is superseded only by `--new`, and not while one of its checks runs; it is then
  -- paused, and the one decision of the new record, when it is withdrawn, gives its state and reason back.
  pub create_task-IsPaused :
      (n : NewTask) (t p : Task)
      → finished old ≡ false
      → create_task ctx n (some old) ≡ some (t, some p)
      → (n.is_new ≡ true) × (is_some old.running ≡ false) × IsPaused t p
  unfolding create_task blank_task
  create_task-IsPaused n t p unfinished made =
      let (request, (hr, h1)) = >>=-eq-some (request_of ctx.host n) made in
      let (named, h2) = guard-eq-some (is_identifier n.task_id) h1 in
      let (clauses, (hc, h3)) =
        >>=-eq-some (extract_clauses ctx.host (ctx.host.redact (strip request)) 1 "request") h2 in
      let (_, h0) = guard-eq-some n.free h3 in
      let blank = blank_task ctx n request clauses in
      let ((u, before), (hs, h4)) = >>=-eq-some (supersede ctx n blank (some old)) h0 in
      let pair = some-injective _ _ h4 in
      let (new, idle, paused) =
        supersede-IsPaused n blank u p refl unfinished
          (hs ∙ ap (λ b. some (u, b)) (ap (λ x. x.1) pair)) in
      (new, idle, subst (λ x. IsPaused x p) (ap (λ x. x.0) pair) (paused "init" (ctx.now 3)))
