-- ===== src/Commands/Review.antt =====
-- `dmd review`: dmdlib/cli.py, lines 606 to 638. A review is accepted only when nothing else is owed; one that
-- is rejected is kept in the log, and the command fails after the record is saved.
pub mod Current
use done_means_done.Base.{
  Bool, true, false, Option, none, some, String, ◌<>◌, [], ◌∷◌, ◌++◌, ◌==◌, string_eq,
  if◌then◌else◌, ◌>>=◌,
}
use done_means_done.Json.{arr, cons, nil, str}
use done_means_done.Storage.{digest}
use done_means_done.Authority.{record_decision}
use done_means_done.Check.Definition.{SourceMap}
use done_means_done.Contract.{artifact_value, review_signature}
use done_means_done.Gate.{evaluate, task_fingerprint}
use done_means_done.Commands.{require_text, Context}
use done_means_done.Task.{Task, Artifact, Review, Reviewed, no_prior}

module _ (ctx : Context) (kind reviewer note : String) (artifact : Artifact) where
  abbrev logged : String → Option Artifact → Reviewed
  logged outcome file = record {
    at = ctx.now 0;
    outcome = outcome;
    kind = kind;
    reviewer = reviewer;
    artifact = file;
  }

  abbrev pub reject : Task → Task
  reject t = record t { review_log = t.review_log ++ (logged "rejected" (some artifact) ∷ []) }

  -- `digest([signature, artifact])`
  abbrev pub review_binding : String → String
  review_binding signature =
      digest ctx.host (arr (cons (str signature) (cons (artifact_value (some artifact)) nil)))

  abbrev pub review_of : String → Option String → Review
  review_of signature decision = record {
    signature = some signature;
    kind = some kind;
    artifact = some artifact;
    decision = decision;
  }

  -- The record with the review, before any decision.
  abbrev pub with_review : String → Task → Task
  with_review signature t = record t {
    review = some (review_of signature none);
    review_log = t.review_log ++ (logged "accepted" none ∷ []);
  }

  -- The decision behind an independent review.
  unfoldable pub decide_review : String → Task → Task
  decide_review signature t =
      let (u, e) =
        record_decision (with_review signature t) "review.independent" "review"
          (reviewer <> (": " <> note)) (ctx.now 1) (record no_prior { review = t.review })
          (some (review_binding signature)) in
      record u { review = some (review_of signature (some e.ident)) }

  unfoldable pub accept_review : SourceMap → Task → Task
  accept_review fp t =
      let signature = review_signature ctx.host t fp in
      if kind == "independent" then decide_review signature t else with_review signature t

-- `review`: the record to save, and whether the review was accepted.
unfoldable pub record_review :
    Context → String → Option String → Option String → Option Artifact → Task → Option (Task × Bool)
record_review ctx kind reviewer note artifact t = do
  fp ← task_fingerprint ctx.host t
  who ← require_text reviewer
  what ← require_text note
  file ← artifact
  some (
      if (evaluate ctx.host ctx.task_dir t (some fp) false).status == "COMPLETE"
      then (accept_review ctx kind who what file fp t, true)
      else (reject ctx kind who what file t, false))
