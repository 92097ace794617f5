-- ===== src/Assessment/Findings.antt =====
-- `Assessment._findings` (lines 442 to 513): which recorded findings are still open, and why.
pub mod Resolution
pub mod Loop
pub mod Coverage
pub mod Cycles
use done_means_done.Base.{
  ℕ, zero, suc, ◌<>◌, Bool, true, false, not, ◌&&◌, ◌||◌, Option, none, some, String, List, [], ◌∷◌,
  ◌++◌, map, ◌==◌, ◌/=◌, string_eq, option_eq, contains, filter, all, any, is_empty, if◌then◌else◌,
  length,
}
use done_means_done.Host.{Host, Content, bytes, missing, unreadable}
use done_means_done.Storage.{digest, evidence_ok}
use done_means_done.Json.{str, texts, arr, cons, nil, maybe_str}
use done_means_done.FilePath.{FilePath, of_text, to_text, path_name}
use done_means_done.Contract.{source_digest, has_text}
use done_means_done.Authority.{decision_ok, truthy}
use done_means_done.Check.Definition.{SourceMap, single, by_tree, lookup, attested}
use done_means_done.Task.{Task, Finding, Check, finding_row, check_row, get}
use done_means_done.Assessment.Evidence.{
  Assessment, accepted, executed, red_accepted, work_ok, sorted,
}

pub data FindingReason : Type 0 where
  duplicate_cycle missing_target no_rationale no_shared_evidence : FindingReason
  deferral_unauthorized disproof_without_evidence : FindingReason
  disproof_stale : List String → FindingReason
  disproof_unexecuted fix_without_checks work_unverified checks_unaccepted no_red_baseline :
      FindingReason
  remains : String → FindingReason

pub data Next : Type 0 where
  closed : FindingReason → Next
  settled : Next
  link : String → Next

-- The memo of the loop: the open findings with their reasons, and the resolved ones.
pub record Memo : Type 0 where
  pub unresolved : List (String × FindingReason)
  pub resolved : List String

-- `source.file_digest`
unfoldable pub file_digest : Host → String → String
file_digest h path = elim (h.read path) [
  | bytes content ↦ h.sha256 content
  | missing ↦ "missing"
  | unreadable errno ↦ "unreadable:" <> errno
]

module _ (a : Assessment) where
  -- The files that a disproof examined and that have changed since.
  moved_files : List (String × String) → List String
  moved_files binding =
      map path_name
        (sorted (map (λ (p, d). p) (filter (λ (p, d). file_digest a.host p /= d) binding)))

  -- A disproof with no file binding is bound to the whole source map, or to the task root's entry.
  bound_source : SourceMap → Option String → Bool
  bound_source (single fp) source = source == some fp
  bound_source (by_tree fps) source =
      source == some (source_digest a.host (by_tree fps))
      || source == lookup (to_text (of_text a.t.root)) fps

  moved_since : Finding → List String
  unfolding moved_files bound_source
  moved_since f =
      if is_empty f.binding
      then (if bound_source a.fp f.source then [] else "the source tree" ∷ [])
      else moved_files f.binding

  disproof_reason : Finding → Option FindingReason
  unfolding moved_since
  disproof_reason f =
      if not (truthy f.note) || not (evidence_ok a.host a.task_dir f.artifact)
      then some disproof_without_evidence
      else if not (is_empty (moved_since f))
      then some (disproof_stale (moved_since f))
      else if truthy f.confirmed_at && not (any (executed a) f.checks)
      then some disproof_unexecuted
      else none

  is_regression : String → Bool
  is_regression cid = elim (get a.t.checks cid) [ none ↦ false | some c ↦ c.regression ]

  fix_reason : Finding → Option FindingReason
  unfolding is_regression
  fix_reason f =
      let regressions = filter is_regression f.checks in
      if is_empty f.checks || not (truthy f.note)
      then some fix_without_checks
      else if not (all (work_ok a) f.work)
      then some work_unverified
      else if not (all (accepted a) f.checks)
      then some checks_unaccepted
      else if is_empty regressions || not (all (red_accepted a) regressions)
      then some no_red_baseline
      else none

  -- A finding that is no duplicate: why it is open, or `none`.
  unfoldable pub own_reason : Finding → Option FindingReason
  unfolding disproof_reason fix_reason
  own_reason f =
      if f.status == "deferred"
      then (if not (truthy f.note) || not (has_text f.authority)
          then some deferral_unauthorized
          else none)
      else if f.status == "disproved"
      then disproof_reason f
      else if f.status == "fixed-verified"
      then fix_reason f
      else some (remains f.status)

  target_checks : Option String → List String
  target_checks none = []
  target_checks (some fid) = elim (get a.t.findings fid) [ none ↦ [] | some g ↦ g.checks ]

  duplicate_json : Finding → String
  duplicate_json f =
      digest a.host
        (arr (cons (maybe_str f.duplicate) (cons (texts (sorted f.duplicate_checks)) nil)))

  -- What a confirmed duplicate owes: executed checks that it shares with its target, and a decision.
  confirmed_duplicate_ok : Finding → Bool
  unfolding target_checks duplicate_json
  confirmed_duplicate_ok f =
      not (is_empty f.duplicate_checks)
      && all (λ c. contains f.checks c && contains (target_checks f.duplicate) c) f.duplicate_checks
      && all (executed a) f.duplicate_checks
      && evidence_ok a.host a.task_dir f.artifact
      && decision_ok a.t f.duplicate_decision "finding.duplicate" f.ident (some (duplicate_json f))

  -- Why a duplicate does not hand its judgement on to its target, or `none`.
  unfoldable pub link_reason : Finding → Option FindingReason
  unfolding confirmed_duplicate_ok
  link_reason f =
      if not (truthy f.note)
      then some no_rationale
      else if truthy f.confirmed_at && not (confirmed_duplicate_ok f)
      then some no_shared_evidence
      else none

  -- One finding on its own: still open, resolved, or judged by the finding it duplicates.
  link_to : Option String → Next
  link_to none = closed missing_target
  link_to (some target) = link target

  unfoldable pub judge : Finding → Next
  unfolding link_to
  judge f =
      if f.status == "duplicate"
      then elim (link_reason f) [ some r ↦ closed r | none ↦ link_to f.duplicate ]
      else elim (own_reason f) [ some r ↦ closed r | none ↦ settled ]

  -- The `while` loop: from one finding along its duplicate links, with the chain walked so far.
  -- It answers the whole chain and the reason that it is open; `none` means that the fuel ran out.
  unfoldable pub walk :
      ℕ → Memo → List String → String → Option (List String × Option FindingReason)
  walk zero memo chain current = none
  walk (suc n) memo chain current = elim (contains memo.resolved current) [
    | true ↦ some (chain, none)
    | false ↦ elim (lookup current memo.unresolved) [
      | some r ↦ some (chain, some r)
      | none ↦ elim (contains chain current) [
        | true ↦ some (chain, some duplicate_cycle)
        | false ↦ elim (get a.t.findings current) [
          | none ↦ some (chain ++ (current ∷ []), some missing_target)
          | some f ↦ elim (judge f) [
            | closed r ↦ some (chain ++ (current ∷ []), some r)
            | settled ↦ some (chain ++ (current ∷ []), none)
            | link target ↦ walk n memo (chain ++ (current ∷ [])) target
          ]
        ]
      ]
    ]
  ]

  -- The `for` over the chain behind the loop.
  unfoldable pub settle : Memo → List String × Option FindingReason → Memo
  settle memo (chain, some r) = record memo {
    unresolved = memo.unresolved ++ map (λ x. (x, r)) chain;
  }
  settle memo (chain, none) = record memo { resolved = memo.resolved ++ chain }

  -- One round for every finding. A chain visits no finding twice, so one step more than there are
  -- findings is enough fuel.
  unfoldable pub rounds : List Finding → Memo → Option Memo
  rounds [] memo = some memo
  rounds (f ∷ fs) memo = elim (walk (suc (length a.t.findings)) memo [] f.ident) [
    | none ↦ none
    | some out ↦ rounds fs (settle memo out)
  ]

  unfoldable pub open_findings : List (String × FindingReason)
  open_findings = elim (rounds a.t.findings (record { unresolved = []; resolved = [] })) [
    | none ↦ []
    | some memo ↦ memo.unresolved
  ]
