-- ===== src/Contract.antt =====
-- dmdlib/model.py, lines 101 to 122 and 371 to 380: the contract, and what a final review signs.
use done_means_done.Base.{
  pos, Bool, true, false, not, ◌&&◌, Option, none, some, String, List, [], ◌∷◌, map, string_eq,
  contains, filter, for_each, if◌then◌else◌,
}
use done_means_done.Base.Text.{nonblank}
use done_means_done.Json.{
  Json, bool, num, str, obj, end, field, fields, dict, texts, array, maybe, maybe_str, optional,
  Fields,
}
use done_means_done.Host.{Host}
use done_means_done.Storage.{digest}
use done_means_done.Check.Definition.{definition_fields, SourceMap, single, by_tree}
use done_means_done.Check.Verdict.{evidence_identity}
use done_means_done.Task.{
  Task, Artifact, Amendment, Requirement, Work, Check, Finding, Blocker, Uncertain, Clause,
}

-- `_text`: whether a required text is there.
abbrev pub has_text : Option String → Bool
has_text none = false
has_text (some s) = nonblank s

abbrev pub clauses_of : Task → List Clause
clauses_of t = elim (t.clauses) [ none ↦ [] | some clauses ↦ clauses ]

unfoldable pub unmapped_clauses : Task → List Clause
unmapped_clauses t =
    let covered = for_each t.requirements (λ r. r.covers) in
    filter (λ c. not (contains covered c.ident) && not (has_text c.context)) (clauses_of t)

-- A row as it stands in task.json; a key that is null is left out.
artifact_json : Artifact → Json
artifact_json a =
    dict (("path", str a.path) ∷ ("sha256", str a.sha256) ∷ ("bytes", num (pos a.bytes)) ∷ [])

amendment_json : Amendment → Json
amendment_json a = obj (
    fields (("at", str a.at) ∷ ("text", str a.text) ∷ []) (
      optional "source" str a.source (
        optional "decision" str a.decision
          (optional "requirement" str a.requirement (optional "finding" str a.finding end)))))

flag : String → Bool → Fields → Fields
flag key set rest = if set then field key (bool true) rest else rest

requirement_json : Requirement → Json
unfolding flag
requirement_json r = obj (
    fields
      (("id", str r.ident)
        ∷ ("text", maybe_str r.text)
        ∷ ("anchor", maybe_str r.anchor)
        ∷ ("status", str r.status)
        ∷ ("covers", texts r.covers)
        ∷ [])
      (optional "authority" str r.authority (
        flag "attest_only" r.attest_only
          (optional "attest_only_authority" str r.attest_only_authority end))))

work_json : Work → Json
unfolding flag
work_json w = obj (
    fields
      (("id", str w.ident)
        ∷ ("req", str w.req)
        ∷ ("text", maybe_str w.text)
        ∷ ("deps", texts w.deps)
        ∷ ("owns", texts w.owns)
        ∷ [])
      (flag "removed" w.removed end))

contract_check : Check → Json
contract_check c = obj (definition_fields c (field "removed" (bool c.removed) end))

clause_json : Clause → Json
clause_json c =
    dict (("id", str c.ident) ∷ ("text", maybe_str c.text) ∷ ("context", maybe_str c.context) ∷ [])

contract_finding : Finding → Json
contract_finding f = dict (
    ("id", str f.ident)
    ∷ ("text", maybe_str f.text)
    ∷ ("location", maybe_str f.location)
    ∷ ("origin", maybe_str f.origin)
    ∷ [])

unfoldable pub contract : Task → Json
unfolding amendment_json requirement_json work_json contract_check clause_json contract_finding
contract t = obj (
    optional "clauses" (array clause_json) t.clauses (
      fields
        (("request", maybe_str t.original_request)
          ∷ ("request_provenance", maybe (λ v. v) t.request_provenance)
          ∷ ("review_policy", bool t.require_independent_review)
          ∷ ("amendments", array amendment_json t.amendments)
          ∷ ("requirements", array requirement_json t.requirements)
          ∷ ("work", array work_json t.work)
          ∷ ("checks", array contract_check t.checks)
          ∷ ("attest_only", texts (map (λ r. r.ident) (filter (λ r. r.attest_only) t.requirements)))
          ∷ ("findings", array contract_finding t.findings)
          ∷ [])
        end))

binding_fields : List (String × String) → Fields
binding_fields [] = end
binding_fields ((path, value) ∷ rest) = field path (str value) (binding_fields rest)

finding_json : Finding → Json
unfolding artifact_json binding_fields
finding_json f = obj (
    fields
      (("id", str f.ident)
        ∷ ("text", maybe_str f.text)
        ∷ ("location", maybe_str f.location)
        ∷ ("origin", maybe_str f.origin)
        ∷ ("status", str f.status)
        ∷ ("work", texts f.work)
        ∷ ("checks", texts f.checks)
        ∷ ("duplicate_checks", texts f.duplicate_checks)
        ∷ ("binding", obj (binding_fields f.binding))
        ∷ [])
      (optional "note" str f.note (
        optional "confirmed_at" str f.confirmed_at (
          optional "duplicate" str f.duplicate (
            optional "duplicate_decision" str f.duplicate_decision (
              optional "artifact" artifact_json f.artifact
                (optional "authority" str f.authority (optional "source" str f.source end))))))))

blocker_json : Blocker → Json
unfolding artifact_json
blocker_json b = obj (
    fields
      (("id", str b.ident)
        ∷ ("item", str b.item)
        ∷ ("text", maybe_str b.text)
        ∷ ("owner", maybe_str b.owner)
        ∷ ("unblock", maybe_str b.unblock)
        ∷ ("proof", maybe_str b.proof)
        ∷ ("resolved", bool b.resolved)
        ∷ [])
      (optional "artifact" artifact_json b.artifact
        (optional "decision" str b.decision (optional "resolution" str b.resolution end))))

uncertain_json : Uncertain → Json
uncertain_json u = obj (
    fields (("id", str u.ident) ∷ ("text", maybe_str u.text) ∷ ("resolved", bool u.resolved) ∷ [])
      (optional "proof" str u.proof end))

unfoldable pub source_json : SourceMap → Json
unfolding binding_fields
source_json (single fp) = str fp
source_json (by_tree fps) = obj (binding_fields fps)

work_state : Work → Json
work_state w =
    dict (("id", str w.ident) ∷ ("status", str w.status) ∷ ("removed", bool w.removed) ∷ [])

check_state : Check → Json
check_state c = dict (
    ("id", str c.ident)
    ∷ ("status", str c.status)
    ∷ ("removed", bool c.removed)
    ∷ ("receipt", evidence_identity c.receipt)
    ∷ ("red", evidence_identity c.red)
    ∷ ("baseline", evidence_identity c.baseline)
    ∷ [])

unfoldable pub artifact_value : Option Artifact → Json
unfolding artifact_json
artifact_value a = maybe artifact_json a

module _ (h : Host) where
  unfoldable pub contract_digest : Task → String
  contract_digest t = digest h (contract t)

  unfoldable pub source_digest : SourceMap → String
  source_digest fps = digest h (source_json fps)

  -- What `review_signature` hashes.
  unfoldable pub reviewed : Task → SourceMap → Json
  unfolding work_state check_state finding_json blocker_json uncertain_json
  reviewed t fp = dict (
      ("contract", str (contract_digest t))
      ∷ ("source", source_json fp)
      ∷ ("work", array work_state t.work)
      ∷ ("checks", array check_state t.checks)
      ∷ ("findings", array finding_json t.findings)
      ∷ ("blockers", array blocker_json t.blockers)
      ∷ ("uncertain", array uncertain_json t.uncertain)
      ∷ [])

  unfoldable pub review_signature : Task → SourceMap → String
  review_signature t fp = digest h (reviewed t fp)
