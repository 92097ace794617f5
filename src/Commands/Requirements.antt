-- ===== src/Commands/Requirements.antt =====
-- `dmd req`: `req` of dmdlib/cli.py (lines 82 to 120), as changes of the record.
use done_means_done.Base.{
  Bool, true, false, not, ◌&&◌, Option, none, some, String, ◌<>◌, List, [], ◌∷◌, ◌++◌, map, filter,
  any, contains, unique, ◌==◌, ◌/=◌, string_eq, ◌>>=◌, ◌>>◌, guard,
}
use done_means_done.Base.Text.{has_part}
use done_means_done.Json.{str}
use done_means_done.Host.{Host}
use done_means_done.Storage.{digest}
use done_means_done.Authority.{record_decision, decision_ok, replace}
use done_means_done.Assessment.Evidence.{sorted}
use done_means_done.Commands.{require_text, Context}
use done_means_done.Commands.Quotes.{quoted}
use done_means_done.Task.{
  Task, Work, Requirement, Amendment, no_prior, live, get, new_id, ids, requirement_row, work_row,
  removable_work,
}

-- Whether an amendment stands under a decision that binds its text.
abbrev pub amended : Host → Task → Amendment → Bool
amended h t a = elim (a.source) [
  | none ↦ false
  | some source ↦ decision_ok t a.decision "amend" source (some (digest h (str a.text)))
]

abbrev pub request_texts : Option String → List String
request_texts none = []
request_texts (some text) = text ∷ []

-- The texts that a requirement may quote.
unfoldable pub sources : Host → Task → List String
sources h t =
    request_texts t.original_request
    ++ map (λ (a : Amendment). a.text) (filter (amended h t) t.amendments)

-- `dmd req add`
unfoldable pub add_requirement :
    Host → Option String → Option String → List String → Task → Option Task
add_requirement h text anchor covers t = do
  quote ← require_text anchor
  guard (any (has_part quote) (sources h t))
  outcome ← require_text text
  let r : Requirement = record {
    ident = new_id t.requirements "R";
    text = some outcome;
    anchor = some quote;
    status = "active";
    authority = none;
    attest_only = false;
    attest_only_authority = none;
    covers = sorted (unique covers);
  }
  some (record t { requirements = t.requirements ++ (r ∷ []) })

-- The amendment that a decision about a requirement leaves.
abbrev pub requirement_note : String → String → String → Amendment
requirement_note at text rid = record {
  at = at;
  text = text;
  source = none;
  decision = none;
  requirement = some rid;
  finding = none;
}

-- A changed requirement in its place, with the amendment and the decision that say so.
unfoldable pub decide_requirement :
    Context → String → Requirement → Requirement → String → String → Task → Option Task
decide_requirement ctx op old new words note t = do
  rows ← replace old.ident new t.requirements
  let noted = record t {
    requirements = rows;
    amendments = t.amendments ++ (requirement_note (ctx.now 0) note old.ident ∷ []);
  }
  let prior = record no_prior { requirement = some old; amendment_at = some (ctx.now 0) }
  some (record_decision noted op old.ident words (ctx.now 1) prior none).0

-- `dmd req attest-only`
unfoldable pub accept_attestation : Context → String → Option String → Task → Option Task
accept_attestation ctx rid authority t = do
  r ← get t.requirements rid
  words ← quoted ctx t authority
  decide_requirement ctx "req.attest-only" r
      (record r { attest_only = true; attest_only_authority = some words }) words
      ("attested-only acceptance authorized: " <> words) t

-- Live work of another active requirement that has a prerequisite under this one.
abbrev pub stranded : Task → Requirement → Work → Bool
stranded t r w =
    w.req /= r.ident
    && any (contains (ids (filter (λ (v : Work). v.req == r.ident) t.work))) w.deps
    && elim (get t.requirements w.req) [ none ↦ true | some q ↦ q.status == "active" ]

-- `dmd req cancel`
unfoldable pub cancel_requirement : Context → String → Option String → Task → Option Task
cancel_requirement ctx rid authority t = do
  r ← get t.requirements rid
  guard (not (any (stranded t r) (live t.work)))
  words ← quoted ctx t authority
  decide_requirement ctx "req.cancel" r (record r { status = "removed"; authority = some words })
      words words t
