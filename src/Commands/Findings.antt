-- ===== src/Commands/Findings.antt =====
-- `dmd finding`: dmdlib/cli.py, lines 429 to 515, as changes of the record.
pub mod Closing
pub mod Chains
use done_means_done.Base.{
  ℕ, zero, suc, Bool, true, false, not, ◌&&◌, ◌||◌, Option, none, some, String, ◌<>◌, List, [], ◌∷◌,
  ◌++◌, map, filter, contains, is_empty, length, unique, ◌==◌, string_eq, if◌then◌else◌, ◌>>=◌,
  ◌>>◌, guard, traverse,
}
use done_means_done.Json.{arr, cons, nil, str, texts}
use done_means_done.Storage.{digest}
use done_means_done.Authority.{record_decision, replace, truthy}
use done_means_done.Source.{location_file}
use done_means_done.Check.Definition.{lookup, value_of}
use done_means_done.Check.Verdict.{is_some}
use done_means_done.Contract.{source_digest}
use done_means_done.Gate.{task_fingerprint}
use done_means_done.Assessment.Evidence.{Assessment, sorted, executed}
use done_means_done.Assessment.Findings.{file_digest, open_findings}
use done_means_done.Commands.{require_text, Context}
use done_means_done.Commands.Quotes.{quoted}
use done_means_done.Commands.Checks.Authoring.{declared_input}
use done_means_done.Commands.Work.{or_keep}
use done_means_done.Task.{Task, Finding, Artifact, Amendment, no_prior, get, new_id, finding_row}

-- A changed finding in its place.
abbrev pub put_finding : Finding → Task → Option Task
put_finding f t = do rows ← replace f.ident f t.findings; some (record t { findings = rows })

abbrev text_or : String → Option String → String
text_or d text = if truthy text then value_of text else d

-- `dmd finding add`
unfoldable pub add_finding :
    Context
    → Option String
    → Option String
    → Option String
    → Option String
    → Option String
    → Task
    → Option Task
add_finding ctx text location origin status note t = do
  guard (contains ("suspected" ∷ "confirmed" ∷ []) (text_or "suspected" status))
  what ← require_text text
  place ← require_text location
  let f : Finding = record {
    ident = new_id t.findings "F";
    text = some what;
    location = some place;
    origin = some (text_or "unknown" origin);
    status = text_or "suspected" status;
    work = [];
    checks = [];
    note = some (text_or "" note);
    confirmed_at = if text_or "suspected" status == "confirmed" then some (ctx.now 0) else none;
    duplicate = none;
    duplicate_checks = [];
    duplicate_decision = none;
    artifact = none;
    authority = none;
    binding = [];
    source = none;
  }
  some (record t { findings = t.findings ++ (f ∷ []) })

abbrev pub resolved_states : List String
resolved_states = "fixed-verified" ∷ "disproved" ∷ "duplicate" ∷ []

abbrev deferral_note : String → String → String → Amendment
deferral_note at words fid = record {
  at = at;
  text = "finding deferred under operator authority: " <> words;
  source = none;
  decision = none;
  requirement = none;
  finding = some fid;
}

-- `dmd finding defer`
unfoldable pub defer_finding : Context → String → Option String → Option String → Task → Option Task
defer_finding ctx fid note authority t = do
  f ← get t.findings fid
  guard (not (contains resolved_states f.status))
  reason ← require_text note
  words ← quoted ctx t authority
  rows ←
      replace f.ident (record f { status = "deferred"; note = some reason; authority = some words })
        t.findings
  let noted = record t {
    findings = rows;
    amendments = t.amendments ++ (deferral_note (ctx.now 0) words f.ident ∷ []);
  }
  some
      (record_decision noted "finding.defer" f.ident words (ctx.now 1)
        (record no_prior { finding = some f; amendment_at = some (ctx.now 0) }) none).0

-- The arguments of `dmd finding set`; `artifact` is the evidence file that was written, if it could be.
pub record FindingArgs : Type 0 where
  pub status : Option String
  pub origin : Option String
  pub work : Option (List String)
  pub checks : Option (List String)
  pub note : Option String
  pub artifact : Option Artifact
  pub inputs : List String
  pub duplicate : Option String

abbrev first_confirmed : Context → FindingArgs → Finding → Option String
first_confirmed ctx args f =
    if truthy args.status && value_of args.status == "confirmed" && not (is_some f.confirmed_at)
    then some (ctx.now 0)
    else f.confirmed_at

-- The finding with what the arguments give.
unfoldable pub edited_finding : Context → FindingArgs → Finding → Finding
edited_finding ctx args f = record f {
  status = text_or f.status args.status;
  confirmed_at = first_confirmed ctx args f;
  origin = if truthy args.origin then args.origin else f.origin;
  work = or_keep f.work args.work;
  checks = or_keep f.checks args.checks;
  note = if truthy args.note then args.note else f.note;
}

abbrev opt_list {ℓ} : {A : Type ℓ} → Option A → List A
opt_list none = []
opt_list (some a) = a ∷ []

module _ (ctx : Context) where
  abbrev pub assessed_now : Task → Option Assessment
  assessed_now t = do
    fp ← task_fingerprint ctx.host t
    some (record { host = ctx.host; task_dir = ctx.task_dir; t = t; fp = fp })

  -- `assess(...).findings.get(id)` is empty.
  unfoldable pub holds : String → Task → Option (Unit {0})
  holds fid t = do a ← assessed_now t; guard (not (is_some (lookup fid (open_findings a))))

  -- A disproof is bound to the files it examined, or else to the whole tree.
  abbrev pub bind_disproof : List String → Finding → Task → Option Finding
  bind_disproof [] f t = do
    fp ← task_fingerprint ctx.host t
    some (record f { binding = []; source = some (source_digest ctx.host fp) })
  bind_disproof (p ∷ ps) f t =
      some (record f { binding = map (λ q. (q, file_digest ctx.host q)) (p ∷ ps); source = none })

  -- The files that a disproof examined: the location, and the inputs.
  abbrev pub examined : Finding → List String → Task → List String
  examined f inputs t =
      sorted (unique (opt_list (location_file ctx.host f.location t.root) ++ inputs))

  unfoldable pub disprove : FindingArgs → Finding → Task → Option Task
  disprove args f t = do
    file ← args.artifact
    inputs ← traverse (declared_input ctx.host t.root) args.inputs
    bound ← bind_disproof (examined f inputs t) (record f { artifact = some file }) t
    u ← put_finding bound t
    holds f.ident u
    some u

  -- The executed checks that both findings name.
  abbrev shared_checks : Assessment → Finding → Finding → List String
  shared_checks a f canonical =
      sorted (unique (filter (executed a) (filter (contains canonical.checks) f.checks)))

  -- A confirmed finding is a duplicate by shared evidence, under a decision of its own.
  abbrev share_evidence : FindingArgs → Finding → Finding → Finding → Task → Option (Task × Finding)
  share_evidence args old f canonical t = if not (truthy f.confirmed_at) then some (t, f) else do
    a ← assessed_now t
    let shared = shared_checks a f canonical
    guard (not (is_empty shared))
    file ← args.artifact
    let binding = digest ctx.host (arr (cons (str canonical.ident) (cons (texts shared) nil)))
    let (u, e) =
        record_decision t "finding.duplicate" f.ident (value_of args.note) (ctx.now 1)
          (record no_prior { finding = some old }) (some binding)
    some (
      u,
      record f {
        artifact = some file;
        duplicate_decision = some e.ident;
        duplicate_checks = shared;
      },
    )

  abbrev pub next_of : Finding → String
  next_of f = if f.status == "duplicate" then value_of f.duplicate else ""

  -- The `while cursor` loop: the chain of duplicates ends, at a finding that is there.
  unfoldable pub chain_ends : ℕ → List String → String → Task → Bool
  chain_ends zero seen cursor t = false
  chain_ends (suc n) seen cursor t =
      if cursor == ""
      then true
      else if contains seen cursor
      then false
      else elim (get t.findings cursor) [
        | none ↦ false
        | some f ↦ chain_ends n (cursor ∷ seen) (next_of f) t
      ]

  unfoldable pub duplicate_of : FindingArgs → Finding → Finding → Task → Option Task
  duplicate_of args old f t = do
    target ← require_text args.duplicate
    canonical ← get t.findings target
    (u, linked) ← share_evidence args old f canonical t
    v ← put_finding (record linked { duplicate = some target }) u
    guard (chain_ends (suc (suc (length v.findings))) [] f.ident v)
    some v

  -- The branch of the new status.
  unfoldable pub by_status : FindingArgs → Finding → Finding → Task → Option Task
  by_status args old f t =
      if f.status == "disproved"
      then disprove args f t
      else if f.status == "duplicate"
      then duplicate_of args old f t
      else if f.status == "fixed-verified"
      then (do holds f.ident t; some t)
      else some t

  -- `dmd finding set`
  unfoldable pub set_finding : String → FindingArgs → Task → Option Task
  set_finding fid args t = do
    old ← get t.findings fid
    guard (not (value_of args.status == "deferred"))
    let f = edited_finding ctx args old
    guard (not (contains resolved_states f.status) || truthy (require_text args.note))
    u ← put_finding f t
    by_status args old f u
