-- ===== src/Commands/Blockers.antt =====
-- `dmd blocker` and `dmd uncertain`: dmdlib/cli.py, lines 518 to 554, as changes of the record.
use done_means_done.Base.{
  true, false, Option, none, some, String, List, [], ◌∷◌, ◌++◌, contains, ◌==◌, string_eq,
  if◌then◌else◌, ◌>>=◌, ◌>>◌, guard,
}
use done_means_done.Host.{Host}
use done_means_done.Storage.{digest}
use done_means_done.Authority.{record_decision, replace}
use done_means_done.Check.Definition.{value_of}
use done_means_done.Contract.{artifact_value}
use done_means_done.Commands.{require_text}
use done_means_done.Task.{
  Task, Blocker, Artifact, no_prior, get, new_id, ids, requirement_row, work_row, check_row,
  finding_row, blocker_row, uncertain_row,
}

abbrev known_items : Task → List String
known_items t =
    ids t.requirements ++ (ids t.work ++ (ids t.checks ++ (ids t.findings ++ ("task" ∷ []))))

-- The decision behind a blocker of the whole task.
abbrev with_decision : Host → String → String → Blocker → Task → Task
with_decision h at proof b t =
    let (u, e) =
      record_decision t "blocker.task" b.ident proof at no_prior
        (some (digest h (artifact_value b.artifact))) in
    record u { blockers = t.blockers ++ (record b { decision = some e.ident } ∷ []) }

-- `dmd blocker add`, with the evidence file that was written
unfoldable pub add_blocker :
    Host
    → String
    → Option String
    → Option String
    → Option String
    → Option String
    → Option String
    → Artifact
    → Task
    → Option Task
add_blocker h at item text owner unblock proof artifact t = do
  target ← require_text item
  guard (contains (known_items t) target)
  missing ← require_text text
  who ← require_text owner
  how ← require_text unblock
  shown ← require_text proof
  let b : Blocker = record {
    ident = new_id t.blockers "B";
    item = target;
    text = some missing;
    owner = some who;
    unblock = some how;
    proof = some shown;
    artifact = some artifact;
    decision = none;
    resolved = false;
    resolution = none;
  }
  some (
      if target == "task"
      then with_decision h at (value_of proof) b t
      else record t { blockers = t.blockers ++ (b ∷ []) })

-- `dmd blocker resolve`
unfoldable pub resolve_blocker : String → Option String → Task → Option Task
resolve_blocker bid proof t = do
  b ← get t.blockers bid
  shown ← require_text proof
  rows ← replace bid (record b { resolution = some shown; resolved = true }) t.blockers
  some (record t { blockers = rows })

-- `dmd uncertain add`
unfoldable pub add_uncertain : Option String → Task → Option Task
add_uncertain text t = do
  what ← require_text text
  some (record t {
    uncertain =
        t.uncertain
        ++ (record {
          ident = new_id t.uncertain "U";
          text = some what;
          proof = none;
          resolved = false;
        }
            ∷ []);
  })

-- `dmd uncertain resolve`
unfoldable pub resolve_uncertain : String → Option String → Task → Option Task
resolve_uncertain uid proof t = do
  u ← get t.uncertain uid
  shown ← require_text proof
  rows ← replace uid (record u { proof = some shown; resolved = true }) t.uncertain
  some (record t { uncertain = rows })
