-- ===== src/Commands/Create.antt =====
-- `create_task` of dmdlib/store.py, as far as it makes records: the new one, and the one that it supersedes.
pub mod Superseded
use done_means_done.Base.{
  Bool, true, false, not, ◌&&◌, ◌||◌, Option, none, some, String, List, [], ◌∷◌, contains, is_empty,
  ◌==◌, string_eq, option_eq, if◌then◌else◌, ◌>>=◌, ◌>>◌, guard,
}
use done_means_done.Base.Text.{is_identifier, strip}
use done_means_done.Json.{Json, str, dict}
use done_means_done.Host.{Host}
use done_means_done.Storage.{digest}
use done_means_done.Storage.Save.{save}
use done_means_done.Authority.{record_decision}
use done_means_done.Check.Verdict.{is_some}
use done_means_done.Validation.{validation_errors}
use done_means_done.Clauses.{extract_clauses}
use done_means_done.Commands.{Context}
use done_means_done.Commands.Quotes.{operator_quote}
use done_means_done.Task.{Task, Clause, no_prior}

-- `captured_prompt`, where the file is there and consistent.
pub record Captured : Type 0 where
  pub session : String
  pub text : String
  pub digest : String
  pub at : String

-- The arguments of `create_task`; `root` is the worktree's, `task_id` is an ID even where none was given, and
-- `free` says that no record has it.
pub record NewTask : Type 0 where
  pub root : String
  pub task_id : String
  pub request : String
  pub authorization : Option String
  pub session : Option String
  pub is_new : Bool
  pub require_review : Bool
  pub captured : Option Captured
  pub from_host : Bool
  pub free : Bool

-- The request: what the host captured, if it did.
unfoldable pub request_of : Host → NewTask → Option String
request_of h n = elim (n.captured) [
  | none ↦ if n.from_host then none else some n.request
  | some c ↦ if n.from_host || h.redact (strip n.request) == c.text then some c.text else none
]

abbrev provenance : Host → Option Captured → String → Json
provenance h none request = dict (
    ("kind", str "agent-transcribed")
    ∷ ("digest", str (digest h (str (h.redact (strip request)))))
    ∷ [])
provenance h (some c) request = dict (
    ("kind", str "host-captured")
    ∷ ("session", str c.session)
    ∷ ("digest", str c.digest)
    ∷ ("at", str c.at)
    ∷ [])

abbrev session_keys : Host → Option String → List String
session_keys h none = []
session_keys h (some session) = if session == "" then [] else digest h (str session) ∷ []

abbrev redacted : Host → Option String → String
redacted h none = h.redact "None"
redacted h (some text) = h.redact text

-- The record before anything is done.
unfoldable pub blank_task : Context → NewTask → String → List Clause → Task
blank_task ctx n request clauses = record {
  schema = 2;
  task_id = n.task_id;
  root = n.root;
  state = "ACTIVE";
  state_reason = none;
  created_at = ctx.now 0;
  original_request = some (ctx.host.redact (strip request));
  request_provenance = some (provenance ctx.host n.captured request);
  authorization = some (redacted ctx.host n.authorization);
  amendments = [];
  requirements = [];
  work = [];
  checks = [];
  findings = [];
  blockers = [];
  uncertain = [];
  clauses = some clauses;
  approvals = [];
  authority = [];
  coverage = none;
  review = none;
  review_log = [];
  require_independent_review = n.require_review;
  running = none;
  attempts = [];
  sessions = session_keys ctx.host n.session;
  watchdogs = [];
  released = none;
  host_map = [];
  sequence = 0;
  updated_at = "";
  events = [];
}

abbrev pub finished : Task → Bool
finished t = contains ("COMPLETE" ∷ "CANCELLED" ∷ []) t.state

-- The new record with the decision that supersedes an unfinished one, and that one, paused.
abbrev pub superseding : Context → String → Task → Task → Task × Task
superseding ctx words t old =
    let (u, e) =
      record_decision t "init.new" old.task_id words (ctx.now 1)
        (record no_prior { state = some old.state; state_reason = old.state_reason }) none in
    (u, save (record old { state = "PAUSED" }) "superseded-active-pointer" (ctx.now 2))

-- What becomes of the task that the worktree had.
unfoldable pub supersede : Context → NewTask → Task → Option Task → Option (Task × Option Task)
supersede ctx n t none = some (t, none)
supersede ctx n t (some old) = if finished old then some (t, some old) else do
  guard n.is_new
  guard (not (is_some old.running))
  words ← operator_quote ctx.host ctx.history n.authorization n.root old.created_at
  let (u, paused) = superseding ctx words t old
  some (u, some paused)

-- `create_task`, with the task that the worktree has: the new record as it is saved, and the old one.
unfoldable pub create_task : Context → NewTask → Option Task → Option (Task × Option Task)
create_task ctx n old = do
  request ← request_of ctx.host n
  guard (is_identifier n.task_id)
  clauses ← extract_clauses ctx.host (ctx.host.redact (strip request)) 1 "request"
  guard n.free
  (t, before) ← supersede ctx n (blank_task ctx n request clauses) old
  some (save t "init" (ctx.now 3), before)
