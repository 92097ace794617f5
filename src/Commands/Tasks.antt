-- ===== src/Commands/Tasks.antt =====
-- The commands that change the task itself: `other` of dmdlib/cli.py (lines 677 to 755), and `remember_session`
-- of dmdlib/store.py.
use done_means_done.Base.{
  ℕ, suc, Bool, true, not, ◌&&◌, ◌||◌, Option, none, some, String, ◌<>◌, List, [], ◌∷◌, ◌++◌,
  last_n, length, contains, ◌==◌, ◌/=◌, string_eq, option_eq, nat_eq, bool_eq, if◌then◌else◌, ◌>>=◌,
  ◌>>◌, guard,
}
use Prim.Native.Char.{code}
use done_means_done.Base.Text.{strip}
use done_means_done.Json.{str}
use done_means_done.Host.{Host}
use done_means_done.Storage.{digest, pid_alive}
use done_means_done.Authority.{record_decision, truthy}
use done_means_done.Check.Definition.{lookup, value_of}
use done_means_done.Runs.Outputs.{put}
use done_means_done.Clauses.{extract_clauses}
use done_means_done.Commands.{require_text, Context}
use done_means_done.Commands.Quotes.{quoted}
use done_means_done.Task.{
  Task, Amendment, Attempt, Clause, no_prior, get, ids, requirement_row, work_row, check_row,
  finding_row,
}

-- `args.authority or other`
abbrev pub or_text : Option String → Option String → String
or_text authority other = if truthy authority then value_of authority else value_of other

-- The clauses with those of an amendment; an old record has none.
abbrev pub amended_clauses : Host → Option String → String → Task → Option (Option (List Clause))
amended_clauses h text source t = elim (t.clauses) [
  | none ↦ some none
  | some clauses ↦ extract_clauses h (value_of text) (suc (length clauses)) source >>= λ more.
      some (some (clauses ++ more))
]

-- The record with an amendment, under a decision that binds its text; and the amendment.
abbrev pub amended_task : Context → String → String → Option (List Clause) → Task → Task × Amendment
amended_task ctx scope words clauses t =
    let source = "amendment " <> ctx.now 0 in
    let (u, e) =
      record_decision t "amend" source words (ctx.now 1)
        (record no_prior { amendment_at = some (ctx.now 0); source = some source })
        (some (digest ctx.host (str scope))) in
    let a : Amendment = record {
      at = ctx.now 0;
      text = scope;
      source = some source;
      decision = some e.ident;
      requirement = none;
      finding = none;
    } in
    (record u { amendments = t.amendments ++ (a ∷ []); clauses = clauses }, a)

-- `dmd amend`: more of the operator's request.
unfoldable pub amend : Context → Option String → Option String → Task → Option Task
amend ctx text authority t = do
  scope ← require_text text
  clauses ← amended_clauses ctx.host text ("amendment " <> ctx.now 0) t
  some (amended_task ctx scope (or_text authority text) clauses t).0

-- `dmd review-policy`: a self review is in the operator's words.
unfoldable pub set_review_policy : Context → String → Option String → Task → Option Task
set_review_policy ctx policy authority t = do
  words ← if policy == "self" then quoted ctx t authority else require_text authority
  some
      (record_decision (record t { require_independent_review = policy == "independent" })
        "review-policy" "review-policy" words (ctx.now 0)
        (record no_prior { require_independent_review = t.require_independent_review }) none).0

-- `dmd state`: pausing and cancelling are in the operator's words.
unfoldable pub set_state : Context → String → Option String → Option String → Task → Option Task
set_state ctx status reason authority t = do
  why ← require_text reason
  guard (not (status == "ACTIVE" && (t.state == "CANCELLED" && not (truthy authority))))
  words ←
      if status /= "ACTIVE" && t.state /= status
      then quoted ctx t authority
      else some (or_text authority reason)
  let moved = record t {
    state = status;
    state_reason = reason;
    watchdogs = if status == "ACTIVE" then [] else t.watchdogs;
  }
  some (
      if t.state /= status
      then (record_decision moved "state" status words (ctx.now 0)
          (record no_prior { state = some t.state; state_reason = t.state_reason }) none).0
      else moved)

-- `item.split("-", 1)[0]`
abbrev prefix_of : String → String
prefix_of String.[] = ""
prefix_of (String.◌∷◌ c s) =
    let rest = prefix_of s in if code c == b'-' then "" else String.◌∷◌ c rest

-- The IDs of the rows that an attempt at an item may name.
abbrev attempted : Task → String → List String
attempted t item =
    let prefix = prefix_of item in
    if prefix == "R"
    then ids t.requirements
    else if prefix == "W"
    then ids t.work
    else if prefix == "A"
    then ids t.checks
    else if prefix == "F"
    then ids t.findings
    else []

abbrev history_of : String → Task → List Attempt
history_of item t = elim (lookup item t.attempts) [ none ↦ [] | some history ↦ history ]

-- `dmd attempt`
unfoldable pub add_attempt_at :
    Context → String → Option String → Option String → Task → Option Task
add_attempt_at ctx item signature strategy t = do
  guard (contains (attempted t item) item)
  seen ← require_text signature
  let a : Attempt = record {
    at = ctx.now 0;
    signature = some (digest ctx.host (str (strip seen)));
    failure = some (ctx.host.redact (value_of signature));
    strategy = strategy;
  }
  some (record t { attempts = put item (history_of item t ++ (a ∷ [])) t.attempts })

abbrev pub max_sessions : ℕ
max_sessions = 50

-- `remember_session`
unfoldable pub remember_session : Host → String → Task → Task
remember_session h session t =
    let key = digest h (str session) in
    if contains t.sessions session || contains t.sessions key
    then t
    else record t { sessions = last_n max_sessions (t.sessions ++ (key ∷ [])) }

-- Whether another work item has the host's task already.
abbrev taken : String → Option String → Bool
taken wid old = truthy old && old /= some wid

-- `dmd map-host-task`
unfoldable pub map_host_task : String → Option String → Task → Option Task
map_host_task wid host_id t = do
  w ← get t.work wid
  guard (not (taken wid (lookup (value_of host_id) t.host_map)))
  key ← require_text host_id
  some (record t { host_map = put key wid t.host_map })

-- `dmd recover-run`, with the lock on runs held: only a run whose runner is not known to live is dropped.
unfoldable pub recover_run : Host → Option String → Task → Option Task
recover_run h proof t = do
  r ← t.running
  shown ← require_text proof
  guard (pid_alive h r.pid r.host /= some true)
  some (record t { running = none })
