-- ===== src/Hooks.antt =====
-- dmdlib/hooks.py: what the host is answered when an agent stops or closes a task (lines 113 to 117 and
-- 215 to 307). `none` for the fingerprint lets the gate take its own; the session's key is its digest.
pub mod Stops
use done_means_done.Base.{
  ℕ, suc, ◌-◌, Bool, true, false, not, ◌&&◌, ◌||◌, Option, none, some, String, List, [], ◌∷◌, map,
  filter, any, take, length, contains, is_empty, ltb, leb, when, ◌++◌, ◌==◌, ◌/=◌, string_eq,
  option_eq, bool_eq, if◌then◌else◌,
}
use done_means_done.Base.Text.{text_lt, first_chars}
use done_means_done.Host.{Host}
use done_means_done.Storage.Save.{save}
use done_means_done.Check.Definition.{SourceMap, lookup}
use done_means_done.Check.Verdict.{is_some}
use done_means_done.Assessment.Evidence.{Assessment, work_ok, runner_alive}
use done_means_done.Assessment.Summary.{progress}
use done_means_done.Assessment.Actions.{suspended}
use done_means_done.Gate.{Gate, evaluate, effective_state}
use done_means_done.Runs.Outputs.{put}
use done_means_done.Task.{Task, Watch, Released}

pub record Config : Type 0 where
  pub mode : String
  pub max_no_progress : ℕ

pub data ConfigError : Type 0 where
  invalid_mode invalid_safeguard : ConfigError

-- `config_errors` of dmdlib/store.py
unfoldable pub config_errors : Config → List ConfigError
config_errors c =
    when (not (contains ("off" ∷ "observe" ∷ "enforce" ∷ []) c.mode)) invalid_mode
    ++ when (not (leb 1 c.max_no_progress && leb c.max_no_progress 6)) invalid_safeguard

-- The answer to a stop: let through in silence, observed, reported as blocked, let through because
-- nothing was verified in so many stops, or refused so that the agent goes on.
pub data Answer : Type 0 where
  silent observed reported_blocked : Answer
  released go_on : ℕ → Answer

abbrev pub max_watchdogs : ℕ
max_watchdogs = 50

-- The keys of the watchdogs, by the time of their last stop; equal times keep their order.
abbrev insert_watch : String × Watch → List (String × Watch) → List (String × Watch)
insert_watch (k, w) [] = (k, w) ∷ []
insert_watch (k, w) ((j, v) ∷ rest) =
    let later = insert_watch (k, w) rest in
    if text_lt v.at w.at then (j, v) ∷ later else (k, w) ∷ (j, v) ∷ rest

abbrev by_time : List (String × Watch) → List (String × Watch)
by_time [] = []
by_time ((k, w) ∷ rest) = insert_watch (k, w) (by_time rest)

abbrev oldest : List (String × Watch) → List String
oldest watches = take (length watches - max_watchdogs) (map (λ (k, _). k) (by_time watches))

-- The bound on the number of sessions that are remembered.
unfoldable pub prune_watches : List (String × Watch) → List (String × Watch)
prune_watches watches = filter (λ (k, _). not (contains (oldest watches) k)) watches

-- `set(progress) - set(done)` is not empty
abbrev pub gains : List String → List String → Bool
gains reached before = any (λ x. not (contains before x)) reached

abbrev is_gain : List String → Option (List String) → Bool
is_gain reached none = true
is_gain reached (some before) = gains reached before

abbrev pub gained : List String → Option Watch → Bool
gained reached none = true
gained reached (some old) = is_gain reached old.done

abbrev pub old_count : Option Watch → ℕ
old_count none = 0
old_count (some old) = old.count

-- `task.pop("released")`, where something was verified since
abbrev still_released : List String → Option Released → Option Released
still_released reached none = none
still_released reached (some r) = if gains reached r.done then none else some r

abbrev pub done_states : List String
done_states = "PAUSED" ∷ "CANCELLED" ∷ "COMPLETE" ∷ []

abbrev pub in_flight : Assessment → Bool
in_flight a = is_some a.t.running && runner_alive a /= some false

module _ (config : Config) (key at : String) where
  -- The count of this stop: the stops of the session since something was verified.
  unfoldable pub next_count : Task → Assessment → ℕ
  next_count t a =
      let old = lookup key t.watchdogs in
      if gained (progress a) old || in_flight a then 1 else suc (old_count old)

  abbrev watch_of : Assessment → ℕ → Watch
  watch_of a count = record { done = some (progress a); count = count; at = at }

  -- The task with this stop counted.
  unfoldable pub counted : Task → Assessment → Task
  counted t a = record t {
    watchdogs = prune_watches (put key (watch_of a (next_count t a)) t.watchdogs);
    released = still_released (progress a) t.released;
  }

  -- The task whose stop is let through: its count starts again.
  unfoldable pub let_go : Task → Assessment → Task
  let_go t a = record (counted t a) {
    released = some (record {
      at = at;
      session = first_chars 12 key;
      count = next_count t a;
      done = progress a;
    });
    watchdogs = put key (watch_of a 0) (counted t a).watchdogs;
  }

  unfoldable pub watchdog : Task → Assessment → String → Task × Answer
  watchdog t a status =
      if status == "BLOCKED"
      then (
        save (record (counted t a) { state = "BLOCKED" }) "hook.stop.blocked" at,
        reported_blocked,
      )
      else if ltb config.max_no_progress (next_count t a)
      then (save (let_go t a) "hook.watchdog.release" at, released (next_count t a))
      else (save (counted t a) "hook.stop.block" at, go_on (next_count t a))

  unfoldable pub stop_assessed : Task → Assessment → String → Task × Answer
  stop_assessed t a status =
      if contains done_states status
      then (t, silent)
      else if config.mode == "observe"
      then (save t "hook.stop.observe" at, observed)
      else watchdog t a status

  -- The fingerprint that the gate is given: none for a suspended task.
  abbrev given : Task → Option SourceMap → Option SourceMap
  given t fp = if suspended (effective_state t) then none else fp

  unfoldable pub gate_of : Host → String → Task → Option SourceMap → Gate
  gate_of h task_dir t fp = evaluate h task_dir t (given t fp) true

  -- The Stop event, on the task as it is under the lock, once `remember_session` has added the session.
  unfoldable pub stop : Host → String → Task → Option SourceMap → Task × Answer
  stop h task_dir t fp =
      if config.mode == "off" || t.state == "COMPLETE"
      then (t, silent)
      else elim ((gate_of h task_dir t fp).assessed) [
        | none ↦ (t, silent)
        | some a ↦ stop_assessed t a (gate_of h task_dir t fp).status
      ]

  -- The TaskCompleted event: whether the host's task may be closed. A task of the host that no work
  -- item is mapped to, or that cannot be judged, is not held.
  unfoldable pub task_completed : Host → String → Task → Option SourceMap → String → Task × Bool
  task_completed h task_dir t fp host_id =
      if config.mode == "off" || t.state == "COMPLETE"
      then (t, true)
      else elim (lookup host_id t.host_map) [
        | none ↦ (t, true)
        | some work ↦ elim ((gate_of h task_dir t fp).assessed) [
          | none ↦ (t, true)
          | some a ↦ (
            save t "hook.task-completed" at,
            not (config.mode == "enforce" && not (work_ok a work)),
          )
        ]
      ]
