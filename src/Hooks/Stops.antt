-- ===== src/Hooks/Stops.antt =====
-- What a stop leaves alone, and when an agent may end its turn.
use text.Mathlib.TextEquality.{eq_iff}
use done_means_done.Base.{
  ℕ, suc, ◌≤◌, ◌<◌, ◌≡◌, ◌≢◌, refl, ◌⊎◌, inl, inr, true, false, ◌||◌, Option, some, String, List,
  arith, contains, ltb, ◌==◌, string_eq, Bool-cases, Option-cases, eq_true, if◌then◌else◌,
}
use done_means_done.Base.{[]}
use done_means_done.Host.{Host}
use done_means_done.Storage.Save.{save}
use done_means_done.Check.Definition.{SourceMap, lookup}
use done_means_done.Assessment.Evidence.{Assessment}
use done_means_done.Assessment.Summary.{progress}
use done_means_done.Gate.Verdicts.{evaluate-assessed}
use done_means_done.Task.{Task, Watch, Released}
use done_means_done.Runs.Outputs.{put}
use done_means_done.Hooks.{
  Config, config_errors, Answer, released, go_on, done_states, gained, in_flight, next_count,
  old_count, prune_watches, counted, let_go, watchdog, stop_assessed, gate_of, stop,
}

-- The records are the same but for the state, the watchdogs with the mark of a stop that was let go, and the
-- numbering of changes.
abbrev pub SameObligations : Task → Task → Type 0
SameObligations t u = u ≡ record t {
  state = u.state;
  watchdogs = u.watchdogs;
  released = u.released;
  sequence = u.sequence;
  updated_at = u.updated_at;
  events = u.events;
}

not_done : (s : String) → s ≡ "ACTIVE" → contains done_states s ≡ false
not_done s e =
    ground
      (arith, eq_iff "ACTIVE" "PAUSED", eq_iff "ACTIVE" "CANCELLED", eq_iff "ACTIVE" "COMPLETE")

not_blocked : (s : String) → s ≡ "ACTIVE" → (s == "BLOCKED") ≡ false
not_blocked s e = ground (arith, eq_iff "ACTIVE" "BLOCKED")

not_complete : (s : String) → s ≢ "COMPLETE" → (s == "COMPLETE") ≡ false
not_complete s e = ground arith

enforced : (s : String) → s ≡ "enforce" → ((s == "off") ≡ false) × ((s == "observe") ≡ false)
enforced s e = ground (arith, eq_iff "enforce" "off", eq_iff "enforce" "observe")

module _ (config : Config) (key at : String) (t : Task) where
  -- Bookkeeping and the state are no obligations.
  kept :
      (watches : List (String × Watch)) (letter : Option Released) (state kind : String)
      → SameObligations t
          (save (record t { watchdogs = watches; released = letter; state = state }) kind at)
  unfolding save
  kept watches letter state kind = refl

  unchanged : SameObligations t t
  unchanged = refl

  -- The state stays, or the gate's BLOCKED is written into it.
  abbrev StateKept : String → Task → Type 0
  StateKept status u = (u.state ≡ t.state) ⊎ ((status ≡ "BLOCKED") × (u.state ≡ "BLOCKED"))

  abbrev Keeps : String → Task → Type 0
  Keeps status u = SameObligations t u × StateKept status u

  watchdog-Keeps :
      (a : Assessment) (status : String) → Keeps status (watchdog config key at t a status).0
  unfolding watchdog counted let_go save
  watchdog-Keeps a status = elim (Bool-cases (status == "BLOCKED")) [
    | inl e ↦
        rw (e, watchdog)
          (kept _ _ "BLOCKED" "hook.stop.blocked", inr (eq_true status "BLOCKED" e, refl))
    | inr n ↦ elim (Bool-cases (ltb config.max_no_progress (next_count config key at t a))) [
      | inl e ↦ rw (n, e, watchdog) (kept _ _ t.state "hook.watchdog.release", inl refl)
      | inr e ↦ rw (n, e, watchdog) (kept _ _ t.state "hook.stop.block", inl refl)
    ]
  ]

  stop_assessed-Keeps :
      (a : Assessment) (status : String) → Keeps status (stop_assessed config key at t a status).0
  unfolding stop_assessed save
  stop_assessed-Keeps a status = elim (Bool-cases (contains done_states status)) [
    | inl e ↦ rw (e, stop_assessed) (unchanged, inl refl)
    | inr n ↦ elim (Bool-cases (config.mode == "observe")) [
      | inl e ↦
          rw (n, e, stop_assessed)
            (kept t.watchdogs t.released t.state "hook.stop.observe", inl refl)
      | inr e ↦ rw (n, e, stop_assessed) (watchdog-Keeps a status)
    ]
  ]

  module _ (h : Host) (task_dir : String) (fp : Option SourceMap) where
    abbrev verdict : String
    verdict = (gate_of config key at h task_dir t fp).status

    -- A stop, in every mode and on every branch, leaves the record, in which its session is remembered
    -- already, as it is, but for the watchdogs with the mark of a stop that was let go, the numbering of
    -- changes and the state, which changes only to BLOCKED, where the gate says so.
    pub stop-Keeps :
        SameObligations t (stop config key at h task_dir t fp).0
        × (((stop config key at h task_dir t fp).0.state ≡ t.state)
            ⊎ ((verdict ≡ "BLOCKED") × ((stop config key at h task_dir t fp).0.state ≡ "BLOCKED")))
    unfolding stop
    stop-Keeps = elim (Bool-cases (config.mode == "off" || t.state == "COMPLETE")) [
      | inl e ↦ rw (e, stop) (unchanged, inl refl)
      | inr n ↦ elim (Option-cases (gate_of config key at h task_dir t fp).assessed) [
        | inl e ↦ rw (n, e, stop) (unchanged, inl refl)
        | inr (a, e) ↦ rw (n, e, stop) (stop_assessed-Keeps a verdict)
      ]
    ]

    watchdog_answer :
        (a : Assessment) (status : String)
        → (status == "BLOCKED") ≡ false
        → (watchdog config key at t a status).1 ≡ (
            if ltb config.max_no_progress (next_count config key at t a)
            then released (next_count config key at t a)
            else go_on (next_count config key at t a))
    unfolding watchdog
    watchdog_answer a status n = ground arith

    -- Nothing was verified since the session's last stop, and no run is in flight.
    abbrev pub IsIdle : Assessment → Type 0
    IsIdle a = (gained (progress a) (lookup key t.watchdogs) ≡ false) × (in_flight a ≡ false)

    -- The count of a stop: one more than that of the session's last stop where it is idle, else one.
    abbrev pub IsCount : Assessment → ℕ → Type 0
    IsCount a n =
        (IsIdle a × (n ≡ suc (old_count (lookup key t.watchdogs))))
        ⊎ (((gained (progress a) (lookup key t.watchdogs) || in_flight a) ≡ true) × (n ≡ 1))

    next_count-IsCount : (a : Assessment) → IsCount a (next_count config key at t a)
    unfolding next_count
    next_count-IsCount a = ground arith

    -- The watchdogs with the stop of this session counted.
    abbrev with_count : Assessment → ℕ → List (String × Watch)
    with_count a n =
        prune_watches
          (put key (record { done = some (progress a); count = n; at = at }) t.watchdogs)

    -- The agent goes on with at most `max_no_progress` on its count, which the record keeps, or is let go
    -- above it.
    abbrev pub Held : Assessment → Task × Answer → Type 0
    Held a (u, answer) =
        (n : ℕ) × IsCount a n
        × (((answer ≡ go_on n) × (n ≤ config.max_no_progress) × (u.watchdogs ≡ with_count a n))
            ⊎ ((answer ≡ released n) × (config.max_no_progress < n) × IsIdle a))

    count_above :
        (a : Assessment) (n : ℕ)
        → 1 ≤ config.max_no_progress
        → config.max_no_progress < n
        → IsCount a n
        → IsIdle a
    count_above a n cap above (inl (idle, e)) = idle
    count_above a n cap above (inr (gain, e)) = absurd (omega arith)

    watchdog-Held :
        (a : Assessment) (status : String)
        → (status == "BLOCKED") ≡ false
        → 1 ≤ config.max_no_progress
        → Held a (watchdog config key at t a status)
    unfolding watchdog counted save
    watchdog-Held a status n cap =
        let count = next_count config key at t a in
        elim (Bool-cases (ltb config.max_no_progress count)) [
          | inr e ↦ (
            count,
            next_count-IsCount a,
            inl (rw (n, e, watchdog) refl, ground arith, rw (n, e, watchdog) refl),
          )
          | inl e ↦
              let above : config.max_no_progress < count = ground arith in
              (
                count,
                next_count-IsCount a,
                inr (
                  rw (n, e, watchdog) refl,
                  above,
                  count_above a count cap above (next_count-IsCount a),
                ),
              )
        ]

    stop_assessed-Held :
        (a : Assessment) (status : String)
        → status ≡ "ACTIVE"
        → config.mode ≡ "enforce"
        → 1 ≤ config.max_no_progress
        → Held a (stop_assessed config key at t a status)
    unfolding stop_assessed
    stop_assessed-Held a status active mode cap =
        rw (not_done status active, (enforced config.mode mode).1)
          (watchdog-Held a status (not_blocked status active) cap)

    assessed_of :
        verdict ≡ "ACTIVE"
        → (a : Assessment) × ((gate_of config key at h task_dir t fp).assessed ≡ some a)
    unfolding gate_of
    assessed_of active = evaluate-assessed h task_dir t _ true active

    config_errors_lem : config_errors config ≡ [] → 1 ≤ config.max_no_progress
    unfolding config_errors
    config_errors_lem legal = ground arith

    -- While the gate says ACTIVE, an enforced stop under a legal configuration has a count, which is one
    -- more than that of the session's last stop where nothing was verified since and no run is in flight,
    -- and else one. While it is within the bound, the stop is refused and the count recorded, before the
    -- oldest of too many watchdogs are dropped; above it, which only such idle stops reach, the agent is
    -- let go.
    pub stop-active :
        config.mode ≡ "enforce"
        → config_errors config ≡ []
        → t.state ≢ "COMPLETE"
        → verdict ≡ "ACTIVE"
        → (a : Assessment) × ((gate_of config key at h task_dir t fp).assessed ≡ some a)
          × Held a (stop config key at h task_dir t fp)
    unfolding stop
    stop-active mode legal unfinished active =
        let (a, e) = assessed_of active in
        (
          a,
          e,
          rw ((enforced config.mode mode).0, not_complete t.state unfinished, e, stop)
              (stop_assessed-Held a verdict active mode (config_errors_lem legal)),
        )
