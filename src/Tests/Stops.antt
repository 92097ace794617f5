-- ===== src/Tests/Stops.antt =====
-- Two stops of the sample tasks.
use done_means_done.Base.{[], ◌≡◌, ◌≢◌, refl, ◌⊎◌, arith, none, some, String}
use text.Mathlib.TextEquality.{eq_iff}
use done_means_done.Tests.{program}
use done_means_done.Tests.Samples.{host, open_task, blocked_task}
use done_means_done.Assessment.Evidence.{Assessment}
use done_means_done.Hooks.{Config, config_errors, gate_of, stop}
use done_means_done.Hooks.Stops.{SameObligations, stop-Keeps, stop-active, Held}

abbrev config : Config
config = record { mode = "enforce"; max_no_progress = 6 }

stop-Keeps_example :
    SameObligations blocked_task (stop config "session" "2026-01-02" host "/s" blocked_task none).0
    × (((stop config "session" "2026-01-02" host "/s" blocked_task none).0.state ≡ "ACTIVE")
        ⊎ (((gate_of config "session" "2026-01-02" host "/s" blocked_task none).status ≡ "BLOCKED")
            × ((stop config "session" "2026-01-02" host "/s" blocked_task none).0.state
                ≡ "BLOCKED")))
stop-Keeps_example = stop-Keeps config "session" "2026-01-02" blocked_task host "/s" none

still_open : (gate_of config "session" "2026-01-02" host "/s" open_task none).status ≡ "ACTIVE"
unfolding program
still_open = refl

legal : config_errors config ≡ []
unfolding program
legal = refl

unfinished : ◌≢◌ {A = String} "ACTIVE" "COMPLETE"
unfinished = ground (arith, eq_iff "ACTIVE" "COMPLETE")

stop-active_example :
    (a : Assessment) × ((gate_of config "session" "2026-01-02" host "/s" open_task none).assessed
      ≡ some a)
    × Held config "session" "2026-01-02" open_task host "/s" none a
        (stop config "session" "2026-01-02" host "/s" open_task none)
stop-active_example =
    stop-active config "session" "2026-01-02" open_task host "/s" none refl legal unfinished
      still_open
