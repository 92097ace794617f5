-- ===== src/Commands/Relocate/Stale.antt =====
-- Nothing that was proved about the old checkout counts at the new one.
use done_means_done.Base.{◌≡◌, false, Option, List, ◌==◌, string_eq, nat_eq, All}
use done_means_done.Host.{Host}
use done_means_done.Assessment.Evidence.{Assessment}
use done_means_done.Task.{Task, Check, check_row}

-- No check of the record passed.
abbrev IsStale : List Check → Type 0
IsStale checks = All (λ c. (c.status == "PASS") ≡ false) checks
