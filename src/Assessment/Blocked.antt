-- ===== src/Assessment/Blocked.antt =====
-- `Assessment._blocked_items` (lines 515 to 543): what waits on an unresolved blocker.
pub mod Waiting
use done_means_done.Base.{
  ℕ, zero, suc, Bool, true, false, not, ◌&&◌, ◌||◌, Option, none, some, String, List, [], ◌∷◌, map,
  ◌==◌, string_eq, contains, filter, any, length, if◌then◌else◌,
}
use done_means_done.Task.{Task, Work, Check, Finding, Blocker}
use done_means_done.Assessment.Evidence.{Assessment, blocker_supported}

-- A work item that waits through its requirement or a prerequisite.
abbrev pub held : List String → Work → Bool
held waiting w = contains waiting w.req || any (contains waiting) w.deps

-- One `for` over the work items, and whether it added one.
unfoldable pub pass : List Work → List String → Bool → List String × Bool
pass [] waiting changed = (waiting, changed)
pass (w ∷ ws) waiting changed =
    let add = not (contains waiting w.ident) && held waiting w in
    pass ws (if add then w.ident ∷ waiting else waiting) (changed || add)

-- The `while changed` loop; `none` means that the fuel ran out.
unfoldable pub spread : List Work → ℕ → List String → Option (List String)
spread works zero waiting = none
spread works (suc n) waiting =
    let (next, changed) = pass works waiting false in
    elim changed [ true ↦ spread works n next | false ↦ some next ]

unfoldable pub add_checks : List Check → List String → List String
add_checks [] waiting = waiting
add_checks (c ∷ cs) waiting =
    add_checks cs (
      if contains waiting c.req || any (contains waiting) c.work
      then c.ident ∷ waiting
      else waiting)

unfoldable pub add_findings : List Finding → List String → List String
add_findings [] waiting = waiting
add_findings (f ∷ fs) waiting = add_findings fs (
    if any (contains waiting) f.work || any (contains waiting) f.checks
    then f.ident ∷ waiting
    else waiting)

module _ (a : Assessment) where
  unfoldable pub directly_blocked : List String
  directly_blocked =
      map (λ b. b.item) (filter (λ b. not b.resolved && blocker_supported a b) a.t.blockers)

  -- Every pass of the loop but the last adds a work item, so one pass more than there are is enough.
  unfoldable pub work_waiting : Option (List String)
  work_waiting = spread a.t.work (suc (length a.t.work)) directly_blocked

  unfoldable pub blocked : List String
  blocked = if contains directly_blocked "task" then "*" ∷ [] else elim (work_waiting) [
    | none ↦ []
    | some waiting ↦ add_findings a.t.findings (add_checks a.t.checks waiting)
  ]

  unfoldable pub waits : String → Bool
  waits owner = contains blocked "*" || contains blocked owner
