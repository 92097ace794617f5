-- ===== src/Validation/Order.antt =====
-- The dependency test of `validation_errors` (lines 198 to 226): work items are visited in an order
-- in which every prerequisite comes first, by counting the prerequisites that are left.
use done_means_done.Base.{
  ℕ, zero, suc, ◌-◌, Bool, false, not, Option, none, some, String, List, [], ◌∷◌, ◌++◌, map, ◌==◌,
  string_eq, nat_eq, contains, any, filter, length, unique, if◌then◌else◌,
}
use done_means_done.Task.{Task, Work, ids, work_row}

-- `deps`: each work item with its set of prerequisites; unknown ones are an error of their own.
abbrev dependency_set : List String → Work → String × List String
dependency_set works w =
    (w.ident, (if any (λ d. not (contains works d)) w.deps then [] else unique w.deps))

unfoldable pub dependency_sets : Task → List (String × List String)
dependency_sets t = map (dependency_set (ids t.work)) t.work

-- `dependents[d]`
abbrev pub dependents : List (String × List String) → String → List String
dependents deps d = map (λ (w, ds). w) (filter (λ (w, ds). contains ds d) deps)

abbrev pub degrees_of : List (String × List String) → List (String × ℕ)
degrees_of deps = map (λ (w, ds). (w, length ds)) deps

-- `degrees[child] -= 1`, and whether it is now 0
abbrev pub decrement : String → List (String × ℕ) → List (String × ℕ)
decrement child [] = []
decrement child ((w, n) ∷ rest) =
    let more = decrement child rest in if w == child then (w, n - 1) ∷ rest else (w, n) ∷ more

abbrev pub degree : String → List (String × ℕ) → ℕ
degree child [] = 1
degree child ((w, n) ∷ rest) = let more = degree child rest in if w == child then n else more

-- The `for child` loop: the queue grows by each child whose last prerequisite was visited.
unfoldable pub release :
    List String → List String → List (String × ℕ) → List String × List (String × ℕ)
release [] queue degrees = (queue, degrees)
release (child ∷ children) queue degrees =
    let next = decrement child degrees in
    release children (if degree child next == 0 then queue ++ (child ∷ []) else queue) next

-- The `while q` loop: how many work items are visited; `none` means that the fuel ran out.
unfoldable pub visit :
    List (String × List String) → ℕ → List String → List (String × ℕ) → ℕ → Option ℕ
visit deps zero queue degrees visited = none
visit deps (suc n) [] degrees visited = some visited
visit deps (suc n) (w ∷ queue) degrees visited =
    let (queue', degrees') = release (dependents deps w) queue degrees in
    visit deps n queue' degrees' (suc visited)

-- Each work item enters the queue once: one step for each, and one for the empty queue.
unfoldable pub visited_count : Task → Option ℕ
visited_count t =
    let deps = dependency_sets t in
    let ready = map (λ (w, n). w) (filter (λ (w, n). n == 0) (degrees_of deps)) in
    visit deps (suc (length deps)) ready (degrees_of deps) 0

unfoldable pub order_ok : Task → Bool
order_ok t = elim (visited_count t) [ none ↦ false | some n ↦ n == length t.work ]
