-- ===== src/Validation.antt =====
-- `validation_errors` of dmdlib/model.py (lines 156 to 283): what makes a task record invalid. The tests
-- of a value's Python type are the types of Task.antt; the others are here, in the source's order.
pub mod Order
use done_means_done.Json.{Number, whole, float}
use done_means_done.Base.{
  zero, ◌+◌, ℕ, ℤ, pos, negsuc, suc, Bool, true, false, not, ◌&&◌, ◌||◌, Option, none, some, String,
  List, [], ◌∷◌, ◌++◌, map, ◌==◌, ◌/=◌, string_eq, nat_eq, option_eq, ltb, leb, contains, any, all,
  for_each, when, is_empty, is_nodup, if◌then◌else◌,
}
use done_means_done.Base.Text.{is_id, is_identifier, nonblank}
use Order.{order_ok}
use done_means_done.Authority.{truthy}
use done_means_done.Contract.{has_text, clauses_of}
use done_means_done.Check.Verdict.{is_some}
use done_means_done.FilePath.{of_text, is_absolute}
use done_means_done.Task.{
  Task, Requirement, Work, Check, Finding, Blocker, Clause, ids, get, requirement_row, work_row,
  check_row, finding_row, blocker_row, uncertain_row, clause_row, Row,
}

-- The texts of the errors; a row's error carries the row's ID.
pub data Invalid : Type 0 where
  unsupported_schema invalid_state invalid_root no_request : Invalid
  invalid_rows duplicate_ids : String → Invalid
  no_text bad_status removal_unauthorized attest_unauthorized : String → Invalid
  bad_work no_rationale missing_dependency duplicate_dependency : String → Invalid
  dependency_cycle : Invalid
  bad_owner bad_mapping foreign_work no_expectation command_attested no_command bad_timeout :
      String → Invalid
  bad_output_limit bad_regression bad_candidate bad_globs bad_tags bad_check_status :
      String → Invalid
  bad_disposition no_location no_canonical no_remediation : String → Invalid
  invalid_items : Invalid
  unknown_item incomplete_blocker : String → Invalid

abbrev pub task_states : List String
task_states = "ACTIVE" ∷ "PAUSED" ∷ "BLOCKED" ∷ "CANCELLED" ∷ "COMPLETE" ∷ []

abbrev pub work_states : List String
work_states = "todo" ∷ "doing" ∷ "implemented" ∷ "verified" ∷ []

abbrev pub finding_states : List String
finding_states =
    "suspected" ∷ "confirmed" ∷ "fixed-unverified" ∷ "fixed-verified" ∷ "disproved" ∷ "duplicate"
    ∷ "deferred" ∷ []

-- The first group with a bad ID ends the validation with that one error.
pub data Groups : Type 0 where
  stop : Invalid → Groups
  go_on : List Invalid → Groups

abbrev group {ℓ} : {A : Type ℓ} ⦃r : Row A⦄ → String → String → List A → Groups → Groups
group ⦃r⦄ name prefix rows rest =
    if any (λ x. not (is_id prefix (r.id_of x))) rows then stop (invalid_rows name) else elim rest [
      | stop e ↦ stop e
      | go_on es ↦ go_on (when (not (is_nodup (ids rows))) (duplicate_ids name) ++ es)
    ]

groups : Task → Groups
groups t = group "requirements" "R" t.requirements (
    group "work" "W" t.work (
      group "checks" "A" t.checks (
        group "findings" "F" t.findings
          (group "blockers" "B" t.blockers (group "uncertain" "U" t.uncertain (go_on []))))))

abbrev heading_errors : Task → List Invalid
heading_errors t =
    when (not (contains task_states t.state)) invalid_state
    ++ (when (not (is_absolute (of_text t.root))) invalid_root
        ++ when (not (has_text t.original_request) || not (has_text t.authorization)) no_request)

requirement_errors : Requirement → List Invalid
requirement_errors r =
    when (not (has_text r.text) || not (has_text r.anchor)) (no_text r.ident)
    ++ (when (not (contains ("active" ∷ "removed" ∷ []) r.status)) (bad_status r.ident)
        ++ (when (r.status == "removed" && not (truthy r.authority)) (removal_unauthorized r.ident)
            ++ when (r.attest_only && not (has_text r.attest_only_authority))
                (attest_unauthorized r.ident)))

abbrev known_deps : List String → Work → List String
known_deps works w = if any (λ d. not (contains works d)) w.deps then [] else w.deps

work_errors : Task → Work → List Invalid
work_errors t w =
    when
      (not (contains (ids t.requirements) w.req)
        || not (contains work_states w.status)
        || not (has_text w.text))
      (bad_work w.ident)
    ++ (when (w.removed && not (has_text w.removed_reason)) (no_rationale w.ident)
        ++ (when (any (λ d. not (contains (ids t.work) d)) w.deps) (missing_dependency w.ident)
            ++ when (not (is_nodup (known_deps (ids t.work) w))) (duplicate_dependency w.ident)))

-- `lo <= n <= hi`
abbrev within : ℕ → ℕ → Option ℤ → Bool
within lo hi (some (pos n)) = leb lo n && leb n hi
within lo hi (some (negsuc n)) = false
within lo hi none = false

-- `n * 2 ^ k`
abbrev doubled : ℕ → ℕ → ℕ
doubled zero n = n
doubled (suc k) n = doubled k (n + n)

-- `0 < timeout <= 604800`
abbrev timeout_ok : Option Number → Bool
timeout_ok none = false
timeout_ok (some (whole (pos n))) = leb 1 n && leb n 604800
timeout_ok (some (whole (negsuc n))) = false
timeout_ok (some (float (pos m) k)) = leb 1 m && leb m (doubled k 604800)
timeout_ok (some (float (negsuc m) k)) = false

command_errors : Check → List Invalid
command_errors c =
    when (not c.needs_review && (not (has_text c.command) || not (has_text c.match)))
      (no_command c.ident)
    ++ (when (not (timeout_ok c.timeout)) (bad_timeout c.ident)
        ++ (when (not (within 1024 1048576 c.max_output)) (bad_output_limit c.ident)
            ++ when (c.regression && (not (has_text c.red_match) || not (within 1 125 c.red_exit)))
                (bad_regression c.ident)))

abbrev other_owner : Task → Check → String → Bool
other_owner t c wid = elim (get t.work wid) [ none ↦ false | some w ↦ w.req /= c.req ]

abbrev mapping_errors : Task → Check → List Invalid
mapping_errors t c =
    if any (λ w. not (contains (ids t.work) w)) c.work
    then bad_mapping c.ident ∷ []
    else when (any (other_owner t c) c.work) (foreign_work c.ident)

check_errors : Task → Check → List Invalid
unfolding command_errors
check_errors t c =
    when
      (not (contains (ids t.requirements) c.req)
        || not (contains ("command" ∷ "review" ∷ "browser" ∷ "manual" ∷ []) c.method))
      (bad_owner c.ident)
    ++ (mapping_errors t c
        ++ (when (not (has_text c.expect)) (no_expectation c.ident)
            ++ (when (c.removed && not (has_text c.removed_reason)) (no_rationale c.ident)
                ++ (when (c.method == "command" && has_text c.attested_because)
                      (command_attested c.ident)
                    ++ ((if c.method == "command" then command_errors c else [])
                        ++ (elim (c.candidate) [
                          | none ↦ []
                          | some p ↦ when (not (is_absolute (of_text p))) (bad_candidate c.ident)
                        ]
                            ++ (when (any (λ g. not (nonblank g)) c.writes) (bad_globs c.ident)
                                ++ (when (any (λ g. not (is_identifier g)) c.exclusive)
                                      (bad_tags c.ident)
                                    ++ when
                                        (not (contains ("NOT_RUN" ∷ "PASS" ∷ "FAIL" ∷ []) c.status))
                                        (bad_check_status c.ident)))))))))

abbrev known_duplicate : Task → Option String → Bool
known_duplicate t none = false
known_duplicate t (some fid) = contains (ids t.findings) fid

finding_errors : Task → Finding → List Invalid
finding_errors t f =
    when (not (contains finding_states f.status)) (bad_disposition f.ident)
    ++ (when (not (has_text f.location) || not (has_text f.text)) (no_location f.ident)
        ++ (when (f.status == "duplicate" && not (known_duplicate t f.duplicate))
              (no_canonical f.ident)
            ++ when
                (any (λ w. not (contains (ids t.work) w)) f.work
                  || any (λ c. not (contains (ids t.checks) c)) f.checks)
                (no_remediation f.ident)))

clause_errors : Task → List Invalid
clause_errors t =
    if any (λ c. not (is_id "C" c.ident) || not (has_text c.text)) (clauses_of t)
    then invalid_items ∷ []
    else for_each t.requirements (λ r.
      when (any (λ x. not (contains (ids (clauses_of t)) x)) r.covers) (unknown_item r.ident))

abbrev all_ids : Task → List String
all_ids t =
    ids t.requirements ++ (ids t.work ++ (ids t.checks ++ (ids t.findings ++ ("task" ∷ []))))

blocker_errors : Task → Blocker → List Invalid
blocker_errors t b =
    when
      (not (contains (all_ids t) b.item)
        || not (has_text b.text && has_text b.owner && has_text b.unblock && has_text b.proof))
      (incomplete_blocker b.ident)

row_errors : Task → List Invalid
unfolding requirement_errors work_errors check_errors finding_errors clause_errors blocker_errors
row_errors t =
    for_each t.requirements requirement_errors
    ++ (for_each t.work (work_errors t)
        ++ (when (not (order_ok t)) dependency_cycle
            ++ (for_each t.checks (check_errors t)
                ++ (for_each t.findings (finding_errors t)
                    ++ (clause_errors t ++ for_each t.blockers (blocker_errors t))))))

unfoldable pub validation_errors : Task → List Invalid
unfolding groups row_errors
validation_errors t = if t.schema /= 2 then unsupported_schema ∷ [] else elim (groups t) [
  | stop e ↦ e ∷ []
  | go_on duplicates ↦
      if is_empty (heading_errors t ++ duplicates)
      then row_errors t
      else heading_errors t ++ duplicates
]
