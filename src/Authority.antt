-- ===== src/Authority.antt =====
-- dmdlib/authority.py: the log of contract decisions (AU-*), recorded confirmed, withdrawn newest first.
pub mod Rows
pub mod Decisions
pub mod Undone
use done_means_done.Base.{
  Bool, true, false, not, ◌&&◌, ◌||◌, Option, none, some, String, List, [], ◌∷◌, ◌++◌, ◌==◌, ◌/=◌,
  string_eq, option_eq, contains, if◌then◌else◌, any, filter,
}
use done_means_done.Base.Text.{text_lt}
use done_means_done.Task.{
  Task, Entry, entry_row, Prior, Amendment, Clause, Row, get, requirement_row, finding_row,
  check_row, blocker_row, clause_row, new_id,
}

-- `record`: the entry is confirmed as it is recorded. `at` is the clock's reading.
unfoldable pub record_decision :
    Task → String → String → String → String → Prior → Option String → Task × Entry
record_decision t op target text at prior binding =
    let entry : Entry = record {
      ident = new_id t.authority "AU";
      op = op;
      target = target;
      text = text;
      at = at;
      confirmed = true;
      withdrawn = none;
      withdrawn_authority = none;
      prior = prior;
      binding = binding;
    } in
    (record t { authority = t.authority ++ (entry ∷ []) }, entry)

abbrev pub truthy : Option String → Bool
truthy none = false
truthy (some s) = s /= ""

abbrev pub is_unconfirmed : Entry → Bool
is_unconfirmed e = not e.confirmed && not (truthy e.withdrawn)

unfoldable pub unconfirmed : Task → List Entry
unconfirmed t = filter is_unconfirmed t.authority

abbrev pub stands : Option String → String → String → Option String → Entry → Bool
stands entry_id op target binding e =
    some e.ident == entry_id
    && e.op == op
    && e.target == target
    && e.confirmed
    && not (truthy e.withdrawn)
    && e.binding == binding

unfoldable pub decision_ok : Task → Option String → String → String → Option String → Bool
decision_ok t entry_id op target binding = any (stands entry_id op target binding) t.authority

unfoldable pub find_entry : Task → String → Option Entry
find_entry t entry_id = get t.authority entry_id

-- The refusals of `withdraw`; the last three are Python's StopIteration and KeyError.
pub data Refusal : Type 0 where
  already_withdrawn later_decisions not_withdrawable no_such_row no_prior : Refusal

pub data Withdrawal : Type 0 where
  withdrawn_to : Task → Withdrawal
  refused : Refusal → Withdrawal

-- `loosens_when_withdrawn` of dmdlib/cli.py: what a withdrawal restores is looser, and needs a quote.
unfoldable pub loosens_when_withdrawn : Entry → Bool
loosens_when_withdrawn e =
    contains ("amend" ∷ "init.new" ∷ []) e.op
    || e.op == "state" && any (λ s. e.prior.state == some s) ("PAUSED" ∷ "CANCELLED" ∷ [])
    || e.op == "review-policy" && not e.prior.require_independent_review

-- `rows[index] = row`, at the first row with the ID; `none` where there is none.
abbrev pub replace {ℓ} : {A : Type ℓ} ⦃r : Row A⦄ → String → A → List A → Option (List A)
replace key row [] = none
replace ⦃r⦄ key row (x ∷ xs) =
    let rest = replace ⦃r = r⦄ key row xs in
    if r.id_of x == key
    then some (row ∷ xs)
    else elim rest [ none ↦ none | some ys ↦ some (x ∷ ys) ]

-- `[a for a in amendments if a.get("at") != at]`
abbrev pub drop_amendment : Option String → List Amendment → List Amendment
drop_amendment at amendments = filter (λ a. some a.at /= at) amendments

abbrev pub and_then {ℓ κ} : {A : Type ℓ} {B : Type κ} → Option A → (A → Option B) → Option B
and_then none f = none
and_then (some a) f = f a

abbrev or_refuse : Refusal → Option Task → Withdrawal
or_refuse r none = refused r
or_refuse r (some t) = withdrawn_to t

abbrev pub restore_requirement : Task → Entry → Option Task
restore_requirement t e = and_then e.prior.requirement λ row.
    and_then (replace e.target row t.requirements) λ rows. some (record t {
      requirements = rows;
      amendments = drop_amendment e.prior.amendment_at t.amendments;
    })

abbrev pub restore_finding : Task → Entry → Option Task
restore_finding t e = and_then e.prior.finding λ row.
    and_then (replace e.target row t.findings) λ rows.
      some (record t {
        findings = rows;
        amendments = drop_amendment e.prior.amendment_at t.amendments;
      })

abbrev restore_check : Task → Entry → Option Task
restore_check t e = and_then e.prior.check λ row. and_then (replace e.target row t.checks) λ rows.
    some (record t { checks = rows; amendments = drop_amendment e.prior.amendment_at t.amendments })

abbrev restore_baseline : Task → Entry → Option Task
restore_baseline t e = and_then (get t.checks e.target) λ c.
    and_then (replace e.target (record c { baseline = e.prior.baseline }) t.checks)
      λ rows. some (record t { checks = rows })

-- Each clause of the old list overwrites the clause of its ID.
abbrev pub restore_clauses : List Clause → List Clause → Option (List Clause)
restore_clauses [] clauses = some clauses
restore_clauses (old ∷ rest) clauses =
    and_then (replace old.ident old clauses) (λ next. restore_clauses rest next)

abbrev restore_context : Task → Entry → Option Task
restore_context t e = and_then t.clauses λ clauses.
    and_then (restore_clauses e.prior.clauses clauses)
      λ next. some (record t { clauses = some next })

abbrev restore_amendment : Task → Entry → Option Task
restore_amendment t e = and_then t.clauses λ clauses. some (record t {
  amendments = drop_amendment e.prior.amendment_at t.amendments;
  clauses = some (filter (λ c. c.source /= e.prior.source) clauses);
})

abbrev settle_blocker : Task → Entry → Option Task
settle_blocker t e = and_then (get t.blockers e.target) λ b.
    and_then
      (replace e.target (record b { resolved = true; resolution = some "suspension withdrawn" })
        t.blockers)
      λ rows. some (record t { blockers = rows })

abbrev restore_state : Task → Entry → Option Task
restore_state t e =
    and_then e.prior.state
      λ state. some (record t { state = state; state_reason = e.prior.state_reason })

-- The branches of `withdraw` on the decision's kind.
unfoldable pub undo : Task → Entry → Withdrawal
undo t e =
    if e.op == "req.cancel" || e.op == "req.attest-only"
    then or_refuse no_such_row (restore_requirement t e)
    else if e.op == "finding.defer" || e.op == "finding.duplicate"
    then or_refuse no_such_row (restore_finding t e)
    else if e.op == "check.no-regression"
    then or_refuse no_such_row (restore_check t e)
    else if e.op == "state"
    then or_refuse no_prior (restore_state t e)
    else if e.op == "review.independent"
    then withdrawn_to (record t { review = e.prior.review })
    else if e.op == "check.approve"
    then withdrawn_to (record t { approvals = filter (λ (k, _). k /= e.target) t.approvals })
    else if e.op == "check.baseline"
    then or_refuse no_such_row (restore_baseline t e)
    else if e.op == "coverage.assert"
    then withdrawn_to (record t { coverage = e.prior.coverage })
    else if e.op == "coverage.context"
    then or_refuse no_such_row (restore_context t e)
    else if e.op == "amend"
    then or_refuse no_such_row (restore_amendment t e)
    else if e.op == "review-policy"
    then withdrawn_to (record t { require_independent_review = e.prior.require_independent_review })
    else if e.op == "blocker.task"
    then or_refuse no_such_row (settle_blocker t e)
    else if e.op == "init.new"
    then withdrawn_to t
    else refused not_withdrawable

-- `entry["withdrawn"] = now()`: the entry object is the first of its ID in the log.
abbrev pub mark : String → String → List Entry → List Entry
mark key at [] = []
mark key at (e ∷ es) =
    let rest = mark key at es in
    if e.ident == key then record e { withdrawn = some at } ∷ es else e ∷ rest

abbrev pub blocks_withdrawal : Entry → Entry → Bool
blocks_withdrawal entry e =
    text_lt entry.at e.at && e.target == entry.target && not (truthy e.withdrawn)

unfoldable pub withdraw : Task → Entry → String → Withdrawal
withdraw t entry at =
    if truthy entry.withdrawn
    then refused already_withdrawn
    else if any (blocks_withdrawal entry) t.authority
    then refused later_decisions
    else elim (undo t entry) [
      | refused r ↦ refused r
      | withdrawn_to u ↦ withdrawn_to (record u { authority = mark entry.ident at u.authority })
    ]
