-- ===== src/Tests/Decisions.antt =====
-- Decisions of the operator about the sample record.
use done_means_done.Base.{
  ◌≡◌, ◌≢◌, refl, length, true, false, Option, none, some, String, [], ◌∷◌, contains, string_eq,
  leb, if◌then◌else◌, arith,
}
use done_means_done.Tests.{program}
use done_means_done.Tests.Changes.{commands, ctx, left_by}
use done_means_done.Tests.Samples.{host, done, entry}
use done_means_done.Task.{Task, Entry, ids, new_id, requirement_row}
use done_means_done.Task.Fresh.{new_id-fresh}
use text.Mathlib.TextEquality.{eq_iff}
use done_means_done.Authority.{find_entry, decision_ok}
use done_means_done.Commands.{require_text}
use done_means_done.Commands.Tasks.{amend}
use done_means_done.Commands.Decisions.{withdraw_decision}
use done_means_done.Commands.Decisions.Withdrawn.{HasWords, withdraw_decision_lem}
use done_means_done.Clauses.{extract_clauses}
use done_means_done.Clauses.Items.{list_items, number_from, extract_clauses_lem}
use done_means_done.Commands.Quotes.{bounded}
use done_means_done.Commands.Quotes.Bounded.{StandsIn, bounded_iff}
use done_means_done.Commands.Requirements.{cancel_requirement}
use done_means_done.Commands.Undo.{IsUndone, cancel_requirement-IsUndone}

new_id-fresh_example : contains (ids done.requirements) (new_id done.requirements "R") ≡ false
unfolding program
new_id-fresh_example = new_id-fresh done.requirements "R" refl

abbrev listed : String
listed = "Please:\n- accept tabs\n```\n- no item\n```\n2) keep spaces"

two_items : list_items host listed ≡ "accept tabs" ∷ "keep spaces" ∷ []
unfolding program commands list_items
two_items = refl

extract_clauses_lem_example : extract_clauses host listed 1 "request" ≡ (
    if leb (length (list_items host listed)) 100
    then some (number_from 1 "request" (list_items host listed))
    else none)
extract_clauses_lem_example = extract_clauses_lem host listed 1 "request"

stands : bounded host "drop tabs" "please drop tabs, we pause" ≡ true
unfolding program commands
stands = refl

bounded_iff_example : StandsIn host "drop tabs" "please drop tabs, we pause"
bounded_iff_example = (bounded_iff host "drop tabs" "please drop tabs, we pause").0 stands

-- A decision that used the words, and was withdrawn.
abbrev spent : Entry
spent = record (entry "AU-03" "req.cancel" "R-01") {
  text = "drop tabs";
  withdrawn = some "2026-03-01";
}

abbrev cancelled : Task
cancelled = left_by (cancel_requirement ctx "R-01" (some "drop tabs") done)

cancelled_run : cancel_requirement ctx "R-01" (some "drop tabs") done ≡ some cancelled
unfolding program commands
cancelled_run = refl

cancel_requirement-IsUndone_example : IsUndone done cancelled "2026-03-01"
unfolding program
cancel_requirement-IsUndone_example =
    cancel_requirement-IsUndone ctx "R-01" "2026-03-01" (some "drop tabs") done cancelled refl refl
      cancelled_run

-- A record that lists the items of its request.
abbrev itemised : Task
itemised = record done { clauses = some [] }

abbrev wider : Task
wider = left_by (amend ctx (some "keep spaces") none itemised)

wider_run : amend ctx (some "keep spaces") none itemised ≡ some wider
unfolding program commands
wider_run = refl

key_run : require_text (some "AU-03") ≡ some "AU-03"
unfolding program
key_run = refl

abbrev narrow_again : Task
narrow_again = left_by (withdraw_decision ctx (some "AU-03") (some "drop tabs") "t0" wider)

narrow_run : withdraw_decision ctx (some "AU-03") (some "drop tabs") "t0" wider ≡ some narrow_again
unfolding program commands
narrow_run = refl

dated : ctx.now 0 ≢ ""
dated = ground (arith, eq_iff "2026-02-01" "")

withdraw_decision_lem_example :
    (e : Entry) × (find_entry wider "AU-03" ≡ some e)
    × HasWords ctx wider (some "drop tabs") e
    × ((op target : String) (binding : Option String)
        → decision_ok narrow_again (some "AU-03") op target binding ≡ false)
unfolding program commands
withdraw_decision_lem_example =
    withdraw_decision_lem ctx wider (some "drop tabs") (some "AU-03") "t0" "AU-03" narrow_again
      dated (omega arith) key_run narrow_run
