-- ===== src/Commands/Decisions.antt =====
-- `dmd authority`: `authority_command` of dmdlib/cli.py (lines 790 to 812) and `withdraw_supersede` of
-- dmdlib/store.py, as changes of the record.
pub mod Withdrawn
use done_means_done.Base.{
  true, not, ◌||◌, Option, none, some, String, ◌<>◌, ◌==◌, string_eq, if◌then◌else◌, ◌>>=◌, ◌>>◌,
  guard,
}
use done_means_done.Authority.{
  find_entry, loosens_when_withdrawn, withdraw, withdrawn_to, refused, Withdrawal, replace, truthy,
}
use done_means_done.Storage.Save.{save}
use done_means_done.Commands.{require_text, Context}
use done_means_done.Commands.Quotes.{quoted}
use done_means_done.Task.{Task, Entry, entry_row}

abbrev pub restored : Withdrawal → Option Task
restored (withdrawn_to t) = some t
restored (refused r) = none

-- A changed decision in its place.
abbrev pub put_entry : Entry → Task → Option Task
put_entry e t = do rows ← replace e.ident e t.authority; some (record t { authority = rows })

-- The decision with the operator's words for its withdrawal, where it needs them.
unfoldable pub authorized : Context → Task → Entry → Option String → Option Entry
authorized ctx t e authority =
    if not (loosens_when_withdrawn e)
    then some e
    else do words ← quoted ctx t authority; some (record e { withdrawn_authority = some words })

-- The replacement of a withdrawn `init --new` is cancelled.
abbrev pub cancelled_for : Entry → String → Task → Task
cancelled_for e previous t =
    if e.op == "init.new"
    then record t {
      state = "CANCELLED";
      state_reason = some ("withdrew " <> (e.ident <> (": " <> (previous <> " resumed"))));
    }
    else t

-- `dmd authority withdraw`; `previous` is the ID of the task that an `init --new` replaced.
unfoldable pub withdraw_decision :
    Context → Option String → Option String → String → Task → Option Task
withdraw_decision ctx id authority previous t = do
  key ← require_text id
  entry ← find_entry t key
  e ← authorized ctx t entry authority
  u ← put_entry e t
  restored (withdraw (cancelled_for e previous u) e (ctx.now 0))

-- The replaced task as it resumes: the state from before.
unfoldable pub resume_previous : Context → Entry → Task → Option Task
resume_previous ctx e previous = do
  state ← e.prior.state
  some (
      save (record previous { state = state; state_reason = e.prior.state_reason })
        "supersede-withdrawn" (ctx.now 0))

-- `dmd authority confirm`, for a decision from before decisions were confirmed at once
unfoldable pub confirm_decision : Option String → Task → Option Task
confirm_decision id t = do
  key ← require_text id
  e ← find_entry t key
  guard (not (e.confirmed || truthy e.withdrawn))
  put_entry (record e { confirmed = true }) t
