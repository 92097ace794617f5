-- ===== src/Commands/Approvals.antt =====
-- `dmd check approve` and `--approve`: dmdlib/cli.py, lines 390 to 414, as changes of the record.
pub mod Granted
use done_means_done.Base.{
  Bool, false, not, ◌&&◌, ◌||◌, Option, none, some, String, map, ◌==◌, string_eq, option_eq,
  if◌then◌else◌, ◌>>=◌, ◌>>◌, guard,
}
use done_means_done.Authority.{record_decision, decision_ok, is_unconfirmed}
use done_means_done.Check.Approvals.{approval_parts, approval_of, sign, Signed, signed, bad_input}
use done_means_done.Runs.Outputs.{put}
use done_means_done.Commands.{require_text, Context}
use done_means_done.Task.{Task, Check, Entry, Parts, no_prior, get, check_row}

-- The parts of a check that can be signed.
abbrev signable : Signed → Option Parts
signable (bad_input _) = none
signable (signed p) = some p

-- The open requests to approve a check lapse; they are from before approval was automatic.
abbrev pub lapse : String → String → Entry → Entry
lapse cid at e =
    if is_unconfirmed e && (e.op == "check.approve" && e.target == cid)
    then record e { withdrawn = some at }
    else e

-- A new approval, under a decision of its own.
unfoldable pub approve_parts : Context → Check → String → Parts → Task → Task
approve_parts ctx c reason p t =
    let signature = sign ctx.host p in
    let asked = record t { authority = map (lapse c.ident (ctx.now 0)) t.authority } in
    let (u, e) =
      record_decision asked "check.approve" c.ident reason (ctx.now 1) no_prior (some signature) in
    record u {
      approvals =
          put c.ident
            (record { signature = some signature; parts = some p; decision = some e.ident })
            u.approvals;
    }

-- An approval that stands for the same parts.
abbrev pub reuses : Context → Check → Parts → Task → Bool
reuses ctx c p t =
    let old = approval_of t c.ident in
    let signature = sign ctx.host p in
    old.signature == some signature
    && decision_ok t old.decision "check.approve" c.ident (some signature)

-- `inspected_approval`
unfoldable pub inspected_approval : Context → Check → Option String → Task → Option Task
inspected_approval ctx c note t = do
  p ← signable (approval_parts ctx.host c false)
  reason ← require_text note
  some (if reuses ctx c p t then t else approve_parts ctx c reason p t)

-- `dmd approve`
unfoldable pub approve : Context → String → Option String → Task → Option Task
approve ctx cid note t = do
  c ← get t.checks cid
  guard (not (c.needs_review || not (c.method == "command")))
  inspected_approval ctx c note t
