-- ===== src/Commands/Coverage.antt =====
-- `dmd coverage map`, `context` and `assert`: dmdlib/cli.py, lines 572 to 602, as changes of the record.
use done_means_done.Base.{
  not, Option, none, some, String, List, ◌++◌, map, is_empty, unique, string_eq, ◌>>=◌, ◌>>◌, guard,
  traverse,
}
use done_means_done.Base.Text.{join}
use done_means_done.Authority.{record_decision, replace, restore_clauses}
use done_means_done.Contract.{contract_digest, clauses_of, unmapped_clauses}
use done_means_done.Assessment.Evidence.{sorted}
use done_means_done.Commands.{require_text, Context}
use done_means_done.Commands.Quotes.{quoted}
use done_means_done.Task.{Task, Clause, no_prior, get, ids, requirement_row, clause_row}

-- The named clauses; none of them is unknown.
abbrev pub named_clauses : List String → Task → Option (List Clause)
named_clauses items t = do guard (not (is_empty items)); traverse (get (clauses_of t)) items

abbrev pub put_clauses : List Clause → Task → Option Task
put_clauses changed t = do
  clauses ← t.clauses
  rows ← restore_clauses changed clauses
  some (record t { clauses = some rows })

-- `dmd coverage map`: a requirement covers the clauses, which are no longer context.
unfoldable pub map_clauses : List String → Option String → Task → Option Task
map_clauses items req t = do
  clauses ← named_clauses items t
  rid ← require_text req
  r ← get t.requirements rid
  rows ←
      replace r.ident (record r { covers = sorted (unique (r.covers ++ ids clauses)) })
        t.requirements
  put_clauses (map (λ (c : Clause). record c { context = none }) clauses)
      (record t { requirements = rows })

-- `dmd coverage context`: in the operator's words, the clauses are no outcomes.
unfoldable pub mark_context :
    Context → List String → Option String → Option String → Task → Option Task
mark_context ctx items note authority t = do
  clauses ← named_clauses items t
  reason ← require_text note
  words ← quoted ctx t authority
  u ← put_clauses (map (λ (c : Clause). record c { context = some reason }) clauses) t
  some
      (record_decision u "coverage.context" (join "," (sorted items)) words (ctx.now 0)
        (record no_prior { clauses = clauses }) none).0

-- `dmd coverage assert`
unfoldable pub assert_coverage : Context → Option String → Task → Option Task
assert_coverage ctx note t = do
  guard (not (is_empty t.requirements))
  guard (is_empty (unmapped_clauses t))
  reason ← require_text note
  let signed = contract_digest ctx.host t
  let (u, e) =
      record_decision t "coverage.assert" "coverage" reason (ctx.now 1)
        (record no_prior { coverage = t.coverage }) (some signed)
  some (record u { coverage = some (record { digest = some signed; decision = some e.ident }) })
