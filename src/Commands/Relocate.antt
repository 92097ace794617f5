-- ===== src/Commands/Relocate.antt =====
-- `dmd relocate` of dmdlib/cli.py: the record of a task whose checkout moved.
pub mod Stale
use done_means_done.Base.{
  any, ℕ, zero, suc, Bool, true, false, not, ◌&&◌, ◌||◌, Option, none, some, String, ◌<>◌, List, [],
  ◌∷◌, ◌++◌, map, filter, length, is_empty, contains, ◌==◌, ◌/=◌, string_eq, nat_eq, if◌then◌else◌,
  ◌>>=◌, ◌>>◌, guard,
}
use done_means_done.FilePath.{FilePath, of_text, to_text, same_path, is_below, parents, child}
use done_means_done.Host.{Host}
use done_means_done.Authority.{truthy}
use done_means_done.Check.Definition.{value_of}
use done_means_done.Check.Verdict.{is_some}
use done_means_done.Storage.Save.{save}
use done_means_done.Validation.{validation_errors}
use done_means_done.Commands.{require_text, Context}
use done_means_done.Commands.Create.{finished}
use done_means_done.Task.{Task, Check, Amendment}

abbrev without : ℕ → List String → List String
without zero parts = parts
without (suc n) [] = []
without (suc n) (p ∷ parts) = without n parts

-- A path at the old root or below it is the same path at the new root.
unfoldable pub moved : String → String → String → String
moved old new path =
    let p = of_text path in
    let root = of_text old in
    if same_path p root || is_below p root
    then to_text
        (child (of_text new) (record { root = ""; parts = without (length root.parts) p.parts }))
    else to_text p

unfoldable pub moved_check : String → String → Check → Check
moved_check old new c = record c {
  cwd = moved old new c.cwd;
  inputs = map (moved old new) c.inputs;
  candidate =
      if truthy c.candidate then some (moved old new (value_of c.candidate)) else c.candidate;
  status = if c.status == "PASS" then "NOT_RUN" else c.status;
}

-- The amendment of a relocation has no source, so that no requirement may quote it.
abbrev pub relocation : Context → String → String → String → Amendment
relocation ctx old new authority = record {
  at = ctx.now 0;
  text = "relocated from " <> old <> " to " <> new <> ": " <> authority;
  source = none;
  decision = none;
  requirement = none;
  finding = none;
}

unfoldable pub relocated : Context → String → String → Task → Task
relocated ctx new authority t = record t {
  root = new;
  checks = map (moved_check t.root new) t.checks;
  amendments = t.amendments ++ (relocation ctx t.root new authority ∷ []);
}

-- Whether a readable record is meant: the one that is named, or one whose checkout is gone.
unfoldable pub meant : Host → Option String → Task → Bool
meant h task t =
    if truthy task then t.task_id == value_of task else not (finished t) && not (h.is_dir t.root)

-- `identity` of the directory, as far as it names the worktree's root: Git's, or the directory itself where no
-- Git metadata is at it or above.
abbrev pub checkout_root : Host → String → Option String
checkout_root h path = elim (h.toplevel path) [
  | none ↦
      let here = of_text path in
      if any (λ probe. h.exists (to_text (child probe (of_text ".git")))) (here ∷ parents here)
      then none
      else some path
  | some top ↦ some top
]

-- `dmd relocate`. `records` are the readable ones, `t` is the one that is meant, as it is under its lock, and
-- `free` says that its place at the new root is.
unfoldable pub relocate :
    Context → String → Option String → Option String → List Task → Bool → Task → Option Task
relocate ctx to authority task records free t = do
  let new = ctx.host.resolve (ctx.host.expanduser to)
  guard (ctx.host.is_dir new)
  words ← require_text authority
  guard (length (filter (meant ctx.host task) records) == 1)
  guard (is_empty (validation_errors t))
  guard (not (is_some t.running))
  guard (t.root /= new)
  root ← checkout_root ctx.host new
  guard (root == new)
  guard free
  some (save (relocated ctx new (value_of authority) t) "relocate" (ctx.now 2))
