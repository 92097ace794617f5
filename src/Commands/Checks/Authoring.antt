-- ===== src/Commands/Checks/Authoring.antt =====
-- What a check may be: `declared_input`, `trivial_command`, `output_globs` and the part of `check` in dmdlib/cli.py
-- (lines 123 to 166 and 279 to 357) that makes a definition from the arguments.
use done_means_done.Json.{Number, whole}
use done_means_done.Base.{
  Bool, true, false, not, ◌&&◌, ◌||◌, Option, none, some, String, List, [], ◌∷◌, pos, ℤ, all, any,
  contains, is_empty, ◌==◌, string_eq, nat_eq, if◌then◌else◌, ◌>>=◌, ◌>>◌, guard, traverse,
}
use Prim.Native.Char.{code}
use done_means_done.Base.Text.{
  codes, is_alnum, is_identifier, is_space, nonblank, strip, starts_with, has_part, before_slash,
  before_dot, behind_slash,
}
use done_means_done.Host.{Host}
use done_means_done.FilePath.{of_text, to_text, child, split_slash, path_name}
use done_means_done.Authority.{truthy}
use done_means_done.Source.{output_match, candidate_root}
use done_means_done.Contract.{has_text}
use done_means_done.Check.Definition.{attested, value_of}
use done_means_done.Commands.Work.{or_keep}
use done_means_done.Task.{Task, Check, new_id, check_row}

-- The arguments of `dmd check add` and `dmd check edit`.
pub record CheckArgs : Type 0 where
  pub req : Option String
  pub work : Option (List String)
  pub method : Option String
  pub command : Option String
  pub run_cwd : Option String
  pub expect : Option String
  pub match : Option String
  pub timeout : Option Number
  pub max_output : Option ℤ
  pub inputs : Option (List String)
  pub regression : Bool
  pub no_regression : Bool
  pub red_match : Option String
  pub red_exit : Option ℤ
  pub attested_because : Option String
  pub candidate : Option String
  pub exclusive : Option (List String)
  pub writes : Option (List String)
  pub clear_inputs : Bool
  pub clear_exclusive : Bool
  pub clear_writes : Bool
  pub approve : Option String
  pub authority : Option String

abbrev default {ℓ} : {A : Type ℓ} → A → Option A → Option A
default d none = some d
default d (some a) = some a

abbrev first_set {ℓ} : {A : Type ℓ} → Option A → Option A → Option A
first_set old none = old
first_set old (some new) = some new

abbrev or_root : Option String → String → String
or_root run_cwd root = if truthy run_cwd then value_of run_cwd else root

-- The row of `dmd check add`, from the arguments as they are.
unfoldable pub new_check : Host → CheckArgs → Task → Check
new_check h args t = record {
  ident = new_id t.checks "A";
  req = value_of args.req;
  work = or_keep [] args.work;
  method = if truthy args.method then value_of args.method else "command";
  command = args.command;
  cwd = h.resolve (or_root args.run_cwd t.root);
  expect = args.expect;
  match = args.match;
  timeout = default (whole (pos 300)) args.timeout;
  max_output = default (pos 1048576) args.max_output;
  inputs = or_keep [] args.inputs;
  regression = args.regression;
  red_match = args.red_match;
  red_exit = default (pos 1) args.red_exit;
  attested_because = args.attested_because;
  candidate = args.candidate;
  exclusive = or_keep [] args.exclusive;
  writes = or_keep [] args.writes;
  needs_review = false;
  removed = false;
  removed_reason = none;
  status = "NOT_RUN";
  receipt = none;
  red = none;
  baseline = none;
  runs = [];
}

-- The row of `dmd check edit`: given arguments overwrite, and the evidence is dropped.
unfoldable pub edited_check : CheckArgs → Check → Check
edited_check args c = record c {
  req = or_keep c.req args.req;
  work = or_keep c.work args.work;
  method = or_keep c.method args.method;
  command = first_set c.command args.command;
  cwd = or_keep c.cwd args.run_cwd;
  expect = first_set c.expect args.expect;
  match = first_set c.match args.match;
  timeout = first_set c.timeout args.timeout;
  max_output = first_set c.max_output args.max_output;
  inputs = or_keep c.inputs args.inputs;
  red_match = if args.no_regression then none else first_set c.red_match args.red_match;
  red_exit = first_set c.red_exit args.red_exit;
  attested_because = first_set c.attested_because args.attested_because;
  candidate = first_set c.candidate args.candidate;
  exclusive = or_keep c.exclusive args.exclusive;
  writes = or_keep c.writes args.writes;
  regression = if args.no_regression then false else if args.regression then true else c.regression;
  status = "NOT_RUN";
  receipt = none;
  red = none;
  baseline = none;
  needs_review = false;
}

-- `declared_input`: a regular file that exists.
unfoldable pub declared_input : Host → String → String → Option String
declared_input h cwd item = do
  guard (nonblank item)
  let path = h.resolve (to_text (child (of_text cwd) (of_text (h.expanduser item))))
  guard (h.exists path)
  guard (h.is_file path)
  some path

-- A text up to its first white space.
abbrev first_word : String → String
first_word String.[] = ""
first_word (String.◌∷◌ c s) =
    let rest = first_word s in if is_space (code c) then "" else String.◌∷◌ c rest

-- `trivial_command`: a bare success printer.
unfoldable pub trivial_command : Option String → Bool
trivial_command none = false
trivial_command (some command) =
    let first = first_word (strip command) in
    contains ("echo" ∷ "printf" ∷ "true" ∷ ":" ∷ []) (path_name first) || first == ":"

abbrev is_literal : String → Bool
is_literal text = any (λ c. is_alnum c || c == b'_' || c == b'-') (codes text)

-- A glob of declared outputs: relative, and specific enough.
unfoldable pub glob_ok : String → Bool
glob_ok g =
    nonblank g
    && not (starts_with g "/")
    && not (contains (split_slash g) "..")
    && (is_literal (before_dot (behind_slash g)) || is_literal (before_slash g))

abbrev tracked_in : Host → String → List String
tracked_in h tree = or_keep [] (h.tracked tree)

-- `output_globs`: the globs are legal and match no tracked file of the candidate.
unfoldable pub output_globs : Host → Check → Bool
output_globs h c =
    is_empty c.writes
    || all glob_ok c.writes
      && not (any (λ p. output_match h p c.writes) (tracked_in h (value_of c.candidate)))

-- The tree that the evidence is bound to.
unfoldable pub candidate_for : Host → Option String → String → String → Option String
candidate_for h explicit cwd root =
    if not (truthy explicit) then some (candidate_root h cwd root) else do
      let tree = h.resolve (h.expanduser (value_of explicit))
      guard (h.exists tree)
      guard (h.is_dir tree)
      some tree

-- A command that prints what it is matched by observes nothing.
abbrev prints_match : Check → Bool
prints_match c = truthy c.match && has_part (value_of c.match) (value_of c.command)

-- The rules of the two methods.
unfoldable pub method_ok : Check → Bool
method_ok c =
    not (attested c && not (has_text c.attested_because))
    && not (
        c.method == "command"
        && (has_text c.attested_because || trivial_command c.command || prints_match c))

-- The row with its paths resolved.
abbrev pub resolved : CheckArgs → String → List String → String → Check → Check
resolved args cwd inputs candidate c = record c {
  cwd = cwd;
  inputs = inputs;
  exclusive = if args.clear_exclusive then [] else c.exclusive;
  writes = if args.clear_writes then [] else c.writes;
  candidate = some candidate;
}

abbrev pub working_directory : Host → Check → String
working_directory h c = h.resolve (h.expanduser c.cwd)

-- The checks and resolutions that both commands apply.
unfoldable pub authored : Host → CheckArgs → Option String → String → Check → Option Check
authored h args explicit root c = do
  let cwd = working_directory h c
  guard (h.exists cwd)
  inputs ← traverse (declared_input h cwd) (if args.clear_inputs then [] else c.inputs)
  candidate ← candidate_for h explicit cwd root
  let made = resolved args cwd inputs candidate c
  guard (all is_identifier made.exclusive)
  guard (output_globs h made && method_ok made)
  some made
