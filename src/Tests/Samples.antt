-- ===== src/Tests/Samples.antt =====
-- A host that holds one tree and one evidence file, and the tasks that the tests run on.
use done_means_done.Json.{whole}
use done_means_done.Base.{pos, true, false, none, some, String, List, [], ◌∷◌, ◌==◌, string_eq}
use done_means_done.Base.Text.{is_alnum, is_digit}
use done_means_done.Host.{Host, Snapshot, bytes, delivered}
use done_means_done.Task.{
  Artifact, Receipt, no_receipt, no_prior, Check, Requirement, Work, Finding, Blocker, Entry, Task,
}

abbrev pub tree : Snapshot
tree = record { fingerprint = "tree"; head = some "c0ffee"; files = ("a.py", "1") ∷ [] }

abbrev pub host : Host
host = record {
  sha256 = λ text. text;
  dumps = λ _. "digest";
  lstat = λ _. some (record { is_regular = true; nlink = 1; size = 5 });
  is_symlink = λ _. false;
  exists = λ _. true;
  is_file = λ _. true;
  read = λ _. bytes "proof";
  snapshot = λ _ _. some tree;
  untracked = λ _. some [];
  tracked = λ _. some [];
  toplevel = λ _. none;
  expanduser = λ path. path;
  resolve = λ path. path;
  is_dir = λ _. true;
  is_word = is_alnum;
  is_decimal = is_digit;
  redact = λ text. text;
  fnmatch = λ name glob. name == glob;
  kill = λ _. delivered;
  hostname = "here";
  shell = "/bin/sh";
  search_path = "/bin";
  platform = "linux";
  python = "cpython-3.12";
  python_full = "cpython-3.12.1";
}

abbrev pub entry : String → String → String → Entry
entry ident op target = record {
  ident = ident;
  op = op;
  target = target;
  text = "do it";
  at = "2026-01-01";
  confirmed = true;
  withdrawn = none;
  withdrawn_authority = none;
  prior = no_prior;
  binding = some "digest";
}

abbrev pub artifact : Artifact
artifact = record { path = "evidence/command-1.txt"; sha256 = "proof"; bytes = 5 }

abbrev receipt : Receipt
receipt = record no_receipt {
  kind = some "command";
  source = some "tree";
  definition = some "digest";
  candidate = some "/p";
  exit = some (pos 0);
  matched = some true;
  approval = some "digest";
  assurance_version = some 2;
  artifact = some artifact;
}

abbrev pub check : Check
check = record {
  ident = "A-01";
  req = "R-01";
  work = "W-01" ∷ [];
  method = "command";
  command = some "make test";
  cwd = "/p";
  expect = some "all tests pass";
  match = some "ok";
  timeout = some (whole (pos 60));
  max_output = some (pos 65536);
  inputs = [];
  regression = false;
  red_match = none;
  red_exit = none;
  attested_because = none;
  candidate = none;
  exclusive = [];
  writes = [];
  needs_review = false;
  removed = false;
  removed_reason = none;
  status = "PASS";
  receipt = some receipt;
  red = none;
  baseline = none;
  runs = [];
}

abbrev requirement : Requirement
requirement = record {
  ident = "R-01";
  text = some "the parser accepts tabs";
  anchor = some "request";
  status = "active";
  authority = none;
  attest_only = false;
  attest_only_authority = none;
  covers = [];
}

abbrev pub work_item : String → List String → Work
work_item ident deps = record {
  ident = ident;
  req = "R-01";
  text = some "write it";
  status = "verified";
  deps = deps;
  owns = [];
  removed = false;
  removed_reason = none;
  note = none;
}

abbrev pub duplicate : String → String → Finding
duplicate ident target = record {
  ident = ident;
  text = some "tabs are refused";
  location = some "parser.py:3";
  origin = none;
  status = "duplicate";
  work = [];
  checks = [];
  note = some "the same defect";
  confirmed_at = none;
  duplicate = some target;
  duplicate_checks = [];
  duplicate_decision = none;
  artifact = none;
  authority = none;
  binding = [];
  source = none;
}

abbrev pub deferred : String → Finding
deferred ident = record (duplicate ident "") {
  status = "deferred";
  duplicate = none;
  authority = some "operator";
}

-- Every obligation is met: the gate says COMPLETE.
abbrev pub done : Task
done = record {
  schema = 2;
  task_id = "t";
  root = "/p";
  state = "ACTIVE";
  state_reason = none;
  created_at = "2026-01-01";
  original_request = some "accept tabs";
  request_provenance = none;
  authorization = some "operator";
  amendments = [];
  requirements = requirement ∷ [];
  work = work_item "W-01" [] ∷ [];
  checks = check ∷ [];
  findings = duplicate "F-01" "F-02" ∷ deferred "F-02" ∷ [];
  blockers = [];
  uncertain = [];
  clauses = none;
  approvals =
      ("A-01", record { signature = some "digest"; parts = none; decision = some "AU-02" }) ∷ [];
  authority =
      entry "AU-01" "coverage.assert" "coverage" ∷ entry "AU-02" "check.approve" "A-01" ∷ [];
  coverage = some (record { digest = some "digest"; decision = some "AU-01" });
  review = none;
  review_log = [];
  require_independent_review = false;
  running = none;
  attempts = [];
  sessions = [];
  watchdogs = [];
  released = none;
  host_map = [];
  sequence = 0;
  updated_at = "";
  events = [];
}

abbrev pub blocker : String → Blocker
blocker item = record {
  ident = "B-01";
  item = item;
  text = some "no credentials";
  owner = some "operations";
  unblock = some "grant access";
  proof = some "403";
  artifact = some artifact;
  decision = some "AU-03";
  resolved = false;
  resolution = none;
}

-- The check never ran, and its work waits on a blocker: the gate says ACTIVE until the blocker is on
-- the whole task.
abbrev pub open_task : Task
open_task = record done { checks = record check { status = "NOT_RUN"; receipt = none } ∷ [] }

abbrev pub blocked_task : Task
blocked_task = record open_task {
  blockers = blocker "task" ∷ [];
  authority = entry "AU-03" "blocker.task" "B-01" ∷ done.authority;
}

-- Two findings that are duplicates of one another.
abbrev pub cyclic : Task
cyclic = record done { findings = duplicate "F-01" "F-02" ∷ duplicate "F-02" "F-01" ∷ [] }

-- One item is blocked, and the item that depends on it.
abbrev pub chained : Task
chained = record done {
  work = work_item "W-02" ("W-01" ∷ []) ∷ work_item "W-01" [] ∷ [];
  blockers = blocker "W-01" ∷ [];
}
