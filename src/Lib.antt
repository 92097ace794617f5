-- ===== src/Lib.antt =====
-- Done Means Done: the gate of an assignment that an agent works on. A task record (task.json) holds the
-- operator's request as requirements, and the work items, checks, findings, blockers and decisions that
-- belong to it; the gate computes from the record, the evidence files and the source trees whether the
-- assignment is COMPLETE, ACTIVE or BLOCKED, and what is to be done next.
--
-- Parts, with the code of dmdlib/ that each file is about:
--   Task, Task/Rows          the record's rows, `live`, `get`, `new_id` of dmdlib/model.py
--   Json                     the values that the program hashes
--   Host                     what the program takes from outside: SHA-256, the JSON writer, files,
--                            processes, Git, and the snapshot of a source tree; a parameter throughout
--   FilePath                 `pathlib` paths, as far as the program uses them
--   Storage                  dmdlib/storage.py: digests and the test of an evidence file; Storage/Save is
--                            the numbering of changes
--   Authority                dmdlib/authority.py: the log of decisions and their withdrawal
--   Check                    check definitions (dmdlib/model.py), approvals (dmdlib/runner.py) and the
--                            verdict on a check's evidence (`check_verdict`, `red_ok`)
--   Contract                 `contract` and `review_signature`: what a review vouches for
--   Validation               `validation_errors`; Validation/Order is its dependency test
--   Assessment               the class of that name: Evidence (accepted checks, done work), Findings
--                            (`_findings`), Blocked (`_blocked_items`), Reasons (`_collect`), Actions
--                            (`next_actions`), Summary (`summary`, `progress`)
--   Gate                     `evaluate`, `effective_state`, the source map
--   Source                   dmdlib/source.py: `drift`, `output_match`, `candidate_root`, `location_file`
--   Runs                     dmdlib/runs.py: Plan (which checks run, and whether they may), Outputs (what
--                            the run may create), Finish (the receipts)
--   Hooks                    dmdlib/hooks.py: the Stop event with its watchdog, and TaskCompleted
--   Clauses                  `extract_clauses` of dmdlib/model.py: the list items of a request
--   Commands                 `transaction` of dmdlib/store.py, and the changes of dmdlib/cli.py that run under
--                            it: Quotes (the operator's words), Requirements, Work, Checks with
--                            Checks/Authoring, Approvals, Findings, Blockers, Coverage, Review, Decisions
--                            and Tasks (amend, review-policy, state, attempt, sessions, recover-run);
--                            Commands/Inspect is `dmd gate`, Commands/Create `create_task` of dmdlib/store.py,
--                            Commands/Relocate `dmd relocate`, and
--                            Commands/Capture `capture_prompt` with the hook that calls it
--   Tests, Tests/Samples     runs on sample tasks, and the theorems at concrete inputs
-- Base holds the list, text and equality operations that the others share.
--
-- How the code is modelled:
--   * A row is a record type; a key that may be missing or null is an Option. Tests of a value's Python
--     type are types here, so `validation_errors` models the others.
--   * The texts of reasons and actions are constructors with what they name: no decision of the program
--     reads such a text, but for `missing acceptance check`, which is a test on the constructor.
--   * The Assessment of Python caches its judgements; here each is a function of the same four inputs.
--   * A float, which only a check's timeout may be, is a whole number over a power of two. The digits of IDs
--     are ASCII, where Python's `\d` takes those of any script.
--   * `MissingCandidate` and `DmdError` are values: Option, or a type of the model's own.
--   * Sets are lists, tested by membership; a dictionary is an association list.
--   * A command is a function from the record to the record that it saves, or none where it raises; what it
--     reads besides the record is Commands' Context: the host, the prompts that the operator typed, and the
--     readings of the clock in their order. `edit` runs it under `transaction`.
--   * Keys that no decision reads are left out of the rows: the histories of edited rows, the times of
--     removals and approvals, the recovery log, and the notes of approvals, coverage and reviews.
-- Fuel: the loop over duplicate chains takes one step more than there are findings, since a chain meets
-- no finding twice; the loop over waiting work items takes one pass more than there are items, since each
-- pass but the last adds one; the dependency test visits each work item once; the loop of `dmd finding set`
-- over duplicates takes two rounds more than there are findings.
--
-- A run takes the lock on the record three times: `plan` reads it, `start` and `finish` write it. Each is
-- given the record as it is then, and `finish` is given what the commands answered. A hook takes the lock
-- once, and is given the record that it reads there, with its session remembered.
--
-- Not modelled: system calls (locks, atomic writes, directories, child processes, Git); the
-- migration of records, which is made of them, and what it imports into a new one; the test of a session
-- name; whether a directory for a task is free, which is an argument; the regular expressions of
-- `redact`, a parameter of Host; the commands that leave the records alone (list, show, preview, status,
-- doctor, gc, configuration) and the report's text.
pub mod Base
pub mod Json
pub mod Host
pub mod FilePath
pub mod Task
pub mod Storage
pub mod Authority
pub mod Check
pub mod Contract
pub mod Validation
pub mod Assessment
pub mod Gate
pub mod Source
pub mod Runs
pub mod Hooks
pub mod Clauses
pub mod Commands
pub mod Tests
