-- ===== src/Task/Rows.antt =====
-- The rows of task.json.
use done_means_done.Base.{ℕ, ℤ, Bool, Option, none, String, List, []}
use done_means_done.Json.{Json, Number}

-- What `storage.evidence` returns: a file below the task directory with its hash and size.
pub record Artifact : Type 0 where
  pub path : String
  pub sha256 : String
  pub bytes : ℕ

-- A receipt, a red run or a baseline: three dictionaries of the same keys.
pub record Receipt : Type 0 where
  pub kind : Option String
  pub source : Option String
  pub definition : Option String
  pub candidate : Option String
  pub exit : Option ℤ
  pub matched : Option Bool
  pub failure : Option String
  pub note : Option String
  pub stale : Option Json
  pub reason : Option String
  pub approval : Option String
  pub assurance_version : Option ℕ
  pub head : Option String
  pub artifact : Option Artifact
  pub outputs : List (String × String)
  pub decision : Option String

-- `{}`, which `c.get("receipt") or {}` gives for a check that never ran.
abbrev pub no_receipt : Receipt
no_receipt = record {
  kind = none;
  source = none;
  definition = none;
  candidate = none;
  exit = none;
  matched = none;
  failure = none;
  note = none;
  stale = none;
  reason = none;
  approval = none;
  assurance_version = none;
  head = none;
  artifact = none;
  outputs = [];
  decision = none;
}

-- One line of a check's bounded run history.
pub record RunRow : Type 0 where
  pub red : Bool
  pub artifact : Artifact
  pub result : String

pub record Check : Type 0 where
  pub ident : String
  pub req : String
  pub work : List String
  pub method : String
  pub command : Option String
  pub cwd : String
  pub expect : Option String
  pub match : Option String
  pub timeout : Option Number
  pub max_output : Option ℤ
  pub inputs : List String
  pub regression : Bool
  pub red_match : Option String
  pub red_exit : Option ℤ
  pub attested_because : Option String
  pub candidate : Option String
  pub exclusive : List String
  pub writes : List String
  pub needs_review : Bool
  pub removed : Bool
  pub removed_reason : Option String
  pub status : String
  pub receipt : Option Receipt
  pub red : Option Receipt
  pub baseline : Option Receipt
  pub runs : List RunRow

pub record Requirement : Type 0 where
  pub ident : String
  pub text : Option String
  pub anchor : Option String
  pub status : String
  pub authority : Option String
  pub attest_only : Bool
  pub attest_only_authority : Option String
  pub covers : List String

pub record Work : Type 0 where
  pub ident : String
  pub req : String
  pub text : Option String
  pub status : String
  pub deps : List String
  pub owns : List String
  pub removed : Bool
  pub removed_reason : Option String
  pub note : Option String

pub record Finding : Type 0 where
  pub ident : String
  pub text : Option String
  pub location : Option String
  pub origin : Option String
  pub status : String
  pub work : List String
  pub checks : List String
  pub note : Option String
  pub confirmed_at : Option String
  pub duplicate : Option String
  pub duplicate_checks : List String
  pub duplicate_decision : Option String
  pub artifact : Option Artifact
  pub authority : Option String
  pub binding : List (String × String)
  pub source : Option String

pub record Blocker : Type 0 where
  pub ident : String
  pub item : String
  pub text : Option String
  pub owner : Option String
  pub unblock : Option String
  pub proof : Option String
  pub artifact : Option Artifact
  pub decision : Option String
  pub resolved : Bool
  pub resolution : Option String

pub record Uncertain : Type 0 where
  pub ident : String
  pub text : Option String
  pub proof : Option String
  pub resolved : Bool

pub record Clause : Type 0 where
  pub ident : String
  pub text : Option String
  pub source : Option String
  pub context : Option String

pub record Amendment : Type 0 where
  pub at : String
  pub text : String
  pub source : Option String
  pub decision : Option String
  pub requirement : Option String
  pub finding : Option String

pub record Coverage : Type 0 where
  pub digest : Option String
  pub decision : Option String

pub record Review : Type 0 where
  pub signature : Option String
  pub kind : Option String
  pub artifact : Option Artifact
  pub decision : Option String

-- The three parts of an approval, each a digest.
pub record Parts : Type 0 where
  pub definition : String
  pub inputs : String
  pub environment : String

pub record Approval : Type 0 where
  pub signature : Option String
  pub parts : Option Parts
  pub decision : Option String

-- A failed attempt at an item; `signature` is what repeated failures are compared by.
pub record Attempt : Type 0 where
  pub at : String
  pub signature : Option String
  pub failure : Option String
  pub strategy : Option String
