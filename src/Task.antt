-- ===== src/Task.antt =====
-- The task record, task.json, after it is parsed: one record type for each kind of row. A key that
-- may be missing or null is an Option; `.get` reads both alike. Rows are made in dmdlib/cli.py and
-- dmdlib/runs.py; a shape that Python tests with `isinstance` is a type here.
pub mod Fresh
mod Rows
pub use Rows.*
use done_means_done.Base.{
  ℕ, suc, Bool, false, not, Option, none, String, ◌<>◌, List, [], ◌∷◌, find, filter,
}
use done_means_done.Base.{◌==◌, string_eq, leb, if◌then◌else◌, map}
use done_means_done.Base.Text.{id_number, two_digits}
use done_means_done.Json.{Json}

-- What a decision keeps of the state that it replaces, by its kind; a key that it lacks is `none`.
pub record Prior : Type 0 where
  pub requirement : Option Requirement
  pub finding : Option Finding
  pub check : Option Check
  pub amendment_at : Option String
  pub state : Option String
  pub state_reason : Option String
  pub review : Option Review
  pub baseline : Option Receipt
  pub coverage : Option Coverage
  pub clauses : List Clause
  pub source : Option String
  pub require_independent_review : Bool

abbrev pub no_prior : Prior
no_prior = record {
  requirement = none;
  finding = none;
  check = none;
  amendment_at = none;
  state = none;
  state_reason = none;
  review = none;
  baseline = none;
  coverage = none;
  clauses = [];
  source = none;
  require_independent_review = false;
}

-- A decision of the authority log (AU-*).
pub record Entry : Type 0 where
  pub ident : String
  pub op : String
  pub target : String
  pub text : String
  pub at : String
  pub confirmed : Bool
  pub withdrawn : Option String
  pub withdrawn_authority : Option String
  pub prior : Prior
  pub binding : Option String

-- The recorded verification run.
pub record Running : Type 0 where
  pub token : String
  pub checks : List String
  pub check : Option String
  pub started : String
  pub pid : Option ℕ
  pub host : Option String
  pub red : Bool
  pub interrupted : Bool

-- What the Stop hook remembers of one session.
pub record Watch : Type 0 where
  pub done : Option (List String)
  pub count : ℕ
  pub at : String

-- The last stop that was let through without progress.
pub record Released : Type 0 where
  pub at : String
  pub session : String
  pub count : ℕ
  pub done : List String

-- A line of the review log.
pub record Reviewed : Type 0 where
  pub at : String
  pub outcome : String
  pub kind : String
  pub reviewer : String
  pub artifact : Option Artifact

pub record Event : Type 0 where
  pub sequence : ℕ
  pub at : String
  pub kind : String

pub record Task : Type 0 where
  pub schema : ℕ
  pub task_id : String
  pub root : String
  pub state : String
  pub state_reason : Option String
  pub created_at : String
  pub original_request : Option String
  pub request_provenance : Option Json
  pub authorization : Option String
  pub amendments : List Amendment
  pub requirements : List Requirement
  pub work : List Work
  pub checks : List Check
  pub findings : List Finding
  pub blockers : List Blocker
  pub uncertain : List Uncertain
  pub clauses : Option (List Clause)
  pub approvals : List (String × Approval)
  pub authority : List Entry
  pub coverage : Option Coverage
  pub review : Option Review
  pub review_log : List Reviewed
  pub require_independent_review : Bool
  pub running : Option Running
  pub attempts : List (String × List Attempt)
  pub sessions : List String
  pub watchdogs : List (String × Watch)
  pub released : Option Released
  pub host_map : List (String × String)
  pub sequence : ℕ
  pub updated_at : String
  pub events : List Event

-- A row with an ID: what `get` and `new_id` read.
pub record Row {ℓ} (A : Type ℓ) : Type ℓ where
  pub id_of : A → String

-- A row that may be superseded.
pub record Removable {ℓ} (A : Type ℓ) : Type ℓ where
  pub is_removed : A → Bool

instance abbrev pub requirement_row : Row Requirement
requirement_row = record { id_of = λ r. r.ident }

instance abbrev pub work_row : Row Work
work_row = record { id_of = λ w. w.ident }

instance abbrev pub check_row : Row Check
check_row = record { id_of = λ c. c.ident }

instance abbrev pub finding_row : Row Finding
finding_row = record { id_of = λ f. f.ident }

instance abbrev pub blocker_row : Row Blocker
blocker_row = record { id_of = λ b. b.ident }

instance abbrev pub uncertain_row : Row Uncertain
uncertain_row = record { id_of = λ u. u.ident }

instance abbrev pub clause_row : Row Clause
clause_row = record { id_of = λ c. c.ident }

instance abbrev pub entry_row : Row Entry
entry_row = record { id_of = λ e. e.ident }

instance abbrev pub removable_work : Removable Work
removable_work = record { is_removed = λ w. w.removed }

instance abbrev pub removable_check : Removable Check
removable_check = record { is_removed = λ c. c.removed }

-- `model.live`
unfoldable pub live {ℓ} : {A : Type ℓ} ⦃r : Removable A⦄ → List A → List A
live ⦃r⦄ items = filter (λ x. not (r.is_removed x)) items

module _ {ℓ} {A : Type ℓ} ⦃r : Row A⦄ where
  -- `model.get`; `none` is the DmdError `unknown ID`.
  unfoldable pub get : List A → String → Option A
  get items key = find (λ x. r.id_of x == key) items

  abbrev pub ids : List A → List String
  ids items = map r.id_of items

  abbrev pub highest : List A → ℕ
  highest [] = 0
  highest (x ∷ xs) =
      let n = highest xs in if leb (id_number (r.id_of x)) n then n else id_number (r.id_of x)

  -- `model.new_id`: one above the highest number in use.
  unfoldable pub new_id : List A → String → String
  new_id items prefix = prefix <> ("-" <> two_digits (suc (highest items)))
