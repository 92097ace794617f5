-- ===== src/Check/Approvals.antt =====
-- dmdlib/runner.py, lines 25 to 84: the signature of an inspected check, and what makes it lapse.
pub mod Signatures
use done_means_done.Base.{
  Bool, false, not, ◌&&◌, ◌||◌, Option, none, some, String, List, [], ◌∷◌, ◌++◌, map, ◌==◌, ◌/=◌,
  string_eq, option_eq, if◌then◌else◌, any, when,
}
use done_means_done.Json.{Json, str, arr, dict, Items, nil, cons}
use done_means_done.Host.{Host, bytes}
use done_means_done.Storage.{digest}
use done_means_done.Authority.{decision_ok, unconfirmed}
use done_means_done.Task.{Check, Task, Parts, Approval, Entry}
use done_means_done.Check.Definition.{check_definition, input_path, lookup}

-- `approval_parts` raises where a declared input is not a readable regular file.
pub data Signed : Type 0 where
  signed : Parts → Signed
  bad_input : String → Signed

pub data Drift : Type 0 where
  never_approved definition_changed input_changed environment_changed approval_stale : Drift

-- The texts of `approval_reason`, with what they name.
pub data ApprovalReason : Type 0 where
  input_not_regular : String → ApprovalReason
  not_current : List Drift → ApprovalReason
  approval_unconfirmed : Option String → ApprovalReason
  downgrade_unconfirmed : ApprovalReason

abbrev pub no_approval : Approval
no_approval = record { signature = none; parts = none; decision = none }

abbrev pub approval_of : Task → String → Approval
approval_of t cid = elim (lookup cid t.approvals) [ none ↦ no_approval | some a ↦ a ]

pub data Hashed : Type 0 where
  hashes : Items → Hashed
  refused_at : String → Hashed

module _ (h : Host) where
  -- The loop over the declared inputs.
  input_hashes : List String → Hashed
  input_hashes [] = hashes nil
  input_hashes (path ∷ paths) =
      let rest = input_hashes paths in
      if not (h.is_file path) || h.is_symlink path then refused_at path else elim (h.read path) [
        | bytes content ↦ elim rest [
          | hashes more ↦
              hashes (cons (arr (cons (str path) (cons (str (h.sha256 content)) nil))) more)
          | refused_at p ↦ refused_at p
        ]
        | _ ↦ refused_at path
      ]

  environment : Bool → Json
  environment legacy = dict (
      ("shell", str h.shell)
      ∷ ("path", str h.search_path)
      ∷ ("platform", str h.platform)
      ∷ ("python", str (if legacy then h.python_full else h.python))
      ∷ [])

  unfoldable pub approval_parts : Check → Bool → Signed
  unfolding input_hashes environment
  approval_parts c legacy = elim (input_hashes (map (input_path c) c.inputs)) [
    | refused_at path ↦ bad_input path
    | hashes found ↦ signed (record {
      definition = digest h (check_definition c);
      inputs = digest h (arr found);
      environment = digest h (environment legacy);
    })
  ]

  unfoldable pub sign : Parts → String
  sign p = digest h (
      dict (
        ("definition", str p.definition)
        ∷ ("inputs", str p.inputs)
        ∷ ("environment", str p.environment)
        ∷ []))

  unfoldable pub approval_signature : Check → Bool → Option String
  approval_signature c legacy = elim (approval_parts c legacy) [
    | signed p ↦ some (sign p)
    | bad_input _ ↦ none
  ]

  or_stale : List Drift → List Drift
  or_stale [] = approval_stale ∷ []
  or_stale (d ∷ ds) = d ∷ ds

  unfoldable pub approval_drift : Parts → Option Parts → List Drift
  unfolding or_stale
  approval_drift current none = never_approved ∷ []
  approval_drift current (some recorded) = or_stale (
      when (recorded.definition /= current.definition) definition_changed
      ++ (when (recorded.inputs /= current.inputs) input_changed
          ++ when (recorded.environment /= current.environment) environment_changed))

  unfoldable pub approval_reason : Task → Check → Option ApprovalReason
  approval_reason t c =
      let recorded = approval_of t c.ident in
      elim (approval_parts c false) [
        | bad_input path ↦ some (input_not_regular path)
        | signed p ↦
            if recorded.signature /= some (sign p)
            then some (not_current (approval_drift p recorded.parts))
            else if not (decision_ok t recorded.decision "check.approve" c.ident recorded.signature)
            then some (approval_unconfirmed recorded.decision)
            else if any (λ (e : Entry). e.op == "check.no-regression" && e.target == c.ident)
                (unconfirmed t)
            then some downgrade_unconfirmed
            else none
      ]
