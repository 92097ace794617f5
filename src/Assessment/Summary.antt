-- ===== src/Assessment/Summary.antt =====
-- `Assessment.summary` and `Assessment.progress` (lines 744 to 805): the reasons grouped by cause, and
-- what is satisfied now.
use done_means_done.Base.{
  ℕ, Bool, true, false, not, ◌&&◌, Option, some, String, List, [], ◌∷◌, ◌++◌, map, ◌==◌, string_eq,
  contains, filter, any, when, is_empty, length, if◌then◌else◌,
}
use done_means_done.Authority.{unconfirmed}
use done_means_done.Contract.{unmapped_clauses}
use done_means_done.Check.Definition.{lookup}
use done_means_done.Check.Verdict.{
  Verdict, Cause, superseded, edited, inputs_missing, not_run, stale, failed, other, legacy_receipt,
  is_some,
}
use done_means_done.Task.{
  Check, Work, Finding, Blocker, Uncertain, live, ids, removable_check, removable_work, check_row,
  entry_row, clause_row, work_row,
}
use done_means_done.Assessment.Evidence.{
  Assessment, verdict_of, accepted, active, work_ok, inflight, sorted,
}
use done_means_done.Assessment.Findings.{open_findings}
use done_means_done.Assessment.Reasons.{coverage_ok, open_blockers}

-- The keys of `groups`; a superseded check is no live check.
pub data Group : Type 0 where
  in_accepted in_stale in_failed in_not_run in_edited in_legacy in_missing in_other in_running :
      Group

abbrev group_of_cause : Cause → Group
group_of_cause superseded = in_other
group_of_cause edited = in_edited
group_of_cause inputs_missing = in_missing
group_of_cause not_run = in_not_run
group_of_cause stale = in_stale
group_of_cause failed = in_failed
group_of_cause other = in_other

-- The parts of the headline, each with its count where it has one.
pub data Part : Type 0 where
  items_unmapped : ℕ → Part
  coverage_not_asserted : Part
  without_check checks_running checks_stale checks_failed checks_not_run checks_edited : ℕ → Part
  checks_missing_input checks_other work_not_verified findings_open findings_deferred : ℕ → Part
  blockers_open decisions_waiting : ℕ → Part
  final_review : Part

abbrev some_of : List String → (ℕ → Part) → List Part
some_of [] part = []
some_of (x ∷ xs) part = part (length (x ∷ xs)) ∷ []

pub record Summary : Type 0 where
  pub headline : List Part
  pub rerun : List String
  pub work_unverified : List String
  pub review_owed : Bool

module _ (a : Assessment) where
  group_of_verdict : Check → Option Verdict → Group
  group_of_verdict c (some (some (cause, r))) =
      if contains (inflight a) c.ident then in_running else group_of_cause cause
  group_of_verdict c _ = if legacy_receipt c then in_legacy else in_accepted

  unfoldable pub group_of : Check → Group
  unfolding group_of_verdict
  group_of c = group_of_verdict c (verdict_of a c.ident)

  abbrev same_group : Group → Group → Bool
  same_group in_accepted in_accepted = true
  same_group in_stale in_stale = true
  same_group in_failed in_failed = true
  same_group in_not_run in_not_run = true
  same_group in_edited in_edited = true
  same_group in_legacy in_legacy = true
  same_group in_missing in_missing = true
  same_group in_other in_other = true
  same_group in_running in_running = true
  same_group _ _ = false

  -- `groups[key]`
  unfoldable pub members : Group → List String
  unfolding group_of
  members g = ids (filter (λ c. same_group (group_of c) g) (live a.t.checks))

  unverified : List String
  unverified =
      ids (
        filter (λ (w : Work). contains (active a) w.req && not (work_ok a w.ident)) (live a.t.work))

  uncovered : List String
  uncovered = filter (λ rid. not (any (λ (c : Check). c.req == rid) (live a.t.checks))) (active a)

  coverage_part : List Part
  coverage_part =
      if not (is_empty (unmapped_clauses a.t))
      then some_of (ids (unmapped_clauses a.t)) items_unmapped
      else when (not (coverage_ok a)) coverage_not_asserted

  unfoldable pub rerun : List String
  unfolding members
  rerun = members in_stale ++ (members in_failed ++ members in_not_run)

  work_part : List Part
  unfolding unverified rerun members
  work_part =
      if is_empty rerun && is_empty (members in_edited) && is_empty (members in_other)
      then some_of unverified work_not_verified
      else []

  unfoldable pub summary : Bool → Summary
  unfolding unverified uncovered coverage_part work_part rerun members
  summary owed = record {
    headline =
        coverage_part
        ++ (some_of uncovered without_check
            ++ (some_of (members in_running) checks_running
                ++ (some_of (members in_stale) checks_stale
                    ++ (some_of (members in_failed) checks_failed
                        ++ (some_of (members in_not_run) checks_not_run
                            ++ (some_of (members in_edited) checks_edited
                                ++ (some_of (members in_missing) checks_missing_input
                                    ++ (some_of (members in_other) checks_other
                                        ++ (work_part
                                            ++ (some_of (map (λ (fid, r). fid) (open_findings a))
                                                  findings_open
                                                ++ (some_of
                                                      (map (λ (f : Finding). f.ident)
                                                        (filter
                                                          (λ (f : Finding). f.status == "deferred")
                                                          a.t.findings))
                                                      findings_deferred
                                                    ++ (some_of (open_blockers a) blockers_open
                                                        ++ (some_of (ids (unconfirmed a.t))
                                                            decisions_waiting
                                                            ++ when owed final_review)))))))))))));
    rerun = rerun;
    work_unverified = unverified;
    review_owed = owed;
  }

  -- `progress`: what is satisfied, sorted.
  unfoldable pub progress : List String
  progress = sorted (
      map (λ (c : Check). c.ident) (filter (λ (c : Check). accepted a c.ident) (live a.t.checks))
      ++ (map (λ (w : Work). w.ident) (filter (λ (w : Work). work_ok a w.ident) (live a.t.work))
          ++ (map (λ (f : Finding). f.ident)
                (filter (λ (f : Finding). not (is_some (lookup f.ident (open_findings a))))
                  a.t.findings)
              ++ (map (λ (b : Blocker). b.ident) (filter (λ (b : Blocker). b.resolved) a.t.blockers)
                  ++ (map (λ (u : Uncertain). u.ident)
                        (filter (λ (u : Uncertain). u.resolved) a.t.uncertain)
                      ++ when (coverage_ok a) "coverage")))))
