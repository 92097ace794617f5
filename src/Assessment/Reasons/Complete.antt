-- ===== src/Assessment/Reasons/Complete.antt =====
-- What an empty list of reasons means: every obligation of the record is met, and nothing else.
use done_means_done.Base.{
  ◌≡◌, ◌≢◌, refl, sym, ◌∙◌, ◌↔◌, ◌⊎◌, inl, inr, true, false, not, none, some, String, List, [], ◌∷◌,
  map, arith, ◌==◌, string_eq, filter, when, is_empty, All, All-map, Memᴰ, Memᴰ-filter,
  append-eq-nil, when-eq-nil, any-eq-false, filter_both-eq-nil, filter-eq_self, Bool-cases,
  find-any, Memᴰ-any, eq_self, append_iff, for_each_iff,
}
use done_means_done.Authority.{unconfirmed}
use done_means_done.Contract.{unmapped_clauses}
use done_means_done.Check.Definition.{attested}
use done_means_done.Check.Verdict.{is_some}
use done_means_done.Task.{
  Check, Work, Blocker, Uncertain, Row, get, live, check_row, removable_check, removable_work,
}
use done_means_done.Assessment.Evidence.{
  Assessment, verdict_of, accepted, red_accepted, active, work_ok, checks_for, executed_checks,
  attested_checks,
}
use done_means_done.Assessment.Findings.{open_findings}
use done_means_done.Assessment.Findings.Resolution.{Resolves}
use done_means_done.Assessment.Findings.Coverage.{open_findings-eq-nil}
use done_means_done.Assessment.Reasons.{
  unknown_outcome, Owed, coverage_ok, coverage_reasons, attest_only, attested_alone, work_reasons,
  verdict_reasons, check_reasons, requirement_reasons, blocker_reasons, reasons,
}

-- A row of a list is found by its ID.
get_of_Memᴰ {ℓ} :
    {A : Type ℓ} ⦃r : Row A⦄ (rows : List A) {x : A}
    → Memᴰ x rows
    → (y : A) × (get rows (r.id_of x) ≡ some y)
unfolding get
get_of_Memᴰ ⦃r⦄ rows {x} m =
    find-any (λ y. r.id_of y == r.id_of x) rows (Memᴰ-any _ m (eq_self (r.id_of x)))

map-eq-nil {ℓ κ} : {A : Type ℓ} {B : Type κ} (f : A → B) (xs : List A) → (map f xs ≡ []) ↔ (xs ≡ [])
map-eq-nil f [] = (λ _. refl, λ _. refl)
map-eq-nil f (x ∷ xs) = (λ h. cc, λ h. cc)

iff_trans {ℓ κ μ} : {A : Type ℓ} {B : Type κ} {C : Type μ} → A ↔ B → B ↔ C → A ↔ C
iff_trans f g = (λ x. g.0 (f.0 x), λ z. f.1 (g.1 z))

module _ (a : Assessment) where
  -- An accepted check, with a red baseline behind it if it claims a regression.
  abbrev pub CheckMet : Check → Type 0
  CheckMet c = (accepted a c.ident ≡ true) × (c.regression ≡ true → red_accepted a c.ident ≡ true)

  abbrev pub WorkMet : Work → Type 0
  WorkMet w = (work_ok a w.ident ≡ true) × All (λ d. work_ok a d ≡ true) w.deps

  abbrev pub work_for : String → List Work
  work_for rid = filter (λ (w : Work). w.req == rid) (live a.t.work)

  -- A requirement with checks that are all met, work that is done, and an executed check among its
  -- evidence unless the operator accepted attestation alone.
  pub record RequirementMet (rid : String) : Type 0 where
    pub has_check : checks_for a rid ≢ []
    pub checks_met : All CheckMet (checks_for a rid)
    pub work_met : All WorkMet (work_for rid)
    pub evidenced : (executed_checks a rid ≢ []) ⊎ (attest_only a rid ≡ true)

  -- Nothing is owed but the final review.
  pub record IsDelivered : Type 0 where
    pub request_covered : unmapped_clauses a.t ≡ []
    pub coverage_current : coverage_ok a ≡ true
    pub some_requirement : active a ≢ []
    pub requirements_met : All RequirementMet (active a)
    pub findings_resolved : All (λ f. Resolves a f.ident) a.t.findings
    pub blockers_resolved : All (λ b. b.resolved ≡ true) a.t.blockers
    pub outcomes_known : All (λ u. u.resolved ≡ true) a.t.uncertain
    pub no_run : a.t.running ≡ none
    pub decisions_confirmed : unconfirmed a.t ≡ []

  verdict_reasons_lem :
      (c : Check)
      → Memᴰ c a.t.checks
      → (verdict_reasons a c (verdict_of a c.ident) ≡ []) ↔ (accepted a c.ident ≡ true)
  unfolding verdict_reasons accepted verdict_of
  verdict_reasons_lem c m = let (d, e) = get_of_Memᴰ a.t.checks m in ground arith

  check_reasons_lem : (c : Check) → Memᴰ c a.t.checks → (check_reasons a c ≡ []) ↔ CheckMet c
  unfolding check_reasons
  check_reasons_lem c m = (
    λ h.
        let (u, v) = (append-eq-nil (verdict_reasons a c (verdict_of a c.ident)) _).0 h in
        ((verdict_reasons_lem c m).0 u, λ r. ground arith),
    λ (ok, red).
        (append-eq-nil (verdict_reasons a c (verdict_of a c.ident)) _).1
          ((verdict_reasons_lem c m).1 ok, ground (arith, red)),
  )

  work_reasons_lem : (w : Work) → (work_reasons a w ≡ []) ↔ WorkMet w
  unfolding work_reasons
  work_reasons_lem w = (
    λ h.
        let (u, v) = (append-eq-nil (when (not (work_ok a w.ident)) _) _).0 h in
        (
          ground arith,
          All-map (λ d e. ground arith) w.deps
              ((any-eq-false (λ d. not (work_ok a d)) w.deps).0 (ground arith)),
        ),
    λ (ok, deps). (append-eq-nil (when (not (work_ok a w.ident)) _) _).1 (
      ground arith,
      (when-eq-nil _ _).1 (
          (any-eq-false (λ d. not (work_ok a d)) w.deps).1
            (All-map (λ d e. ground arith) w.deps deps)),
    ),
  )

  checks_met-executed_or_attested :
      (rid : String)
      → checks_for a rid ≢ []
      → All CheckMet (checks_for a rid)
      → executed_checks a rid ≡ []
      → attested_checks a rid ≢ []
  unfolding executed_checks attested_checks
  checks_met-executed_or_attested rid some_check met none_executed none_attested =
      let accepted_all : filter (λ c. accepted a c.ident) (checks_for a rid) ≡ checks_for a rid =
        filter-eq_self _ (checks_for a rid) (All-map (λ c m. m.0) (checks_for a rid) met) in
      some_check (
        sym accepted_all
        ∙ filter_both-eq-nil attested (filter (λ c. accepted a c.ident) (checks_for a rid))
            none_attested none_executed)

  checks_for-Memᴰ : (rid : String) {c : Check} → Memᴰ c (checks_for a rid) → Memᴰ c a.t.checks
  unfolding checks_for live
  checks_for-Memᴰ rid m =
      (Memᴰ-filter (λ (c : Check). not c.removed) a.t.checks
        (Memᴰ-filter (λ (c : Check). c.req == rid) (live a.t.checks) m).0).0

  requirement_reasons_lem : (rid : String) → (requirement_reasons a rid ≡ []) ↔ RequirementMet rid
  unfolding requirement_reasons
  requirement_reasons_lem rid = (
    λ h.
        let (some_check, (evidence, (work, checks))) = parts.0 h in
        record {
          has_check = λ e. ground arith;
          checks_met = checks;
          work_met = work;
          evidenced = from_evidence (λ e. ground arith) checks evidence;
        },
    λ m.
        parts.1 (from_has_check m.has_check, (to_evidence m.evidenced, (m.work_met, m.checks_met))),
  )
    where
      parts : (requirement_reasons a rid ≡ []) ↔ (
          (is_empty (checks_for a rid) ≡ false)
          × ((attested_alone a rid ≡ false)
              × (All WorkMet (work_for rid) × All CheckMet (checks_for a rid))))
      parts = append_iff (when-eq-nil _ _) (
          append_iff (when-eq-nil _ _) (
            append_iff (for_each_iff (work_for rid) (work_reasons a) (λ w m. work_reasons_lem w)) (
              for_each_iff (checks_for a rid) (check_reasons a)
                (λ c m. check_reasons_lem c (checks_for-Memᴰ rid m)))))

      from_has_check : checks_for a rid ≢ [] → is_empty (checks_for a rid) ≡ false
      from_has_check h = ground arith

      to_evidence :
          (executed_checks a rid ≢ []) ⊎ (attest_only a rid ≡ true) → attested_alone a rid ≡ false
      to_evidence h = ground arith

      from_evidence :
          checks_for a rid ≢ []
          → All CheckMet (checks_for a rid)
          → attested_alone a rid ≡ false
          → (executed_checks a rid ≢ []) ⊎ (attest_only a rid ≡ true)
      from_evidence some_check met h = elim (Bool-cases (is_empty (executed_checks a rid))) [
        | inr e ↦ inl (λ n. ground arith)
        | inl e ↦
            let n : attested_checks a rid ≢ [] =
              checks_met-executed_or_attested rid some_check met (ground arith) in
            inr (ground arith)
      ]

  coverage_reasons_lem :
      (coverage_reasons a ≡ []) ↔ ((unmapped_clauses a.t ≡ []) × (coverage_ok a ≡ true))
  unfolding coverage_reasons
  coverage_reasons_lem = ground arith

  blocker_reasons_lem : (b : Blocker) → (blocker_reasons a b ≡ []) ↔ (b.resolved ≡ true)
  unfolding blocker_reasons
  blocker_reasons_lem b = ground arith

  uncertain_lem :
      (u : Uncertain)
      → (when (not u.resolved) (let o : Owed = (u.ident, unknown_outcome) in o) ≡ [])
        ↔ (u.resolved ≡ true)
  uncertain_lem u = ground arith

  pub reasons-eq-nil : (reasons a ≡ []) ↔ IsDelivered
  unfolding reasons
  reasons-eq-nil = (
    λ h.
        let ((unmapped, cov), (act, (req, (fin, (blo, (unc, (run, dec))))))) = parts.0 h in
        record {
          request_covered = unmapped;
          coverage_current = cov;
          some_requirement = λ e. ground arith;
          requirements_met = req;
          findings_resolved = fin;
          blockers_resolved = blo;
          outcomes_known = unc;
          no_run = ground arith;
          decisions_confirmed = dec;
        },
    λ d. parts.1 (
      (d.request_covered, d.coverage_current),
      (
        some_active d.some_requirement,
        (
          d.requirements_met,
          (
            d.findings_resolved,
            (d.blockers_resolved, (d.outcomes_known, (idle d.no_run, d.decisions_confirmed))),
          ),
        ),
      ),
    ),
  )
    where
      parts : (reasons a ≡ []) ↔ (
          ((unmapped_clauses a.t ≡ []) × (coverage_ok a ≡ true))
          × ((is_empty (active a) ≡ false)
              × (All RequirementMet (active a)
                  × (All (λ f. Resolves a f.ident) a.t.findings
                      × (All (λ b. b.resolved ≡ true) a.t.blockers
                          × (All (λ u. u.resolved ≡ true) a.t.uncertain
                              × ((is_some a.t.running ≡ false) × (unconfirmed a.t ≡ []))))))))
      parts = append_iff coverage_reasons_lem (
          append_iff (when-eq-nil _ _) (
            append_iff
              (for_each_iff (active a) (requirement_reasons a)
                (λ rid m. requirement_reasons_lem rid))
              (append_iff (iff_trans (map-eq-nil _ (open_findings a)) (open_findings-eq-nil a)) (
                append_iff
                  (for_each_iff a.t.blockers (blocker_reasons a) (λ b m. blocker_reasons_lem b))
                  (append_iff (for_each_iff a.t.uncertain _ (λ u m. uncertain_lem u))
                    (append_iff (when-eq-nil _ _) (map-eq-nil _ (unconfirmed a.t))))))))

      some_active : active a ≢ [] → is_empty (active a) ≡ false
      some_active h = ground arith

      idle : a.t.running ≡ none → is_some a.t.running ≡ false
      idle h = ground arith
