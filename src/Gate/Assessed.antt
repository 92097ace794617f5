-- ===== src/Gate/Assessed.antt =====
-- What the status of an assessed task means.
use text.Mathlib.TextEquality.{eq_iff}
use done_means_done.Base.{
  ◌≡◌, ◌≢◌, refl, sym, ◌∙◌, ◌↔◌, inl, inr, Bool, true, false, not, Option, none, some, String, List,
  [], ◌∷◌, map, arith, string_eq, filter, any, is_empty, All, append-eq-nil, append_iff, Bool-cases,
}
use done_means_done.Task.{Blocker}
use done_means_done.Assessment.Evidence.{Assessment}
use done_means_done.Assessment.Reasons.{
  Owed, reasons, ReviewReason, review_reason, actionable, is_actionable,
}
use done_means_done.Assessment.Reasons.Complete.{IsDelivered, reasons-eq-nil}
use done_means_done.Assessment.Actions.{owners, next_actions, suspended, status}
use done_means_done.Gate.{
  owed, Next, assessed_gate, gate_status, next_steps, all_reasons, review_list, with_plan,
}

-- The statuses are different texts.
pub invalid-ne-complete : ◌≢◌ {A = String} "INVALID" "COMPLETE"
invalid-ne-complete = ground (arith, eq_iff "INVALID" "COMPLETE")

pub invalid-ne-active : ◌≢◌ {A = String} "INVALID" "ACTIVE"
invalid-ne-active = ground (arith, eq_iff "INVALID" "ACTIVE")

pub blocked-ne-complete : ◌≢◌ {A = String} "BLOCKED" "COMPLETE"
blocked-ne-complete = ground (arith, eq_iff "BLOCKED" "COMPLETE")

pub blocked-ne-active : ◌≢◌ {A = String} "BLOCKED" "ACTIVE"
blocked-ne-active = ground (arith, eq_iff "BLOCKED" "ACTIVE")

pub invalid-ne-blocked : ◌≢◌ {A = String} "INVALID" "BLOCKED"
invalid-ne-blocked = ground (arith, eq_iff "INVALID" "BLOCKED")

active-ne-complete : ◌≢◌ {A = String} "ACTIVE" "COMPLETE"
active-ne-complete = ground (arith, eq_iff "ACTIVE" "COMPLETE")

pub suspended_lem :
    (s : String) → suspended s ≡ true → (s ≢ "COMPLETE") × ((s ≢ "ACTIVE") × (s ≢ "BLOCKED"))
suspended_lem s h = (
  λ e. ground (arith, eq_iff "PAUSED" "COMPLETE", eq_iff "CANCELLED" "COMPLETE"),
  (
    λ e. ground (arith, eq_iff "PAUSED" "ACTIVE", eq_iff "CANCELLED" "ACTIVE"),
    λ e. ground (arith, eq_iff "PAUSED" "BLOCKED", eq_iff "CANCELLED" "BLOCKED"),
  ),
)

complete-ne-blocked : ◌≢◌ {A = String} "COMPLETE" "BLOCKED"
complete-ne-blocked = ground (arith, eq_iff "COMPLETE" "BLOCKED")

active-ne-blocked : ◌≢◌ {A = String} "ACTIVE" "BLOCKED"
active-ne-blocked = ground (arith, eq_iff "ACTIVE" "BLOCKED")

filter-eq-nil {ℓ} :
    {A : Type ℓ} (p : A → Bool) (xs : List A) → filter p xs ≡ [] → All (λ x. p x ≡ false) xs
filter-eq-nil p [] h = tt
filter-eq-nil p (x ∷ xs) h = ground (arith, filter-eq-nil p xs)

-- Behind an assessment's BLOCKED: an open blocker, and no reason that the agent could act on.
pub record IsStuck (a : Assessment) : Type 0 where
  pub behind_blocker : any (λ (b : Blocker). not b.resolved) a.t.blockers ≡ true
  pub all_wait : All (λ o. is_actionable a o ≡ false) (reasons a)

module _ (a : Assessment) (require_review : Bool) where
  -- `status` says BLOCKED with reasons left only behind an open blocker.
  status-blocked :
      status a false ≡ "BLOCKED"
      → (any (λ (b : Blocker). not b.resolved) a.t.blockers ≡ true) × (actionable a ≡ [])
  unfolding status
  status-blocked h = ground (arith, active-ne-blocked)

  pub gate_status_complete :
      (gate_status a require_review ≡ "COMPLETE") ↔ (all_reasons a require_review ≡ [])
  unfolding gate_status status
  gate_status_complete =
      (λ h. ground (arith, active-ne-complete, blocked-ne-complete), λ h. rw h refl)

  review_list-eq-nil : (r : Option ReviewReason) → (review_list r ≡ []) ↔ (r ≡ none)
  review_list-eq-nil none = (λ _. refl, λ _. refl)
  review_list-eq-nil (some r) = (λ h. cc, λ h. cc)

  map_owed-eq-nil : (xs : List Owed) → (map owed xs ≡ []) ↔ (xs ≡ [])
  map_owed-eq-nil [] = (λ _. refl, λ _. refl)
  map_owed-eq-nil (x ∷ xs) = (λ h. cc, λ h. cc)

  pub all_reasons-eq-nil :
      (all_reasons a require_review ≡ [])
      ↔ (IsDelivered a × (review_reason a require_review ≡ none))
  all_reasons-eq-nil =
      append_iff
        (let m = map_owed-eq-nil (reasons a) in
          let r = reasons-eq-nil a in (λ h. r.0 (m.0 h), λ d. m.1 (r.1 d)))
        (review_list-eq-nil (review_reason a require_review))

  -- With nothing owed there is nothing to do.
  next_actions-eq-nil : reasons a ≡ [] → next_actions a ≡ []
  unfolding next_actions owners actionable
  next_actions-eq-nil h = rw h (ground arith)

  next_steps-eq-nil : all_reasons a require_review ≡ [] → next_steps a require_review ≡ []
  unfolding next_steps
  next_steps-eq-nil h =
      let (owes, no_review) = (append-eq-nil (map owed (reasons a)) _).0 h in
      let none_owed = (map_owed-eq-nil (reasons a)).0 owes in
      rw
        (
          next_actions-eq-nil none_owed,
          (review_list-eq-nil (review_reason a require_review)).0 no_review,
        )
        refl

  quiet_unless_active : gate_status a require_review ≢ "ACTIVE" → next_steps a require_review ≡ []
  unfolding gate_status
  quiet_unless_active h = elim (Bool-cases (is_empty (all_reasons a require_review))) [
    | inl e ↦ next_steps-eq-nil (ground arith)
    | inr e ↦ elim (Bool-cases (is_empty (next_steps a require_review))) [
      | inl n ↦ ground arith
      | inr n ↦ absurd (h (rw (e, n, gate_status) refl))
    ]
  ]

  -- The agent is told what to do exactly while the task is ACTIVE.
  pub assessed-active :
      ((assessed_gate a require_review).status ≡ "ACTIVE")
      ↔ ((assessed_gate a require_review).next ≢ [])
  unfolding assessed_gate
  assessed-active = (told (next_steps a require_review), active_of)
    where
      told :
          (next : List Next)
          → gate_status a require_review ≡ "ACTIVE"
          → with_plan (gate_status a require_review) next ≢ []
      told [] h e = ground arith
      told (n ∷ ns) h e = ground arith

      active_of :
          with_plan (gate_status a require_review) (next_steps a require_review) ≢ []
          → gate_status a require_review ≡ "ACTIVE"
      active_of h = elim (string_eq.dec (gate_status a require_review) "ACTIVE") [
        | yes e ↦ e
        | no n ↦ absurd (h (rw (quiet_unless_active n) (ground arith)))
      ]

  idle-All : actionable a ≡ [] → All (λ o. is_actionable a o ≡ false) (reasons a)
  unfolding actionable
  idle-All h = filter-eq-nil (is_actionable a) (reasons a) h

  gate_status-blocked : gate_status a require_review ≡ "BLOCKED" → IsStuck a
  unfolding gate_status
  gate_status-blocked h = elim (Bool-cases (is_empty (all_reasons a require_review))) [
    | inl e ↦ absurd (complete-ne-blocked (rw e at h))
    | inr e ↦ elim (Bool-cases (is_empty (next_steps a require_review))) [
      | inr n ↦ absurd (active-ne-blocked (rw (e, n) at h))
      | inl n ↦
          let (stands, idle) = status-blocked (rw (e, n) at h) in
          record { behind_blocker = stands; all_wait = idle-All idle }
    ]
  ]

  pub assessed-blocked :
      (assessed_gate a require_review).status ≡ "BLOCKED"
      → ((assessed_gate a require_review).next ≡ []) × IsStuck a
  unfolding assessed_gate string_eq
  assessed-blocked h =
      (rw (h, quiet_unless_active (λ e. active-ne-blocked (sym e ∙ h))) refl, gate_status-blocked h)
