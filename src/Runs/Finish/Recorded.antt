-- ===== src/Runs/Finish/Recorded.antt =====
-- What the loop over the results leaves in the record, where all of them are successes or none is.
use done_means_done.Base.{
  ◌≡◌, refl, sym, ◌∙◌, ap, inl, inr, Bool, Option, none, some, String, List, [], ◌∷◌, arith, All,
  ◌==◌, string_eq, eq_true, Bool-cases, Option-cases,
}
use mathlib.Core.Path.{subst}
use mathlib.Core.Option.{some-injective, some-ne-none}
use done_means_done.Host.{Host}
use done_means_done.Authority.{and_then, replace}
use done_means_done.Authority.Rows.{id_of-get, get-replaced}
use done_means_done.Task.{Task, Check, get, check_row}
use done_means_done.Runs.Plan.{Planned}
use done_means_done.Runs.Finish.{
  Executed, Observed, Judged, success, judge_run, record_run, finish_check, finish_checks,
}

pub and_then-eq-some {ℓ κ} :
    {A : Type ℓ} {B : Type κ} (o : Option A) {f : A → Option B} {b : B}
    → and_then o f ≡ some b
    → (a : A) × ((o ≡ some a) × (f a ≡ some b))
and_then-eq-some none h = absurd (some-ne-none _ (sym h))
and_then-eq-some (some a) h = (a, (refl, h))

module _ (P : Check → Type 0) where
  -- The check of the ID is in the list, as it should be.
  abbrev pub Holds : List Check → String → Type 0
  Holds rows x = (c : Check) × (get rows x ≡ some c) × P c

  replace-Holds :
      (key : String) (y : Check) (x : String) (rows : List Check) {rows' : List Check}
      → y.ident ≡ key
      → P y
      → replace key y rows ≡ some rows'
      → Holds rows x
      → Holds rows' x
  unfolding get
  replace-Holds key y x [] same good done (c, found, p) = absurd (some-ne-none _ (sym found))
  replace-Holds key y x (z ∷ zs) {rows'} same good done (c, found, p) =
      elim (Bool-cases (z.ident == key)) [
        | inl e ↦
            subst (λ rows. Holds rows x) (some-injective _ _ (rw e at done))
              (elim (Bool-cases (z.ident == x)) [
                | inl f ↦ (y, rw (same ∙ sym (eq_true z.ident key e), f) refl, good)
                | inr f ↦ (c, rw (same ∙ sym (eq_true z.ident key e), f) (rw f at found), p)
              ])
        | inr e ↦ elim (Option-cases (replace key y zs)) [
          | inl g ↦ absurd (some-ne-none _ (sym (rw (e, g) at done)))
          | inr (ys, g) ↦
              subst (λ rows. Holds rows x) (some-injective _ _ (rw (e, g) at done))
                (elim (Bool-cases (z.ident == x)) [
                  | inl f ↦ (c, rw f (rw f at found), p)
                  | inr f ↦
                      let (c', found', p') =
                        replace-Holds key y x zs same good g (c, (rw f at found), p) in
                      (c', rw f found', p')
                ])
        ]
      ]

  module _ (h : Host) (seen : Observed) (red halted ok : Bool)
      (good : (t : Task) (current : Check) (p : Planned) (e : Executed)
        → let j = judge_run h seen red t halted current p e in
          success j ≡ ok → P (record_run h seen red t current p e j)) where
    ident-record_run :
        (t : Task) (current : Check) (p : Planned) (e : Executed) (j : Judged)
        → (record_run h seen red t current p e j).ident ≡ current.ident
    unfolding record_run
    ident-record_run t current p e j = ground arith

    finish_check-Holds :
        (t : Task) (p : Planned) (e : Executed) (next : Task) (j : Judged)
        → finish_check h seen red t halted p e ≡ some (next, j)
        → success j ≡ ok
        → Holds next.checks p.check.ident × ((x : String) → Holds t.checks x → Holds next.checks x)
    unfolding finish_check
    finish_check-Holds t p e next j done fits =
        let (current, (found, h1)) = and_then-eq-some (get t.checks p.check.ident) done in
        let judged = judge_run h seen red t halted current p e in
        let row = record_run h seen red t current p e judged in
        let (checks, (put, h2)) = and_then-eq-some (replace p.check.ident row t.checks) h1 in
        let both = some-injective _ _ h2 in
        let named =
          ident-record_run t current p e judged ∙ id_of-get p.check.ident t.checks found in
        let fine = good t current p e (ap (λ q. success q.1) both ∙ fits) in
        let there = get-replaced p.check.ident t.checks {x = current} row found named put in
        subst
          (λ (rows : List Check).
            Holds rows p.check.ident × ((x : String) → Holds t.checks x → Holds rows x))
          (ap (λ q. q.0.checks) both)
          ((row, there, fine), λ x. replace-Holds p.check.ident row x t.checks named fine put)

    -- Every check that has a result is in the last record, as it should be.
    pub finish_checks-Holds :
        (t : Task) (rest : List (Planned × Executed)) (final : Task) (js : List Judged)
        → finish_checks h seen red t halted rest ≡ some (final, js)
        → All (λ j. success j ≡ ok) js
        → All (λ (p, e). Holds final.checks p.check.ident) rest
          × ((x : String) → Holds t.checks x → Holds final.checks x)
    unfolding finish_checks
    finish_checks-Holds t [] final js done fit =
        (tt, λ x held. subst (λ q. Holds q.0.checks x) (some-injective _ _ done) held)
    finish_checks-Holds t ((p, e) ∷ rest) final js done fit =
        elim (Option-cases (finish_check h seen red t halted p e)) [
          | inl f ↦ absurd (some-ne-none _ (sym (rw (f, finish_checks) at done)))
          | inr ((next, j), f) ↦ elim (Option-cases (finish_checks h seen red next halted rest)) [
            | inl g ↦ absurd (some-ne-none _ (sym (rw (f, g, finish_checks) at done)))
            | inr ((last, more), g) ↦
                let end : some (last, j ∷ more) ≡ some (final, js) =
                  rw (f, g, finish_checks) at done in
                let both = some-injective _ _ end in
                let fits =
                  subst (λ q. All (λ j. success j ≡ ok) q) (sym (ap (λ q. q.1) both)) fit in
                let (first, before) = finish_check-Holds t p e next j f fits.0 in
                let (others, after) = finish_checks-Holds next rest last more g fits.1 in
                subst
                  (λ (u : Task).
                    All (λ (p, e). Holds u.checks p.check.ident) ((p, e) ∷ rest)
                    × ((x : String) → Holds t.checks x → Holds u.checks x))
                  (ap (λ q. q.0) both)
                  ((after p.check.ident first, others), λ x held. after x (before x held))
          ]
        ]
