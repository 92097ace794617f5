-- ===== src/Commands/Approvals/Granted.antt =====
-- An approved check is approved: `approval_reason` finds nothing against it.
use done_means_done.Base.{
  ◌≡◌, refl, sym, ◌∙◌, ap, inl, inr, Bool, true, false, not, ◌&&◌, ◌||◌, Option, none, some,
  if◌then◌else◌, String, List, [], ◌∷◌, ◌++◌, arith, ◌==◌, string_eq, option_eq, eq_self,
  Bool-cases, any, filter, map, >>=-eq-some, guard-eq-some,
}
use text.Mathlib.TextEquality.{eq_iff}
use mathlib.Core.Path.{subst}
use mathlib.Core.Option.{some-injective}
use done_means_done.Host.{Host}
use done_means_done.Authority.{record_decision, decision_ok, unconfirmed, is_unconfirmed}
use done_means_done.Authority.Decisions.{decision_ok-record_decision}
use done_means_done.Check.Definition.{lookup}
use done_means_done.Check.Approvals.{
  approval_reason, approval_parts, approval_of, sign, Signed, signed, bad_input,
}
use done_means_done.Runs.Outputs.{put}
use done_means_done.Commands.{require_text, Context}
use done_means_done.Commands.Approvals.{
  lapse, signable, approve_parts, reuses, inspected_approval, approve,
}
use done_means_done.Task.{Task, Check, Entry, Parts, no_prior, get, new_id, check_row}

lookup-put {ℓ} :
    {A : Type ℓ} (key : String) (value : A) (entries : List (String × A))
    → lookup key (put key value entries) ≡ some value
unfolding lookup
lookup-put key value [] = ground arith
lookup-put key value ((k, v) ∷ rest) = ground (arith, lookup-put key value rest)

-- A decision of an older record that lifts the regression protection of the check.
abbrev pub downgrades : String → Entry → Bool
downgrades cid e = e.op == "check.no-regression" && e.target == cid

downgrades-lapse :
    (cid key at : String) (e : Entry)
    → any (downgrades cid) (filter is_unconfirmed (lapse key at e ∷ []))
      ≡ any (downgrades cid) (filter is_unconfirmed (e ∷ []))
downgrades-lapse cid key at e = ground (arith, eq_iff "check.approve" "check.no-regression")

any-lapse :
    (cid key at : String) (es : List Entry)
    → any (downgrades cid) (filter is_unconfirmed (map (lapse key at) es))
      ≡ any (downgrades cid) (filter is_unconfirmed es)
any-lapse cid key at [] = refl
any-lapse cid key at (e ∷ es) =
    ground (arith, any-lapse cid key at es, downgrades-lapse cid key at e)

-- What `approval_reason` tests, of a record.
record IsGranted (h : Host) (t : Task) (c : Check) (p : Parts) : Type 0 where
  same : (approval_of t c.ident).signature ≡ some (sign h p)
  stands :
      decision_ok t (approval_of t c.ident).decision "check.approve" c.ident (some (sign h p))
      ≡ true
  kept : any (downgrades c.ident) (unconfirmed t) ≡ false

approval_reason-IsGranted :
    (h : Host) (t : Task) (c : Check) (p : Parts)
    → approval_parts h c false ≡ signed p
    → IsGranted h t c p
    → approval_reason h t c ≡ none
unfolding approval_reason
approval_reason-IsGranted h t c p e g =
    rw (approval_reason, e, g.same, eq_self (some (sign h p)), g.stands, g.kept) refl

module _ (ctx : Context) (c : Check) (p : Parts) where
  abbrev asked : Task → Task
  asked t = record t { authority = map (lapse c.ident (ctx.now 0)) t.authority }

  approval_of-approve_parts :
      (reason : String) (t : Task)
      → approval_of (approve_parts ctx c reason p t) c.ident ≡ record {
        signature = some (sign ctx.host p);
        parts = some p;
        decision =
            some
              (record_decision
                (asked t)
                "check.approve"
                c.ident
                reason
                (ctx.now 1)
                no_prior
                (some (sign ctx.host p))).1.ident;
      }
  unfolding approve_parts record_decision lookup sign new_id
  approval_of-approve_parts reason t = rw (lookup-put c.ident _ t.approvals) refl

  decision_ok-approve_parts :
      (reason : String) (t : Task)
      → decision_ok
          (approve_parts ctx c reason p t)
          (some
            (record_decision
              (asked t)
              "check.approve"
              c.ident
              reason
              (ctx.now 1)
              no_prior
              (some (sign ctx.host p))).1.ident)
          "check.approve"
          c.ident
          (some (sign ctx.host p))
        ≡ true
  unfolding approve_parts decision_ok record_decision
  decision_ok-approve_parts reason t =
      decision_ok-record_decision (asked t) "check.approve" c.ident reason (ctx.now 1) no_prior
        (some (sign ctx.host p))

  any-append_confirmed :
      (es : List Entry) (e : Entry)
      → e.confirmed ≡ true
      → any (downgrades c.ident) (filter is_unconfirmed (es ++ e ∷ []))
        ≡ any (downgrades c.ident) (filter is_unconfirmed es)
  any-append_confirmed [] e h = ground arith
  any-append_confirmed (x ∷ xs) e h = ground (arith, any-append_confirmed xs e h)

  unconfirmed-approve_parts :
      (reason : String) (t : Task)
      → any (downgrades c.ident) (unconfirmed t) ≡ false
      → any (downgrades c.ident) (unconfirmed (approve_parts ctx c reason p t)) ≡ false
  unfolding approve_parts unconfirmed record_decision
  unconfirmed-approve_parts reason t h =
      any-append_confirmed (map (lapse c.ident (ctx.now 0)) t.authority) _ refl
      ∙ (any-lapse c.ident c.ident (ctx.now 0) t.authority ∙ h)

  approve_parts-IsGranted :
      (reason : String) (t : Task)
      → any (downgrades c.ident) (unconfirmed t) ≡ false
      → IsGranted ctx.host (approve_parts ctx c reason p t) c p
  approve_parts-IsGranted reason t h = record {
    same = ap (λ a. a.signature) (approval_of-approve_parts reason t);
    stands = rw (approval_of-approve_parts reason t) (decision_ok-approve_parts reason t);
    kept = unconfirmed-approve_parts reason t h;
  }

signable-eq-some : (s : Signed) {p : Parts} → signable s ≡ some p → s ≡ signed p
signable-eq-some (bad_input path) h = cc
signable-eq-some (signed q) h = ap signed (some-injective _ _ h)

module _ (ctx : Context) (c : Check) where
  abbrev granted : Parts → String → Task → Task
  granted p reason t = if reuses ctx c p t then t else approve_parts ctx c reason p t

  granted-IsGranted :
      (p : Parts) (reason : String) (t : Task)
      → any (downgrades c.ident) (unconfirmed t) ≡ false
      → IsGranted ctx.host (granted p reason t) c p
  granted-IsGranted p reason t kept = elim (Bool-cases (reuses ctx c p t)) [
    | inl e ↦ rw e (record { same = ground arith; stands = ground arith; kept = kept })
    | inr e ↦ rw e (approve_parts-IsGranted ctx c p reason t kept)
  ]

  inspected_approval-granted :
      (note : Option String) (t u : Task)
      → inspected_approval ctx c note t ≡ some u
      → (p : Parts) × (reason : String) × (approval_parts ctx.host c false ≡ signed p)
        × (granted p reason t ≡ u)
  unfolding inspected_approval
  inspected_approval-granted note t u done =
      let (p, (hp, h1)) = >>=-eq-some (signable (approval_parts ctx.host c false)) done in
      let (reason, (_, h2)) = >>=-eq-some (require_text note) h1 in
      (p, reason, signable-eq-some _ hp, some-injective _ _ h2)

module _ (ctx : Context) where
  inspected_approval-approval_reason :
      (c : Check) (note : Option String) (t u : Task)
      → any (downgrades c.ident) (unconfirmed t) ≡ false
      → inspected_approval ctx c note t ≡ some u
      → approval_reason ctx.host u c ≡ none
  inspected_approval-approval_reason c note t u kept done =
      let (p, reason, e, same) = inspected_approval-granted ctx c note t u done in
      approval_reason-IsGranted ctx.host u c p e
        (subst (λ v. IsGranted ctx.host v c p) same (granted-IsGranted ctx c p reason t kept))

  -- An approval changes no check.
  pub checks-inspected_approval :
      (c : Check) (note : Option String) (t u : Task)
      → inspected_approval ctx c note t ≡ some u
      → u.checks ≡ t.checks
  unfolding approve_parts record_decision
  checks-inspected_approval c note t u done =
      let (p, reason, _, same) = inspected_approval-granted ctx c note t u done in
      ap (λ v. v.checks) (sym same)
      ∙ elim (Bool-cases (reuses ctx c p t)) [ inl e ↦ rw e refl | inr e ↦ rw e refl ]

  -- After `dmd approve`, nothing is held against the check's approval, unless an older record's decision to
  -- lift its regression protection waits for confirmation.
  pub approve-approval_reason :
      (cid : String) (note : Option String) (t u : Task) (c : Check)
      → get t.checks cid ≡ some c
      → any (downgrades c.ident) (unconfirmed t) ≡ false
      → approve ctx cid note t ≡ some u
      → approval_reason ctx.host u c ≡ none
  unfolding approve
  approve-approval_reason cid note t u c found kept done =
      let (_, h) =
        guard-eq-some (not (c.needs_review || not (c.method == "command")))
          (rw (found, approve) at done) in
      inspected_approval-approval_reason c note t u kept h
