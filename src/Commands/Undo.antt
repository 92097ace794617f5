-- ===== src/Commands/Undo.antt =====
-- The loosening decisions can be undone: withdrawing one restores what it changed.
use done_means_done.Base.{
  ◌≡◌, ◌⊎◌, refl, sym, ◌∙◌, ap, inl, inr, true, false, not, ◌||◌, Option, none, some, String, List,
  [], ◌∷◌, ◌++◌, arith, any, contains, map, ◌==◌, string_eq, option_eq, >>=-eq-some, guard-eq-some,
}
use mathlib.Core.Path.{subst}
use mathlib.Core.Option.{some-injective}
use done_means_done.Authority.{
  record_decision, withdraw, undo, withdrawn_to, find_entry, blocks_withdrawal, mark, replace,
  restore_requirement, truthy,
}
use done_means_done.Authority.Rows.{id_of-get}
use done_means_done.Authority.Undone.{
  replace-replace, get-append_last, drop_amendment-append, precedes, not_blocked_last,
}
use done_means_done.Commands.{Context}
use done_means_done.Commands.Quotes.{quoted}
use done_means_done.Commands.Requirements.{
  decide_requirement, requirement_note, cancel_requirement, accept_attestation, stranded,
}
use done_means_done.Task.{
  Task, Entry, Prior, Requirement, Amendment, no_prior, get, new_id, live, requirement_row,
  entry_row, removable_work,
}
use done_means_done.Task.Fresh.{new_id-fresh}

-- The decision that a command has just recorded can be withdrawn, and the rows and amendments are again
-- those from before the command.
pub record IsUndone (t u : Task) (at : String) : Type 0 where
  pub entry : Entry
  pub found : find_entry u (new_id t.authority "AU") ≡ some entry
  pub restored : Task
  pub withdrawn : withdraw u entry at ≡ withdrawn_to restored
  pub requirements : restored.requirements ≡ t.requirements
  pub findings : restored.findings ≡ t.findings
  pub amendments : restored.amendments ≡ t.amendments

find_entry-last :
    (t u : Task) (e : Entry)
    → u.authority ≡ t.authority ++ e ∷ []
    → e.ident ≡ new_id t.authority "AU"
    → find_entry u (new_id t.authority "AU") ≡ some e
unfolding find_entry
find_entry-last t u e log same =
    ap (λ es. get es (new_id t.authority "AU")) log
    ∙ get-append_last (new_id t.authority "AU") t.authority e
        (new_id-fresh t.authority "AU" (ground arith)) same

withdraw_lem :
    (t u v : Task) (e : Entry) (at : String)
    → u.authority ≡ t.authority ++ e ∷ []
    → truthy e.withdrawn ≡ false
    → precedes t.authority e.at ≡ true
    → undo u e ≡ withdrawn_to v
    → withdraw u e at ≡ withdrawn_to (record v { authority = mark e.ident at v.authority })
unfolding withdraw
withdraw_lem t u v e at log fresh late undone =
    rw
      (
        withdraw,
        fresh,
        ap (any (blocks_withdrawal e)) log ∙ not_blocked_last e t.authority late,
        undone,
      )
      refl

-- The two decisions about a requirement.
abbrev Decides : String → Type 0
Decides op = (op ≡ "req.cancel") ⊎ (op ≡ "req.attest-only")

Decides-op : (op : String) → Decides op → (op == "req.cancel" || op == "req.attest-only") ≡ true
Decides-op op (inl h) = ground arith
Decides-op op (inr h) = ground arith

undo-requirement :
    (u v : Task) (e : Entry)
    → Decides e.op
    → restore_requirement u e ≡ some v
    → undo u e ≡ withdrawn_to v
unfolding undo
undo-requirement u v e h back = rw (undo, Decides-op e.op h, back) refl

module _ (ctx : Context) (t : Task) (old : Requirement) (op words note : String) where
  abbrev noted : List Requirement → Task
  noted rows = record t {
    requirements = rows;
    amendments = t.amendments ++ (requirement_note (ctx.now 0) note old.ident ∷ []);
  }

  abbrev prior : Prior
  prior = record no_prior { requirement = some old; amendment_at = some (ctx.now 0) }

  -- The record with the decision, and the decision.
  decided : List Requirement → Task × Entry
  decided rows = record_decision (noted rows) op old.ident words (ctx.now 1) prior none

  -- The clock gives a time that no amendment has, and does not run backwards.
  pub record IsFresh : Type 0 where
    pub unused : contains (map (λ (a : Amendment). a.at) t.amendments) (ctx.now 0) ≡ false
    pub late : precedes t.authority (ctx.now 1) ≡ true

  restore-decided :
      (rows : List Requirement)
      → IsFresh
      → replace old.ident old rows ≡ some t.requirements
      → restore_requirement (decided rows).0 (decided rows).1
        ≡ some
            (record (decided rows).0 { requirements = t.requirements; amendments = t.amendments })
  unfolding decided record_decision
  restore-decided rows fresh back =
      rw
        (
          back,
          drop_amendment-append (ctx.now 0) t.amendments
              (requirement_note (ctx.now 0) note old.ident) fresh.unused refl,
        )
        refl

  decided-IsUndone :
      (rows : List Requirement) (at : String)
      → Decides op
      → IsFresh
      → replace old.ident old rows ≡ some t.requirements
      → IsUndone t (decided rows).0 at
  unfolding decided record_decision
  decided-IsUndone rows at which fresh back = record {
    entry = (decided rows).1;
    found = find_entry-last t _ (decided rows).1 refl refl;
    restored = _;
    withdrawn =
        withdraw_lem t _ _ (decided rows).1 at refl refl fresh.late
          (undo-requirement _ _ (decided rows).1 which (restore-decided rows fresh back));
    requirements = refl;
    findings = refl;
    amendments = refl;
  }

decide_requirement-IsUndone :
    (ctx : Context) (op words note at : String) (old new : Requirement) (t u : Task)
    → Decides op
    → IsFresh ctx t old op words note
    → get t.requirements old.ident ≡ some old
    → new.ident ≡ old.ident
    → decide_requirement ctx op old new words note t ≡ some u
    → IsUndone t u at
unfolding decide_requirement decided
decide_requirement-IsUndone ctx op words note at old new t u which fresh there same done =
    let (rows, (hr, h1)) = >>=-eq-some (replace old.ident new t.requirements) done in
    subst (λ v. IsUndone t v at) (some-injective _ _ h1)
      (decided-IsUndone ctx t old op words note rows at which fresh
        (replace-replace old.ident t.requirements {x = old} {y = new} there same hr))

module _ (ctx : Context) (rid at : String) (authority : Option String) (t u : Task) where
  -- A requirement that was cancelled comes back when the decision is withdrawn: requirements, findings and
  -- amendments are those from before, where the clock gave times of their own.
  pub cancel_requirement-IsUndone :
      contains (map (λ (a : Amendment). a.at) t.amendments) (ctx.now 0) ≡ false
      → precedes t.authority (ctx.now 1) ≡ true
      → cancel_requirement ctx rid authority t ≡ some u
      → IsUndone t u at
  unfolding cancel_requirement
  cancel_requirement-IsUndone unused late done =
      let (r, (hr, h1)) = >>=-eq-some (get t.requirements rid) done in
      let (_, h2) = guard-eq-some (not (any (stranded t r) (live t.work))) h1 in
      let (words, (_, h3)) = >>=-eq-some (quoted ctx t authority) h2 in
      let there =
        subst (λ k. get t.requirements k ≡ some r) (sym (id_of-get rid t.requirements hr)) hr in
      decide_requirement-IsUndone ctx "req.cancel" words words at r _ t u (inl refl)
        (record { unused = unused; late = late }) there refl h3

  -- So does one that was accepted on attestation alone.
  pub accept_attestation-IsUndone :
      contains (map (λ (a : Amendment). a.at) t.amendments) (ctx.now 0) ≡ false
      → precedes t.authority (ctx.now 1) ≡ true
      → accept_attestation ctx rid authority t ≡ some u
      → IsUndone t u at
  unfolding accept_attestation
  accept_attestation-IsUndone unused late done =
      let (r, (hr, h1)) = >>=-eq-some (get t.requirements rid) done in
      let (words, (_, h2)) = >>=-eq-some (quoted ctx t authority) h1 in
      let there =
        subst (λ k. get t.requirements k ≡ some r) (sym (id_of-get rid t.requirements hr)) hr in
      decide_requirement-IsUndone ctx "req.attest-only" words _ at r _ t u (inr refl)
        (record { unused = unused; late = late }) there refl h2
