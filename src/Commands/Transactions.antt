-- ===== src/Commands/Transactions.antt =====
-- What every saved change leaves behind.
use done_means_done.Base.{
  ◌≡◌, ◌≢◌, refl, sym, ◌∙◌, inl, inr, Bool, true, not, ◌&&◌, Option, some, String, [], is_empty,
  arith, string_eq, ◌==◌, ◌/=◌, Bool-cases, Option-cases,
}
use text.Mathlib.TextEquality.{eq_iff}
use mathlib.Core.Path.{subst}
use mathlib.Core.Option.{some-injective, some-ne-none}
use done_means_done.Host.{Host}
use done_means_done.Storage.Save.{save}
use done_means_done.Contract.{contract, contract_digest}
use done_means_done.Validation.{validation_errors}
use done_means_done.Validation.Order.{order_ok, visited_count, dependency_sets}
use done_means_done.Task.{Task}
use done_means_done.Commands.{cap_histories, reopened, commit, transaction}

module _ (h : Host) where
  -- Numbering a change and bounding the histories touch nothing that is validated or hashed.
  validation_errors-save :
      (t : Task) (kind at : String)
      → validation_errors (save (cap_histories t) kind at) ≡ validation_errors t
  unfolding validation_errors order_ok visited_count dependency_sets save cap_histories
  validation_errors-save t kind at = refl

  state-save : (t : Task) (kind at : String) → t.state ≡ (save (cap_histories t) kind at).state
  unfolding save cap_histories
  state-save t kind at = refl

  contract_digest-save :
      (t : Task) (kind at : String)
      → contract_digest h (save (cap_histories t) kind at) ≡ contract_digest h t
  unfolding contract_digest contract save cap_histories
  contract_digest-save t kind at = refl

  contract_digest-active :
      (t : Task) → contract_digest h (record t { state = "ACTIVE" }) ≡ contract_digest h t
  unfolding contract_digest contract
  contract_digest-active t = refl

  active-ne-complete : ◌≢◌ {A = String} "ACTIVE" "COMPLETE"
  active-ne-complete = ground (arith, eq_iff "ACTIVE" "COMPLETE")

  -- A record that is still finished has the contract it had before.
  reopened_lem :
      (before t : Task)
      → (reopened h before t).state ≡ "COMPLETE"
      → contract_digest h (reopened h before t) ≡ contract_digest h before
  unfolding reopened
  reopened_lem before t =
      elim (Bool-cases (t.state == "COMPLETE" && contract_digest h t /= contract_digest h before)) [
        | inl e ↦ rw (e, reopened) λ s. absurd (active-ne-complete s)
        | inr e ↦ rw (e, reopened) λ s. ground arith
      ]

  -- What a saved record is: valid, and finished only with the contract it had before.
  record IsSettled (before u : Task) : Type 0 where
    valid : validation_errors u ≡ []
    same_contract : u.state ≡ "COMPLETE" → contract_digest h u ≡ contract_digest h before

  commit-IsSettled :
      (before v u : Task) (kind at : String)
      → commit (reopened h before v) kind at ≡ some u
      → IsSettled before u
  unfolding commit
  commit-IsSettled before v u kind at done =
      elim (Bool-cases (is_empty (validation_errors (reopened h before v)))) [
        | inr e ↦ absurd (some-ne-none _ (sym (rw (e, commit) at done)))
        | inl e ↦ subst (IsSettled before) (some-injective _ _ (rw (e, commit) at done)) (settled e)
      ]
    where
      settled :
          is_empty (validation_errors (reopened h before v)) ≡ true
          → IsSettled before (save (cap_histories (reopened h before v)) kind at)
      settled e = record {
        valid = validation_errors-save (reopened h before v) kind at ∙ ground arith;
        same_contract = λ s.
            contract_digest-save (reopened h before v) kind at
            ∙ reopened_lem before v (state-save (reopened h before v) kind at ∙ s);
      }

  -- A change that is saved leaves a valid record; it leaves a finished one only where the contract is the
  -- one from before, and a cancelled one is changed only by a command that may.
  pub transaction_lem :
      (t : Task) (change : Task → Option Task) (kind at : String) (allow_cancelled : Bool)
      (u : Task)
      → transaction h t change kind at allow_cancelled ≡ some u
      → (validation_errors u ≡ [])
        × (u.state ≡ "COMPLETE" → contract_digest h u ≡ contract_digest h t)
        × (t.state ≡ "CANCELLED" → allow_cancelled ≡ true)
  unfolding transaction
  transaction_lem t change kind at allow_cancelled u done =
      elim (Bool-cases (t.state == "CANCELLED" && not allow_cancelled)) [
        | inl e ↦ absurd (some-ne-none _ (sym (rw (e, transaction) at done)))
        | inr e ↦ elim (Option-cases (change t)) [
          | inl f ↦ absurd (some-ne-none _ (sym (rw (e, f, transaction) at done)))
          | inr (v, f) ↦
              let settled = commit-IsSettled t v u kind at (rw (e, f, transaction) at done) in
              (settled.valid, settled.same_contract, λ c. ground arith)
        ]
      ]
