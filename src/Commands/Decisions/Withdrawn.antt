-- ===== src/Commands/Decisions/Withdrawn.antt =====
-- What `dmd authority withdraw` takes away, and what it needs.
use done_means_done.Base.{
  refl, ◌≤◌, ◌==◌, length, filter, arith, ◌≡◌, ◌≢◌, sym, ◌∙◌, ap, inl, inr, true, false, Option,
  some, String, Bool-cases, string_eq, >>=-eq-some,
}
use mathlib.Core.Path.{subst}
use mathlib.Core.Option.{some-injective, some-ne-none}
use done_means_done.Authority.{
  decision_ok, find_entry, loosens_when_withdrawn, Withdrawal, withdrawn_to, refused, replace,
}
use done_means_done.Authority.Rows.{id_of-get, ids-replace}
use done_means_done.Authority.Decisions.{IsUnique, decision_ok-withdraw}
use done_means_done.Commands.{require_text, Context}
use done_means_done.Commands.Quotes.{quoted}
use done_means_done.Commands.Decisions.{
  restored, put_entry, authorized, cancelled_for, withdraw_decision,
}
use done_means_done.Task.{Task, Entry, get, entry_row}

restored-eq-some : (w : Withdrawal) {u : Task} → restored w ≡ some u → w ≡ withdrawn_to u
restored-eq-some (withdrawn_to v) h = ap withdrawn_to (some-injective _ _ h)
restored-eq-some (refused r) h = absurd (some-ne-none _ (sym h))

put_entry-IsUnique :
    (e : Entry) (t v : Task)
    → put_entry e t ≡ some v
    → IsUnique e.ident t.authority
    → IsUnique e.ident v.authority
put_entry-IsUnique e t v done unique =
    let (rows, (hr, h)) = >>=-eq-some (replace e.ident e t.authority) done in
    subst (λ w. IsUnique e.ident w.authority) (some-injective _ _ h)
      (subst (λ is. length (filter (λ k. k == e.ident) is) ≤ 1)
        (sym (ids-replace e.ident t.authority e refl hr)) unique)

authority-cancelled_for :
    (e : Entry) (previous : String) (t : Task)
    → (cancelled_for e previous t).authority ≡ t.authority
authority-cancelled_for e previous t = ground arith

module _ (ctx : Context) (t : Task) (authority : Option String) where
  -- The operator's words are there where the withdrawal needs them.
  abbrev pub HasWords : Entry → Type 0
  HasWords e = loosens_when_withdrawn e ≡ true → (w : String) × (quoted ctx t authority ≡ some w)

  authorized_lem :
      (e e' : Entry) → authorized ctx t e authority ≡ some e' → (e'.ident ≡ e.ident) × HasWords e
  unfolding authorized
  authorized_lem e e' done = elim (Bool-cases (loosens_when_withdrawn e)) [
    | inr f ↦ (ap (λ x. x.ident) (sym (some-injective _ _ (rw (f, authorized) at done))), λ l. cc)
    | inl f ↦
        let (words, (hw, h)) = >>=-eq-some (quoted ctx t authority) (rw (f, authorized) at done) in
        (ap (λ x. x.ident) (sym (some-injective _ _ h)), λ l. (words, hw))
  ]

  -- A decision that was withdrawn, and whose ID no other decision has, no longer stands, whatever it is asked for; where its withdrawal restores a
  -- looser contract, the operator's words were given.
  pub withdraw_decision_lem :
      (id : Option String) (previous key : String) (u : Task)
      → ctx.now 0 ≢ ""
      → IsUnique key t.authority
      → require_text id ≡ some key
      → withdraw_decision ctx id authority previous t ≡ some u
      → (e : Entry) × (find_entry t key ≡ some e)
        × HasWords e
        × ((op target : String) (binding : Option String)
            → decision_ok u (some key) op target binding ≡ false)
  unfolding withdraw_decision find_entry
  withdraw_decision_lem id previous key u dated unique given done =
      let (key', (hk, h1)) = >>=-eq-some (require_text id) done in
      let (e, (he, h2)) = >>=-eq-some (find_entry t key') h1 in
      let (e', (ha, h3)) = >>=-eq-some (authorized ctx t e authority) h2 in
      let (v, (hv, h4)) = >>=-eq-some (put_entry e' t) h3 in
      let (same, words) = authorized_lem e e' ha in
      let named = same ∙ (id_of-get key' t.authority he ∙ some-injective _ _ (sym hk ∙ given)) in
      let alone =
        subst (IsUnique e'.ident) (sym (authority-cancelled_for e' previous v))
          (put_entry-IsUnique e' t v hv (subst (λ k. IsUnique k t.authority) (sym named) unique)) in
      (
        e,
        subst (λ k. get t.authority k ≡ some e) (some-injective _ _ (sym hk ∙ given)) he,
        words,
        λ op target binding.
            subst (λ k. decision_ok u (some k) op target binding ≡ false) named
              (decision_ok-withdraw (cancelled_for e' previous v) e' (ctx.now 0) u op target binding
                dated alone (restored-eq-some _ h4)),
      )
