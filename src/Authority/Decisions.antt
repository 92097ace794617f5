-- ===== src/Authority/Decisions.antt =====
-- A recorded decision stands until it is withdrawn.
use done_means_done.Base.{
  ◌≤◌, sym, length, filter, ◌==◌, ◌≡◌, ◌≢◌, refl, ap, ◌⊎◌, inl, inr, true, false, Option, some,
  String, List, [], ◌∷◌, arith, any, any-append, string_eq, option_eq, Bool-cases,
}
use mathlib.Core.Path.{subst}
use done_means_done.Task.{Task, Entry, Prior, ids, entry_row}
use done_means_done.Authority.{
  record_decision, decision_ok, stands, withdraw, Withdrawal, Refusal, withdrawn_to, refused, undo,
  mark, blocks_withdrawal, truthy,
}

-- A decision that was just recorded stands, for its own kind, target and binding.
pub decision_ok-record_decision :
    (t : Task) (op target text at : String) (prior : Prior) (binding : Option String)
    → let (u, entry) = record_decision t op target text at prior binding in
      decision_ok u (some entry.ident) op target binding ≡ true
unfolding record_decision decision_ok
decision_ok-record_decision t op target text at prior binding = ground (
  arith,
  any-append
      (stands (some (record_decision t op target text at prior binding).1.ident) op target binding)
      t.authority ((record_decision t op target text at prior binding).1 ∷ []),
)

-- No two decisions of the log have the ID.
abbrev pub IsUnique : String → List Entry → Type 0
IsUnique key es = length (filter (λ k. k == key) (ids es)) ≤ 1

module _ (key at : String) where
  any-absent :
      (op target : String) (binding : Option String) (es : List Entry)
      → length (filter (λ k. k == key) (ids es)) ≤ 0
      → any (stands (some key) op target binding) es ≡ false
  any-absent op target binding [] h = refl
  any-absent op target binding (e ∷ es) h = elim (Bool-cases (e.ident == key)) [
    | inl f ↦ absurd (ground arith)
    | inr f ↦ ground (arith, any-absent op target binding es)
  ]

  any-mark :
      (op target : String) (binding : Option String) (es : List Entry)
      → at ≢ ""
      → IsUnique key es
      → any (stands (some key) op target binding) (mark key at es) ≡ false
  any-mark op target binding [] h unique = refl
  any-mark op target binding (e ∷ es) h unique = elim (Bool-cases (e.ident == key)) [
    | inl f ↦ ground (arith, any-absent op target binding es)
    | inr f ↦ ground (arith, any-mark op target binding es h)
  ]

Withdrawal-cases :
    (w : Withdrawal) → ((v : Task) × (w ≡ withdrawn_to v)) ⊎ ((r : Refusal) × (w ≡ refused r))
Withdrawal-cases (withdrawn_to v) = inl (v, refl)
Withdrawal-cases (refused r) = inr (r, refl)

-- What a decision restores is not the log of decisions.
log_kept : (t : Task) {v : Task} (e : Entry) → undo t e ≡ withdrawn_to v → v.authority ≡ t.authority
unfolding undo
log_kept t {v} e h = ground arith

abbrev record_of : Task → Withdrawal → Task
record_of t (withdrawn_to u) = u
record_of t (refused r) = t

-- A withdrawal that is not refused marks the entry in the record that it answers.
withdraw-withdrawn_to :
    (t : Task) (entry : Entry) (at : String) (u : Task)
    → withdraw t entry at ≡ withdrawn_to u
    → (v : Task) × (v.authority ≡ t.authority)
      × (record v { authority = mark entry.ident at v.authority } ≡ u)
unfolding withdraw
withdraw-withdrawn_to t entry at u done = elim (Bool-cases (truthy entry.withdrawn)) [
  | inl e ↦ absurd (ground arith)
  | inr e ↦ elim (Bool-cases (any (blocks_withdrawal entry) t.authority)) [
    | inl f ↦ absurd (ground arith)
    | inr f ↦ elim (Withdrawal-cases (undo t entry)) [
      | inl (v, g) ↦ (v, log_kept t entry g, ap (record_of t) (rw (e, f, g) at done))
      | inr (r, g) ↦ absurd (ground arith)
    ]
  ]
]

-- A decision whose withdrawal was not refused, at a time whose text is not empty, no longer stands, whatever it
-- is asked for, where no other decision of the log has its ID.
pub decision_ok-withdraw :
    (t : Task) (entry : Entry) (at : String) (u : Task) (op target : String)
    (binding : Option String)
    → at ≢ ""
    → IsUnique entry.ident t.authority
    → withdraw t entry at ≡ withdrawn_to u
    → decision_ok u (some entry.ident) op target binding ≡ false
unfolding decision_ok
decision_ok-withdraw t entry at u op target binding dated unique done =
    let (v, kept, same) = withdraw-withdrawn_to t entry at u done in
    subst (λ q. any (stands (some entry.ident) op target binding) q.authority ≡ false) same
      (any-mark entry.ident at op target binding v.authority dated
        (subst (IsUnique entry.ident) (sym kept) unique))
