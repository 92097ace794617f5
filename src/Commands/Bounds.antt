-- ===== src/Commands/Bounds.antt =====
-- A record stays bounded: what every saved change cuts, and the sessions.
use done_means_done.Base.{
  ℕ, zero, suc, ◌-◌, ◌≤◌, ◌≡◌, refl, sym, inl, inr, Bool, true, false, not, ◌&&◌, ◌||◌, Option,
  some, String, List, [], ◌∷◌, ◌++◌, All, arith, length, last_n, drop, map, is_empty, contains,
  ◌==◌, string_eq, Bool-cases, Option-cases,
}
use mathlib.Core.Path.{subst}
use mathlib.Core.Option.{some-injective, some-ne-none}
use done_means_done.Json.{str}
use done_means_done.Host.{Host}
use done_means_done.Storage.{digest}
use done_means_done.Storage.Save.{length-append_last, save, event_tail, length-last_n}
use done_means_done.Validation.{validation_errors}
use done_means_done.Commands.{cap_histories, reopened, commit, transaction, max_history}
use done_means_done.Commands.Tasks.{remember_session, max_sessions}
use done_means_done.Task.{Task, Attempt}

abbrev pub History : Type 0
History = String × List Attempt

abbrev pub IsShort : History → Type 0
IsShort (key, history) = length history ≤ max_history

capped :
    (attempts : List History)
    → All IsShort (map (λ (key, history). (key, last_n max_history history)) attempts)
capped [] = tt
capped ((key, history) ∷ rest) = (length-last_n max_history history, capped rest)

-- The bounds on what a long task appends to.
pub record IsBounded (u : Task) : Type 0 where
  pub events : length u.events ≤ event_tail
  pub review_log : length u.review_log ≤ max_history
  pub attempts : All IsShort u.attempts

save-IsBounded : (t : Task) (kind at : String) → IsBounded (save (cap_histories t) kind at)
unfolding save cap_histories
save-IsBounded t kind at = record {
  events =
      length-last_n event_tail
        (t.events ++ (record { sequence = suc t.sequence; at = at; kind = kind } ∷ []));
  review_log = length-last_n max_history t.review_log;
  attempts = capped t.attempts;
}

commit-IsBounded : (t u : Task) (kind at : String) → commit t kind at ≡ some u → IsBounded u
unfolding commit
commit-IsBounded t u kind at done = elim (Bool-cases (is_empty (validation_errors t))) [
  | inl e ↦ subst IsBounded (some-injective _ _ (rw (e, commit) at done)) (save-IsBounded t kind at)
  | inr e ↦ absurd (some-ne-none _ (sym (rw (e, commit) at done)))
]

-- Whatever a change appends, the saved record keeps at most 200 events, and at most 50 lines of the review log
-- and of each item's attempts.
pub transaction-IsBounded :
    (h : Host) (t : Task) (change : Task → Option Task) (kind at : String) (allow_cancelled : Bool)
    (u : Task)
    → transaction h t change kind at allow_cancelled ≡ some u
    → IsBounded u
unfolding transaction
transaction-IsBounded h t change kind at allow_cancelled u done =
    elim (Bool-cases (t.state == "CANCELLED" && not allow_cancelled)) [
      | inl e ↦ absurd (some-ne-none _ (sym (rw (e, transaction) at done)))
      | inr e ↦ elim (Option-cases (change t)) [
        | inl f ↦ absurd (some-ne-none _ (sym (rw (e, f, transaction) at done)))
        | inr (v, f) ↦ commit-IsBounded (reopened h t v) u kind at (rw (e, f, transaction) at done)
      ]
    ]

contains-append_last : (xs : List String) (key : String) → contains (xs ++ key ∷ []) key ≡ true
contains-append_last [] key = ground arith
contains-append_last (x ∷ xs) key = ground (arith, contains-append_last xs key)

contains-drop_last :
    (n : ℕ) (xs : List String) (key : String)
    → n ≤ length xs
    → contains (drop n (xs ++ key ∷ [])) key ≡ true
contains-drop_last zero xs key h = contains-append_last xs key
contains-drop_last (suc n) [] key h = absurd (omega arith)
contains-drop_last (suc n) (x ∷ xs) key h = contains-drop_last n xs key (omega arith)

module _ (h : Host) (session : String) where
  abbrev key : String
  key = digest h (str session)

  kept_last : (xs : List String) → contains (last_n max_sessions (xs ++ key ∷ [])) key ≡ true
  kept_last xs =
      contains-drop_last (length (xs ++ key ∷ []) - max_sessions) xs key
        (omega (arith, length-append_last xs key))

  abbrev pub Knows : Task → Type 0
  Knows u = (contains u.sessions session || contains u.sessions (digest h (str session))) ≡ true

  -- The record with the session, where it lacks it.
  added : Task → Task
  added t = record t { sessions = last_n max_sessions (t.sessions ++ (key ∷ [])) }

  remember_session-old : (u : Task) → Knows u → remember_session h session u ≡ u
  unfolding remember_session
  remember_session-old u e = rw (remember_session, e) refl

  remember_session-new :
      (u : Task)
      → (contains u.sessions session || contains u.sessions key) ≡ false
      → remember_session h session u ≡ added u
  unfolding remember_session added
  remember_session-new u e = rw (remember_session, e) refl

  added-Knows : (t : Task) → Knows (added t)
  unfolding added
  added-Knows t = ground (arith, kept_last t.sessions)

  added_bound : (t : Task) → length (added t).sessions ≤ max_sessions
  unfolding added
  added_bound t = length-last_n max_sessions (t.sessions ++ key ∷ [])

  IsRemembered : Task → Type 0
  IsRemembered u = Knows u × (length u.sessions ≤ max_sessions)

  remember_session-IsRemembered :
      (t : Task) → length t.sessions ≤ max_sessions → IsRemembered (remember_session h session t)
  unfolding IsRemembered
  remember_session-IsRemembered t bound =
      elim (Bool-cases (contains t.sessions session || contains t.sessions key)) [
        | inl e ↦ subst IsRemembered (sym (remember_session-old t e)) (e, bound)
        | inr e ↦ subst IsRemembered (sym (remember_session-new t e)) (added-Knows t, added_bound t)
      ]

  -- A session that is remembered is in the record, which holds at most 50 where it did before; to remember it
  -- again changes nothing.
  pub remember_session_lem :
      (t : Task)
      → length t.sessions ≤ max_sessions
      → let u = remember_session h session t in
        Knows u × (length u.sessions ≤ max_sessions) × (remember_session h session u ≡ u)
  unfolding IsRemembered
  remember_session_lem t bound =
      let (known, short) = remember_session-IsRemembered t bound in
      (known, short, remember_session-old _ known)
