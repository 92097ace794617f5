-- ===== src/Assessment/Blocked/Waiting.antt =====
-- The loop computes the least set that holds the blocked items and is closed under dependency.
use done_means_done.Base.{
  ℕ, zero, suc, ◌<◌, ◌≤◌, ◌≡◌, refl, ◌↔◌, inl, inr, Bool, true, false, not, ◌&&◌, ◌||◌, Option,
  none, some, String, List, [], ◌∷◌, arith, Bool-cases, Option-cases, string_eq, contains,
  contains-any_of, any-contains, contains-All, All-contains, filter, length, All, All-Memᴰ, Memᴰ,
}
use mathlib.Core.Path.{subst}
use mathlib.Core.Option.{some-injective}
use done_means_done.Task.{Work}
use done_means_done.Assessment.Evidence.{Assessment}
use done_means_done.Assessment.Blocked.{held, pass, spread, directly_blocked, work_waiting}

-- What waits, by rules: what a supported blocker names, and what needs something that waits.
pub data Waits (a : Assessment) : String → Type 0 where
  direct : {x : String} → contains (directly_blocked a) x ≡ true → Waits a x
  by_requirement : (w : Work) → Memᴰ w a.t.work → Waits a w.req → Waits a w.ident
  by_prerequisite :
      (w : Work) {d : String}
      → Memᴰ w a.t.work
      → contains w.deps d ≡ true
      → Waits a d
      → Waits a w.ident

-- The work items that are not yet in the set.
outside : List String → List Work → ℕ
outside waiting ws = length (filter (λ w. not (contains waiting w.ident)) ws)

outside-cons-le :
    (x : String) (waiting : List String) (ws : List Work)
    → outside (x ∷ waiting) ws ≤ outside waiting ws
unfolding outside
outside-cons-le x waiting [] = omega arith
outside-cons-le x waiting (w ∷ ws) = ground (arith, outside-cons-le x waiting ws)

outside-cons-lt :
    {w : Work} (waiting : List String) {ws : List Work}
    → Memᴰ w ws
    → contains waiting w.ident ≡ false
    → outside (w.ident ∷ waiting) ws < outside waiting ws
unfolding outside
outside-cons-lt waiting {ws = []} m h = elim m [ ]
outside-cons-lt {w} waiting {ws = v ∷ vs} (Memᴰ.head e) h =
    ground (arith, outside-cons-le w.ident waiting vs)
outside-cons-lt {w} waiting {ws = v ∷ vs} (Memᴰ.tail m) h =
    ground (arith, outside-cons-lt {w = w} waiting m h)

-- One pass only adds, and reports a change exactly when it added something.
pass-keeps :
    (ws : List Work) (waiting : List String) (changed : Bool) (x : String)
    → contains waiting x ≡ true
    → contains (pass ws waiting changed).0 x ≡ true
unfolding pass
pass-keeps [] waiting changed x h = h
pass-keeps (w ∷ ws) waiting changed x h = pass-keeps ws _ _ x (ground arith)

-- A pass that changes nothing returns the set it was given, and finds no work item held outside it.
abbrev IsStable : List Work → List String → Bool → Type 0
IsStable ws waiting changed =
    (pass ws waiting changed).1 ≡ false
    → ((pass ws waiting changed).0 ≡ waiting)
      × (changed ≡ false)
      × All (λ w. (not (contains waiting w.ident) && held waiting w) ≡ false) ws

pass-IsStable :
    (ws : List Work) (waiting : List String) (changed : Bool) → IsStable ws waiting changed
unfolding pass
pass-IsStable [] waiting changed = λ h. (refl, h, tt)
pass-IsStable (w ∷ ws) waiting changed =
    elim (Bool-cases (not (contains waiting w.ident) && held waiting w)) [
      | inl e ↦
          rw (e, pass)
            λ h.
              absurd (ground (arith, (pass-IsStable ws (w.ident ∷ waiting) (changed || true) h).1))
      | inr e ↦
          rw (e, pass)
            λ h.
              let (same, quiet, rest) = pass-IsStable ws waiting (changed || false) h in
              (same, ground arith, (refl, rest))
    ]

-- A pass leaves no more work items outside, and fewer when it reports a change.
pass-le :
    (all_works ws : List Work) (waiting : List String) (changed : Bool)
    → outside (pass ws waiting changed).0 all_works ≤ outside waiting all_works
unfolding pass
pass-le all_works [] waiting changed = omega arith
pass-le all_works (w ∷ ws) waiting changed =
    elim (Bool-cases (not (contains waiting w.ident) && held waiting w)) [
      | inl e ↦
          rw (e, pass)
            (omega (
              arith,
              pass-le all_works ws (w.ident ∷ waiting) (changed || true),
              outside-cons-le w.ident waiting all_works,
            ))
      | inr e ↦ rw (e, pass) (pass-le all_works ws waiting (changed || false))
    ]

pass-lt :
    (all_works ws : List Work) (waiting : List String) (changed : Bool)
    → ((w : Work) → Memᴰ w ws → Memᴰ w all_works)
    → changed ≡ false
    → (pass ws waiting changed).1 ≡ true
    → outside (pass ws waiting changed).0 all_works < outside waiting all_works
unfolding pass
pass-lt all_works [] waiting changed sub c = λ h. cc
pass-lt all_works (w ∷ ws) waiting changed sub c =
    elim (Bool-cases (not (contains waiting w.ident) && held waiting w)) [
      | inl e ↦
          rw (e, pass)
            λ h. omega (
              arith,
              pass-le all_works ws (w.ident ∷ waiting) (changed || true),
              outside-cons-lt {w = w} waiting (sub w (Memᴰ.head refl)) (ground arith),
            )
      | inr e ↦
          rw (e, pass)
            (pass-lt all_works ws waiting (changed || false) (λ v m. sub v (Memᴰ.tail m))
              (ground arith))
    ]

-- What the loop answers: it holds what it was given, and no work item is held outside it.
record IsClosed (works : List Work) (start final : List String) : Type 0 where
  kept : (x : String) → contains start x ≡ true → contains final x ≡ true
  stable : All (λ w. (not (contains final w.ident) && held final w) ≡ false) works

abbrev SpreadEnds : List Work → List String → Option (List String) → Type 0
SpreadEnds works start none = ⊥
SpreadEnds works start (some final) = IsClosed works start final

spread-SpreadEnds :
    (works : List Work) (n : ℕ) (waiting : List String)
    → outside waiting works < n
    → SpreadEnds works waiting (spread works n waiting)
unfolding spread
spread-SpreadEnds works zero waiting h = absurd (omega arith)
spread-SpreadEnds works (suc n) waiting h = elim (Bool-cases (pass works waiting false).1) [
  | inl e ↦
      rw (e, spread)
        (extend (spread works n (pass works waiting false).0) (
          spread-SpreadEnds works n (pass works waiting false).0
            (omega (arith, pass-lt works works waiting false (λ w m. m) refl e))))
  | inr e ↦
      let (same, _, stable) = pass-IsStable works waiting false e in
      rw (e, same, spread) (record { kept = λ x k. k; stable = stable })
]
  where
    extend :
        (o : Option (List String))
        → SpreadEnds works (pass works waiting false).0 o
        → SpreadEnds works waiting o
    extend none e = e
    extend (some final) c = record {
      kept = λ x k. c.kept x (pass-keeps works waiting false x k);
      stable = c.stable;
    }

module _ (a : Assessment) where
  held-Waits :
      (waiting : List String) (w : Work)
      → Memᴰ w a.t.work
      → All (Waits a) waiting
      → held waiting w ≡ true
      → Waits a w.ident
  held-Waits waiting w m sound h = elim (Bool-cases (contains waiting w.req)) [
    | inl e ↦ by_requirement w m (contains-All (Waits a) w.req waiting e sound)
    | inr e ↦
        let (d, listed, e') = any-contains (contains waiting) w.deps (ground arith) in
        by_prerequisite w m listed (contains-All (Waits a) d waiting e' sound)
  ]

  pass-Waits :
      (ws : List Work) (waiting : List String) (changed : Bool)
      → ((w : Work) → Memᴰ w ws → Memᴰ w a.t.work)
      → All (Waits a) waiting
      → All (Waits a) (pass ws waiting changed).0
  unfolding pass
  pass-Waits [] waiting changed sub sound = sound
  pass-Waits (w ∷ ws) waiting changed sub sound =
      elim (Bool-cases (not (contains waiting w.ident) && held waiting w)) [
        | inl e ↦
            rw (e, pass)
              (pass-Waits ws (w.ident ∷ waiting) (changed || true) (λ v m. sub v (Memᴰ.tail m))
                (held-Waits waiting w (sub w (Memᴰ.head refl)) sound (ground arith), sound))
        | inr e ↦
            rw (e, pass)
              (pass-Waits ws waiting (changed || false) (λ v m. sub v (Memᴰ.tail m)) sound)
      ]

  spread-Waits :
      (n : ℕ) (waiting final : List String)
      → All (Waits a) waiting
      → spread a.t.work n waiting ≡ some final
      → All (Waits a) final
  unfolding spread
  spread-Waits zero waiting final sound = λ e. cc
  spread-Waits (suc n) waiting final sound = elim (Bool-cases (pass a.t.work waiting false).1) [
    | inl e ↦
        rw (e, spread)
          (spread-Waits n (pass a.t.work waiting false).0 final
            (pass-Waits a.t.work waiting false (λ w m. m) sound))
    | inr e ↦
        rw (e, spread)
          λ h.
            subst (All (Waits a)) (some-injective _ _ h)
              (pass-Waits a.t.work waiting false (λ w m. m) sound)
  ]

  outside-nil : (ws : List Work) (waiting : List String) → outside waiting ws < suc (length ws)
  unfolding outside
  outside-nil [] waiting = omega arith
  outside-nil (w ∷ ws) waiting = ground (arith, outside-nil ws waiting)

  ends : SpreadEnds a.t.work (directly_blocked a) (work_waiting a)
  unfolding work_waiting
  ends =
      spread-SpreadEnds a.t.work (suc (length a.t.work)) (directly_blocked a)
        (outside-nil a.t.work _)

  -- The loop ends within its fuel.
  pub work_waiting_total : (final : List String) × (work_waiting a ≡ some final)
  work_waiting_total = elim (Option-cases (work_waiting a)) [
    | inl e ↦ absurd (rw e at ends)
    | inr found ↦ found
  ]

  direct_sound : All (Waits a) (directly_blocked a)
  direct_sound = All-contains (Waits a) (directly_blocked a) (λ x h. direct h)

  Waits-contains :
      {final : List String}
      → IsClosed a.t.work (directly_blocked a) final
      → {x : String} → Waits a x
      → contains final x ≡ true
  Waits-contains c (direct h) = c.kept _ h
  Waits-contains {final} c (by_requirement w m d) = ground (
    arith,
    Waits-contains c d,
    All-Memᴰ (λ v. (not (contains final v.ident) && held final v) ≡ false) m c.stable,
  )
  Waits-contains {final} c (by_prerequisite w m listed d) = ground (
    arith,
    contains-any_of (contains final) w.deps listed (Waits-contains c d),
    All-Memᴰ (λ v. (not (contains final v.ident) && held final v) ≡ false) m c.stable,
  )

  -- The loop over the work items answers exactly what waits by the rules.
  pub contains-work_waiting :
      {final : List String} (x : String)
      → work_waiting a ≡ some final
      → (contains final x ≡ true) ↔ Waits a x
  unfolding work_waiting
  contains-work_waiting {final} x e = (
    λ h.
        contains-All (Waits a) x final h (spread-Waits _ (directly_blocked a) final direct_sound e),
    λ d. Waits-contains (rw e at ends) d,
  )
