-- ===== src/Assessment/Findings/Resolution.antt =====
-- When a finding counts as resolved, stated without the loop: it settles itself, or it is a duplicate
-- in good standing of a finding that is resolved.
use done_means_done.Base.{
  ℕ, zero, suc, ◌<◌, ◌≡◌, Bool, true, false, none, some, String, arith, string_eq,
}
use done_means_done.Task.{Finding, finding_row, get}
use done_means_done.Assessment.Evidence.{Assessment}
use done_means_done.Assessment.Findings.{FindingReason, closed, settled, link, judge}

module _ (a : Assessment) where
  pub data Resolves : String → Type 0 where
    alone :
        {x : String} (f : Finding) → get a.t.findings x ≡ some f → judge a f ≡ settled → Resolves x
    through :
        {x y : String} (f : Finding)
        → get a.t.findings x ≡ some f
        → judge a f ≡ link y
        → Resolves y
        → Resolves x

  -- `x` is a duplicate of `y`, in good standing.
  pub record Links (x y : String) : Type 0 where
    pub row : Finding
    pub found : get a.t.findings x ≡ some row
    pub judged : judge a row ≡ link y

  pub data Reaches (x : String) : String → Type 0 where
    one : {y : String} → Links x y → Reaches x y
    more : {y z : String} → Reaches x y → Links y z → Reaches x z

  -- The same, with a bound on the links that are followed.
  resolves_in : ℕ → String → Bool
  resolves_in zero x = false
  resolves_in (suc n) x = elim (get a.t.findings x) [
    | none ↦ false
    | some f ↦ elim (judge a f) [ closed r ↦ false | settled ↦ true | link y ↦ resolves_in n y ]
  ]

  resolves_in_complete : {x : String} → Resolves x → (n : ℕ) × (resolves_in n x ≡ true)
  unfolding resolves_in
  resolves_in_complete (alone f g s) = (1, ground arith)
  resolves_in_complete (through f g s d) =
      let (n, e) = resolves_in_complete d in (suc n, ground arith)

  Links-resolves_in :
      {x y : String} (l : Links x y) (n : ℕ)
      → resolves_in n x ≡ true
      → (m : ℕ) × (m < n) × (resolves_in m y ≡ true)
  unfolding resolves_in
  Links-resolves_in l zero h = cc
  Links-resolves_in l (suc n) h = (n, omega arith, ground arith)

  Reaches-resolves_in :
      {x y : String}
      → Reaches x y
      → (n : ℕ) → resolves_in n x ≡ true
      → (m : ℕ) × (m < n) × (resolves_in m y ≡ true)
  Reaches-resolves_in (one l) n h = Links-resolves_in l n h
  Reaches-resolves_in (more r l) n h =
      let (m, lt, e) = Reaches-resolves_in r n h in
      let (k, lt', e') = Links-resolves_in l m e in (k, omega arith, e')

  no_cycle : {x : String} → Reaches x x → (bound n : ℕ) → n < bound → resolves_in n x ≡ true → ⊥
  no_cycle r zero n h e = absurd (omega arith)
  no_cycle r (suc bound) n h e =
      let (m, lt, e') = Reaches-resolves_in r n e in no_cycle r bound m (omega arith) e'

  pub cycle-not-Resolves : {x : String} → Reaches x x → ¬ Resolves x
  cycle-not-Resolves r d =
      let (n, e) = resolves_in_complete d in no_cycle r (suc n) n (omega arith) e

  pub Links-Resolves : {x y : String} → Links x y → Resolves y → Resolves x
  Links-Resolves l d = through l.row l.found l.judged d

  pub Reaches-Resolves : {x y : String} → Reaches x y → Resolves y → Resolves x
  Reaches-Resolves (one l) d = Links-Resolves l d
  Reaches-Resolves (more r l) d = Reaches-Resolves r (Links-Resolves l d)

  pub Links-Resolves_back : {x y : String} → Links x y → Resolves x → Resolves y
  Links-Resolves_back l (alone f g s) = absurd (ground arith)
  Links-Resolves_back {y} l (through {y = z} f g s d) =
      let same : z ≡ y = ground arith in rw same at d

  pub Reaches-Resolves_back : {x y : String} → Reaches x y → Resolves x → Resolves y
  Reaches-Resolves_back (one l) d = Links-Resolves_back l d
  Reaches-Resolves_back (more r l) d = Links-Resolves_back l (Reaches-Resolves_back r d)

  pub missing-not-Resolves : {x : String} → get a.t.findings x ≡ none → ¬ Resolves x
  missing-not-Resolves e (alone f g s) = ground arith
  missing-not-Resolves e (through f g s d) = ground arith

  pub closed-not-Resolves :
      {x : String} {f : Finding} {r : FindingReason}
      → get a.t.findings x ≡ some f
      → judge a f ≡ closed r
      → ¬ Resolves x
  closed-not-Resolves e j (alone f g s) = ground arith
  closed-not-Resolves e j (through f g s d) = ground arith
