-- ===== src/Assessment/Findings/Loop.antt =====
-- The loop over the findings, against `Resolves`: it never runs out of fuel, and its memo is right.
use done_means_done.Base.{
  ℕ, zero, suc, ◌<◌, ◌≤◌, ◌≡◌, refl, ◌⊎◌, inl, inr, true, false, not, Option, none, some, String,
  List, [], ◌∷◌, ◌++◌, arith, Option-cases, Bool-cases, string_eq, contains, contains-append,
  contains-All, All, All-map, All-append, length, filter, map,
}
use done_means_done.Check.Definition.{lookup}
use done_means_done.Task.{Finding, finding_row, get}
use done_means_done.Assessment.Evidence.{Assessment}
use done_means_done.Assessment.Findings.{
  Memo, FindingReason, Next, closed, settled, link, judge, walk, settle,
}
use done_means_done.Assessment.Findings.Resolution.{
  Resolves, alone, Links, Reaches, one, more, cycle-not-Resolves, Reaches-Resolves,
  Reaches-Resolves_back, missing-not-Resolves, closed-not-Resolves,
}

pub Next-cases :
    (n : Next)
    → ((r : FindingReason) × (n ≡ closed r)) ⊎ (n ≡ settled) ⊎ ((y : String) × (n ≡ link y))
Next-cases (closed r) = inl (r, refl)
Next-cases settled = inr (inl refl)
Next-cases (link y) = inr (inr (y, refl))

module _ (a : Assessment) where
  -- What the loop says of a finding: it is open, for a reason, or resolved.
  abbrev pub Says : Option FindingReason → String → Type 0
  Says none x = Resolves a x
  Says (some r) x = ¬ Resolves a x

  -- The findings that a chain has not visited.
  pub fresh : List String → List Finding → ℕ
  fresh chain rows = length (filter (λ f. not (contains chain f.ident)) rows)

  pub record IsSound (memo : Memo) : Type 0 where
    pub opened : All (λ (x, r). ¬ Resolves a x) memo.unresolved
    pub closed : All (Resolves a) memo.resolved

  -- With fuel the loop ends, and is right about its chain and the finding where it stands.
  abbrev pub Ends : String → Option (List String × Option FindingReason) → Type 0
  Ends x none = ⊥
  Ends x (some (chain, r)) = All (Says r) chain × Says r x

  Ends-Links :
      {x y : String}
      → Links a x y
      → (o : Option (List String × Option FindingReason)) → Ends y o
      → Ends x o
  Ends-Links l none e = e
  Ends-Links l (some (chain, none)) (h, d) = (h, Reaches-Resolves a (one l) d)
  Ends-Links l (some (chain, some r)) (h, n) = (h, λ d. n (Reaches-Resolves_back a (one l) d))

  pub fresh-le_length : (rows : List Finding) → fresh [] rows < suc (length rows)
  unfolding fresh
  fresh-le_length [] = omega arith
  fresh-le_length (f ∷ fs) = omega (arith, fresh-le_length fs)

  fresh-le :
      (chain : List String) (x : String) (rows : List Finding)
      → fresh (chain ++ x ∷ []) rows ≤ fresh chain rows
  unfolding fresh
  fresh-le chain x [] = omega arith
  fresh-le chain x (f ∷ fs) =
      ground (arith, contains-append chain (x ∷ []) f.ident, fresh-le chain x fs)

  fresh-lt :
      (chain : List String) (x : String) (rows : List Finding) {f : Finding}
      → get rows x ≡ some f
      → contains chain x ≡ false
      → fresh (chain ++ x ∷ []) rows < fresh chain rows
  unfolding fresh get
  fresh-lt chain x [] e h = cc
  fresh-lt chain x (g ∷ gs) {f} e h = ground (
    arith,
    contains-append chain (x ∷ []) g.ident,
    fresh-lt chain x gs {f = f},
    fresh-le chain x gs,
  )

  pub lookup-All :
      (P : String → Type 0) (x : String) (rows : List (String × FindingReason)) {r : FindingReason}
      → lookup x rows ≡ some r
      → All (λ (y, _). P y) rows
      → P x
  unfolding lookup
  lookup-All P x [] e h = cc
  lookup-All P x ((y, s) ∷ rows) {r} e h = elim (string_eq.dec y x) [
    | yes same ↦ rw (← same) h.0
    | no other ↦ lookup-All P x rows {r = r} (ground arith) h.1
  ]

  module _ {memo : Memo} (sound : IsSound memo) where
    -- A finding that is judged on its own judges the chain that leads to it.
    chain_resolved :
        (chain : List String) (x : String)
        → All (λ y. Reaches a y x) chain
        → Resolves a x
        → All (Resolves a) (chain ++ x ∷ [])
    chain_resolved chain x trail d =
        All-append (Resolves a) chain (x ∷ []) (All-map (λ y r. Reaches-Resolves a r d) chain trail)
          (d, tt)

    trail_open :
        (chain : List String) (x : String)
        → All (λ y. Reaches a y x) chain
        → ¬ Resolves a x
        → All (λ y. ¬ Resolves a y) chain
    trail_open chain x trail n = All-map (λ y r d. n (Reaches-Resolves_back a r d)) chain trail

    chain_open :
        (chain : List String) (x : String)
        → All (λ y. Reaches a y x) chain
        → ¬ Resolves a x
        → All (λ y. ¬ Resolves a y) (chain ++ x ∷ [])
    chain_open chain x trail n =
        All-append (λ y. ¬ Resolves a y) chain (x ∷ []) (trail_open chain x trail n) (n, tt)

    pub walk-Ends :
        (n : ℕ) (chain : List String) (x : String)
        → All (λ y. Reaches a y x) chain
        → fresh chain a.t.findings < n
        → Ends x (walk a n memo chain x)
    unfolding walk
    walk-Ends zero chain x trail h = absurd (omega arith)
    walk-Ends (suc n) chain x trail h = elim (Bool-cases (contains memo.resolved x)) [
      | inl e ↦ rw (e, walk) (All-map (λ y r. Reaches-Resolves a r (known e)) chain trail, known e)
      | inr e ↦ elim (Option-cases (lookup x memo.unresolved)) [
        | inr (r, e') ↦ rw (e, e', walk) (trail_open chain x trail (unknown e'), unknown e')
        | inl e' ↦ elim (Bool-cases (contains chain x)) [
          | inl e'' ↦
              let n' : ¬ Resolves a x =
                cycle-not-Resolves a (contains-All (λ y. Reaches a y x) x chain e'' trail) in
              rw (e, e', e'', walk) (trail_open chain x trail n', n')
          | inr e'' ↦ elim (Option-cases (get a.t.findings x)) [
            | inl g ↦ rw (e, e', e'', g, walk) (both_open (missing-not-Resolves a g))
            | inr (f, g) ↦ elim (Next-cases (judge a f)) [
              | inl (r, j) ↦ rw (e, e', e'', g, j, walk) (both_open (closed-not-Resolves a g j))
              | inr (inl j) ↦
                  rw (e, e', e'', g, j, walk)
                    (chain_resolved chain x trail (alone f g j), alone f g j)
              | inr (inr (y, j)) ↦
                  let l : Links a x y = record { row = f; found = g; judged = j } in
                  rw (e, e', e'', g, j, walk)
                    (Ends-Links l (walk a n memo (chain ++ x ∷ []) y) (
                      walk-Ends n (chain ++ x ∷ []) y
                        (All-append (λ z. Reaches a z y) chain (x ∷ [])
                          (All-map (λ z r. more r l) chain trail) (one l, tt))
                        (omega (arith, fresh-lt chain x a.t.findings g e''))))
            ]
          ]
        ]
      ]
    ]
      where
        known : contains memo.resolved x ≡ true → Resolves a x
        known e = contains-All (Resolves a) x memo.resolved e sound.closed

        both_open : ¬ Resolves a x → All (λ y. ¬ Resolves a y) (chain ++ x ∷ []) × (¬ Resolves a x)
        both_open n' = (chain_open chain x trail n', n')

        unknown : {r : FindingReason} → lookup x memo.unresolved ≡ some r → ¬ Resolves a x
        unknown e = lookup-All (λ y. ¬ Resolves a y) x memo.unresolved e sound.opened

  All-opened :
      (r : FindingReason) (xs : List String)
      → All (λ x. ¬ Resolves a x) xs
      → All (λ (x, s). ¬ Resolves a x) (map {B = String × FindingReason} (λ x. (x, r)) xs)
  All-opened r [] h = tt
  All-opened r (x ∷ xs) h = (h.0, All-opened r xs h.1)

  pub settle-IsSound :
      {memo : Memo} (chain : List String) (r : Option FindingReason)
      → IsSound memo
      → All (Says r) chain
      → IsSound (settle a memo (chain, r))
  unfolding settle
  settle-IsSound chain none sound d = record {
    opened = sound.opened;
    closed = All-append (Resolves a) _ chain sound.closed d;
  }
  settle-IsSound chain (some r) sound d = record {
    opened = All-append _ _ (map (λ x. (x, r)) chain) sound.opened (All-opened r chain d);
    closed = sound.closed;
  }
