-- ===== src/Assessment/Findings/Coverage.antt =====
-- Every finding is judged: after its round it stands in the memo, open or resolved.
use done_means_done.Base.{
  ℕ, zero, suc, ◌≡◌, refl, ◌↔◌, inl, inr, Bool, true, ◌||◌, Option, none, some, String, List, [],
  ◌∷◌, ◌++◌, arith, Option-cases, Bool-cases, string_eq, contains, contains-append, contains-All,
  All, length, map, Memᴰ, All-Memᴰ, All-of_Memᴰ,
}
use done_means_done.Check.Definition.{lookup}
use done_means_done.Check.Verdict.{is_some}
use done_means_done.Task.{Finding, finding_row, get}
use done_means_done.Assessment.Evidence.{Assessment}
use done_means_done.Assessment.Findings.{
  Memo, FindingReason, judge, walk, settle, rounds, open_findings,
}
use done_means_done.Assessment.Findings.Resolution.{Resolves}
use done_means_done.Assessment.Findings.Loop.{
  Next-cases, Says, Ends, IsSound, walk-Ends, settle-IsSound, lookup-All, fresh-le_length,
}

-- A finding that the memo has judged.
abbrev pub knows : Memo → String → Bool
knows memo x = contains memo.resolved x || is_some (lookup x memo.unresolved)

lookup-append :
    (x : String) (us vs : List (String × FindingReason))
    → is_some (lookup x (us ++ vs)) ≡ (is_some (lookup x us) || is_some (lookup x vs))
unfolding lookup
lookup-append x [] vs = refl
lookup-append x ((y, r) ∷ us) vs = ground (arith, lookup-append x us vs)

lookup-map :
    (x : String) (r : FindingReason) (chain : List String)
    → is_some (lookup x (map (λ y. (y, r)) chain)) ≡ contains chain x
unfolding lookup
lookup-map x r [] = refl
lookup-map x r (y ∷ ys) = ground (arith, lookup-map x r ys)

module _ (a : Assessment) where
  -- Settling a chain adds its findings to the memo, and drops none.
  knows-settle :
      (memo : Memo) (out : List String × Option FindingReason) (x : String)
      → knows (settle a memo out) x ≡ (knows memo x || contains out.0 x)
  unfolding settle
  knows-settle memo (chain, none) x = ground (arith, contains-append memo.resolved chain x)
  knows-settle memo (chain, some r) x =
      ground
        (arith, lookup-append x memo.unresolved (map (λ y. (y, r)) chain), lookup-map x r chain)

  module _ (memo : Memo) where
    abbrev Keeps : List String → String → Option (List String × Option FindingReason) → Type 0
    Keeps chain x none = Unit
    Keeps chain x (some out) =
        ((y : String) → contains chain y ≡ true → contains out.0 y ≡ true)
        × ((knows memo x || contains out.0 x) ≡ true)

    -- The chain that the loop answers holds the chain it was given, and the finding it began at.
    walk-Keeps : (n : ℕ) (chain : List String) (x : String) → Keeps chain x (walk a n memo chain x)
    unfolding walk
    walk-Keeps zero chain x = tt
    walk-Keeps (suc n) chain x = elim (Bool-cases (contains memo.resolved x)) [
      | inl e ↦ rw (e, walk) (λ y h. h, ground arith)
      | inr e ↦ elim (Option-cases (lookup x memo.unresolved)) [
        | inr (r, e') ↦ rw (e, e', walk) (λ y h. h, ground arith)
        | inl e' ↦ elim (Bool-cases (contains chain x)) [
          | inl e'' ↦ rw (e, e', e'', walk) (λ y h. h, ground arith)
          | inr e'' ↦ elim (Option-cases (get a.t.findings x)) [
            | inl g ↦ rw (e, e', e'', g, walk) added
            | inr (f, g) ↦ elim (Next-cases (judge a f)) [
              | inl (r, j) ↦ rw (e, e', e'', g, j, walk) added
              | inr (inl j) ↦ rw (e, e', e'', g, j, walk) added
              | inr (inr (y, j)) ↦
                  rw (e, e', e'', g, j, walk)
                    (passed y (walk a n memo (chain ++ x ∷ []) y)
                      (walk-Keeps n (chain ++ x ∷ []) y))
            ]
          ]
        ]
      ]
    ]
      where
        added :
            ((y : String) → contains chain y ≡ true → contains (chain ++ x ∷ []) y ≡ true)
            × ((knows memo x || contains (chain ++ x ∷ []) x) ≡ true)
        added = (
          λ y h. ground (arith, contains-append chain (x ∷ []) y),
          ground (arith, contains-append chain (x ∷ []) x),
        )

        passed :
            (y : String) (out : Option (List String × Option FindingReason))
            → Keeps (chain ++ x ∷ []) y out
            → Keeps chain x out
        passed y none h = tt
        passed y (some out) (kept, started) =
            (λ z m. kept z (added.0 z m), ground (arith, kept x, contains-append chain (x ∷ []) x))

  -- After the rounds over `fs` the memo is right, has lost nothing, and knows each of `fs`.
  abbrev RoundsEnd : List Finding → Memo → Option Memo → Type 0
  RoundsEnd fs memo none = ⊥
  RoundsEnd fs memo (some final) =
      IsSound a final
      × ((x : String) → knows memo x ≡ true → knows final x ≡ true)
      × All (λ f. knows final f.ident ≡ true) fs

  RoundsEnd-step :
      (f : Finding) (fs : List Finding) (memo : Memo) (out : List String × Option FindingReason)
      (r : Option Memo)
      → Keeps memo [] f.ident (some out)
      → RoundsEnd fs (settle a memo out) r
      → RoundsEnd (f ∷ fs) memo r
  RoundsEnd-step f fs memo out none kept h = h
  RoundsEnd-step f fs memo out (some final) kept (sound, more, rest) = (
    sound,
    λ x h. more x (ground (arith, knows-settle memo out x)),
    (more f.ident (ground (arith, knows-settle memo out f.ident)), rest),
  )

  rounds-RoundsEnd :
      (fs : List Finding) (memo : Memo) → IsSound a memo → RoundsEnd fs memo (rounds a fs memo)
  unfolding rounds
  rounds-RoundsEnd [] memo sound = (sound, λ x h. h, tt)
  rounds-RoundsEnd (f ∷ fs) memo sound =
      go (walk a (suc (length a.t.findings)) memo [] f.ident) refl
        (walk-Ends a sound (suc (length a.t.findings)) [] f.ident tt
          (fresh-le_length a a.t.findings))
        (walk-Keeps memo (suc (length a.t.findings)) [] f.ident)
        (λ chain r judged.
          rounds-RoundsEnd fs (settle a memo (chain, r)) (settle-IsSound a chain r sound judged))
    where
      go :
          (out : Option (List String × Option FindingReason))
          → walk a (suc (length a.t.findings)) memo [] f.ident ≡ out
          → Ends a f.ident out
          → Keeps memo [] f.ident out
          → ((chain : List String) (r : Option FindingReason)
              → All (Says a r) chain
              → RoundsEnd fs (settle a memo (chain, r)) (rounds a fs (settle a memo (chain, r))))
          → RoundsEnd (f ∷ fs) memo (rounds a (f ∷ fs) memo)
      go none e ends kept rest = absurd ends
      go (some (chain, r)) e ends kept rest =
          rw (e, rounds)
            (RoundsEnd-step f fs memo (chain, r) (rounds a fs (settle a memo (chain, r))) kept
              (rest chain r ends.0))

  abbrev pub empty_memo : Memo
  empty_memo = record { unresolved = []; resolved = [] }

  all_rounds : RoundsEnd a.t.findings empty_memo (rounds a a.t.findings empty_memo)
  all_rounds = rounds-RoundsEnd a.t.findings empty_memo (record { opened = tt; closed = tt })

  -- The loop of every finding ends within its fuel.
  pub rounds_total : (memo : Memo) × (rounds a a.t.findings empty_memo ≡ some memo)
  rounds_total = elim (Option-cases (rounds a a.t.findings empty_memo)) [
    | inl e ↦ absurd (rw e at all_rounds)
    | inr found ↦ found
  ]

  -- A recorded finding is reported as open exactly when it is not resolved: when the chain of
  -- duplicates that starts at it does not end, in good standing, at a finding that settles itself.
  pub lookup-open_findings :
      (f : Finding)
      → Memᴰ f a.t.findings
      → (lookup f.ident (open_findings a) ≡ none) ↔ Resolves a f.ident
  unfolding open_findings
  lookup-open_findings f m =
      let (memo, e) = rounds_total in
      let end : RoundsEnd a.t.findings empty_memo (some memo) = rw e at all_rounds in
      rw (e, open_findings) (answer memo end)
    where
      answer :
          (memo : Memo)
          → RoundsEnd a.t.findings empty_memo (some memo)
          → (lookup f.ident memo.unresolved ≡ none) ↔ Resolves a f.ident
      answer memo (sound, _, known) = (
        λ h.
            contains-All (Resolves a) f.ident memo.resolved
              (ground (arith, All-Memᴰ (λ g. knows memo g.ident ≡ true) m known)) sound.closed,
        λ d. elim (Option-cases (lookup f.ident memo.unresolved)) [
          | inl e ↦ e
          | inr (r, e) ↦
              absurd (
                lookup-All a (λ y. ¬ Resolves a y) f.ident memo.unresolved {r = r} e sound.opened d)
        ],
      )

  -- Where every finding is resolved, no round opens one.
  rounds_resolved :
      (fs : List Finding) (memo : Memo)
      → IsSound a memo
      → All (λ f. Resolves a f.ident) fs
      → memo.unresolved ≡ []
      → (final : Memo) → rounds a fs memo ≡ some final
      → final.unresolved ≡ []
  unfolding rounds settle
  rounds_resolved [] memo sound all_resolve empty final e = ground arith
  rounds_resolved (f ∷ fs) memo sound all_resolve empty final e =
      go (walk a (suc (length a.t.findings)) memo [] f.ident) refl
        (walk-Ends a sound (suc (length a.t.findings)) [] f.ident tt
          (fresh-le_length a a.t.findings))
        (λ next sound'. rounds_resolved fs next sound' all_resolve.1)
    where
      go :
          (out : Option (List String × Option FindingReason))
          → walk a (suc (length a.t.findings)) memo [] f.ident ≡ out
          → Ends a f.ident out
          → ((next : Memo)
              → IsSound a next
              → next.unresolved ≡ []
              → (final : Memo) → rounds a fs next ≡ some final
              → final.unresolved ≡ [])
          → final.unresolved ≡ []
      go none w ends rest = absurd ends
      go (some (chain, none)) w ends rest =
          rest (settle a memo (chain, none)) (settle-IsSound a chain none sound ends.0) empty final
            (ground arith)
      go (some (chain, some r)) w ends rest = absurd (ends.1 all_resolve.0)

  -- The gate has no open finding exactly when every recorded finding is resolved.
  pub open_findings-eq-nil : (open_findings a ≡ []) ↔ All (λ f. Resolves a f.ident) a.t.findings
  unfolding open_findings lookup
  open_findings-eq-nil = (
    λ h. All-of_Memᴰ a.t.findings λ f m. (lookup-open_findings f m).0 (rw h refl),
    λ h.
        let (memo, e) = rounds_total in
        rw (e, open_findings)
          (rounds_resolved a.t.findings empty_memo (record { opened = tt; closed = tt }) h refl memo
            e),
  )
