-- ===== src/Assessment/Findings/Cycles.antt =====
-- Duplicates that lead into a cycle, as `_findings` finds them.
use done_means_done.Base.{
  ◌≡◌, refl, ◌⊎◌, inl, inr, true, some, String, arith, string_eq, ◌==◌, Memᴰ, Option-cases,
}
use done_means_done.Task.{Finding, finding_row, get}
use done_means_done.Check.Definition.{lookup}
use done_means_done.Assessment.Evidence.{Assessment}
use done_means_done.Assessment.Findings.{
  FindingReason, closed, link, judge, link_to, link_reason, open_findings,
}
use done_means_done.Assessment.Findings.Resolution.{
  Resolves, Links, Reaches, one, more, Links-Resolves_back, cycle-not-Resolves, closed-not-Resolves,
}
use done_means_done.Assessment.Findings.Coverage.{lookup-open_findings}

module _ (a : Assessment) where
  -- `x` is recorded as a duplicate of `y`, whatever that record is worth.
  pub record Names (x y : String) : Type 0 where
    pub row : Finding
    pub found : get a.t.findings x ≡ some row
    pub duplicate : row.status ≡ "duplicate"
    pub target : row.duplicate ≡ some y

  pub data Follows (x : String) : String → Type 0 where
    direct : {y : String} → Names x y → Follows x y
    onward : {y z : String} → Follows x y → Names y z → Follows x z

  judge-duplicate :
      (f : Finding) (y : String)
      → f.status ≡ "duplicate"
      → f.duplicate ≡ some y
      → (judge a f ≡ link y) ⊎ ((r : FindingReason) × (judge a f ≡ closed r))
  unfolding judge link_to
  judge-duplicate f y e d =
      let status : (f.status == "duplicate") ≡ true = ground arith in
      elim (Option-cases (link_reason a f)) [
        | inl n ↦ inl (rw (status, n, d, judge) refl)
        | inr (r, n) ↦ inr (r, rw (status, n, judge) refl)
      ]

  Names-Links : {x y : String} → Names x y → Resolves a x → Links a x y
  Names-Links n d = elim (judge-duplicate n.row _ n.duplicate n.target) [
    | inl e ↦ record { row = n.row; found = n.found; judged = e }
    | inr (r, e) ↦ absurd (closed-not-Resolves a n.found e d)
  ]

  Follows-Reaches : {x y : String} → Follows x y → Resolves a x → Reaches a x y × Resolves a y
  Follows-Reaches (direct n) d = let l = Names-Links n d in (one l, Links-Resolves_back a l d)
  Follows-Reaches (onward f n) d =
      let (r, d') = Follows-Reaches f d in
      let l = Names-Links n d' in (more r l, Links-Resolves_back a l d')

  -- A finding that is recorded as a duplicate, through any number of others, of one on a cycle of such
  -- records is reported as open, with a reason.
  pub open_findings-cycle :
      (f : Finding) (y : String)
      → Memᴰ f a.t.findings
      → Follows f.ident y
      → Follows y y
      → (r : FindingReason) × (lookup f.ident (open_findings a) ≡ some r)
  open_findings-cycle f y member leads cycle =
      elim (Option-cases (lookup f.ident (open_findings a))) [
        | inr (r, e) ↦ (r, e)
        | inl e ↦
            let (_, d) = Follows-Reaches leads ((lookup-open_findings a f member).0 e) in
            let (r, _) = Follows-Reaches cycle d in absurd (cycle-not-Resolves a r d)
      ]
