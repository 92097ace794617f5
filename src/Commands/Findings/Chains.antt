-- ===== src/Commands/Findings/Chains.antt =====
-- The loop that follows a chain of duplicates, against what it is for: the chain ends.
use done_means_done.Base.{
  ℕ, ◌≡◌, true, false, not, some, String, List, ◌==◌, string_eq, contains, filter, length,
}
use done_means_done.Commands.Findings.{next_of}
use done_means_done.Commands.{Context}
use done_means_done.Task.{Task, Finding, get, finding_row}

-- The chain from an ID ends: each finding on it is there, and the last is no duplicate.
pub data Ends (ctx : Context) (t : Task) : String → Type 0 where
  stop : Ends ctx t ""
  step :
      {x : String} {f : Finding}
      → (x == "") ≡ false
      → get t.findings x ≡ some f
      → Ends ctx t (next_of ctx f)
      → Ends ctx t x

module _ (ctx : Context) (t : Task) where
  -- One link of the chain.
  record IsNext (x y : String) : Type 0 where
    f : Finding
    nonempty : (x == "") ≡ false
    found : get t.findings x ≡ some f
    next : next_of ctx f ≡ y

  data Reaches : String → String → Type 0 where
    one : {x y : String} → IsNext x y → Reaches x y
    more : {x y z : String} → IsNext x y → Reaches y z → Reaches x z

  -- The findings that the loop has not seen.
  abbrev unseen : List String → List Finding → ℕ
  unseen seen rows = length (filter (λ f. not (contains seen f.ident)) rows)

  -- What the loop has seen leads to where it stands.
  abbrev Trails : List String → String → Type 0
  Trails seen x = (s : String) → contains seen s ≡ true → Reaches s x
