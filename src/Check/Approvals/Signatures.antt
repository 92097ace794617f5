-- ===== src/Check/Approvals/Signatures.antt =====
-- A check with nothing against its approval carries the recorded signature.
use done_means_done.Base.{◌≡◌, true, false, none, arith, string_eq, option_eq}
use done_means_done.Host.{Host}
use done_means_done.Task.{Task, Check}
use done_means_done.Authority.{decision_ok}
use done_means_done.Check.Approvals.{approval_signature, approval_reason, approval_of}

module _ (h : Host) (t : Task) (c : Check) where
  -- Where an approval lapses for no reason, its recorded signature is the one that the check, its
  -- inputs and the environment have now, and a confirmed decision stands behind it.
  pub approval_reason-eq-none :
      approval_reason h t c ≡ none
      → ((approval_of t c.ident).signature ≡ approval_signature h c false)
        × (decision_ok t
              (approval_of t c.ident).decision
              "check.approve"
              c.ident
              (approval_of t c.ident).signature
            ≡ true)
  unfolding approval_reason approval_signature
  approval_reason-eq-none e = ground arith
