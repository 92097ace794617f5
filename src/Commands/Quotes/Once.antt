-- ===== src/Commands/Quotes/Once.antt =====
-- A quote authorizes one decision.
use done_means_done.Base.{◌≡◌, ◌⊎◌, true, Option, some, String, contains, string_eq, option_eq}
use done_means_done.FilePath.{of_text, to_text}
use done_means_done.Host.{Host}
use done_means_done.Commands.{Context}
use done_means_done.Commands.Quotes.{operator_quote, quoted_ops}
use done_means_done.Task.{Task, Entry}

-- The decision used the words: it is one of those that need the operator's, or they withdrew it.
abbrev pub Used : String → Entry → Type 0
Used q e = ((contains quoted_ops e.op ≡ true) × (e.text ≡ q)) ⊎ (e.withdrawn_authority ≡ some q)

module _ (text : Option String) where
  abbrev asked : Context → Task → Option String
  asked ctx t = operator_quote ctx.host ctx.history text (to_text (of_text t.root)) t.created_at
