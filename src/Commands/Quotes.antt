-- ===== src/Commands/Quotes.antt =====
-- The operator's words: `operator_words` and `operator_quote` of dmdlib/store.py, `quoted` of dmdlib/cli.py. A decision
-- that loosens the contract quotes a prompt that the operator typed after the task began, once.
pub mod Bounded
pub mod Once
use done_means_done.Base.{
  ℕ, Bool, true, false, not, ◌&&◌, ◌||◌, Option, none, some, String, List, [], ◌∷◌, map, filter,
  any, leb, length, contains, ◌==◌, string_eq, option_eq, if◌then◌else◌, ◌>>=◌, ◌>>◌, guard,
}
use Prim.Native.Char.{code}
use done_means_done.Base.Text.{codes, is_space, drop_prefix, strip, text_lt}
use done_means_done.Json.{str}
use done_means_done.Host.{Host}
use done_means_done.FilePath.{of_text, to_text}
use done_means_done.Storage.{digest}
use done_means_done.Check.Definition.{value_of}
use done_means_done.Commands.{require_text, Prompt, History, Context}
use done_means_done.Task.{Task, Entry}

-- A prompt that the file holds as it was written, and that came after the time.
abbrev pub said_since : Host → String → Prompt → Bool
said_since h since p = some (digest h (str p.text)) == p.digest && text_lt since (value_of p.at)

-- `operator_words`; `none` is a file that belongs to another worktree.
unfoldable pub operator_words : Host → Option History → String → String → Option (List String)
operator_words h none root since = some []
operator_words h (some history) root since =
    if history.root == some root
    then some (map (λ (p : Prompt). p.text) (filter (said_since h since) history.prompts))
    else none

-- `(?!\w)`, at the start of what follows a quote
abbrev pub ends_word : Host → String → Bool
ends_word h String.[] = true
ends_word h (String.◌∷◌ c s) = not (h.is_word (code c))

-- The quote at the start of a text, behind a word character or not.
abbrev pub quote_here : Host → Bool → String → String → Bool
quote_here h in_word quote s = elim (drop_prefix quote s) [
  | none ↦ false
  | some rest ↦ not in_word && ends_word h rest
]

abbrev pub quote_from : Host → Bool → String → String → Bool
quote_from h in_word quote String.[] = quote_here h in_word quote ""
quote_from h in_word quote (String.◌∷◌ c s) =
    quote_here h in_word quote (String.◌∷◌ c s) || quote_from h (h.is_word (code c)) quote s

-- `bounded.search(words)`: the quote stands in the words between word boundaries.
unfoldable pub bounded : Host → String → String → Bool
bounded h quote words = quote_from h false quote words

abbrev pub quote_min_chars : ℕ
quote_min_chars = 4

-- `operator_quote`
unfoldable pub operator_quote :
    Host → Option History → Option String → String → String → Option String
operator_quote h history text root since = do
  given ← require_text text
  let quote = strip given
  guard (leb quote_min_chars (length (filter (λ c. not (is_space c)) (codes quote))))
  words ← operator_words h history root since
  guard (any (bounded h quote) words)
  some quote

abbrev pub quoted_ops : List String
quoted_ops =
    "req.cancel" ∷ "req.attest-only" ∷ "finding.defer" ∷ "coverage.context" ∷ "review-policy"
    ∷ "state" ∷ "init.new" ∷ "check.no-regression" ∷ []

-- A decision that this quote already authorized, or whose withdrawal it did.
unfoldable pub spends : String → Entry → Bool
spends quote e = contains quoted_ops e.op && e.text == quote || e.withdrawn_authority == some quote

-- `quoted`
unfoldable pub quoted : Context → Task → Option String → Option String
quoted ctx t text = do
  quote ← operator_quote ctx.host ctx.history text (to_text (of_text t.root)) t.created_at
  guard (not (any (spends quote) t.authority))
  some quote
