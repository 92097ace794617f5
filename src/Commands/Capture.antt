-- ===== src/Commands/Capture.antt =====
-- The `user-prompt-submit` hook of dmdlib/hooks.py and `capture_prompt` of dmdlib/store.py: what the operator types.
pub mod Quotable
use Prim.Native.Char.{code}
use done_means_done.Base.{
  ℕ, ◌+◌, zero, Bool, true, false, not, ◌&&◌, ◌||◌, Option, none, some, String, List, [], ◌∷◌, ◌++◌,
  leb, length, last_n, any, contains, ◌==◌, string_eq, if◌then◌else◌, ◌>>=◌, ◌>>◌, guard,
}
use done_means_done.Base.Text.{codes, drop_prefix, first_chars, strip_left}
use done_means_done.Json.{str}
use done_means_done.Host.{Host}
use done_means_done.Storage.{digest}
use done_means_done.Commands.{require_text, Prompt, History}
use done_means_done.Commands.Create.{Captured}
use done_means_done.Commands.Quotes.{ends_word}

-- `len(text.encode())`
abbrev char_bytes : ℕ → ℕ
char_bytes c = if leb c 127 then 1 else if leb c 2047 then 2 else if leb c 65535 then 3 else 4

abbrev pub utf8_length : List ℕ → ℕ
utf8_length [] = 0
utf8_length (c ∷ cs) = char_bytes c + utf8_length cs

abbrev pub prompt_history : ℕ
prompt_history = 50

abbrev pub prompt_keep_chars : ℕ
prompt_keep_chars = 65536

abbrev machine_tags : List String
machine_tags =
    "task-notification" ∷ "system-reminder" ∷ "local-command-stdout" ∷ "local-command-stderr"
    ∷ "local-command-caveat" ∷ "bash-stdout" ∷ "bash-stderr" ∷ []

-- A tag at the start of a text, up to a word boundary.
abbrev opens_with : Host → String → String → Bool
opens_with h text tag = elim (drop_prefix tag text) [ none ↦ false | some rest ↦ ends_word h rest ]

-- `machine_turn`, of a text
unfoldable pub machine_turn : Host → String → Bool
machine_turn h prompt = elim (drop_prefix "<" (strip_left prompt)) [
  | none ↦ false
  | some rest ↦ any (opens_with h rest) machine_tags
]

abbrev pub prompts_of : Option History → List Prompt
prompts_of none = []
prompts_of (some history) = history.prompts

-- The prompt as the history keeps it.
abbrev pub kept : Host → String → String → Prompt
kept h text at =
    let shown = first_chars prompt_keep_chars text in
    record { text = shown; digest = some (digest h (str shown)); at = some at }

abbrev pub extended : Prompt → Option History → String → History
extended p history root = record {
  root = some root;
  prompts = last_n prompt_history (prompts_of history ++ (p ∷ []));
}

-- `capture_prompt`: the session's prompt, and the worktree's history with it. `now` is read twice.
unfoldable pub capture_prompt :
    Host
    → String
    → String
    → Option String
    → Option History
    → (ℕ → String)
    → Option (Captured × History)
capture_prompt h session root prompt history now = do
  words ← require_text prompt
  let text = h.redact words
  guard (leb (utf8_length (codes text)) 1048576)
  let captured : Captured = record {
    session = digest h (str session);
    text = text;
    digest = digest h (str text);
    at = now 0;
  }
  some (captured, extended (kept h text (now 1)) history root)

-- The hook: a turn that no operator typed leaves no history behind.
unfoldable pub submitted :
    Host
    → String
    → String
    → Option String
    → Option String
    → Option History
    → (ℕ → String)
    → Option (Option Captured × Option History)
submitted h session root source prompt history now =
    if not (typed source) || from_machine prompt
    then some (none, history)
    else capture_prompt h session root prompt history now >>= λ (c, found).
        some (some c, some found)
  where
    typed : Option String → Bool
    typed none = true
    typed (some source) = source == "user"

    from_machine : Option String → Bool
    from_machine none = false
    from_machine (some text) = machine_turn h text
