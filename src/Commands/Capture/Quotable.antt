-- ===== src/Commands/Capture/Quotable.antt =====
-- What the operator typed is theirs to quote.
use done_means_done.Base.{
  Bool, zero, suc, drop, ◌-◌, ◌≡◌, refl, true, ◌≤◌, ℕ, Option, some, String, List, [], ◌∷◌, ◌++◌,
  arith, length, last_n, contains, filter, map, leb, string_eq, option_eq, eq_self, >>=-eq-some,
  guard-eq-some,
}
use mathlib.Core.Path.{subst}
use mathlib.Core.Option.{some-injective}
use done_means_done.Base.Text.{codes, text_lt, first_chars}
use done_means_done.Host.{Host}
use done_means_done.Storage.Save.{length-append_last, length-last_n}
use done_means_done.Commands.{require_text, Prompt, History}
use done_means_done.Commands.Create.{Captured}
use done_means_done.Commands.Quotes.{operator_words, said_since}
use done_means_done.Commands.Capture.{
  utf8_length, prompt_history, prompt_keep_chars, kept, prompts_of, extended, capture_prompt,
}

abbrev texts : (Prompt → Bool) → List Prompt → List String
texts p xs = map (λ (x : Prompt). x.text) (filter p xs)

text_of_last :
    (p : Prompt → Bool) (xs : List Prompt) (x : Prompt)
    → p x ≡ true
    → contains (texts p (xs ++ x ∷ [])) x.text ≡ true
text_of_last p [] x h = ground arith
text_of_last p (y ∷ xs) x h = ground (arith, text_of_last p xs x)

text_of_dropped :
    (p : Prompt → Bool) (n : ℕ) (xs : List Prompt) (x : Prompt)
    → n ≤ length xs
    → p x ≡ true
    → contains (texts p (drop n (xs ++ x ∷ []))) x.text ≡ true
text_of_dropped p zero xs x bound h = text_of_last p xs x h
text_of_dropped p (suc n) [] x bound h = absurd (omega arith)
text_of_dropped p (suc n) (y ∷ xs) x bound h = text_of_dropped p n xs x (omega arith) h

module _ (h : Host) (root : String) where
  -- The words are among those that the operator said in the worktree since the time.
  abbrev pub IsQuotable : History → String → String → Type 0
  IsQuotable history since text =
      (words : List String) × (operator_words h (some history) root since ≡ some words)
      × (contains words text ≡ true)

  extended-IsQuotable :
      (history : Option History) (text at since : String)
      → text_lt since at ≡ true
      → IsQuotable
          (extended (kept h text at) history root)
          since
          (first_chars prompt_keep_chars text)
  unfolding operator_words
  extended-IsQuotable history text at since later =
      let rows = prompts_of history in
      let p = kept h text at in
      (
        texts (said_since h since) (last_n prompt_history (rows ++ p ∷ [])),
        rw (eq_self (let r : Option String = some root in r)) refl,
        text_of_dropped (said_since h since) (length (rows ++ p ∷ []) - prompt_history) rows p
            (omega (arith, length-append_last rows p)) (rw (later, eq_self p.digest) refl),
      )

  -- What the two files hold of the typed words.
  abbrev pub Promise : Option String → String → Captured → History → Type 0
  Promise prompt since c new =
      (words : String) × (require_text prompt ≡ some words)
      × (c.text ≡ h.redact words)
      × IsQuotable new since (first_chars 65536 (h.redact words))
      × (length new.prompts ≤ 50)

  -- The session's file holds all that the operator typed, redacted; up to its first 65536 characters it is among
  -- their words since any earlier time, and the history of the worktree then holds at most 50 prompts.
  pub capture_prompt-IsQuotable :
      (session : String) (prompt : Option String) (history : Option History) (now : ℕ → String)
      (c : Captured) (new : History)
      → capture_prompt h session root prompt history now ≡ some (c, new)
      → (since : String) → text_lt since (now 1) ≡ true
      → Promise prompt since c new
  unfolding capture_prompt
  capture_prompt-IsQuotable session prompt history now c new made since later =
      let (words, (typed, h1)) = >>=-eq-some (require_text prompt) made in
      let (_, h2) = guard-eq-some (leb (utf8_length (codes (h.redact words))) 1048576) h1 in
      let both = some-injective _ _ h2 in
      let grown = extended (kept h (h.redact words) (now 1)) history root in
      subst (λ (x : Captured × History). Promise prompt since x.0 x.1) both
        (
          words,
          typed,
          refl,
          extended-IsQuotable history (h.redact words) (now 1) since later,
          length-last_n prompt_history (prompts_of history ++ kept h (h.redact words) (now 1) ∷ []),
        )
