-- ===== src/Clauses/Items.antt =====
-- The loop of `extract_clauses`, against a description in two passes: first the items, then their numbers.
use done_means_done.Base.{
  ℕ, suc, ◌+◌, ◌≤◌, ◌≡◌, ◌∙◌, inl, inr, Bool, false, Option, none, some, String, List, [], ◌∷◌,
  arith, length, leb, if◌then◌else◌, Bool-cases, Option-cases, ◌>>=◌,
}
use done_means_done.Host.{Host}
use done_means_done.Task.{Clause}
use done_means_done.Clauses.{
  split_lines, line_item, fence_after, clause, clauses_from, extract_clauses, max_clauses,
}

abbrev onto_items : Option String → List String → List String
onto_items none items = items
onto_items (some item) items = item ∷ items

-- The items of the lines, outside of fenced code.
abbrev pub items_from : Host → Bool → List String → List String
items_from h fenced [] = []
items_from h fenced (line ∷ lines) =
    onto_items (line_item h fenced line) (items_from h (fence_after fenced line) lines)

-- The items of a text.
unfoldable pub list_items : Host → String → List String
list_items h text = items_from h false (split_lines text)

-- Clauses with consecutive numbers.
abbrev pub number_from : ℕ → String → List String → List Clause
number_from n source [] = []
number_from n source (item ∷ items) = clause n item source ∷ number_from (suc n) source items

abbrev limited : ℕ → String → ℕ → List String → Option (List Clause)
limited first source count items =
    if leb (count + length items) max_clauses
    then some (number_from (first + count) source items)
    else none

module _ (h : Host) (first : ℕ) (source : String) where
  -- One item more, below the limit.
  limited-cons :
      (count : ℕ) (item : String) (items : List String)
      → (limited first source (suc count) items >>= λ rest.
          some (clause (first + count) item source ∷ rest))
        ≡ limited first source count (item ∷ items)
  limited-cons count item items = ground arith

  clauses_from_lem :
      (lines : List String) (fenced : Bool) (count : ℕ)
      → count ≤ max_clauses
      → clauses_from h first source fenced count lines
        ≡ limited first source count (items_from h fenced lines)
  unfolding clauses_from
  clauses_from_lem [] fenced count le = ground arith
  clauses_from_lem (line ∷ lines) fenced count le = elim (Option-cases (line_item h fenced line)) [
    | inl e ↦ rw (clauses_from, e) (clauses_from_lem lines (fence_after fenced line) count le)
    | inr (item, e) ↦ elim (Bool-cases (leb max_clauses count)) [
      | inl full ↦ rw (clauses_from, e, full) (ground arith)
      | inr room ↦
          rw
            (
              clauses_from,
              e,
              room,
              clauses_from_lem lines (fence_after fenced line) (suc count) (ground arith),
            )
            (limited-cons count item (items_from h (fence_after fenced line) lines))
    ]
  ]

-- The clauses of a text are its list items, numbered from the given number, up to a hundred; a text with more
-- is refused.
pub extract_clauses_lem :
    (h : Host) (text : String) (first : ℕ) (source : String)
    → extract_clauses h text first source ≡ (
        if leb (length (list_items h text)) max_clauses
        then some (number_from first source (list_items h text))
        else none)
unfolding extract_clauses list_items
extract_clauses_lem h text first source =
    clauses_from_lem h first source (split_lines text) false 0 (omega arith) ∙ ground arith
