-- ===== src/Clauses.antt =====
-- `extract_clauses` (dmdlib/model.py, lines 82 to 99): the list items of a request, each of which a requirement
-- must cover.
pub mod Items
use done_means_done.Base.{
  ℕ, zero, suc, ◌+◌, Bool, true, false, not, ◌&&◌, ◌||◌, Option, none, some, String, ◌<>◌, List, [],
  ◌∷◌, contains, leb, ◌==◌, string_eq, nat_eq, if◌then◌else◌, ◌>>=◌, ◌>>◌, guard,
}
use Prim.Native.Char.{code}
use done_means_done.Base.Text.{is_space, nonblank, starts_with, strip, strip_left, two_digits}
use done_means_done.Host.{Host}
use done_means_done.Task.{Clause}

-- The line breaks of `str.splitlines`; CR LF is one.
abbrev is_break : ℕ → Bool
is_break c = contains (10 ∷ 11 ∷ 12 ∷ 13 ∷ 28 ∷ 29 ∷ 30 ∷ 0x85 ∷ 0x2028 ∷ 0x2029 ∷ []) c

abbrev starts_newline : String → Bool
starts_newline String.[] = false
starts_newline (String.◌∷◌ c s) = code c == 10

-- A character before the first line.
abbrev onto : String → List String → List String
onto c [] = c ∷ []
onto c (line ∷ lines) = (c <> line) ∷ lines

-- `text.splitlines()`: a break at the end begins no line, and CR LF breaks at the LF.
unfoldable pub split_lines : String → List String
split_lines String.[] = []
split_lines (String.◌∷◌ c s) =
    let lines = split_lines s in
    if code c == 13 && starts_newline s
    then lines
    else if is_break (code c)
    then "" ∷ lines
    else onto (String.◌∷◌ c "") lines

abbrev is_fence : String → Bool
is_fence line = starts_with (strip_left line) "```" || starts_with (strip_left line) "~~~"

-- `\s+(\S.*)`, stripped
abbrev item_text : String → Option String
item_text String.[] = none
item_text (String.◌∷◌ c s) = if is_space (code c) && nonblank s then some (strip s) else none

-- Behind up to n digits, of which one is `seen`: `.` or `)`, and the item.
abbrev numbered : Host → ℕ → Bool → String → Option String
numbered h n seen String.[] = none
numbered h zero seen (String.◌∷◌ c s) =
    if seen && (code c == b'.' || code c == b')') then item_text s else none
numbered h (suc n) seen (String.◌∷◌ c s) =
    let more = numbered h n true s in
    if h.is_decimal (code c)
    then more
    else if seen && (code c == b'.' || code c == b')')
    then item_text s
    else none

abbrev lettered : String → Option String
lettered String.[] = none
lettered (String.◌∷◌ c s) = if code c == b')' then item_text s else none

-- The item behind its mark.
abbrev marked : Host → String → Option String
marked h String.[] = none
marked h (String.◌∷◌ c s) =
    if contains (b'-' ∷ b'*' ∷ b'+' ∷ 0x2022 ∷ []) (code c)
    then item_text s
    else if leb b'a' (code c) && leb (code c) b'z'
    then lettered s
    else numbered h 3 false (String.◌∷◌ c s)

-- `LIST_ITEM.match(line)`, with up to n spaces before the mark
unfoldable pub list_item : Host → ℕ → String → Option String
list_item h zero line = marked h line
list_item h (suc n) String.[] = none
list_item h (suc n) (String.◌∷◌ c s) =
    let rest = list_item h n s in if is_space (code c) then rest else marked h (String.◌∷◌ c s)

abbrev pub max_indent : ℕ
max_indent = 8

abbrev pub max_clauses : ℕ
max_clauses = 100

-- What a line adds, outside of fenced code.
unfoldable pub line_item : Host → Bool → String → Option String
line_item h fenced line = if fenced || is_fence line then none else list_item h max_indent line

-- Whether the next line is fenced code.
unfoldable pub fence_after : Bool → String → Bool
fence_after fenced line = if is_fence line then not fenced else fenced

abbrev pub clause : ℕ → String → String → Clause
clause number text source = record {
  ident = "C-" <> two_digits number;
  text = some text;
  source = some source;
  context = none;
}

-- The loop, with `count` clauses found so far; `none` is the refusal of a longer list.
unfoldable pub clauses_from : Host → ℕ → String → Bool → ℕ → List String → Option (List Clause)
clauses_from h first source fenced count [] = some []
clauses_from h first source fenced count (line ∷ lines) = elim (line_item h fenced line) [
  | none ↦ clauses_from h first source (fence_after fenced line) count lines
  | some text ↦
      guard (not (leb max_clauses count))
      >> (clauses_from h first source (fence_after fenced line) (suc count) lines >>= λ rest.
          some (clause (first + count) text source ∷ rest))
]

-- `extract_clauses`
unfoldable pub extract_clauses : Host → String → ℕ → String → Option (List Clause)
extract_clauses h text first source = clauses_from h first source false 0 (split_lines text)
