-- ===== src/Source.antt =====
-- dmdlib/source.py: what moved between two snapshots of a tree, and a check's declared outputs.
use Prim.Native.Char.{code}
use done_means_done.Base.{
  ℕ, Bool, true, false, not, ◌||◌, ◌==◌, nat_eq, ◌>>=◌, Option, none, some, String, List, ◌++◌, map,
  filter, any, length, take, ◌/=◌, option_eq, string_eq, if◌then◌else◌,
}
use done_means_done.Base.Text.{has_slash, behind_slash, drop_prefix, strip}
use done_means_done.FilePath.{of_text, to_text, same_path, is_below, child}
use done_means_done.Host.{Host, Snapshot}
use done_means_done.Check.Definition.{lookup, value_of}
use done_means_done.Check.Verdict.{is_some}
use done_means_done.Assessment.Evidence.{sorted}

-- `output_match`: a glob with a slash is for the whole path, one without for the file's name.
unfoldable pub output_match : Host → String → List String → Bool
output_match h rel globs =
    any (λ g. h.fnmatch (if has_slash g then rel else behind_slash rel) g) globs

pub record Delta : Type 0 where
  pub head_before : Option String
  pub head_after : Option String
  pub changed : List String
  pub changed_total : ℕ

abbrev keys {ℓ} : {A : Type ℓ} → List (String × A) → List String
keys entries = map (λ (k, _). k) entries

-- The paths of either snapshot whose digest differs or is in one of them only.
abbrev changed_paths : List (String × String) → List (String × String) → List String
changed_paths b a = sorted (
    filter (λ k. lookup k b /= lookup k a) (keys b)
    ++ filter (λ k. not (is_some (lookup k b))) (keys a))

-- `drift`
unfoldable pub drift : Snapshot → Snapshot → Delta
drift before after =
    let changed = changed_paths before.files after.files in
    record {
      head_before = before.head;
      head_after = after.head;
      changed = take 50 changed;
      changed_total = length changed;
    }

-- `candidate_root`: the task root for a directory inside it, otherwise the directory's own checkout.
unfoldable pub candidate_root : Host → String → String → String
candidate_root h cwd task_root =
    let here = of_text (h.resolve cwd) in
    let root = of_text (h.resolve task_root) in
    if same_path here root || is_below here root
    then to_text root
    else elim (h.toplevel (to_text here)) [ none ↦ to_text here | some top ↦ top ]

-- What follows the digits at the start of a text; `none` where there are none.
abbrev behind_digits : Host → Bool → String → Option String
behind_digits h seen String.[] = if seen then some "" else none
behind_digits h seen (String.◌∷◌ c s) =
    let rest = behind_digits h true s in
    if h.is_decimal (code c) then rest else if seen then some (String.◌∷◌ c s) else none

-- What follows a mark and digits.
abbrev behind_number : Host → String → String → Option String
behind_number h mark s = drop_prefix mark s >>= behind_digits h false

abbrev or_all : String → Option String → String
or_all s none = s
or_all s (some rest) = rest

-- `re.fullmatch(r":\d+(?:-\d+)?(?::\d+)?", text)`
unfoldable pub is_line_suffix : Host → String → Bool
is_line_suffix h s = elim (behind_number h ":" s) [
  | none ↦ false
  | some r ↦
      let span = or_all r (behind_number h "-" r) in or_all span (behind_number h ":" span) == ""
]

-- The text without the line that it ends in.
unfoldable pub without_line : Host → String → String
without_line h String.[] = ""
without_line h (String.◌∷◌ c s) =
    let rest = without_line h s in
    if is_line_suffix h (String.◌∷◌ c s) then "" else String.◌∷◌ c rest

abbrev file_named : Host → String → String → Option String
file_named h root name =
    if name == ""
    then none
    else let path = to_text (child (of_text root) (of_text (h.expanduser name))) in
      if h.is_file path then some (h.resolve path) else none

-- `location_file`
unfoldable pub location_file : Host → Option String → String → Option String
location_file h location root =
    let text = strip (value_of location) in
    elim (file_named h root text) [
      | some path ↦ some path
      | none ↦ file_named h root (without_line h text)
    ]
