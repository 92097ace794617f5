-- ===== src/FilePath.antt =====
-- `pathlib.PurePosixPath`, as far as dmdlib uses it: the text of a path without empty and `.` parts,
-- its parents, and `/`.
use Prim.Native.Char.{code}
use done_means_done.Base.{Bool, not, ◌&&◌, String, ◌<>◌, List, [], ◌∷◌, ◌++◌}
use done_means_done.Base.{◌==◌, ◌/=◌, string_eq, nat_eq, if◌then◌else◌, filter, map, any}
use done_means_done.Base.Text.{join, starts_with}

-- `root` is "", "/" or "//".
pub record FilePath : Type 0 where
  pub root : String
  pub parts : List String

abbrev glue : String → List String → List String
glue c [] = c ∷ []
glue c (part ∷ parts) = (c <> part) ∷ parts

-- `text.split("/")`
unfoldable pub split_slash : String → List String
split_slash String.[] = "" ∷ []
split_slash (String.◌∷◌ c s) =
    let rest = split_slash s in
    if code c == b'/' then "" ∷ rest else glue (String.◌∷◌ c String.[]) rest

abbrev root_of : String → String
root_of text =
    if starts_with text "//" && not (starts_with text "///")
    then "//"
    else if starts_with text "/"
    then "/"
    else ""

-- `Path(text)`
unfoldable pub of_text : String → FilePath
unfolding split_slash
of_text text = record {
  root = root_of text;
  parts = filter (λ p. p /= "" && p /= ".") (split_slash text);
}

abbrev or_dot : String → String
or_dot text = if text == "" then "." else text

-- `str(path)`
unfoldable pub to_text : FilePath → String
to_text p = or_dot (p.root <> join "/" p.parts)

unfoldable pub is_absolute : FilePath → Bool
is_absolute p = p.root /= ""

-- The proper prefixes of a list, the longest first.
abbrev prefixes : List String → List (List String)
prefixes [] = []
prefixes (x ∷ xs) = map (λ ps. x ∷ ps) (prefixes xs) ++ ([] ∷ [])

-- `path.parents`
unfoldable pub parents : FilePath → List FilePath
parents p = map (λ ps. record { root = p.root; parts = ps }) (prefixes p.parts)

-- `path == other`
abbrev pub same_path : FilePath → FilePath → Bool
same_path p q = to_text p == to_text q

-- `root in path.parents`
unfoldable pub is_below : FilePath → FilePath → Bool
is_below p root = any (λ q. same_path q root) (parents p)

-- `base / path`
unfoldable pub child : FilePath → FilePath → FilePath
child base p =
    if is_absolute p then p else record { root = base.root; parts = base.parts ++ p.parts }

abbrev last : String → List String → String
last s [] = s
last s (x ∷ xs) = last x xs

-- `Path(text).name`
unfoldable pub path_name : String → String
path_name text = last "" (of_text text).parts
