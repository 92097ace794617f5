-- ===== src/Check/Definition.antt =====
-- dmdlib/model.py, lines 38 to 80 and 291 to 300: what a check is, and which tree it tests.
use done_means_done.Base.{
  Bool, not, ◌&&◌, ◌||◌, Option, none, some, String, List, [], ◌∷◌, map, ◌==◌, string_eq, contains,
  if◌then◌else◌, filter,
}
use done_means_done.Json.{
  Json, bool, num, str, obj, end, field, fields, texts, maybe, maybe_str, number, Fields,
}
use done_means_done.Host.{Host}
use done_means_done.Authority.{truthy}
use done_means_done.FilePath.{FilePath, of_text, to_text, parents, is_below, same_path, child}
use done_means_done.Task.{Check}

-- `ATTESTED_METHODS` and `attested`
unfoldable pub attested : Check → Bool
attested c = contains ("manual" ∷ "review" ∷ "browser" ∷ []) c.method

-- The `OPTIONAL_CHECK_FIELDS`, each written only when it is set.
abbrev listed : String → List String → Fields → Fields
listed key [] rest = rest
listed key (x ∷ xs) rest = field key (texts (x ∷ xs)) rest

abbrev pub value_of : Option String → String
value_of none = ""
value_of (some s) = s

abbrev candidate_field : Check → Fields → Fields
candidate_field c rest =
    if truthy c.candidate then field "candidate" (maybe_str c.candidate) rest else rest

-- The keys of `check_definition`, before any that a caller adds.
unfoldable pub definition_fields : Check → Fields → Fields
definition_fields c rest =
    fields
      (("id", str c.ident)
        ∷ ("req", str c.req)
        ∷ ("work", texts c.work)
        ∷ ("method", str c.method)
        ∷ ("command", maybe_str c.command)
        ∷ ("cwd", str c.cwd)
        ∷ ("expect", maybe_str c.expect)
        ∷ ("match", maybe_str c.match)
        ∷ ("timeout", maybe number c.timeout)
        ∷ ("max_output", maybe num c.max_output)
        ∷ ("inputs", texts c.inputs)
        ∷ ("regression", bool c.regression)
        ∷ ("red_match", maybe_str c.red_match)
        ∷ ("red_exit", maybe num c.red_exit)
        ∷ ("attested_because", maybe_str c.attested_because)
        ∷ [])
      (candidate_field c (listed "exclusive" c.exclusive (listed "writes" c.writes rest)))

unfoldable pub check_definition : Check → Json
check_definition c = obj (definition_fields c end)

abbrev own_tree : Option String → FilePath → String
own_tree none cwd = to_text cwd
own_tree (some root) cwd =
    if same_path cwd (of_text root) || is_below cwd (of_text root)
    then to_text (of_text root)
    else to_text cwd

unfoldable pub check_candidate : Check → Option String → String
check_candidate c root =
    if truthy c.candidate then value_of c.candidate else own_tree root (of_text c.cwd)

-- Fingerprints by candidate, or the one fingerprint of an old record.
pub data SourceMap : Type 0 where
  single : String → SourceMap
  by_tree : List (String × String) → SourceMap

unfoldable pub lookup {ℓ} : {V : Type ℓ} → String → List (String × V) → Option V
lookup k [] = none
lookup k ((j, v) ∷ rest) = let later = lookup k rest in if j == k then some v else later

abbrev nearest : List (String × String) → List FilePath → Option String
nearest fps [] = none
nearest fps (p ∷ ps) =
    let further = nearest fps ps in
    elim (lookup (to_text p) fps) [ some fp ↦ some fp | none ↦ further ]

-- `source_for`: the candidate's own entry, or that of the nearest enclosing candidate.
unfoldable pub source_for : SourceMap → Check → Option String
source_for (single fp) c = some fp
source_for (by_tree fps) c =
    let cand = of_text (check_candidate c none) in nearest fps (cand ∷ parents cand)

-- `path if path.is_absolute() else Path(c["cwd"]) / path`
unfoldable pub input_path : Check → String → String
input_path c item = to_text (child (of_text c.cwd) (of_text item))

module _ (h : Host) where
  unfoldable pub missing_inputs : Check → List String
  missing_inputs c =
      filter (λ path. not (h.exists path) && not (h.is_symlink path)) (map (input_path c) c.inputs)
