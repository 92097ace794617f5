-- ===== src/Storage.antt =====
-- dmdlib/storage.py: digests, and the test of an evidence file.
pub mod Save
use Prim.Native.Char.{code}
use done_means_done.Base.{ℕ, Bool, true, false, not, ◌&&◌, ◌||◌, Option, none, some, String, ◌/=◌}
use done_means_done.Base.{◌==◌, string_eq, nat_eq, ltb, if◌then◌else◌}
use done_means_done.Base.Text.{drop_prefix, is_alnum}
use done_means_done.Json.{Json}
use done_means_done.Host.{Host, bytes, delivered, no_process, denied}
use done_means_done.Task.{Artifact}
use done_means_done.FilePath.{of_text, to_text, child}

-- A name of letters, digits, `_` and `-`, then `.txt`; `seen` tells that the name is not empty.
txt_name : Bool → String → Bool
txt_name seen String.[] = false
txt_name seen (String.◌∷◌ c s) =
    let rest = txt_name true s in
    if String.◌∷◌ c s == ".txt"
    then seen
    else (is_alnum (code c) || code c == b'_' || code c == b'-') && rest

-- `re.fullmatch(r"evidence/[A-Za-z0-9_-]+\.txt", rel)`
is_evidence_name : String → Bool
unfolding txt_name
is_evidence_name rel = elim (drop_prefix "evidence/" rel) [
  | none ↦ false
  | some name ↦ txt_name false name
]

abbrev pub max_evidence : ℕ
max_evidence = 2097152

module _ (h : Host) where
  unfoldable pub digest : Json → String
  digest value = h.sha256 (h.dumps value)

  -- `regular`: the file's size; `none` is the DmdError or OSError that it raises.
  unfoldable pub regular : String → Option ℕ
  regular path = elim (h.lstat path) [
    | none ↦ none
    | some info ↦ if not info.is_regular || info.nlink /= 1 then none else some info.size
  ]

  -- `hashlib.sha256(path.read_bytes()).hexdigest() == expected`
  hash_is : String → String → Bool
  hash_is path expected = elim (h.read path) [
    | bytes content ↦ h.sha256 content == expected
    | _ ↦ false
  ]

  module _ (task_dir : String) where
    evidence_file : Artifact → Bool
    unfolding hash_is
    evidence_file art =
        let path = to_text (child (of_text task_dir) (of_text art.path)) in
        if h.is_symlink (to_text (child (of_text task_dir) (of_text "evidence")))
        then false
        else elim (regular path) [
          | none ↦ false
          | some size ↦
              if size /= art.bytes || ltb max_evidence size then false else hash_is path art.sha256
        ]

    unfoldable pub evidence_ok : Option Artifact → Bool
    unfolding evidence_file is_evidence_name
    evidence_ok none = false
    evidence_ok (some art) = if is_evidence_name art.path then evidence_file art else false

  -- `pid_alive`: `none` for a process of another host.
  unfoldable pub pid_alive : Option ℕ → Option String → Option Bool
  pid_alive none host = none
  pid_alive (some pid) none = none
  pid_alive (some pid) (some host) =
      if host == h.hostname
      then elim (h.kill pid) [
        | no_process ↦ some false
        | denied ↦ some true
        | delivered ↦ some true
      ]
      else none
