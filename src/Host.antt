-- ===== src/Host.antt =====
-- What the program takes from outside itself: the hash, the JSON writer, the file system, the
-- process table and the execution environment. A parameter of every definition that uses it.
use done_means_done.Base.{ℕ, Bool, Option, String, List}
use done_means_done.Json.{Json}

-- `os.lstat`, as far as the program reads it.
pub record Stat : Type 0 where
  pub is_regular : Bool
  pub nlink : ℕ
  pub size : ℕ

-- Reading a file's bytes: the content, FileNotFoundError, or another OSError with its number.
pub data Content : Type 0 where
  bytes : String → Content
  missing : Content
  unreadable : String → Content

-- `os.kill(pid, 0)`.
pub data Signalled : Type 0 where
  delivered no_process denied : Signalled

-- What a snapshot of a tree holds: its fingerprint, the commit, and the files with their digests.
pub record Snapshot : Type 0 where
  pub fingerprint : String
  pub head : Option String
  pub files : List (String × String)

pub record Host : Type 0 where
  pub sha256 : String → String
  pub dumps : Json → String
  pub lstat : String → Option Stat
  pub is_symlink : String → Bool
  pub exists : String → Bool
  pub is_file : String → Bool
  pub read : String → Content
  -- `source.snapshot(path, inputs)`; `none` is MissingCandidate.
  pub snapshot : String → List String → Option Snapshot
  -- `git ls-files -o` below a path; `none` is outside Git.
  pub untracked : String → Option (List String)
  -- `git ls-files -c`, likewise.
  pub tracked : String → Option (List String)
  -- `git rev-parse --show-toplevel`, as a resolved path
  pub toplevel : String → Option String
  pub expanduser : String → String
  -- `str(Path(text).resolve())`
  pub resolve : String → String
  pub is_dir : String → Bool
  -- `\w` of a regular expression, for one character
  pub is_word : ℕ → Bool
  -- `\d`, likewise
  pub is_decimal : ℕ → Bool
  -- `redact`: the substitutions of its regular expressions
  pub redact : String → String
  -- `fnmatch.fnmatchcase(name, glob)`
  pub fnmatch : String → String → Bool
  pub kill : ℕ → Signalled
  pub hostname : String
  pub shell : String
  pub search_path : String
  pub platform : String
  pub python : String
  pub python_full : String
