-- ===== src/Runs/Outputs.antt =====
-- What a run may create: `generated_outputs`, and the trees that moved meanwhile (dmdlib/runs.py, lines
-- 102 to 121 and 237 to 249).
use done_means_done.Base.{
  Bool, true, not, ◌&&◌, ◌||◌, Option, none, some, String, List, [], ◌∷◌, filter, contains, ◌==◌,
  ◌/=◌, string_eq, option_eq, nat_eq, if◌then◌else◌, find,
}
use done_means_done.Base.Text.{starts_with}
use done_means_done.Host.{Host, Snapshot}
use done_means_done.FilePath.{of_text, to_text, child, is_below}
use done_means_done.Source.{Delta, drift, output_match}
use done_means_done.Check.Definition.{lookup, check_candidate}
use done_means_done.Check.Verdict.{is_some, or_empty}
use done_means_done.Task.{Check}

-- A tree's snapshots, before and after the run.
pub record Window : Type 0 where
  pub path : String
  pub before : Snapshot
  pub after : Snapshot

-- A dictionary of dictionaries, by tree.
abbrev pub Outputs : Type 0
Outputs = List (String × List (String × String))

-- `assoc[key] = value`
abbrev pub put {ℓ} : {A : Type ℓ} → String → A → List (String × A) → List (String × A)
put key value [] = (key, value) ∷ []
put key value ((k, v) ∷ rest) =
    let more = put key value rest in if k == key then (k, value) ∷ rest else (k, v) ∷ more

abbrev pub outputs_of : String → Outputs → List (String × String)
outputs_of tree found = elim (lookup tree found) [ none ↦ [] | some files ↦ files ]

module _ (h : Host) where
  abbrev eligible : Window → String → Bool
  eligible w path = elim (h.untracked w.path) [ none ↦ true | some loose ↦ contains loose path ]

  abbrev file_at : String → String → String
  file_at tree path = to_text (child (of_text tree) (of_text path))

  -- A file that the check declares, and that is a regular untracked one.
  declared : Check → Window → String → String → Bool
  declared c w path value =
      eligible w path
      && output_match h path c.writes
      && value /= "volatile"
      && h.is_file (file_at w.path path)
      && not (h.is_symlink (file_at w.path path))

  -- It is new, or it was as the check's last receipt recorded it.
  untouched : Check → Window → String → Bool
  untouched c w path =
      not (is_some (lookup path w.before.files))
      || lookup path (or_empty c.receipt).outputs == lookup path w.before.files
        && (or_empty c.receipt).assurance_version == some 2

  abbrev allow :
      Check → Window → List (String × String) → List (String × String) → List (String × String)
  unfolding declared untouched
  allow c w [] found = found
  allow c w ((path, value) ∷ files) found =
      allow c w files
        (if declared c w path value && untouched c w path then put path value found else found)

  abbrev window_of : String → List Window → Option Window
  window_of tree windows = find (λ (w : Window). w.path == tree) windows

  -- `generated_outputs`. Every planned check is live, so its tree has a window.
  unfoldable pub generated_outputs : String → List Check → List Window → Outputs → Outputs
  unfolding declared untouched
  generated_outputs root [] windows found = found
  generated_outputs root (c ∷ cs) windows found =
      let tree = check_candidate c (some root) in
      elim (window_of tree windows) [
        | none ↦ generated_outputs root cs windows found
        | some w ↦
            generated_outputs root cs windows
              (put tree (allow c w w.after.files (outputs_of tree found)) found)
      ]

abbrev without : List (String × String) → Snapshot → Snapshot
without allowed s = record s { files = filter (λ (k, _). not (is_some (lookup k allowed))) s.files }

-- The drift of one tree, its allowed outputs aside; `none` where it did not move.
unfoldable pub moved_tree : Outputs → Window → Option Delta
moved_tree outputs w =
    let delta =
      drift (without (outputs_of w.path outputs) w.before)
        (without (outputs_of w.path outputs) w.after) in
    if delta.changed_total /= 0
      || delta.head_before /= delta.head_after
      || starts_with w.after.fingerprint "missing:"
    then some delta
    else none

unfoldable pub moved : Outputs → List Window → List (String × Delta)
moved outputs [] = []
moved outputs (w ∷ ws) =
    let rest = moved outputs ws in
    elim (moved_tree outputs w) [ none ↦ rest | some delta ↦ (w.path, delta) ∷ rest ]

-- A check's tree, or the first that moved and encloses it.
unfoldable pub candidate_drift : List (String × Delta) → String → Option Delta
candidate_drift deltas tree = elim (lookup tree deltas) [
  | some delta ↦ some delta
  | none ↦ elim (find (λ (p, _). is_below (of_text tree) (of_text p)) deltas) [
    | none ↦ none
    | some (p, delta) ↦ some delta
  ]
]
