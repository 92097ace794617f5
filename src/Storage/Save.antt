-- ===== src/Storage/Save.antt =====
-- `save` of dmdlib/storage.py (lines 168 to 182): every change of the record is numbered, and the record
-- keeps the last of its events. The write itself, and the limit on the record's size, are not modelled.
use done_means_done.Base.{
  ℕ, suc, ◌≡◌, ◌-◌, ◌≤◌, arith, String, List, [], ◌∷◌, ◌++◌, last_n, length, length-drop,
}
use done_means_done.Task.{Task}

abbrev pub event_tail : ℕ
event_tail = 200

unfoldable pub save : Task → String → String → Task
save t kind at = record t {
  updated_at = at;
  sequence = suc t.sequence;
  events =
      last_n event_tail
        (t.events ++ (record { sequence = suc t.sequence; at = at; kind = kind } ∷ []));
}

pub length-append_last {ℓ} :
    {A : Type ℓ} (xs : List A) (x : A) → length (xs ++ x ∷ []) ≡ suc (length xs)
length-append_last [] x = omega arith
length-append_last (y ∷ xs) x = omega (arith, length-append_last xs x)

pub length-last_n {ℓ} : {A : Type ℓ} (n : ℕ) (xs : List A) → length (last_n n xs) ≤ n
length-last_n n xs = omega (arith, length-drop (length xs - n) xs)
