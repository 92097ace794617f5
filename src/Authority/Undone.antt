-- ===== src/Authority/Undone.antt =====
-- A decision about a row and its withdrawal cancel out.
use done_means_done.Base.{
  ◌≡◌, refl, ◌∙◌, inl, inr, Bool, true, false, not, some, String, List, [], ◌∷◌, ◌++◌, arith, any,
  any-append, contains, map, ◌==◌, string_eq, option_eq, eq_self, Bool-cases, Option-cases,
}
use text.Mathlib.TextEquality.{eq_iff}
use mathlib.Core.Path.{subst}
use mathlib.Core.Option.{some-injective}
use done_means_done.Base.Text.{text_lt}
use done_means_done.Task.{Row, Entry, Amendment, entry_row, requirement_row, get, ids}
use done_means_done.Authority.{replace, drop_amendment, blocks_withdrawal}

module _ {ℓ} {A : Type ℓ} ⦃r : Row A⦄ (key : String) where
  -- A replaced row, replaced by the row from before.
  pub replace-replace :
      (rows : List A) {x y : A} {rows' : List A}
      → get rows key ≡ some x
      → r.id_of y ≡ key
      → replace key y rows ≡ some rows'
      → replace key x rows' ≡ some rows
  unfolding get
  replace-replace [] found same done = cc
  replace-replace (z ∷ zs) {x} {y} {rows'} found same done = elim (Bool-cases (r.id_of z == key)) [
    | inl e ↦
        subst (λ rs. replace key x rs ≡ some (z ∷ zs)) (some-injective _ _ (rw e at done))
          (ground (arith, eq_self key))
    | inr e ↦ elim (Option-cases (replace key y zs)) [
      | inl f ↦ absurd (ground arith)
      | inr (ys, f) ↦
          subst (λ rs. replace key x rs ≡ some (z ∷ zs)) (some-injective _ _ (rw (e, f) at done))
            (rw (e, replace-replace zs {x = x} (rw e at found) same f) refl)
    ]
  ]

  -- The last row is found by its ID, which no other has.
  pub get-append_last :
      (rows : List A) (x : A)
      → contains (ids rows) key ≡ false
      → r.id_of x ≡ key
      → get (rows ++ x ∷ []) key ≡ some x
  unfolding get
  get-append_last [] x fresh same = ground arith
  get-append_last (z ∷ zs) x fresh same = ground (arith, get-append_last zs x)

text_lt_irrefl : (s : String) → text_lt s s ≡ false
text_lt_irrefl s = ground (arith, eq_iff s s)

pub drop_amendment-append :
    (at : String) (ams : List Amendment) (a : Amendment)
    → contains (map (λ (b : Amendment). b.at) ams) at ≡ false
    → a.at ≡ at
    → drop_amendment (some at) (ams ++ a ∷ []) ≡ ams
drop_amendment-append at [] a fresh same = ground arith
drop_amendment-append at (b ∷ bs) a fresh same = ground (arith, drop_amendment-append at bs a)

-- The clock did not run backwards: no decision of the log is later.
abbrev pub precedes : List Entry → String → Bool
precedes es at = not (any (λ (e : Entry). text_lt at e.at) es)

not_blocked :
    (entry : Entry) (es : List Entry)
    → precedes es entry.at ≡ true
    → any (blocks_withdrawal entry) es ≡ false
not_blocked entry [] h = refl
not_blocked entry (e ∷ es) h = ground (arith, not_blocked entry es)

pub not_blocked_last :
    (entry : Entry) (es : List Entry)
    → precedes es entry.at ≡ true
    → any (blocks_withdrawal entry) (es ++ entry ∷ []) ≡ false
not_blocked_last entry es h =
    any-append (blocks_withdrawal entry) es (entry ∷ [])
    ∙ ground (arith, not_blocked entry es h, text_lt_irrefl entry.at)
