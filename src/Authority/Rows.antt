-- ===== src/Authority/Rows.antt =====
-- Reading a row back after it was replaced.
use done_means_done.Base.{
  ◌≡◌, sym, ◌∙◌, inl, inr, some, String, List, [], ◌∷◌, arith, string_eq, ◌==◌, eq_true, Bool-cases,
  Option-cases, ap,
}
use mathlib.Core.Path.{subst}
use mathlib.Core.Option.{some-injective}
use done_means_done.Task.{Row, get, ids}
use done_means_done.Authority.{replace}

module _ {ℓ} {A : Type ℓ} ⦃r : Row A⦄ (key : String) where
  pub id_of-get : (rows : List A) {x : A} → get rows key ≡ some x → r.id_of x ≡ key
  unfolding get
  id_of-get [] h = cc
  id_of-get (y ∷ ys) {x} h = elim (Bool-cases (r.id_of y == key)) [
    | inl e ↦ ground (arith, eq_true (r.id_of y) key e)
    | inr e ↦ id_of-get ys {x = x} (ground arith)
  ]

  -- A row that is there can be replaced, and is then found in its place.
  pub get-replace :
      (rows : List A) {x : A} (y : A)
      → get rows key ≡ some x
      → r.id_of y ≡ key
      → (rows' : List A) × (replace key y rows ≡ some rows') × (get rows' key ≡ some y)
  unfolding get
  get-replace [] y h same = cc
  get-replace (z ∷ zs) {x} y h same = elim (Bool-cases (r.id_of z == key)) [
    | inl e ↦ (y ∷ zs, ground arith, ground arith)
    | inr e ↦
        let (rows', done, found) = get-replace zs {x = x} y (ground arith) same in
        (z ∷ rows', ground arith, ground arith)
  ]

  -- A row that was replaced is found in its place.
  pub get-replaced :
      (rows : List A) {x : A} (y : A) {rows' : List A}
      → get rows key ≡ some x
      → r.id_of y ≡ key
      → replace key y rows ≡ some rows'
      → get rows' key ≡ some y
  get-replaced rows {x} y found same done =
      let (_, again, there) = get-replace rows {x = x} y found same in
      subst (λ new. get new key ≡ some y) (some-injective _ _ (sym again ∙ done)) there

  -- A replaced row keeps its ID.
  pub ids-replace :
      (rows : List A) (y : A) {rows' : List A}
      → r.id_of y ≡ key
      → replace key y rows ≡ some rows'
      → ids rows' ≡ ids rows
  ids-replace [] y same done = cc
  ids-replace (z ∷ zs) y {rows'} same done = elim (Bool-cases (r.id_of z == key)) [
    | inl e ↦
        ap ids (sym (some-injective _ _ (rw e at done)))
        ∙ ap (λ i. i ∷ ids zs) (same ∙ sym (eq_true (r.id_of z) key e))
    | inr e ↦ elim (Option-cases (replace key y zs)) [
      | inl f ↦ absurd (ground arith)
      | inr (ys, f) ↦
          ap ids (sym (some-injective _ _ (rw (e, f) at done)))
          ∙ ap (λ is. r.id_of z ∷ is) (ids-replace zs y same f)
    ]
  ]
