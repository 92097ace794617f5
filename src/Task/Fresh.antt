-- ===== src/Task/Fresh.antt =====
-- A new ID is in no use: what `new_id` prints is read back as a number above every other.
use Prim.Native.Nat.{◌*◌, ◌/◌, ◌%◌}
use Prim.Native.Char.{code}
use text.Mathlib.TextLemmas.{nil-append, cons-append}
use done_means_done.Base.{
  ℕ, zero, suc, ◌+◌, ◌≤◌, ◌<◌, ◌≡◌, refl, ◌∙◌, ap, inl, inr, Bool, true, false, not, ◌&&◌, String,
  ◌<>◌, List, [], ◌∷◌, ◌++◌, arith, contains, all, ltb, ◌==◌, nat_eq, string_eq, eq_true,
  Bool-cases,
}
use done_means_done.Base.Text.{
  codes, until_dash, digits_from, digit_text, decimal_from, decimal, two_digits, id_number,
}
use done_means_done.Task.{Row, ids, highest, new_id}

codes-append : (s t : String) → codes (s <> t) ≡ codes s ++ codes t
codes-append String.[] t = ap codes (nil-append t)
codes-append (String.◌∷◌ c s) t =
    ap codes (cons-append c s t) ∙ ap (λ cs. code c ∷ cs) (codes-append s t)

digits_from-append :
    (xs ys : List ℕ) (acc : ℕ) → digits_from acc (xs ++ ys) ≡ digits_from (digits_from acc xs) ys
digits_from-append [] ys acc = refl
digits_from-append (x ∷ xs) ys acc = digits_from-append xs ys _

digits_from-digit_text :
    (acc n : ℕ) → n < 10 → digits_from acc (codes (digit_text n)) ≡ acc * 10 + n
digits_from-digit_text acc zero h = omega arith
digits_from-digit_text acc (suc zero) h = omega arith
digits_from-digit_text acc (suc (suc zero)) h = omega arith
digits_from-digit_text acc (suc (suc (suc zero))) h = omega arith
digits_from-digit_text acc (suc (suc (suc (suc zero)))) h = omega arith
digits_from-digit_text acc (suc (suc (suc (suc (suc zero))))) h = omega arith
digits_from-digit_text acc (suc (suc (suc (suc (suc (suc zero)))))) h = omega arith
digits_from-digit_text acc (suc (suc (suc (suc (suc (suc (suc zero))))))) h = omega arith
digits_from-digit_text acc (suc (suc (suc (suc (suc (suc (suc (suc zero)))))))) h = omega arith
digits_from-digit_text acc (suc (suc (suc (suc (suc (suc (suc (suc (suc zero))))))))) h =
    omega arith
digits_from-digit_text acc (suc (suc (suc (suc (suc (suc (suc (suc (suc (suc n)))))))))) h =
    absurd (omega arith)

digits_from-decimal_from : (k n : ℕ) → n ≤ k → digits_from 0 (codes (decimal_from k n)) ≡ n
unfolding decimal_from
digits_from-decimal_from zero n h = omega (arith, digits_from-digit_text 0 n (omega arith))
digits_from-decimal_from (suc k) n h = elim (Bool-cases (ltb n 10)) [
  | inl e ↦ rw (e, decimal_from) (omega (arith, digits_from-digit_text 0 n (ground arith)))
  | inr e ↦
      rw
        (
          e,
          decimal_from,
          codes-append (decimal_from k (n / 10)) (digit_text (n % 10)),
          digits_from-append (codes (decimal_from k (n / 10))) (codes (digit_text (n % 10))) 0,
          digits_from-decimal_from k (n / 10) (ground arith),
        )
        (omega (arith, digits_from-digit_text (n / 10) (n % 10) (omega arith)))
]

digits_from-two_digits : (n : ℕ) → digits_from 0 (codes (two_digits n)) ≡ n
unfolding two_digits decimal
digits_from-two_digits n = elim (Bool-cases (ltb n 10)) [
  | inl e ↦
      rw (e, two_digits, codes-append "0" (decimal_from n n))
        (digits_from-decimal_from n n (omega arith))
  | inr e ↦ rw (e, two_digits) (digits_from-decimal_from n n (omega arith))
]

abbrev dashless : List ℕ → Bool
dashless cs = all (λ d. not (d == b'-')) cs

until_dash-dashless : (cs : List ℕ) → dashless cs ≡ true → until_dash cs ≡ cs
unfolding until_dash
until_dash-dashless [] h = refl
until_dash-dashless (c ∷ cs) h = ground (arith, until_dash-dashless cs)

dashless-append :
    (xs ys : List ℕ) → dashless xs ≡ true → dashless ys ≡ true → dashless (xs ++ ys) ≡ true
dashless-append [] ys hx hy = hy
dashless-append (x ∷ xs) ys hx hy = ground (arith, dashless-append xs ys)

dashless-digit_text : (n : ℕ) → dashless (codes (digit_text n)) ≡ true
unfolding nat_eq
dashless-digit_text zero = refl
dashless-digit_text (suc zero) = refl
dashless-digit_text (suc (suc zero)) = refl
dashless-digit_text (suc (suc (suc zero))) = refl
dashless-digit_text (suc (suc (suc (suc zero)))) = refl
dashless-digit_text (suc (suc (suc (suc (suc zero))))) = refl
dashless-digit_text (suc (suc (suc (suc (suc (suc zero)))))) = refl
dashless-digit_text (suc (suc (suc (suc (suc (suc (suc zero))))))) = refl
dashless-digit_text (suc (suc (suc (suc (suc (suc (suc (suc zero)))))))) = refl
dashless-digit_text (suc (suc (suc (suc (suc (suc (suc (suc (suc n))))))))) = refl

dashless-decimal_from : (k n : ℕ) → dashless (codes (decimal_from k n)) ≡ true
unfolding decimal_from
dashless-decimal_from zero n = dashless-digit_text n
dashless-decimal_from (suc k) n = elim (Bool-cases (ltb n 10)) [
  | inl e ↦ rw (e, decimal_from) (dashless-digit_text n)
  | inr e ↦
      rw (e, decimal_from, codes-append (decimal_from k (n / 10)) (digit_text (n % 10)))
        (dashless-append (codes (decimal_from k (n / 10))) (codes (digit_text (n % 10)))
          (dashless-decimal_from k (n / 10)) (dashless-digit_text (n % 10)))
]

dashless-two_digits : (n : ℕ) → dashless (codes (two_digits n)) ≡ true
unfolding two_digits decimal
dashless-two_digits n = elim (Bool-cases (ltb n 10)) [
  | inl e ↦
      rw (e, two_digits, codes-append "0" (decimal_from n n))
        (dashless-append (codes "0") (codes (decimal_from n n)) (dashless-digit_text 0)
          (dashless-decimal_from n n))
  | inr e ↦ rw (e, two_digits) (dashless-decimal_from n n)
]

-- A text without a dash.
abbrev pub no_dash : String → Bool
no_dash String.[] = true
no_dash (String.◌∷◌ c s) = not (code c == b'-') && no_dash s

-- The number of an ID is read back.
id_number-append :
    (prefix s : String)
    → no_dash prefix ≡ true
    → id_number (prefix <> ("-" <> s)) ≡ digits_from 0 (until_dash (codes s))
unfolding id_number
id_number-append String.[] s h =
    rw (nil-append ("-" <> s), cons-append "-" "" s, id_number, nil-append s) refl
id_number-append (String.◌∷◌ c prefix) s h =
    rw (cons-append c prefix ("-" <> s), id_number) (ground (arith, id_number-append prefix s))

module _ {ℓ} {A : Type ℓ} ⦃r : Row A⦄ where
  id_number-le_highest :
      (items : List A) (key : String)
      → contains (ids items) key ≡ true
      → id_number key ≤ highest items
  id_number-le_highest [] key h = cc
  id_number-le_highest (x ∷ xs) key h = elim (Bool-cases (key == r.id_of x)) [
    | inl e ↦ rw (eq_true key (r.id_of x) e) (ground arith)
    | inr e ↦ ground (arith, id_number-le_highest xs key (rw e at h))
  ]

  id_number-new_id :
      (items : List A) (prefix : String)
      → no_dash prefix ≡ true
      → id_number (new_id items prefix) ≡ suc (highest items)
  unfolding new_id
  id_number-new_id items prefix h =
      id_number-append prefix (two_digits (suc (highest items))) h
      ∙ (ap (digits_from 0) (
            until_dash-dashless (codes (two_digits (suc (highest items))))
              (dashless-two_digits (suc (highest items))))
          ∙ digits_from-two_digits (suc (highest items)))

  -- A new ID, under a prefix without a dash, is the ID of no row.
  pub new_id-fresh :
      (items : List A) (prefix : String)
      → no_dash prefix ≡ true
      → contains (ids items) (new_id items prefix) ≡ false
  new_id-fresh items prefix h = elim (Bool-cases (contains (ids items) (new_id items prefix))) [
    | inr e ↦ e
    | inl e ↦ absurd (
        omega (
          arith,
          id_number-le_highest items (new_id items prefix) e,
          id_number-new_id items prefix h,
        ))
  ]
