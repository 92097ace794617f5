-- ===== src/Base/Lists.antt =====
-- Python's list operations over Boolean tests, and their laws.
use Prim.Native.Nat.{ℕ, zero, suc, ◌-◌}
use mathlib.Core.Path.{◌≡◌, refl}
use mathlib.Core.Logic.{◌↔◌, inl, inr}
use mathlib.Core.Bool.{Bool, true, false, not, ◌&&◌, ◌||◌, cond}
use mathlib.Core.Option.{Option, none, some}
use mathlib.Core.List.{List, [], ◌∷◌, ◌++◌, Memᴰ}
use native.Mathlib.Omega.{arith}
use done_means_done.Base.Equality.{Bool-cases, Eq, contains, ◌==◌, if◌then◌else◌}

module _ {ℓ} {A : Type ℓ} where
  abbrev pub length : List A → ℕ
  length [] = 0
  length (x ∷ xs) = suc (length xs)

  abbrev pub any : (A → Bool) → List A → Bool
  any p [] = false
  any p (x ∷ xs) = p x || any p xs

  abbrev pub all : (A → Bool) → List A → Bool
  all p [] = true
  all p (x ∷ xs) = p x && all p xs

  -- `[x for x in xs if p(x)]`
  abbrev pub filter : (A → Bool) → List A → List A
  filter p [] = []
  filter p (x ∷ xs) = let rest = filter p xs in cond (p x) (x ∷ rest) rest

  -- `next((x for x in xs if p(x)), None)`
  abbrev pub find : (A → Bool) → List A → Option A
  find p [] = none
  find p (x ∷ xs) = let rest = find p xs in cond (p x) (some x) rest

  abbrev pub is_empty : List A → Bool
  is_empty [] = true
  is_empty (x ∷ xs) = false

  abbrev pub drop : ℕ → List A → List A
  drop zero xs = xs
  drop (suc n) [] = []
  drop (suc n) (x ∷ xs) = drop n xs

  abbrev pub take : ℕ → List A → List A
  take zero xs = []
  take (suc n) [] = []
  take (suc n) (x ∷ xs) = x ∷ take n xs

  -- `xs[-n:]`, for a positive n
  abbrev pub last_n : ℕ → List A → List A
  last_n n xs = drop (length xs - n) xs

  abbrev pub when : Bool → A → List A
  when true a = a ∷ []
  when false a = []

  -- A predicate on every entry.
  abbrev pub All {κ} : (A → Type κ) → List A → Type κ
  All P [] = Unit
  All P (x ∷ xs) = P x × All P xs

  pub append-eq-nil : (xs ys : List A) → (xs ++ ys ≡ []) ↔ ((xs ≡ []) × (ys ≡ []))
  append-eq-nil [] ys = (λ h. (refl, h), λ h. h.1)
  append-eq-nil (x ∷ xs) ys = (λ h. cc, λ h. cc (h.0))

  pub any-append : (p : A → Bool) (xs ys : List A) → any p (xs ++ ys) ≡ (any p xs || any p ys)
  any-append p [] ys = refl
  any-append p (x ∷ xs) ys = ground (arith, any-append p xs ys)

  pub all-All : (p : A → Bool) (xs : List A) → (all p xs ≡ true) ↔ All (λ x. p x ≡ true) xs
  all-All p [] = (λ _. tt, λ _. refl)
  all-All p (x ∷ xs) = ground (arith, all-All p xs)

  pub All-append {κ} : (P : A → Type κ) (xs ys : List A) → All P xs → All P ys → All P (xs ++ ys)
  All-append P [] ys hx hy = hy
  All-append P (x ∷ xs) ys hx hy = (hx.0, All-append P xs ys hx.1 hy)

  pub All-map {κ μ} :
      {P : A → Type κ} {Q : A → Type μ}
      → ((x : A) → P x → Q x)
      → (xs : List A) → All P xs
      → All Q xs
  All-map f [] h = tt
  All-map f (x ∷ xs) h = (f x h.0, All-map f xs h.1)

  pub All-Memᴰ {κ} : (P : A → Type κ) {x : A} {xs : List A} → Memᴰ x xs → All P xs → P x
  All-Memᴰ P (Memᴰ.head e) h = rw e h.0
  All-Memᴰ P (Memᴰ.tail m) h = All-Memᴰ P m h.1

  pub All-of_Memᴰ {κ} : {P : A → Type κ} (xs : List A) → ((x : A) → Memᴰ x xs → P x) → All P xs
  All-of_Memᴰ [] h = tt
  All-of_Memᴰ (x ∷ xs) h = (h x (Memᴰ.head refl), All-of_Memᴰ xs (λ y m. h y (Memᴰ.tail m)))

  pub All-iff {κ μ} :
      {P : A → Type κ} {Q : A → Type μ} (xs : List A)
      → ((x : A) → Memᴰ x xs → P x ↔ Q x)
      → All P xs ↔ All Q xs
  All-iff [] h = (λ _. tt, λ _. tt)
  All-iff (x ∷ xs) h =
      let rest = All-iff xs (λ y m. h y (Memᴰ.tail m)) in
      let first = h x (Memᴰ.head refl) in
      (λ p. (first.0 p.0, rest.0 p.1), λ q. (first.1 q.0, rest.1 q.1))

  Memᴰ-kept :
      (p : A → Bool) {x y : A} {ys zs : List A}
      → p y ≡ true
      → (Memᴰ x zs → Memᴰ x ys × (p x ≡ true))
      → Memᴰ x (y ∷ zs)
      → Memᴰ x (y ∷ ys) × (p x ≡ true)
  Memᴰ-kept p h rest (Memᴰ.head e) = (Memᴰ.head e, rw e h)
  Memᴰ-kept p h rest (Memᴰ.tail m) = let (n, q) = rest m in (Memᴰ.tail n, q)

  pub Memᴰ-filter :
      (p : A → Bool) (xs : List A) {x : A} → Memᴰ x (filter p xs) → Memᴰ x xs × (p x ≡ true)
  Memᴰ-filter p [] = λ m. elim m [ ]
  Memᴰ-filter p (y ∷ ys) {x} = elim (Bool-cases (p y)) [
    | inl e ↦ rw e (Memᴰ-kept p e (Memᴰ-filter p ys))
    | inr e ↦ rw e λ m. let (n, q) = Memᴰ-filter p ys m in (Memᴰ.tail n, q)
  ]

  pub when-eq-nil : (b : Bool) (x : A) → (when b x ≡ []) ↔ (b ≡ false)
  when-eq-nil b x = ground arith

  pub any-eq-false : (p : A → Bool) (xs : List A) → (any p xs ≡ false) ↔ All (λ x. p x ≡ false) xs
  any-eq-false p [] = (λ _. tt, λ _. refl)
  any-eq-false p (x ∷ xs) = ground (arith, any-eq-false p xs)

  -- A list that a test and its negation empty is empty.
  pub filter_both-eq-nil :
      (p : A → Bool) (xs : List A) → filter p xs ≡ [] → filter (λ x. not (p x)) xs ≡ [] → xs ≡ []
  filter_both-eq-nil p [] h k = refl
  filter_both-eq-nil p (x ∷ xs) h k = ground arith

  pub filter-eq_self : (p : A → Bool) (xs : List A) → All (λ x. p x ≡ true) xs → filter p xs ≡ xs
  filter-eq_self p [] h = refl
  filter-eq_self p (x ∷ xs) h = ground (arith, filter-eq_self p xs)

  pub any-Memᴰ : (p : A → Bool) (xs : List A) → any p xs ≡ true → (x : A) × Memᴰ x xs × (p x ≡ true)
  any-Memᴰ p [] h = cc
  any-Memᴰ p (x ∷ xs) h = elim (Bool-cases (p x)) [
    | inl e ↦ (x, Memᴰ.head refl, e)
    | inr e ↦ let (y, m, q) = any-Memᴰ p xs (rw e at h) in (y, Memᴰ.tail m, q)
  ]

  pub Memᴰ-any : (p : A → Bool) {x : A} {xs : List A} → Memᴰ x xs → p x ≡ true → any p xs ≡ true
  Memᴰ-any p (Memᴰ.head e) h = rw (← e, h) refl
  Memᴰ-any p (Memᴰ.tail {xs} m) h = ground (arith, Memᴰ-any p m h)

  pub find-any : (p : A → Bool) (xs : List A) → any p xs ≡ true → (x : A) × (find p xs ≡ some x)
  find-any p [] h = cc
  find-any p (x ∷ xs) h = elim (Bool-cases (p x)) [
    | inl e ↦ (x, ground arith)
    | inr e ↦ let (y, q) = find-any p xs (ground arith) in (y, ground arith)
  ]

  pub length-drop : (n : ℕ) (xs : List A) → length (drop n xs) ≡ length xs - n
  length-drop zero xs = omega arith
  length-drop (suc n) [] = omega arith
  length-drop (suc n) (x ∷ xs) = omega (arith, length-drop n xs)

-- An empty concatenation, part by part.
pub append_iff {ℓ κ μ} :
    {A : Type ℓ} {P : Type κ} {Q : Type μ} {xs ys : List A}
    → (xs ≡ []) ↔ P
    → (ys ≡ []) ↔ Q
    → (xs ++ ys ≡ []) ↔ (P × Q)
append_iff {xs} {ys} p q = (
  λ h. let (u, v) = (append-eq-nil xs ys).0 h in (p.0 u, q.0 v),
  λ (u, v). (append-eq-nil xs ys).1 (p.1 u, q.1 v),
)

-- `[y for x in xs for y in f(x)]`, and a loop whose body appends `f(x)` to the result.
abbrev pub for_each {ℓ κ} : {A : Type ℓ} {B : Type κ} → List A → (A → List B) → List B
for_each [] f = []
for_each (x ∷ xs) f = f x ++ for_each xs f

pub for_each-eq-nil {ℓ κ} :
    {A : Type ℓ} {B : Type κ} (xs : List A) (f : A → List B)
    → (for_each xs f ≡ []) ↔ All (λ x. f x ≡ []) xs
for_each-eq-nil [] f = (λ _. tt, λ _. refl)
for_each-eq-nil (x ∷ xs) f = (
  λ h.
      let split = (append-eq-nil (f x) (for_each xs f)).0 h in
      (split.0, (for_each-eq-nil xs f).0 split.1),
  λ h. (append-eq-nil (f x) (for_each xs f)).1 (h.0, (for_each-eq-nil xs f).1 h.1),
)

pub for_each_iff {ℓ κ μ} :
    {A : Type ℓ} {B : Type κ} {P : A → Type μ} (xs : List A) (f : A → List B)
    → ((x : A) → Memᴰ x xs → (f x ≡ []) ↔ P x)
    → (for_each xs f ≡ []) ↔ All P xs
for_each_iff xs f h = (
  λ e. (All-iff xs h).0 ((for_each-eq-nil xs f).0 e),
  λ p. (for_each-eq-nil xs f).1 ((All-iff xs h).1 p),
)

module _ {ℓ} {A : Type ℓ} ⦃e : Eq A⦄ where
  pub contains-append :
      (xs ys : List A) (a : A) → contains (xs ++ ys) a ≡ (contains xs a || contains ys a)
  contains-append [] ys a = refl
  contains-append (x ∷ xs) ys a = ground (arith, contains-append xs ys a)

  pub contains-All {κ} :
      (P : A → Type κ) (a : A) (xs : List A) → contains xs a ≡ true → All P xs → P a
  contains-All P a [] h all_p = cc
  contains-All P a (x ∷ xs) h all_p = elim (e.dec a x) [
    | yes same ↦ rw same all_p.0
    | no other ↦ contains-All P a xs (ground arith) all_p.1
  ]

  pub contains-any_of :
      (p : A → Bool) {a : A} (xs : List A) → contains xs a ≡ true → p a ≡ true → any p xs ≡ true
  contains-any_of p [] h q = cc
  contains-any_of p {a} (x ∷ xs) h q = elim (e.dec a x) [
    | yes same ↦ rw (← same, q) refl
    | no other ↦ ground (arith, contains-any_of p {a = a} xs)
  ]

  pub any-contains :
      (p : A → Bool) (xs : List A)
      → any p xs ≡ true
      → (a : A) × (contains xs a ≡ true) × (p a ≡ true)
  any-contains p [] h = cc
  any-contains p (x ∷ xs) h = elim (Bool-cases (p x)) [
    | inl q ↦ (x, ground arith, q)
    | inr q ↦ let (a, m, r) = any-contains p xs (rw q at h) in (a, ground arith, r)
  ]

  -- `All` from a proof for every value that the list contains.
  pub All-contains {κ} :
      (P : A → Type κ) (xs : List A) → ((a : A) → contains xs a ≡ true → P a) → All P xs
  All-contains P [] h = tt
  All-contains P (x ∷ xs) h = (h x (ground arith), All-contains P xs (λ a m. h a (ground arith)))

  -- `dict.fromkeys(xs)`: the first of each value, in order.
  abbrev unique_from : List A → List A → List A
  unique_from seen [] = []
  unique_from seen (x ∷ xs) =
      let old = contains seen x in
      let rest = unique_from (if old then seen else x ∷ seen) xs in if old then rest else x ∷ rest

  abbrev pub unique : List A → List A
  unique xs = unique_from [] xs

  -- `len(xs) == len(set(xs))`
  abbrev pub is_nodup : List A → Bool
  is_nodup [] = true
  is_nodup (x ∷ xs) = not (contains xs x) && is_nodup xs

  -- `xs.count(a)`
  abbrev pub count : A → List A → ℕ
  count a [] = 0
  count a (x ∷ xs) = let n = count a xs in if a == x then suc n else n
