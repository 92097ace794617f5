-- ===== src/Base/Options.antt =====
-- Fallible steps: an Option that a `do` block chains, where `none` is a refusal.
use mathlib.Core.Path.{◌≡◌, refl, sym}
use mathlib.Core.Bool.{Bool, true, false}
use mathlib.Core.List.{List, [], ◌∷◌}
use mathlib.Core.Option.{Option, none, some, some-ne-none}

infixl 5 ◌>>=◌ ◌>>◌
abbrev pub ◌>>=◌ {ℓ κ} : {A : Type ℓ} {B : Type κ} → Option A → (A → Option B) → Option B
none >>= f = none
some a >>= f = f a

abbrev pub ◌>>◌ {ℓ} : {B : Type ℓ} → Option (Unit {0}) → Option B → Option B
m >> k = m >>= λ _. k

-- A refusal unless the test holds.
abbrev pub guard : Bool → Option (Unit {0})
guard true = some tt
guard false = none

-- A step for each entry, in order.
abbrev pub traverse {ℓ κ} : {A : Type ℓ} {B : Type κ} → (A → Option B) → List A → Option (List B)
traverse f [] = some []
traverse f (x ∷ xs) = let rest = traverse f xs in f x >>= λ y. rest >>= λ ys. some (y ∷ ys)

-- A chain that is not refused: its first step, and the rest.
pub >>=-eq-some {ℓ κ} :
    {A : Type ℓ} {B : Type κ} (o : Option A) {f : A → Option B} {b : B}
    → (o >>= f) ≡ some b
    → (a : A) × ((o ≡ some a) × (f a ≡ some b))
>>=-eq-some none h = absurd (some-ne-none _ (sym h))
>>=-eq-some (some a) h = (a, (refl, h))

pub guard-eq-some {ℓ} :
    {B : Type ℓ} (c : Bool) {k : Option B} {b : B}
    → (guard c >> k) ≡ some b
    → (c ≡ true) × (k ≡ some b)
guard-eq-some true h = (refl, h)
guard-eq-some false h = absurd (some-ne-none _ (sym h))
