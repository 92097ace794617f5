-- ===== src/Json.antt =====
-- JSON values, which the program hands to its digests; the task record itself is typed (Task.antt).
-- A number is an integer, or a float of the value `mantissa / 2 ^ halvings`, in lowest terms; NaN and the
-- infinities are left out.
use done_means_done.Base.{ℕ, ℤ, String, Bool, Option, none, some, List, [], ◌∷◌}

mutual
  pub data Json : Type 0 where
    null : Json
    bool : Bool → Json
    num : ℤ → Json
    real : ℤ → ℕ → Json
    str : String → Json
    arr : Items → Json
    obj : Fields → Json

  pub data Items : Type 0 where
    nil : Items
    cons : Json → Items → Items

  pub data Fields : Type 0 where
    end : Fields
    field : String → Json → Fields → Fields

-- A field that may be either.
pub data Number : Type 0 where
  whole : ℤ → Number
  float : ℤ → ℕ → Number

abbrev pub number : Number → Json
number (whole z) = num z
number (float mantissa halvings) = real mantissa halvings

abbrev items {ℓ} : {A : Type ℓ} → (A → Json) → List A → Items
items f [] = nil
items f (x ∷ xs) = cons (f x) (items f xs)

abbrev pub array {ℓ} : {A : Type ℓ} → (A → Json) → List A → Json
array f xs = arr (items f xs)

abbrev pub texts : List String → Json
texts = array str

abbrev pub maybe {ℓ} : {A : Type ℓ} → (A → Json) → Option A → Json
maybe f none = null
maybe f (some a) = f a

abbrev pub maybe_str : Option String → Json
maybe_str = maybe str

-- A key that is written only when its value is set.
abbrev pub optional {ℓ} : {A : Type ℓ} → String → (A → Json) → Option A → Fields → Fields
optional key f none rest = rest
optional key f (some a) rest = field key (f a) rest

-- The fields of a dictionary display, before those that follow.
abbrev pub fields : List (String × Json) → Fields → Fields
fields [] rest = rest
fields ((key, value) ∷ more) rest = field key value (fields more rest)

abbrev pub dict : List (String × Json) → Json
dict entries = obj (fields entries end)
