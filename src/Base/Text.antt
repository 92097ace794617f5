-- ===== src/Base/Text.antt =====
-- Text the way the program reads it: stripping, joining, and its small regular expressions.
use Prim.Native.Nat.{ℕ, zero, suc, ◌+◌, ◌-◌, ◌*◌, ◌/◌, ◌%◌, Ordering}
use Prim.Native.Char.{code}
use Prim.Native.String.{String, ◌++◌, compare}
use mathlib.Core.Path.{◌≡◌, refl}
use mathlib.Core.Bool.{Bool, true, false, not, ◌&&◌, ◌||◌}
use mathlib.Core.Option.{Option, none, some}
use mathlib.Core.List.{List, [], ◌∷◌}
use done_means_done.Base.Equality.{if◌then◌else◌, ltb, leb, ◌==◌, nat_eq}
use done_means_done.Base.Lists.{length, all}
unfoldable pub use text.Mathlib.Text.{starts_with}

abbrev pub codes : String → List ℕ
codes String.[] = []
codes (String.◌∷◌ c s) = code c ∷ codes s

abbrev between : ℕ → ℕ → ℕ → Bool
between lo hi c = leb lo c && leb c hi

-- `str.isspace` of one character
unfoldable pub is_space : ℕ → Bool
unfolding nat_eq
is_space c =
    between 9 13 c
    || between 28 32 c
    || c == 0x85
    || c == 0xa0
    || c == 0x1680
    || between 0x2000 0x200a c
    || c == 0x2028
    || c == 0x2029
    || c == 0x202f
    || c == 0x205f
    || c == 0x3000

-- `bool(str.strip(text))`: whether a text has a character that is not white space.
unfoldable pub nonblank : String → Bool
unfolding is_space
nonblank String.[] = false
nonblank (String.◌∷◌ c s) = not (is_space (code c)) || nonblank s

unfoldable pub is_digit : ℕ → Bool
is_digit c = between b'0' b'9' c

unfoldable pub is_alnum : ℕ → Bool
unfolding is_digit
is_alnum c = is_digit c || between b'A' b'Z' c || between b'a' b'z' c

-- The rest of a text behind a prefix.
unfoldable pub drop_prefix : String → String → Option String
drop_prefix String.[] s = some s
drop_prefix (String.◌∷◌ p ps) String.[] = none
drop_prefix (String.◌∷◌ p ps) (String.◌∷◌ c s) =
    let rest = drop_prefix ps s in
    elim (rest) [
      | none ↦ none
      | some r ↦ if ltb (code p) (code c) || ltb (code c) (code p) then none else some r
    ]

-- `re.fullmatch(prefix + r"-\d{2,}", text)`, with the ASCII digits
unfoldable pub is_id : String → String → Bool
unfolding drop_prefix is_digit
is_id prefix s = elim (drop_prefix (prefix ++ "-") s) [
  | none ↦ false
  | some number ↦ leb 2 (length (codes number)) && all is_digit (codes number)
]

-- `re.fullmatch(r"[A-Za-z0-9][A-Za-z0-9_.-]{0,95}", text)`
unfoldable pub is_identifier : String → Bool
unfolding is_alnum nat_eq
is_identifier String.[] = false
is_identifier (String.◌∷◌ c s) =
    is_alnum (code c)
    && leb (length (codes s)) 95
    && all (λ d. is_alnum d || d == b'_' || d == b'.' || d == b'-') (codes s)

-- `int(text)` of decimal digits
abbrev pub digits_from : ℕ → List ℕ → ℕ
digits_from acc [] = acc
digits_from acc (d ∷ ds) = digits_from (acc * 10 + (d - b'0')) ds

unfoldable pub until_dash : List ℕ → List ℕ
unfolding nat_eq
until_dash [] = []
until_dash (d ∷ ds) = let rest = until_dash ds in if d == b'-' then [] else d ∷ rest

-- `int(text.split("-")[1])`
unfoldable pub id_number : String → ℕ
unfolding nat_eq
id_number String.[] = 0
id_number (String.◌∷◌ c s) =
    let rest = id_number s in if code c == b'-' then digits_from 0 (until_dash (codes s)) else rest

-- `separator.join(texts)`
unfoldable pub join : String → List String → String
join sep [] = ""
join sep (s ∷ []) = s
join sep (s ∷ t ∷ ts) = s ++ (sep ++ join sep (t ∷ ts))

-- `a < b` on texts: by code points
abbrev pub text_lt : String → String → Bool
text_lt a b = elim (compare a b) [ Ordering.lt ↦ true | _ ↦ false ]

abbrev pub digit_text : ℕ → String
digit_text zero = "0"
digit_text (suc zero) = "1"
digit_text (suc (suc zero)) = "2"
digit_text (suc (suc (suc zero))) = "3"
digit_text (suc (suc (suc (suc zero)))) = "4"
digit_text (suc (suc (suc (suc (suc zero))))) = "5"
digit_text (suc (suc (suc (suc (suc (suc zero)))))) = "6"
digit_text (suc (suc (suc (suc (suc (suc (suc zero))))))) = "7"
digit_text (suc (suc (suc (suc (suc (suc (suc (suc zero)))))))) = "8"
digit_text _ = "9"

-- `str(n)`, with a bound on the number of digits
unfoldable pub decimal_from : ℕ → ℕ → String
decimal_from zero n = digit_text n
decimal_from (suc k) n =
    let front = decimal_from k (n / 10) in
    if ltb n 10 then digit_text n else front ++ digit_text (n % 10)

unfoldable pub decimal : ℕ → String
unfolding decimal_from
decimal n = decimal_from n n

-- `f"{n:02d}"`
unfoldable pub two_digits : ℕ → String
unfolding decimal
two_digits n = if ltb n 10 then "0" ++ decimal n else decimal n

two_digits_samples : (two_digits 7 ≡ "07") × (two_digits 1203 ≡ "1203")
unfolding two_digits
two_digits_samples = (refl, refl)

-- `"/" in text`
unfoldable pub has_slash : String → Bool
unfolding nat_eq
has_slash String.[] = false
has_slash (String.◌∷◌ c s) = code c == b'/' || has_slash s

-- `text.rsplit("/", 1)[-1]`
unfoldable pub behind_slash : String → String
unfolding nat_eq
behind_slash String.[] = ""
behind_slash (String.◌∷◌ c s) =
    let rest = behind_slash s in
    if has_slash s then rest else if code c == b'/' then s else String.◌∷◌ c s

-- `text.rpartition("/")[0]`
unfoldable pub before_slash : String → String
before_slash String.[] = ""
before_slash (String.◌∷◌ c s) =
    let rest = before_slash s in if has_slash s then String.◌∷◌ c rest else ""

-- `text.split(".", 1)[0]`
unfoldable pub before_dot : String → String
before_dot String.[] = ""
before_dot (String.◌∷◌ c s) =
    let rest = before_dot s in if code c == b'.' then "" else String.◌∷◌ c rest

-- `part in text`
unfoldable pub has_part : String → String → Bool
has_part part String.[] = starts_with String.[] part
has_part part (String.◌∷◌ c s) = starts_with (String.◌∷◌ c s) part || has_part part s

-- `text[:n]`
abbrev pub first_chars : ℕ → String → String
first_chars zero s = ""
first_chars (suc n) String.[] = ""
first_chars (suc n) (String.◌∷◌ c s) = String.◌∷◌ c (first_chars n s)

abbrev pub strip_left : String → String
strip_left String.[] = ""
strip_left (String.◌∷◌ c s) =
    let rest = strip_left s in if is_space (code c) then rest else String.◌∷◌ c s

abbrev strip_right : String → String
strip_right String.[] = ""
strip_right (String.◌∷◌ c s) =
    let rest = strip_right s in if nonblank (String.◌∷◌ c s) then String.◌∷◌ c rest else ""

-- `text.strip()`
unfoldable pub strip : String → String
unfolding is_space nonblank
strip s = strip_left (strip_right s)
