-- ===== src/Stats/Text.antt =====
-- The `str` methods that the query builder calls, on native texts.
use Prim.Native.Char.{code}
use Prim.Native.String.{◌++◌ as ◌<>◌}
use elidune_server.Prelude.{
  ℕ, zero, suc, ◌+◌, ◌/◌, ◌%◌, String, Bool, true, false, ◌&&◌, ◌||◌, ◌==◌, leb, if◌then◌else◌,
  Option, none, some, List, [], ◌∷◌,
}
pub use Prim.Native.String.{◌++◌ as ◌<>◌}

-- `str::split(c)`: one part more than there are separators.
abbrev pub split : ℕ → String → List String
split d String.[] = String.[] ∷ []
split d (String.◌∷◌ c s) =
    let rest = split d s in
    if code c == d
    then String.[] ∷ rest
    else elim rest [ [] ↦ String.◌∷◌ c String.[] ∷ [] | p ∷ ps ↦ String.◌∷◌ c p ∷ ps ]

-- `str::splitn(2, c)`, when it has two parts
abbrev pub split_once : ℕ → String → Option (String × String)
split_once d String.[] = none
split_once d (String.◌∷◌ c s) =
    let rest = split_once d s in
    if code c == d
    then some (String.[], s)
    else elim rest [ none ↦ none | some (p, q) ↦ some (String.◌∷◌ c p, q) ]

-- `str::replace(c, by)`
abbrev pub replace_char : ℕ → String → String → String
replace_char d by String.[] = String.[]
replace_char d by (String.◌∷◌ c s) =
    let rest = replace_char d by s in if code c == d then by <> rest else String.◌∷◌ c rest

abbrev pub has_char : ℕ → String → Bool
has_char d String.[] = false
has_char d (String.◌∷◌ c s) = (code c == d) || has_char d s

-- `u8::to_ascii_lowercase`
abbrev pub lower : ℕ → ℕ
lower c = if leb b'A' c && leb c b'Z' then c + 32 else c

-- The code points of `str::to_ascii_lowercase`.
abbrev pub lower_codes : String → List ℕ
lower_codes String.[] = []
lower_codes (String.◌∷◌ c s) = lower (code c) ∷ lower_codes s

abbrev pub codes : String → List ℕ
codes String.[] = []
codes (String.◌∷◌ c s) = code c ∷ codes s

-- `str::starts_with`
abbrev pub starts_with : List ℕ → List ℕ → Bool
starts_with [] s = true
starts_with (p ∷ ps) [] = false
starts_with (p ∷ ps) (c ∷ s) = (p == c) && starts_with ps s

-- `str::contains`
abbrev pub contains : List ℕ → List ℕ → Bool
contains p [] = starts_with p []
contains p (c ∷ s) = starts_with p (c ∷ s) || contains p s

-- `str::replace(pattern, by)`, for a pattern of `len` further characters than one: from the left,
-- past what it has replaced.
abbrev pub replace_from : List ℕ → ℕ → String → ℕ → String → String
replace_from p len by skip String.[] = String.[]
replace_from p len by (suc n) (String.◌∷◌ c s) = replace_from p len by n s
replace_from p len by zero (String.◌∷◌ c s) = elim (starts_with p (codes (String.◌∷◌ c s))) [
  | true ↦ by <> replace_from p len by len s
  | false ↦ String.◌∷◌ c (replace_from p len by 0 s)
]

abbrev pub digit_at : ℕ → List String → String
digit_at n [] = ""
digit_at zero (d ∷ ds) = d
digit_at (suc n) (d ∷ ds) = digit_at n ds

abbrev pub digit : ℕ → String
digit n = digit_at n ("0" ∷ "1" ∷ "2" ∷ "3" ∷ "4" ∷ "5" ∷ "6" ∷ "7" ∷ "8" ∷ "9" ∷ [])

abbrev pub decimal_from : ℕ → ℕ → String
decimal_from zero n = ""
decimal_from (suc fuel) n =
    let rest = decimal_from fuel (n / 10) in (if leb 10 n then rest else "") <> digit (n % 10)

-- `{}` of a number, whose digits are no more than the number and one.
abbrev pub decimal : ℕ → String
decimal n = decimal_from (suc n) n
