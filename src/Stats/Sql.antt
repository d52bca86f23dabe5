-- ===== src/Stats/Sql.antt =====
-- The text of a statement as its pieces: what `format!` writes literally, identifiers between double
-- quotes, placeholders and numbers.
pub mod Placeholders
pub mod Quotes
use elidune_server.Prelude.{ℕ, zero, suc, ◌+◌, String, List, [], ◌∷◌, ◌++◌}
use elidune_server.Stats.Text.{◌<>◌, decimal}

pub data Piece : Type 0 where
  -- text of the program or of the whitelist
  raw : String → Piece
  -- `"{}"`, which escapes nothing
  ident : String → Piece
  -- `${}`
  param : ℕ → Piece
  -- `{}` of a number
  number : ℕ → Piece

abbrev pub Sql : Type 0
Sql = List Piece

-- `parts.join(separator)`
abbrev pub join : String → List Sql → Sql
join separator [] = []
join separator (s ∷ []) = s
join separator (s ∷ t ∷ ts) = s ++ raw separator ∷ join separator (t ∷ ts)

-- The text that is sent.
abbrev pub text_of : Sql → String
text_of [] = ""
text_of (raw s ∷ ps) = s <> text_of ps
text_of (ident s ∷ ps) = "\"" <> (s <> ("\"" <> text_of ps))
text_of (param n ∷ ps) = "$" <> (decimal n <> text_of ps)
text_of (number n ∷ ps) = decimal n <> text_of ps

-- The placeholders, in the order in which they stand.
abbrev pub placeholders : Sql → List ℕ
placeholders [] = []
placeholders (raw s ∷ ps) = placeholders ps
placeholders (ident s ∷ ps) = placeholders ps
placeholders (param n ∷ ps) = n ∷ placeholders ps
placeholders (number n ∷ ps) = placeholders ps

abbrev pub all_placeholders : List Sql → List ℕ
all_placeholders [] = []
all_placeholders (s ∷ ss) = placeholders s ++ all_placeholders ss

-- n, n + 1, … : the numbers of the next `count` placeholders.
abbrev pub numbers_from : ℕ → ℕ → List ℕ
numbers_from n zero = []
numbers_from n (suc count) = n ∷ numbers_from (suc n) count
