-- ===== src/Stats/Sql/Quotes.antt =====
-- The text of a statement, read as PostgreSQL reads it: what stands between double quotes is an
-- identifier, and a dollar sign elsewhere begins a placeholder. (The program's own literals between
-- single quotes have neither character.)
use Prim.Native.Char.{code}
use Prim.Native.String.append
use elidune_server.Prelude.{
  ℕ, zero, suc, ◌+◌, ◌%◌, ◌/◌, ◌≡◌, refl, ◌==◌, leb, String, Bool, true, false, ◌&&◌, if◌then◌else◌,
  List, [], ◌∷◌, ◌++◌, arith, Bool-cases, inl, inr,
}
use elidune_server.Prelude.Table.{All, length}
use elidune_server.Stats.Text.{◌<>◌, has_char, digit_at, digit, decimal_from, decimal}
use elidune_server.Stats.Sql.{Sql, raw, ident, param, number, text_of, placeholders, numbers_from}

abbrev flip : Bool → Bool
flip true = false
flip false = true

-- Whether the text that follows a character stands between quotes, if the character does or not.
abbrev after : ℕ → Bool → Bool
after c quoted = if c == b'"' then flip quoted else quoted

-- The dollar signs outside of double quotes.
abbrev pub dollars : Bool → String → ℕ
dollars quoted String.[] = 0
dollars quoted (String.◌∷◌ c s) =
    (if (code c == b'$') && flip quoted then 1 else 0) + dollars (after (code c) quoted) s

-- Whether the end of a text stands between quotes.
abbrev ends : Bool → String → Bool
ends quoted String.[] = quoted
ends quoted (String.◌∷◌ c s) = ends (after (code c) quoted) s

-- No identifier has a double quote in it, and in the text of the program the quotes are in pairs,
-- with no dollar sign outside of them.
abbrev pub well_quoted : Sql → Bool
well_quoted [] = true
well_quoted (raw s ∷ ps) = (dollars false s == 0) && (flip (ends false s) && well_quoted ps)
well_quoted (ident s ∷ ps) = flip (has_char b'"' s) && well_quoted ps
well_quoted (param n ∷ ps) = well_quoted ps
well_quoted (number n ∷ ps) = well_quoted ps

dollars-append : (q : Bool) (s t : String) → dollars q (s <> t) ≡ dollars q s + dollars (ends q s) t
dollars-append q String.[] t = rw (append.nil t) (omega arith)
dollars-append q (String.◌∷◌ c s) t =
    rw (append.cons c s t) (omega (arith, dollars-append (after (code c) q) s t))

ends-append : (q : Bool) (s t : String) → ends q (s <> t) ≡ ends (ends q s) t
ends-append q String.[] t = rw (append.nil t) refl
ends-append q (String.◌∷◌ c s) t = rw (append.cons c s t) (ends-append (after (code c) q) s t)

inside : (s : String) → has_char b'"' s ≡ false → (dollars true s ≡ 0) × (ends true s ≡ true)
inside String.[] e = (refl, refl)
inside (String.◌∷◌ c s) e = elim (Bool-cases (code c == b'"')) [
  | inl quote ↦ absurd (ground (arith, quote))
  | inr other ↦
      let (none', stays) = inside s (ground (arith, other)) in
      (rw other (ground (arith, none')), rw other stays)
]

-- A text that counts no dollar sign and leaves no quote open.
abbrev Quiet : String → Type 0
Quiet s = (dollars false s ≡ 0) × (ends false s ≡ false)

Quiet-append : (s t : String) → Quiet s → Quiet t → Quiet (s <> t)
Quiet-append s t (d, e) (f, g) =
    (rw (dollars-append false s t, d, e, f) refl, rw (ends-append false s t, e) g)

digit_at-Quiet : (n : ℕ) (ds : List String) → All Quiet ds → Quiet (digit_at n ds)
digit_at-Quiet n [] h = (refl, refl)
digit_at-Quiet zero (d ∷ ds) h = h.0
digit_at-Quiet (suc n) (d ∷ ds) h = digit_at-Quiet n ds h.1

digit-Quiet : (n : ℕ) → Quiet (digit n)
digit-Quiet n = digit_at-Quiet n ("0" ∷ "1" ∷ "2" ∷ "3" ∷ "4" ∷ "5" ∷ "6" ∷ "7" ∷ "8" ∷ "9" ∷ []) (
  (refl, refl),
  (
    (refl, refl),
    (
      (refl, refl),
      (
        (refl, refl),
        (
          (refl, refl),
          ((refl, refl), ((refl, refl), ((refl, refl), ((refl, refl), ((refl, refl), tt))))),
        ),
      ),
    ),
  ),
)

decimal_from-Quiet : (fuel n : ℕ) → Quiet (decimal_from fuel n)
decimal_from-Quiet zero n = (refl, refl)
decimal_from-Quiet (suc fuel) n = elim (Bool-cases (leb 10 n)) [
  | inl more ↦ rw more (
      Quiet-append (decimal_from fuel (n / 10)) (digit (n % 10)) (decimal_from-Quiet fuel (n / 10))
        (digit-Quiet (n % 10)))
  | inr last ↦ rw last (Quiet-append "" (digit (n % 10)) (refl, refl) (digit-Quiet (n % 10)))
]

skip : (s t : String) → Quiet s → dollars false (s <> t) ≡ dollars false t
skip s t (d, e) = rw (dollars-append false s t, d, e) (omega arith)

-- The text of a well quoted statement has a dollar sign for each of its placeholders.
pub dollars-text_of :
    (s : Sql) → well_quoted s ≡ true → dollars false (text_of s) ≡ length (placeholders s)
dollars-text_of [] w = refl
dollars-text_of (raw s ∷ ps) w =
    rw (skip s (text_of ps) (ground arith, ground arith)) (dollars-text_of ps (ground arith))
dollars-text_of (ident s ∷ ps) w =
    let (d, e) = inside s (ground arith) in
    rw
      (
        dollars-append false "\"" (s <> ("\"" <> text_of ps)),
        dollars-append true s ("\"" <> text_of ps),
        d,
        e,
        dollars-append true "\"" (text_of ps),
      )
      (omega (arith, dollars-text_of ps (ground arith)))
dollars-text_of (param n ∷ ps) w =
    rw
      (
        dollars-append false "$" (decimal n <> text_of ps),
        skip (decimal n) (text_of ps) (decimal_from-Quiet (suc n) n),
      )
      (omega (arith, dollars-text_of ps w))
dollars-text_of (number n ∷ ps) w =
    rw (skip (decimal n) (text_of ps) (decimal_from-Quiet (suc n) n)) (dollars-text_of ps w)

pub length-numbers_from : (n count : ℕ) → length (numbers_from n count) ≡ count
length-numbers_from n zero = refl
length-numbers_from n (suc count) = omega (arith, length-numbers_from (suc n) count)

-- A part of a well quoted statement is well quoted, and parts make a whole.
pub well_quoted-first : (s t : Sql) → well_quoted (s ++ t) ≡ true → well_quoted s ≡ true
well_quoted-first [] t w = refl
well_quoted-first (raw x ∷ s) t w = ground (arith, well_quoted-first s t)
well_quoted-first (ident x ∷ s) t w = ground (arith, well_quoted-first s t)
well_quoted-first (param n ∷ s) t w = well_quoted-first s t w
well_quoted-first (number n ∷ s) t w = well_quoted-first s t w

pub well_quoted-append :
    (s t : Sql) → well_quoted s ≡ true → well_quoted t ≡ true → well_quoted (s ++ t) ≡ true
well_quoted-append [] t w v = v
well_quoted-append (raw x ∷ s) t w v = ground (arith, well_quoted-append s t)
well_quoted-append (ident x ∷ s) t w v = ground (arith, well_quoted-append s t)
well_quoted-append (param n ∷ s) t w v = well_quoted-append s t w v
well_quoted-append (number n ∷ s) t w v = well_quoted-append s t w v
