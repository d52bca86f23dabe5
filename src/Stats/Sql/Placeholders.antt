-- ===== src/Stats/Sql/Placeholders.antt =====
-- The placeholders of the texts that `format!` and `join` put together (src/services/stats).
use elidune_server.Prelude.{
  ℕ, zero, suc, ◌+◌, ◌≡◌, refl, ap, sym, String, List, [], ◌∷◌, ◌++◌, arith,
}
use elidune_server.Stats.Sql.{
  Sql, raw, ident, param, number, join, placeholders, all_placeholders, numbers_from,
}
use mathlib.Core.List.{append_assoc, append-nil}

pub placeholders-append : (s t : Sql) → placeholders (s ++ t) ≡ placeholders s ++ placeholders t
placeholders-append [] t = refl
placeholders-append (raw x ∷ s) t = placeholders-append s t
placeholders-append (ident x ∷ s) t = placeholders-append s t
placeholders-append (param n ∷ s) t = ap (λ ns. n ∷ ns) (placeholders-append s t)
placeholders-append (number n ∷ s) t = placeholders-append s t

pub placeholders-join :
    (separator : String) (ss : List Sql) → placeholders (join separator ss) ≡ all_placeholders ss
placeholders-join separator [] = refl
placeholders-join separator (s ∷ []) = sym (append-nil (placeholders s))
placeholders-join separator (s ∷ t ∷ ts) =
    rw
      (
        placeholders-append s (raw separator ∷ join separator (t ∷ ts)),
        placeholders-join separator (t ∷ ts),
      )
      refl

pub zero_add : (b : ℕ) → zero + b ≡ b
zero_add b = omega arith

add_zero : (n : ℕ) → n + zero ≡ n
add_zero n = omega arith

succ_add : (a b : ℕ) → suc a + b ≡ suc (a + b)
succ_add a b = omega arith

succ_shift : (n a : ℕ) → n + suc a ≡ suc n + a
succ_shift n a = omega arith

pub all_placeholders-append :
    (ss ts : List Sql) → all_placeholders (ss ++ ts) ≡ all_placeholders ss ++ all_placeholders ts
all_placeholders-append [] ts = refl
all_placeholders-append (s ∷ ss) ts =
    rw (all_placeholders-append ss ts)
      (sym (append_assoc (placeholders s) (all_placeholders ss) (all_placeholders ts)))

pub numbers_from-add :
    (n a b : ℕ) → numbers_from n (a + b) ≡ numbers_from n a ++ numbers_from (n + a) b
numbers_from-add n zero b = rw (zero_add b, add_zero n) refl
numbers_from-add n (suc a) b = rw (succ_add a b, succ_shift n a, numbers_from-add (suc n) a b) refl
