-- ===== src/Enums/Decode.antt =====
-- A `match` on a code or a text with a default arm, as a table that is read from the top.
use elidune_server.Prelude.{
  ℕ, String, str_eq, ◌≡◌, refl, ◌⊎◌, inl, List, [], ◌∷◌, arith, if◌then◌else◌,
}
use elidune_server.Prelude.Int.{ℤ, pos, eqb_ℤ, eq_of_parts}
use elidune_server.Prelude.Table.{All}

module _ {A : Type 0} where
  abbrev pub decode : List (ℕ × A) → A → ℤ → A
  decode [] d v = d
  decode ((n, a) ∷ t) d v = if eqb_ℤ v (pos n) then a else decode t d v

  abbrev pub decode_text : List (String × A) → A → String → A
  decode_text [] d s = d
  decode_text ((k, a) ∷ t) d s = if str_eq k s then a else decode_text t d s

  -- A code decodes to the default, or to the value that has this code.
  abbrev pub Decodes : (A → ℕ) → A → (ℤ → A) → ℤ → Type 0
  Decodes code d f v = (f v ≡ d) ⊎ (pos (code (f v)) ≡ v)

module _ {A : Type 0} (code : A → ℕ) (d : A) where
  abbrev pub IsTable : List (ℕ × A) → Type 0
  IsTable = All (λ r. code r.1 ≡ r.0)

  pub decode-Decodes : (t : List (ℕ × A)) → IsTable t → (v : ℤ) → Decodes code d (decode t d) v
  decode-Decodes [] h v = inl refl
  decode-Decodes ((n, a) ∷ t) h v = ground (arith, eq_of_parts v (pos n), decode-Decodes t h.1 v)
