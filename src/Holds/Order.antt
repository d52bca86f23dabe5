-- ===== src/Holds/Order.antt =====
-- The order of the queue: what `ORDER BY position` and `MAX(position)` select.
use elidune_server.Prelude.{
  ℕ, ◌≤◌, ◌≡◌, refl, Bool, true, none, some, List, [], ◌∷◌, arith, Option-cases, inl, inr,
}
use elidune_server.Prelude.Table.{All, count_where, IsRow}
use elidune_server.Db.{Hold}
use elidune_server.Holds.{first_by_position, max_position}

-- Every row that matches stands at `n` or later.
abbrev pub IsFrom : (Hold → Bool) → ℕ → List Hold → Type 0
IsFrom p n = All (λ k. p k ≡ true → n ≤ k.position)

-- Every row that matches stands at `n` or before.
abbrev pub IsUpTo : (Hold → Bool) → ℕ → List Hold → Type 0
IsUpTo p n = All (λ k. p k ≡ true → k.position ≤ n)

module _ (p : Hold → Bool) where
  IsFrom-mono : (m n : ℕ) (hs : List Hold) → m ≤ n → IsFrom p n hs → IsFrom p m hs
  IsFrom-mono m n [] le h = tt
  IsFrom-mono m n (x ∷ hs) le h = (λ e. omega (arith, h.0 e), IsFrom-mono m n hs le h.1)

  IsUpTo-mono : (m n : ℕ) (hs : List Hold) → m ≤ n → IsUpTo p m hs → IsUpTo p n hs
  IsUpTo-mono m n [] le h = tt
  IsUpTo-mono m n (x ∷ hs) le h = (λ e. omega (arith, h.0 e), IsUpTo-mono m n hs le h.1)

  IsFrom-none : (n : ℕ) (hs : List Hold) → first_by_position p hs ≡ none → IsFrom p n hs
  IsFrom-none n [] e = tt
  IsFrom-none n (x ∷ hs) e = (λ px. absurd (ground arith), IsFrom-none n hs (ground arith))

  pub first_by_position_least :
      (hs : List Hold) (h : Hold)
      → first_by_position p hs ≡ some h
      → (p h ≡ true) × IsFrom p h.position hs
  first_by_position_least [] h e = cc
  first_by_position_least (x ∷ hs) h e = elim (Option-cases (first_by_position p hs)) [
    | inl nothing ↦ (ground arith, (λ px. ground arith, IsFrom-none h.position hs nothing))
    | inr (k, found) ↦
        let least = first_by_position_least hs k found in
        (
          ground arith,
          (λ px. ground arith, IsFrom-mono h.position k.position hs (ground arith) least.1),
        )
  ]

  pub first_by_position-none :
      (hs : List Hold) → first_by_position p hs ≡ none → count_where p hs ≡ 0
  first_by_position-none [] e = refl
  first_by_position-none (x ∷ hs) e = ground (arith, first_by_position-none hs)

  -- Every row that matches stands at or before the maximum.
  pub max_position_bounds : (hs : List Hold) → IsUpTo p (max_position p hs) hs
  max_position_bounds [] = tt
  max_position_bounds (x ∷ hs) = (
    λ px. ground arith,
    IsUpTo-mono (max_position p hs) (max_position p (x ∷ hs)) hs (ground arith)
        (max_position_bounds hs),
  )

  pub first_by_position-IsRow :
      (hs : List Hold) (h : Hold) → first_by_position p hs ≡ some h → IsRow h hs
  first_by_position-IsRow [] h e = cc
  first_by_position-IsRow (x ∷ hs) h e = elim (Option-cases (first_by_position p hs)) [
    | inl nothing ↦ inl (ground arith)
    | inr (k, found) ↦ ground (arith, first_by_position-IsRow hs k found)
  ]
