-- ===== src/Prelude/Table.antt =====
-- A database table as the list of its rows, and the SQL statements that the code sends, each with
-- its WHERE clause as a Boolean test. An unordered SELECT reads the rows in the order of the list.
use Prim.Native.Nat.{ℕ, suc, ◌+◌, ◌≤◌, ◌<◌}
use mathlib.Core.Path.{◌≡◌, refl, ap}
use mathlib.Core.Logic.{◌⊎◌, inl, inr}
use mathlib.Core.Bool.{Bool, true, false, ◌||◌}
use mathlib.Core.Option.{Option, none, some}
use mathlib.Core.List.{List, [], ◌∷◌, ◌++◌}
use native.Mathlib.Omega.{arith}
use elidune_server.Prelude.Tests.{if◌then◌else◌, Bool-cases}

module _ {ℓ} {A : Type ℓ} where
  abbrev pub length : List A → ℕ
  length [] = 0
  length (x ∷ xs) = suc (length xs)

  -- `fetch_optional`: the first row that matches
  abbrev pub select_first : (A → Bool) → List A → Option A
  select_first p [] = none
  select_first p (x ∷ xs) = if p x then some x else select_first p xs

  abbrev pub select_where : (A → Bool) → List A → List A
  select_where p [] = []
  select_where p (x ∷ xs) = if p x then x ∷ select_where p xs else select_where p xs

  -- `SELECT COUNT(*)`
  abbrev pub count_where : (A → Bool) → List A → ℕ
  count_where p [] = 0
  count_where p (x ∷ xs) = (if p x then 1 else 0) + count_where p xs

  -- `SELECT EXISTS`
  abbrev pub exists_where : (A → Bool) → List A → Bool
  exists_where p [] = false
  exists_where p (x ∷ xs) = p x || exists_where p xs

  -- `UPDATE`
  abbrev pub update_where : (A → Bool) → (A → A) → List A → List A
  update_where p f [] = []
  update_where p f (x ∷ xs) = (if p x then f x else x) ∷ update_where p f xs

  -- `DELETE`
  abbrev pub delete_where : (A → Bool) → List A → List A
  delete_where p [] = []
  delete_where p (x ∷ xs) = if p x then delete_where p xs else x ∷ delete_where p xs

  abbrev pub All {κ} : (A → Type κ) → List A → Type κ
  All P [] = Unit
  All P (x ∷ xs) = P x × All P xs

module _ {ℓ} {A : Type ℓ} where
  pub count_where-append :
      (p : A → Bool) (xs ys : List A)
      → count_where p (xs ++ ys) ≡ count_where p xs + count_where p ys
  count_where-append p [] ys = omega arith
  count_where-append p (x ∷ xs) ys = omega (arith, count_where-append p xs ys)

  pub count_where-delete_le :
      (p q : A → Bool) (xs : List A) → count_where p (delete_where q xs) ≤ count_where p xs
  count_where-delete_le p q [] = omega arith
  count_where-delete_le p q (x ∷ xs) = ground (arith, count_where-delete_le p q xs)

  pub count_where_eq_zero :
      (p : A → Bool) (xs : List A) → select_first p xs ≡ none → count_where p xs ≡ 0
  count_where_eq_zero p [] h = refl
  count_where_eq_zero p (x ∷ xs) h = ground (arith, count_where_eq_zero p xs)

  pub select_first_holds :
      (p : A → Bool) (xs : List A) {x : A} → select_first p xs ≡ some x → p x ≡ true
  select_first_holds p [] h = cc
  select_first_holds p (y ∷ xs) {x} h = ground (arith, select_first_holds p xs {x = x})

  -- A row that the deletion takes is counted no more.
  pub count_where-delete_lt :
      (p q r : A → Bool) (xs : List A) {x : A}
      → select_first p xs ≡ some x
      → q x ≡ true
      → r x ≡ true
      → count_where r (delete_where q xs) < count_where r xs
  count_where-delete_lt p q r [] s hq hr = cc
  count_where-delete_lt p q r (y ∷ xs) {x} s hq hr =
      ground (arith, count_where-delete_lt p q r xs {x = x}, count_where-delete_le r q xs)

  pub select_first_pos :
      (p r : A → Bool) (xs : List A) {x : A}
      → select_first p xs ≡ some x
      → r x ≡ true
      → 0 < count_where r xs
  select_first_pos p r [] s h = cc
  select_first_pos p r (y ∷ xs) {x} s h = ground (arith, select_first_pos p r xs {x = x})

  pub length-update_where :
      (p : A → Bool) (f : A → A) (xs : List A) → length (update_where p f xs) ≡ length xs
  length-update_where p f [] = refl
  length-update_where p f (x ∷ xs) = ap suc (length-update_where p f xs)

  -- Where the update keeps a test, it keeps the count.
  pub count_where-update :
      (q p : A → Bool) (f : A → A) (xs : List A)
      → ((x : A) → q (f x) ≡ q x)
      → count_where q (update_where p f xs) ≡ count_where q xs
  count_where-update q p f [] h = refl
  count_where-update q p f (x ∷ xs) h = ground (arith, h x, count_where-update q p f xs h)

  pub All-append {κ} : (P : A → Type κ) (xs ys : List A) → All P xs → All P ys → All P (xs ++ ys)
  All-append P [] ys hx hy = hy
  All-append P (x ∷ xs) ys hx hy = (hx.0, All-append P xs ys hx.1 hy)

  pub count_where-update_le :
      (q p : A → Bool) (f : A → A) (xs : List A)
      → ((x : A) → p x ≡ true → q (f x) ≡ true → q x ≡ true)
      → count_where q (update_where p f xs) ≤ count_where q xs
  count_where-update_le q p f [] h = omega arith
  count_where-update_le q p f (x ∷ xs) h = ground (arith, h x, count_where-update_le q p f xs h)

  pub count_where-exists :
      (p : A → Bool) (xs : List A) → exists_where p xs ≡ false → count_where p xs ≡ 0
  count_where-exists p [] h = refl
  count_where-exists p (x ∷ xs) h = ground (arith, count_where-exists p xs)

  -- The rows on which the test fails are all that is left.
  pub count_where-update_none :
      (q p : A → Bool) (f : A → A) (xs : List A)
      → ((x : A) → p x ≡ true → q (f x) ≡ false)
      → ((x : A) → p x ≡ false → q x ≡ false)
      → count_where q (update_where p f xs) ≡ 0
  count_where-update_none q p f [] h k = refl
  count_where-update_none q p f (x ∷ xs) h k =
      ground (arith, h x, k x, count_where-update_none q p f xs h k)

module _ {ℓ} {A : Type ℓ} where
  -- After an update that keeps the test, a row that matches is found, updated.
  pub select_first-update :
      (p : A → Bool) (f : A → A) (xs : List A)
      → ((x : A) → p (f x) ≡ p x)
      → exists_where p xs ≡ true
      → (x : A) × (select_first p (update_where p f xs) ≡ some (f x))
  select_first-update p f [] k h = cc
  select_first-update p f (x ∷ xs) k h = elim (Bool-cases (p x)) [
    | inl yes' ↦ (x, rw (yes', k x, yes') refl)
    | inr no' ↦ let (y, e) = select_first-update p f xs k (ground arith) in (y, rw (no', no') e)
  ]

  pub select_first-append :
      (p : A → Bool) (xs : List A) (x : A)
      → exists_where p xs ≡ false
      → p x ≡ true
      → select_first p (xs ++ x ∷ []) ≡ some x
  select_first-append p [] x h e = rw e
  select_first-append p (y ∷ xs) x h e = ground (arith, select_first-append p xs x)

module _ {ℓ} {A : Type ℓ} where
  pub length-append : (xs ys : List A) → length (xs ++ ys) ≡ length xs + length ys
  length-append [] ys = omega arith
  length-append (x ∷ xs) ys = omega (arith, length-append xs ys)

  -- What a deletion takes and what it leaves is all there was.
  pub length-delete_where :
      (p : A → Bool) (xs : List A) → length (delete_where p xs) + count_where p xs ≡ length xs
  length-delete_where p [] = refl
  length-delete_where p (x ∷ xs) = ground (arith, length-delete_where p xs)

  pub select_first_count :
      (p : A → Bool) (xs : List A) (x : A) → select_first p xs ≡ some x → 0 < count_where p xs
  select_first_count p [] x e = cc
  select_first_count p (y ∷ xs) x e = ground (arith, select_first_count p xs x)

-- `x` is a row of the table.
abbrev pub IsRow : {A : Type 0} → A → List A → Type 0
IsRow x [] = ⊥
IsRow x (y ∷ ys) = (y ≡ x) ⊎ IsRow x ys

pub IsRow-pos :
    {A : Type 0} (p : A → Bool) (x : A) (xs : List A)
    → IsRow x xs
    → p x ≡ true
    → 0 < count_where p xs
IsRow-pos p x [] r h = absurd r
IsRow-pos p x (y ∷ ys) (inl e) h = rw (e, h) (omega arith)
IsRow-pos p x (y ∷ ys) (inr r) h = omega (arith, IsRow-pos p x ys r h)

-- With a key that no two rows share, a statement by key finds the row.
pub select_first_by_key :
    {A : Type 0} (key p : A → Bool) (x : A) (xs : List A)
    → IsRow x xs
    → count_where key xs ≤ 1
    → key x ≡ true
    → p x ≡ true
    → ((y : A) → p y ≡ true → key y ≡ true)
    → select_first p xs ≡ some x
select_first_by_key key p x [] r u kx px h = absurd r
select_first_by_key key p x (y ∷ ys) (inl e) u kx px h = rw e (rw px)
select_first_by_key key p x (y ∷ ys) (inr r) u kx px h =
    ground (arith, h y, IsRow-pos key x ys r kx, select_first_by_key key p x ys r)

pub select_first-IsRow :
    {A : Type 0} (p : A → Bool) (x : A) (xs : List A) → select_first p xs ≡ some x → IsRow x xs
select_first-IsRow p x [] e = cc
select_first-IsRow p x (y ∷ ys) e = elim (Bool-cases (p y)) [
  | inl here ↦ inl (ground arith)
  | inr later ↦ inr (select_first-IsRow p x ys (ground arith))
]
